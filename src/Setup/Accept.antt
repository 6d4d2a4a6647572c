-- ===== src/Setup/Accept.antt =====
-- The order in which workers connect does not matter.
use text.Mathlib.Text.{is_eq}
use text.Mathlib.TextEquality.{eq_iff}
use Prim.Native.String.{String, compare}
use omnireduce.Base.{
  Occurs, ℕ, zero, suc, ◌+◌, ◌≤◌, ◌<◌, ◌≡◌, inl, inr, refl, sym, ◌∙◌, arith, Bool-cases, true,
  false, List, [], ◌∷◌, map, ◌==◌, ==_iff, if◌then◌else◌, update, ℕ_discrete,
}
use omnireduce.Params.{Params}
use omnireduce.Setup.{place, accept_all}

-- The workers have different addresses.
abbrev pub Apart : Params → Type 0
Apart p =
    (v w : ℕ)
    → v < p.num_workers
    → w < p.num_workers
    → p.worker_ipaddr v ≡ p.worker_ipaddr w
    → v ≡ w

module _ (p : Params) (from : String) (sock : ℕ) where
  place-below : (i n j : ℕ) (socks : ℕ → ℕ) → j < i → place p from sock i n socks j ≡ socks j
  unfolding place
  place-below i zero j socks low = refl
  place-below i (suc n) j socks low = elim (Bool-cases (is_eq (compare (p.worker_ipaddr i) from))) [
    | inl e ↦
        let other : (j == i) ≡ false = ground arith in
        rw e (place-below (i + 1) n j (update socks i sock) (omega arith) ∙ rw other refl)
    | inr e ↦ rw e (place-below (i + 1) n j socks (omega arith))
  ]

  place-here :
      (j n : ℕ) (socks : ℕ → ℕ)
      → place p from sock j (suc n) socks j
        ≡ (if is_eq (compare (p.worker_ipaddr j) from) then sock else socks j)
  unfolding place
  place-here j n socks = elim (Bool-cases (is_eq (compare (p.worker_ipaddr j) from))) [
    | inl e ↦
        let self : (j == j) ≡ true = (==_iff j j).1 refl in
        rw e (place-below (j + 1) n j (update socks j sock) (omega arith) ∙ rw self refl)
    | inr e ↦ rw e (place-below (j + 1) n j socks (omega arith))
  ]

  place-at :
      (i n j : ℕ) (socks : ℕ → ℕ)
      → i ≤ j
      → j < i + n
      → place p from sock i n socks j
        ≡ (if is_eq (compare (p.worker_ipaddr j) from) then sock else socks j)
  unfolding place
  place-at i zero j socks low high = absurd (omega arith)
  place-at i (suc n) j socks low high = elim (ℕ_discrete i j) [
    | yes same ↦ rw same (place-here j n socks)
    | no other ↦
        let miss : (j == i) ≡ false = ground arith in
        elim (Bool-cases (is_eq (compare (p.worker_ipaddr i) from))) [
          | inl e ↦ rw e (
              place-at (i + 1) n j (update socks i sock) (omega arith) (omega arith) ∙ rw miss refl)
          | inr e ↦ rw e (place-at (i + 1) n j socks (omega arith) (omega arith))
        ]
  ]

-- The connections of the workers `ws`, each on its own socket.
abbrev pub connections : Params → (ℕ → ℕ) → List ℕ → List (String × ℕ)
connections p sock ws = map (λ w. (p.worker_ipaddr w, sock w)) ws

module _ (p : Params) (sock : ℕ → ℕ) (i : ℕ) (known : i < p.num_workers) (apart : Apart p) where
  place-connection :
      (w : ℕ) (socks : ℕ → ℕ)
      → w < p.num_workers
      → place p (p.worker_ipaddr w) (sock w) 0 p.num_workers socks i
        ≡ (if w == i then sock i else socks i)
  place-connection w socks low =
      place-at p (p.worker_ipaddr w) (sock w) 0 p.num_workers i socks (omega arith) (omega arith)
      ∙ elim (ℕ_discrete w i) [
        | yes e ↦
            let hit : is_eq (compare (p.worker_ipaddr i) (p.worker_ipaddr i)) ≡ true =
              (eq_iff _ _).1 refl in
            let self : (i == i) ≡ true = (==_iff i i).1 refl in rw (e, hit, self) refl
        | no e ↦
            let miss : (w == i) ≡ false = ground arith in
            elim (Bool-cases (is_eq (compare (p.worker_ipaddr i) (p.worker_ipaddr w)))) [
              | inl hit ↦ absurd (e (sym (apart i w known low ((eq_iff _ _).0 hit))))
              | inr away ↦ rw (away, miss) refl
            ]
      ]

  accept_all-kept :
      (ws : List ℕ) (socks : ℕ → ℕ)
      → ((w : ℕ) → Occurs w ws → w < p.num_workers)
      → socks i ≡ sock i
      → accept_all p (connections p sock ws) socks i ≡ sock i
  unfolding accept_all
  accept_all-kept [] socks range done = done
  accept_all-kept (w ∷ ws) socks range done =
      accept_all-kept ws _ (λ v m. range v (inr m))
        (place-connection w socks (range w (inl refl))
          ∙ elim (Bool-cases (w == i)) [ inl e ↦ rw e refl | inr e ↦ rw e done ])

  -- With different addresses of the workers: for every list of connections of workers, each
  -- worker with a socket of its own, an aggregator has for a worker of that list the socket of
  -- that worker, in whatever order they connect.
  pub accept_all-Occurs :
      (ws : List ℕ) (socks : ℕ → ℕ)
      → ((w : ℕ) → Occurs w ws → w < p.num_workers)
      → Occurs i ws
      → accept_all p (connections p sock ws) socks i ≡ sock i
  unfolding accept_all
  accept_all-Occurs [] socks range member = absurd member
  accept_all-Occurs (w ∷ ws) socks range (inl here) =
      accept_all-kept ws _ (λ v m. range v (inr m))
        (place-connection w socks (range w (inl refl)) ∙ rw (here, (==_iff i i).1 refl) refl)
  accept_all-Occurs (w ∷ ws) socks range (inr later) =
      accept_all-Occurs ws _ (λ v m. range v (inr m)) later
