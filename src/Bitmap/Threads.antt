-- ===== src/Bitmap/Threads.antt =====
-- What the threads of a block do, one by one and between the barriers.
use omnireduce.Base.{
  ℕ, ◌+◌, ◌<◌, ◌≡◌, ◌≢◌, ◌⊎◌, inl, inr, refl, arith, Bool, Bool-cases, true, false, ◌&&◌, List, [],
  ◌∷◌, Occurs, ltb, ◌==◌, ==_iff, if◌then◌else◌,
}
use omnireduce.Bitmap.{Device, test_phase, write_thread}

true-false : false ≡ true → ⊥
true-false h = cc

module _ (above : ℕ → Bool) (len first : ℕ) where
  test_phase-true :
      (ts : List ℕ) (d : Device) (z : Bool) → test_phase above len first ts d z ≡ true → z ≡ true
  unfolding test_phase
  test_phase-true [] d z h = h
  test_phase-true (t ∷ ts) d z h =
      elim (Bool-cases (ltb (first + t) len && above (d.input (first + t)))) [
        | inl e ↦ ground (arith, e, test_phase-true ts d false (rw e at h))
        | inr e ↦ test_phase-true ts d z (rw e at h)
      ]

  pub test_phase-none :
      (ts : List ℕ) (d : Device) (z : Bool) (t : ℕ)
      → test_phase above len first ts d z ≡ true
      → Occurs t ts
      → first + t < len
      → above (d.input (first + t)) ≡ false
  unfolding test_phase
  test_phase-none [] d z t h member low = absurd member
  test_phase-none (s ∷ ts) d z t h (inr later) low = test_phase-none ts d _ t h later low
  test_phase-none (s ∷ ts) d z t h (inl same) low =
      let inside : ltb (first + t) len ≡ true = ground arith in
      elim (Bool-cases (above (d.input (first + t)))) [
        | inr e ↦ e
        | inl e ↦ absurd (true-false (test_phase-true ts d false (rw (same, inside, e) at h)))
      ]

  pub test_phase-some :
      (ts : List ℕ) (d : Device) (z : Bool)
      → test_phase above len first ts d z ≡ false
      → (z ≡ false)
        ⊎ ((t : ℕ) × Occurs t ts × (first + t < len) × (above (d.input (first + t)) ≡ true))
  unfolding test_phase
  test_phase-some [] d z h = inl h
  test_phase-some (t ∷ ts) d z h =
      elim (Bool-cases (ltb (first + t) len && above (d.input (first + t)))) [
        | inl e ↦ inr (t, inl refl, ground (arith, e), ground (arith, e))
        | inr e ↦ elim (test_phase-some ts d z (rw e at h)) [
          | inl before ↦ inl before
          | inr (s, member, low, hit) ↦ inr (s, inr member, low, hit)
        ]
      ]

module _ (len first b : ℕ) where
  -- One thread.
  pub write_thread-input :
      (z : Bool) (t i : ℕ) (d : Device)
      → first + t ≢ i
      → (write_thread len first b z t d).input i ≡ d.input i
  unfolding write_thread
  write_thread-input z t i d away =
      let miss : (i == first + t) ≡ false = ground arith in ground (arith, miss)

  pub write_thread-bitmap :
      (z : Bool) (t j : ℕ) (d : Device)
      → j ≢ b
      → (write_thread len first b z t d).bitmap j ≡ d.bitmap j
  unfolding write_thread
  write_thread-bitmap z t j d other =
      let miss : (j == b) ≡ false = ground arith in ground (arith, miss)

  pub write_thread-kept :
      (z : Bool) (t s : ℕ) (d : Device)
      → d.input (first + s) ≡ 0
      → (write_thread len first b true t d).input (first + s) ≡ 0
  unfolding write_thread
  write_thread-kept z t s d done = ground arith

  pub write_thread-same :
      (t i : ℕ) (d : Device) → (write_thread len first b false t d).input i ≡ d.input i
  unfolding write_thread
  write_thread-same t i d = ground arith

  pub write_thread-entry :
      (z : Bool) (t : ℕ) (d : Device)
      → first + t < len
      → (write_thread len first b z t d).bitmap b ≡ (if z then 1 else 0)
  unfolding write_thread
  write_thread-entry z t d low =
      let self : (b == b) ≡ true = (==_iff b b).1 refl in ground (arith, self)

  pub write_thread-entry_kept :
      (z : Bool) (t : ℕ) (d : Device)
      → d.bitmap b ≡ (if z then 1 else 0)
      → (write_thread len first b z t d).bitmap b ≡ (if z then 1 else 0)
  unfolding write_thread
  write_thread-entry_kept z t d done =
      let self : (b == b) ≡ true = (==_iff b b).1 refl in ground (arith, self)

  pub write_thread-zero :
      (t : ℕ) (d : Device)
      → first + t < len
      → (write_thread len first b true t d).input (first + t) ≡ 0
  unfolding write_thread
  write_thread-zero t d low =
      let self : (first + t == first + t) ≡ true = (==_iff _ _).1 refl in ground (arith, self)
