-- ===== src/ConData/Peers.antt =====
-- What the loop of the exchange leaves behind.
use omnireduce.Base.{
  ℕ, zero, suc, ◌+◌, ◌≤◌, ◌<◌, ◌≡◌, ◌≢◌, ◌⊎◌, inl, inr, refl, sym, ◌∙◌, arith, Bool-cases, true,
  false, ℤ, pos, ◌==◌, ==_iff, update, ℕ_discrete,
}
use omnireduce.Outcome.{ok}
use omnireduce.ConData.{ConData, RemoteData, exchange}

-- All of remote_props_array that the loop writes.
abbrev pub filled :
    (ℕ → ConData → RemoteData) → (ℕ → ConData) → (i n : ℕ) → (ℕ → RemoteData) → ℕ → RemoteData
filled take d i zero props = props
filled take d i (suc n) props = filled take d (i + 1) n (update props i (take i (d i)))

module _ (take : ℕ → ConData → RemoteData) (d : ℕ → ConData) where
  filled-below : (i n j : ℕ) (props : ℕ → RemoteData) → j < i → filled take d i n props j ≡ props j
  filled-below i zero j props low = refl
  filled-below i (suc n) j props low =
      let other : (j == i) ≡ false = ground arith in
      filled-below (i + 1) n j _ (omega arith) ∙ rw other refl

  pub filled-inside :
      (i n j : ℕ) (props : ℕ → RemoteData)
      → i ≤ j
      → j < i + n
      → filled take d i n props j ≡ take j (d j)
  filled-inside i zero j props low high = absurd (omega arith)
  filled-inside i (suc n) j props low high = elim (ℕ_discrete i j) [
    | yes e ↦
        let self : (j == j) ≡ true = (==_iff j j).1 refl in
        rw e (filled-below (j + 1) n j _ (omega arith) ∙ rw self refl)
    | no e ↦ filled-inside (i + 1) n j _ (omega arith) (omega arith)
  ]

-- A peer whose record has come, and names this process and the number of peers.
pub record Answers (sync : ℕ → ℤ × ConData) (num_peers id i : ℕ) (d : ℕ → ConData) : Type 0 where
  pub came : sync i ≡ (pos 0, d i)
  pub named : (d i).remote_id ≡ id
  pub counted : (d i).num_peers ≡ num_peers

exchange-next :
    (sync : ℕ → ℤ × ConData) (num_peers : ℕ) (take : ℕ → ConData → RemoteData) (i n id w : ℕ)
    (props : ℕ → RemoteData) (d : ℕ → ConData)
    → Answers sync num_peers w i d
    → (i ≡ 0) ⊎ (id ≡ w)
    → exchange sync num_peers take i (suc n) id props
      ≡ exchange sync num_peers take (i + 1) n w (update props i (take i (d i)))
unfolding exchange
exchange-next sync num_peers take i n id w props d answer known = elim (Bool-cases (i == 0)) [
  | inl z ↦ rw (answer.came, z, answer.named) refl
  | inr z ↦
      let same : id ≡ w = ground arith in
      let own : (id == (d i).remote_id) ≡ true = (==_iff _ _).1 (same ∙ sym answer.named) in
      let all : (num_peers == (d i).num_peers) ≡ true = (==_iff _ _).1 (sym answer.counted) in
      rw (answer.came, z, own, all, same) refl
]

pub exchange-filled :
    (sync : ℕ → ℤ × ConData) (num_peers : ℕ) (take : ℕ → ConData → RemoteData) (i n id w : ℕ)
    (props : ℕ → RemoteData) (d : ℕ → ConData)
    → ((k : ℕ) → i ≤ k → k < i + n → Answers sync num_peers w k d)
    → (id ≡ w) ⊎ ((i ≡ 0) × (n ≢ 0))
    → exchange sync num_peers take i n id props ≡ ok (w, filled take d i n props)
unfolding exchange
exchange-filled sync num_peers take i zero id w props d answers start = ground arith
exchange-filled sync num_peers take i (suc n) id w props d answers start =
    exchange-next sync num_peers take i n id w props d (answers i (omega arith) (omega arith))
      (ground arith)
    ∙ exchange-filled sync num_peers take (i + 1) n w w _ d
        (λ k low high. answers k (omega arith) (omega arith)) (inl refl)
