-- ===== src/Context/Protocol/Counting.antt =====
-- How the number of busy threads changes.
use omnireduce.Base.{
  ℕ, zero, suc, ◌+◌, ◌<◌, ◌≤◌, ◌≡◌, refl, arith, Bool, true, false, update, ℕ_discrete, Bool-cases,
  inl, inr,
}
use omnireduce.Context.Protocol.{busy_count}

busy_count-frame :
    (busy : ℕ → Bool) (t n : ℕ) (b : Bool)
    → n ≤ t
    → busy_count (update busy t b) n ≡ busy_count busy n
busy_count-frame busy t zero b h = refl
busy_count-frame busy t (suc n) b h = ground (arith, busy_count-frame busy t n b)

pub busy_count-true :
    (busy : ℕ → Bool) (t n : ℕ)
    → t < n
    → busy t ≡ false
    → busy_count (update busy t true) n ≡ busy_count busy n + 1
busy_count-true busy t zero h free = absurd (omega arith)
busy_count-true busy t (suc n) h free = elim (ℕ_discrete n t) [
  | yes e ↦ ground (arith, busy_count-frame busy t n true)
  | no ne ↦ ground (arith, busy_count-true busy t n)
]

pub busy_count-false :
    (busy : ℕ → Bool) (t n : ℕ)
    → t < n
    → busy t ≡ true
    → busy_count (update busy t false) n + 1 ≡ busy_count busy n
busy_count-false busy t zero h held = absurd (omega arith)
busy_count-false busy t (suc n) h held = elim (ℕ_discrete n t) [
  | yes e ↦ ground (arith, busy_count-frame busy t n false)
  | no ne ↦ ground (arith, busy_count-false busy t n)
]

pub busy_count-none : (busy : ℕ → Bool) (n : ℕ) → ((t : ℕ) → busy t ≡ false) → busy_count busy n ≡ 0
busy_count-none busy zero free = refl
busy_count-none busy (suc n) free = rw (free n) (busy_count-none busy n free)

pub busy_count-zero : (busy : ℕ → Bool) (n t : ℕ) → busy_count busy n ≡ 0 → t < n → busy t ≡ false
busy_count-zero busy zero t none h = absurd (omega arith)
busy_count-zero busy (suc n) t none h = elim (Bool-cases (busy n)) [
  | inl b ↦ absurd (ground arith)
  | inr b ↦ elim (ℕ_discrete n t) [
    | yes e ↦ ground arith
    | no ne ↦ busy_count-zero busy n t (ground arith) (omega arith)
  ]
]
