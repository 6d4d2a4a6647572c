-- ===== src/Outcome.antt =====
-- How a call of the repository's code ends: with a result, or with the end of the process. The exits are
-- those of omnireduce/params.hpp, params.cpp, context.cpp, aggcontext.cpp and omnireduce.cpp.
use omnireduce.Base.{
  Bool, true, false, ℕ, ◌/◌, ◌≡◌, ◌≢◌, ◌⊎◌, inl, inr, arith, refl, ◌==◌, if◌then◌else◌,
}

-- The first group calls exit(1); a bad number is an uncaught exception of std::stoi; the last are
-- undefined behaviour: a copy past 20 bytes, x / 0, and a write to memory that was not allocated.
pub data Failure : Type 0 where
  no_config_file memory_mismatch worker_number aggregator_number core_id_count : Failure
  data_type gpu_mismatch not_direct exchange_failed machine_id qp_failed sync_failed : Failure
  gid_failed thread_failed : Failure
  no_device_list no_devices device_not_found open_failed port_failed pd_failed : Failure
  cq_failed memory_failed register_failed create_qp_failed join_failed master_failed : Failure
  resolve_failed connect_failed bind_failed : Failure
  bad_number : Failure
  string_overflow divide_by_zero unallocated_write : Failure

pub data Outcome {κ} (X : Type κ) : Type κ where
  ok : X → Outcome X
  failed : Failure → Outcome X

-- A process that has failed does nothing more.
infixl 5 ◌>>=◌ ◌>>◌
abbrev pub ◌>>=◌ {κ μ} :
    {X : Type κ} {Y : Type μ} (first : Outcome X) (next : X → Outcome Y) → Outcome Y
failed why >>= next = failed why
ok x >>= next = next x

abbrev pub ◌>>◌ {μ} : {Y : Type μ} → Outcome (Unit {0}) → Outcome Y → Outcome Y
first >> next = first >>= λ _. next

abbrev pub guard : Bool → Failure → Outcome (Unit {0})
guard true why = ok tt
guard false why = failed why

-- A division whose divisor is checked by nothing.
unfoldable pub divide : ℕ → ℕ → Outcome ℕ
divide a b = if b == 0 then failed divide_by_zero else ok (a / b)

-- The part of a successful run before a bind.
pub >>=-ok {κ μ} :
    {X : Type κ} {Y : Type μ} {y : Y} (first : Outcome X) (next : X → Outcome Y)
    → (first >>= next) ≡ ok y
    → (x : X) × (first ≡ ok x) × (next x ≡ ok y)
>>=-ok (failed why) next h = cc
>>=-ok (ok x) next h = (x, refl, h)

pub >>-ok {μ} :
    {Y : Type μ} {y : Y} (first : Outcome (Unit {0})) (next : Outcome Y)
    → (first >> next) ≡ ok y
    → next ≡ ok y
>>-ok (failed why) next h = cc
>>-ok (ok x) next h = h

pub divide-eq : (a b q : ℕ) → divide a b ≡ ok q → (b ≢ 0) × (q ≡ a / b)
unfolding divide
divide-eq a b q h = ground arith

pub ok-injective {ℓ} : {A : Type ℓ} {a b : A} → ok a ≡ ok b → a ≡ b
ok-injective h = cc

pub Outcome-cases {ℓ} :
    {A : Type ℓ} (m : Outcome A) → ((x : A) × (m ≡ ok x)) ⊎ ((why : Failure) × (m ≡ failed why))
Outcome-cases (ok x) = inl (x, refl)
Outcome-cases (failed why) = inr (why, refl)
