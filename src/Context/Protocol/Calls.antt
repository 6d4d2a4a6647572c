-- ===== src/Context/Protocol/Calls.antt =====
-- What each call does to the counters of OmniContext.
use omnireduce.Base.{
  ℕ, ◌+◌, ◌^◌, ◌<◌, ◌≡◌, ◌≢◌, ◌⊎◌, inl, inr, arith, true, ◌==◌, some, u32, Bool-cases, Option-cases,
}
use omnireduce.Common.{TensorUpdate}
use omnireduce.Context.{Context, send_tensor, receive_tensor, send_result, receive_result}

-- The counters of a context.
abbrev pub Counts : Context → ℕ → ℕ → ℕ → Type 0
Counts c n ready results =
    (c.num_worker_threads ≡ n) × (c.data_ready ≡ ready) × (c.results ≡ results)

pub send_tensor-eq :
    (tu : TensorUpdate) (c c' : Context)
    → send_tensor tu c ≡ some c'
    → (c.data_ready ≡ 0)
      × Counts c' c.num_worker_threads c.num_worker_threads c.results
      × (c'.result_id ≡ c.result_id)
unfolding send_tensor
send_tensor-eq tu c c' h = (ground arith, (ground arith, ground arith, ground arith), ground arith)

pub receive_tensor-eq :
    (ms t : ℕ) (tu : TensorUpdate) (c c' : Context)
    → t + 1 < 2 ^ 32
    → receive_tensor ms t c ≡ (c', some tu)
    → (c.data_ready ≡ t + 1)
      × Counts c' c.num_worker_threads t c.results
      × (c'.result_id ≡ c.result_id)
unfolding receive_tensor
receive_tensor-eq ms t tu c c' small h = elim (Option-cases c.tensor_update) [
  | inl e ↦ absurd (ground arith)
  | inr (u, e) ↦ (ground arith, (ground arith, ground arith, ground arith), ground arith)
]

pub send_result-eq :
    (rid : ℕ) (c c' : Context)
    → send_result rid c ≡ (c', true)
    → (c.results ≢ c.num_worker_threads)
      × Counts c' c.num_worker_threads c.data_ready (u32 (c.results + 1))
      × ((c'.results ≡ c.num_worker_threads) ⊎ (c'.result_id ≡ c.result_id))
unfolding send_result
send_result-eq rid c c' h = elim (Bool-cases (c.results == c.num_worker_threads)) [
  | inl e ↦ absurd (ground arith)
  | inr e ↦ elim (Bool-cases (u32 (c.results + 1) == c.num_worker_threads)) [
    | inl last ↦ (ground arith, (ground arith, ground arith, ground arith), inl (ground arith))
    | inr more ↦ (ground arith, (ground arith, ground arith, ground arith), inr (ground arith))
  ]
]

pub receive_result-eq :
    (rid : ℕ) (c c' : Context)
    → receive_result rid c ≡ some c'
    → ((c.results ≡ c.num_worker_threads) ⊎ (c.result_id ≡ rid))
      × Counts c' c.num_worker_threads c.data_ready 0
      × (c'.result_id ≡ 0)
unfolding receive_result
receive_result-eq rid c c' h = elim (Bool-cases (c.results == c.num_worker_threads)) [
  | inl e ↦ (inl (ground arith), (ground arith, ground arith, ground arith), ground arith)
  | inr e ↦ elim (Bool-cases (c.result_id == rid)) [
    | inl e' ↦ (inr (ground arith), (ground arith, ground arith, ground arith), ground arith)
    | inr e' ↦ absurd (ground arith)
  ]
]
