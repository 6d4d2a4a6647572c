-- ===== src/Context/Protocol/Progress.antt =====
-- A caller that waits gets its result: some call can always return, and only boundedly many do before
-- receive_result.
use omnireduce.Base.{
  ℕ, zero, suc, ◌+◌, ◌-◌, ◌^◌, ◌<◌, ◌≤◌, ◌≡◌, ◌≢◌, ◌⊎◌, refl, ap, ◌∙◌, inl, inr, arith, Bool, true,
  false, some, ◌==◌, u32, Bool-cases, Option-cases, ℕ_discrete, dec_lt,
}
use omnireduce.Common.{TensorUpdate}
use omnireduce.Context.{
  Context, send_tensor, receive_tensor, send_result, receive_result, thread_count,
}
use omnireduce.Context.Protocol.{
  Client, System, Step, send, take, give, finish, Reachable, here, after, IsQuiet, busy_count,
}
use omnireduce.Context.Protocol.Calls.{
  send_tensor-eq, receive_tensor-eq, send_result-eq, receive_result-eq,
}
use omnireduce.Context.Protocol.Counting.{busy_count-zero}
use omnireduce.Context.Protocol.Invariant.{IsBalanced, idle-waiting, Reachable-IsBalanced}

-- The threads take their parts from the last on, and there is a tensor to take from.
pub record IsOrderly (s : System) : Type 0 where
  pub above : (t : ℕ) → s.busy t ≡ true → s.context.data_ready ≤ t
  pub held :
      (s.context.data_ready ≡ 0) ⊎ ((tu : TensorUpdate) × (s.context.tensor_update ≡ some tu))

-- The tensor that a call leaves behind.
send_tensor-held :
    (tu : TensorUpdate) (c c' : Context) → send_tensor tu c ≡ some c' → c'.tensor_update ≡ some tu
unfolding send_tensor
send_tensor-held tu c c' h = ground arith

receive_tensor-held :
    (ms t : ℕ) (tu : TensorUpdate) (c c' : Context)
    → receive_tensor ms t c ≡ (c', some tu)
    → (u : TensorUpdate) × (c'.tensor_update ≡ some u)
unfolding receive_tensor
receive_tensor-held ms t tu c c' h = elim (Option-cases c.tensor_update) [
  | inl e ↦ absurd (ground arith)
  | inr (u, e) ↦ (record u { start_idx = u32 (u.start_idx + thread_count ms c t u) }, ground arith)
]

send_result-held :
    (rid : ℕ) (c c' : Context) → send_result rid c ≡ (c', true) → c'.tensor_update ≡ c.tensor_update
unfolding send_result
send_result-held rid c c' h = ground arith

receive_result-held :
    (rid : ℕ) (c c' : Context) → receive_result rid c ≡ some c' → c'.tensor_update ≡ c.tensor_update
unfolding receive_result
receive_result-held rid c c' h = ground arith

-- Calls that return.
receive_tensor-returns :
    (ms t : ℕ) (tu : TensorUpdate) (c : Context)
    → t + 1 < 2 ^ 32
    → c.data_ready ≡ suc t
    → c.tensor_update ≡ some tu
    → (c' : Context) × (tu' : TensorUpdate) × (receive_tensor ms t c ≡ (c', some tu'))
unfolding receive_tensor
receive_tensor-returns ms t tu c small ready held =
    let mine : (c.data_ready == u32 (t + 1)) ≡ true = ground arith in
    elim (Option-cases (receive_tensor ms t c).1) [
      | inl e ↦ absurd (ground arith)
      | inr (tu', e) ↦ ((receive_tensor ms t c).0, tu', ap (λ v. ((receive_tensor ms t c).0, v)) e)
    ]

send_result-returns :
    (rid : ℕ) (c : Context)
    → c.results ≢ c.num_worker_threads
    → (c' : Context) × (send_result rid c ≡ (c', true))
unfolding send_result
send_result-returns rid c more =
    let z : (c.results == c.num_worker_threads) ≡ false = ground arith in
    ((send_result rid c).0, rw z refl)

receive_result-returns :
    (rid : ℕ) (c : Context)
    → c.results ≡ c.num_worker_threads
    → (c' : Context) × (receive_result rid c ≡ some c')
unfolding receive_result
receive_result-returns rid c all =
    let z : (c.results == c.num_worker_threads) ≡ true = ground arith in
    (record c { results = 0; result_id = 0 }, rw z refl)

-- A busy thread, when there is one.
busy_count-some :
    (busy : ℕ → Bool) (n : ℕ) → 0 < busy_count busy n → (t : ℕ) × (t < n) × (busy t ≡ true)
busy_count-some busy zero some_busy = absurd (omega arith)
busy_count-some busy (suc n) some_busy = elim (Bool-cases (busy n)) [
  | inl e ↦ (n, omega arith, e)
  | inr e ↦
      let rest : busy_count busy n ≡ busy_count busy (suc n) = rw e refl in
      let (t, low, held) = busy_count-some busy n (omega arith) in (t, omega arith, held)
]

true-false : (b : Bool) → b ≡ true → b ≡ false → ⊥
true-false b h k = cc

module _ (ms n : ℕ) (n_pos : 0 < n) (n_small : n < 2 ^ 32) where
  Step-IsOrderly : (s s' : System) → IsBalanced n s → IsOrderly s → Step ms n s s' → IsOrderly s'
  Step-IsOrderly s s' b o (send tu c rest pos h) =
      let (ready, (threads, ready', results), rid) = send_tensor-eq tu s.context c h in
      let all = b.threads in
      elim b.phase [
        | inl r ↦ record {
          above = λ t held. elim (dec_lt t n) [
            | yes lt ↦ absurd (true-false _ held (busy_count-zero s.busy n t r.busy lt))
            | no out ↦ omega arith
          ];
          held = inr (tu, send_tensor-held tu s.context c h);
        }
        | inr u ↦ absurd (idle-waiting s.client u.id rest u.client)
      ]
  Step-IsOrderly s s' b o (take t tu c lt free h) =
      let (ready, (threads, ready', results), rid) =
        receive_tensor-eq ms t tu s.context c (omega arith) h in
      record {
        above = λ v held. elim (ℕ_discrete v t) [
          | yes e ↦ omega arith
          | no e ↦
              let other : (v == t) ≡ false = ground arith in
              let before : s.busy v ≡ true = rw other at held in omega (arith, o.above v before)
        ];
        held = inr (receive_tensor-held ms t tu s.context c h);
      }
  Step-IsOrderly s s' b o (give t rid c lt held h) =
      let (not_all, (threads, ready, results), last) = send_result-eq rid s.context c h in
      record {
        above = λ v busy. elim (Bool-cases (v == t)) [
          | inl e ↦ absurd (true-false _ busy (rw e refl))
          | inr e ↦ let before : s.busy v ≡ true = rw e at busy in omega (arith, o.above v before)
        ];
        held = elim o.held [
          | inl z ↦ inl (ready ∙ z)
          | inr (tu, e) ↦ inr (tu, send_result-held rid s.context c h ∙ e)
        ];
      }
  Step-IsOrderly s s' b o (finish rid c wait h) =
      let (enough, (threads, ready, results), zero_id) = receive_result-eq rid s.context c h in
      record {
        above = λ v busy. omega (arith, o.above v busy);
        held = elim o.held [
          | inl z ↦ inl (ready ∙ z)
          | inr (tu, e) ↦ inr (tu, receive_result-held rid s.context c h ∙ e)
        ];
      }

  Reachable-IsOrderly : (first s : System) → IsQuiet n first → Reachable ms n first s → IsOrderly s
  Reachable-IsOrderly first s (threads, ready, results, rid, free, rest) here = record {
    above = λ t held. absurd (true-false _ held (free t));
    held = inl ready;
  }
  Reachable-IsOrderly first s quiet (after s0 s' run step) =
      Step-IsOrderly s0 s (Reachable-IsBalanced ms n n_pos n_small first s0 quiet run)
        (Reachable-IsOrderly first s0 quiet run) step

  -- With 1 to 2^32 - 1 threads, in every state reachable from a quiet one in which the caller
  -- waits, some call can return.
  pub waiting-Step :
      (first s : System) (rid : ℕ)
      → IsQuiet n first
      → Reachable ms n first s
      → s.client ≡ Client.waiting rid
      → (s' : System) × Step ms n s s'
  waiting-Step first s rid quiet run wait =
      let b = Reachable-IsBalanced ms n n_pos n_small first s quiet run in
      let o = Reachable-IsOrderly first s quiet run in
      let m = b.threads in
      elim b.phase [
        | inl r ↦ absurd (idle-waiting s.client rid r.client wait)
        | inr u ↦ elim (ℕ_discrete s.context.data_ready 0) [
          | no parts ↦ elim o.held [
            | inl z ↦ absurd (parts z)
            | inr (tu, held) ↦
                let t = s.context.data_ready - 1 in
                let ready : s.context.data_ready ≡ suc t = omega arith in
                let low : t < n = omega (arith, u.balance) in
                let (c, tu', e) =
                  receive_tensor-returns ms t tu s.context (omega arith) ready held in
                let free : s.busy t ≡ false = elim (Bool-cases (s.busy t)) [
                  | inl held' ↦ absurd (omega (arith, o.above t held'))
                  | inr e' ↦ e'
                ] in
                (_, take t tu' c low free e)
          ]
          | yes taken ↦ elim (ℕ_discrete (busy_count s.busy n) 0) [
            | no working ↦
                let (t, low, held) = busy_count-some s.busy n (omega arith) in
                let (c, e) = send_result-returns rid s.context (omega (arith, u.balance)) in
                (_, give t rid c low held e)
            | yes idle ↦
                let (c, e) = receive_result-returns rid s.context (omega (arith, u.balance)) in
                (_, finish rid c wait e)
          ]
        ]
      ]
