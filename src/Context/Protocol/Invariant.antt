-- ===== src/Context/Protocol/Invariant.antt =====
-- AllReduce returns when, and only when, every thread has handed in its result.
use omnireduce.Base.{
  ℕ, ◌+◌, ◌^◌, ◌<◌, ◌≡◌, ◌⊎◌, refl, sym, ◌∙◌, update, inl, inr, arith, true, false, some,
}
use omnireduce.Common.{TensorUpdate}
use omnireduce.Context.{Context, send_tensor, receive_tensor, send_result, receive_result}
use omnireduce.Context.Protocol.{
  Client, System, Step, send, take, give, finish, Reachable, here, after, IsQuiet, busy_count,
}
use omnireduce.Context.Protocol.Calls.{
  send_tensor-eq, receive_tensor-eq, send_result-eq, receive_result-eq,
}
use omnireduce.Context.Protocol.Counting.{
  busy_count-true, busy_count-false, busy_count-none, busy_count-zero,
}

-- Between calls of AllReduce everything is at rest.
pub record AtRest (n : ℕ) (s : System) : Type 0 where
  pub client : s.client ≡ Client.idle
  pub data_ready : s.context.data_ready ≡ 0
  pub results : s.context.results ≡ 0
  pub busy : busy_count s.busy n ≡ 0
  pub result_id : s.context.result_id ≡ 0

-- During one, every thread has its part to take, is busy, or has handed in its result.
pub record UnderWay (n : ℕ) (s : System) : Type 0 where
  pub id : ℕ
  pub client : s.client ≡ Client.waiting id
  pub id_pos : 0 < id
  pub balance : s.context.data_ready + busy_count s.busy n + s.context.results ≡ n
  pub result_id : (s.context.results ≡ n) ⊎ (s.context.result_id ≡ 0)

pub record IsBalanced (n : ℕ) (s : System) : Type 0 where
  pub threads : s.context.num_worker_threads ≡ n
  pub phase : AtRest n s ⊎ UnderWay n s

pub idle-waiting : (c : Client) (id : ℕ) → c ≡ Client.idle → c ≡ Client.waiting id → ⊥
idle-waiting c id h k = cc

module _ (ms n : ℕ) (n_pos : 0 < n) (n_small : n < 2 ^ 32) where
  send-IsBalanced :
      (s : System) (tu : TensorUpdate) (c : Context)
      → IsBalanced n s
      → s.client ≡ Client.idle
      → 0 < tu.id
      → send_tensor tu s.context ≡ some c
      → IsBalanced n (record s { context = c; client = Client.waiting tu.id })
  send-IsBalanced s tu c b rest pos h =
      let (ready, (threads, ready', results), rid) = send_tensor-eq tu s.context c h in
      let m = b.threads in
      elim b.phase [
        | inl r ↦ record {
          threads = threads ∙ b.threads;
          phase = inr (record {
            id = tu.id;
            client = refl;
            id_pos = pos;
            balance = omega (arith, r.results, r.busy);
            result_id = inr (rid ∙ r.result_id);
          });
        }
        | inr u ↦ absurd (idle-waiting s.client u.id rest u.client)
      ]

  take-IsBalanced :
      (s : System) (t : ℕ) (tu : TensorUpdate) (c : Context)
      → IsBalanced n s
      → t < n
      → s.busy t ≡ false
      → receive_tensor ms t s.context ≡ (c, some tu)
      → IsBalanced n (record s { context = c; busy = update s.busy t true })
  take-IsBalanced s t tu c b lt free h =
      let (ready, (threads, ready', results), rid) =
        receive_tensor-eq ms t tu s.context c (omega arith) h in
      elim b.phase [
        | inl r ↦ absurd (omega (arith, r.data_ready))
        | inr u ↦ record {
          threads = threads ∙ b.threads;
          phase = inr (record {
            id = u.id;
            client = u.client;
            id_pos = u.id_pos;
            balance = omega (arith, u.balance, busy_count-true s.busy t n lt free);
            result_id = elim u.result_id [
              | inl all ↦ inl (results ∙ all)
              | inr none_yet ↦ inr (rid ∙ none_yet)
            ];
          });
        }
      ]

  give-IsBalanced :
      (s : System) (t rid : ℕ) (c : Context)
      → IsBalanced n s
      → t < n
      → s.busy t ≡ true
      → send_result rid s.context ≡ (c, true)
      → IsBalanced n (record s { context = c; busy = update s.busy t false })
  give-IsBalanced s t rid c b lt held h =
      let (not_all, (threads, ready, results), last) = send_result-eq rid s.context c h in
      let count = busy_count-false s.busy t n lt held in
      let m = b.threads in
      elim b.phase [
        | inl r ↦ absurd (omega (arith, r.busy))
        | inr u ↦ record {
          threads = threads ∙ b.threads;
          phase = inr (record {
            id = u.id;
            client = u.client;
            id_pos = u.id_pos;
            balance = omega (arith, u.balance);
            result_id = elim last [
              | inl all ↦ inl (all ∙ b.threads)
              | inr same ↦ elim u.result_id [
                | inl all ↦ absurd (not_all (omega arith))
                | inr none_yet ↦ inr (same ∙ none_yet)
              ]
            ];
          });
        }
      ]

  -- The caller returns only when all results are there.
  finish-all :
      (s : System) (rid : ℕ) (c : Context)
      → IsBalanced n s
      → s.client ≡ Client.waiting rid
      → receive_result rid s.context ≡ some c
      → (s.context.results ≡ n) × (s.context.data_ready ≡ 0) × (busy_count s.busy n ≡ 0)
  finish-all s rid c b wait h =
      let (enough, counts, zero_id) = receive_result-eq rid s.context c h in
      let m = b.threads in
      elim b.phase [
        | inl r ↦ absurd (idle-waiting s.client rid r.client wait)
        | inr u ↦
            let same : Client.waiting u.id ≡ Client.waiting rid = sym u.client ∙ wait in
            let id_same : u.id ≡ rid = cc in
            let all : s.context.results ≡ n = elim enough [
              | inl e ↦ omega arith
              | inr e ↦ elim u.result_id [
                | inl all ↦ all
                | inr none_yet ↦ absurd (omega (arith, u.id_pos))
              ]
            ] in
            (all, omega (arith, u.balance), omega (arith, u.balance))
      ]

  finish-IsBalanced :
      (s : System) (rid : ℕ) (c : Context)
      → IsBalanced n s
      → s.client ≡ Client.waiting rid
      → receive_result rid s.context ≡ some c
      → IsBalanced n (record s { context = c; client = Client.idle })
  finish-IsBalanced s rid c b wait h =
      let (enough, (threads, ready, results), zero_id) = receive_result-eq rid s.context c h in
      let (all, taken, none_busy) = finish-all s rid c b wait h in
      record {
        threads = threads ∙ b.threads;
        phase = inl (record {
          client = refl;
          data_ready = ready ∙ taken;
          results = results;
          busy = none_busy;
          result_id = zero_id;
        });
      }

  Step-IsBalanced : (s s' : System) → IsBalanced n s → Step ms n s s' → IsBalanced n s'
  Step-IsBalanced s s' b (send tu c rest pos h) = send-IsBalanced s tu c b rest pos h
  Step-IsBalanced s s' b (take t tu c lt free h) = take-IsBalanced s t tu c b lt free h
  Step-IsBalanced s s' b (give t rid c lt held h) = give-IsBalanced s t rid c b lt held h
  Step-IsBalanced s s' b (finish rid c wait h) = finish-IsBalanced s rid c b wait h

  -- With 1 to 2^32 - 1 threads, in every state reachable from a quiet one: either all is at
  -- rest between calls of AllReduce, or the caller waits and the parts to take, the busy
  -- threads and the results add up to the number of threads.
  pub Reachable-IsBalanced :
      (first s : System) → IsQuiet n first → Reachable ms n first s → IsBalanced n s
  Reachable-IsBalanced first s (threads, ready, results, rid, free, rest) here = record {
    threads = threads;
    phase = inl (record {
      client = rest;
      data_ready = ready;
      results = results;
      busy = busy_count-none first.busy n free;
      result_id = rid;
    });
  }
  Reachable-IsBalanced first s quiet (after s0 s' run step) =
      Step-IsBalanced s0 s (Reachable-IsBalanced first s0 quiet run) step

  -- With 1 to 2^32 - 1 threads, in every state reachable from a quiet one by the calls of one
  -- caller and the threads: when receive_result returns to the waiting caller, all threads
  -- have handed in their results, no part is left to take and no thread is busy.
  pub receive_result-all :
      (first s : System) (rid : ℕ) (c : Context)
      → IsQuiet n first
      → Reachable ms n first s
      → s.client ≡ Client.waiting rid
      → receive_result rid s.context ≡ some c
      → (s.context.results ≡ n) × (s.context.data_ready ≡ 0) × ((t : ℕ) → t < n → s.busy t ≡ false)
  receive_result-all first s rid c quiet run wait h =
      let (all, taken, none_busy) =
        finish-all s rid c (Reachable-IsBalanced first s quiet run) wait h in
      (all, taken, (λ t lt. busy_count-zero s.busy n t none_busy lt))
