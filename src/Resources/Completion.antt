-- ===== src/Resources/Completion.antt =====
-- Each thread posts on the queue pairs whose completion queue it polls, cq[thread_id].
use omnireduce.Base.{
  ℕ, suc, ◌+◌, ◌*◌, ◌/◌, ◌%◌, ◌^◌, ◌<◌, ◌≡◌, arith, some, u32, div-add_mul, mul_mono, mul-pos, ◌∙◌,
}
use native.Mathlib.Nat.{mod-lt}
use omnireduce.Outcome.{ok}
use omnireduce.Params.{Params}
use omnireduce.Worker
use omnireduce.Aggregator
use omnireduce.Resources.{Verbs, QueuePairs, Resources, worker_init, aggregator_init}
use omnireduce.Resources.Queues.{
  Numbered, IsNew, ReadyFor, worker_init-IsReady, aggregator_init-IsReady,
}

-- Queue pairs for each of `peers` peers and each thread, fewer than 2^32 in all.
pub record HasRoom (p : Params) (peers : ℕ) : Type 0 where
  pub qps_pos : 0 < p.num_qps_per_aggregator_per_thread
  pub peers_pos : 0 < peers
  pub room : p.num_qps_per_aggregator_per_thread * peers * p.num_worker_threads < 2 ^ 32

abbrev IsPolled : QueuePairs → (thread_id i : ℕ) → Type 0
IsPolled q t i = (q.cq i ≡ t) × (q.qp_num_revert (q.qp_num i) ≡ some i)

qid-inside :
    (t nt per r : ℕ)
    → t < nt
    → r < per
    → per * nt < 2 ^ 32
    → (u32 (t * per + r) < u32 (u32 per * nt)) × (u32 (t * per + r) / u32 per ≡ t)
qid-inside t nt per r h k room =
    let inside = mul_mono (suc t) nt per h in
    let one = mul_mono 1 nt per (omega arith) in
    let small : u32 per ≡ per = omega arith in
    let all : u32 (per * nt) ≡ per * nt = omega arith in
    let id : u32 (t * per + r) ≡ t * per + r = omega arith in
    rw (id, small, all) (omega arith, div-add_mul t r per k)

module _ (v : Verbs) (p : Params) (peers : ℕ) (q : QueuePairs) (has : HasRoom p peers)
    (ready : ReadyFor v p peers q) where
  qid-IsPolled :
      (t r : ℕ)
      → t < p.num_worker_threads
      → r < p.num_qps_per_aggregator_per_thread * peers
      → IsPolled q t (u32 (t * (p.num_qps_per_aggregator_per_thread * peers) + r))
  qid-IsPolled t r h k =
      let id =
        qid-inside t p.num_worker_threads (p.num_qps_per_aggregator_per_thread * peers) r h k
          has.room in
      (ready.queue _ (id.0) ∙ id.1, ready.found _ (id.0))

pub record WorkerOf (p : Params) (e : Worker.Env) : Type 0 where
  pub slots : e.num_slots_per_thread ≡ p.num_slots_per_thread
  pub qps : e.num_qps_per_aggregator_per_thread ≡ p.num_qps_per_aggregator_per_thread
  pub aggregators : e.num_aggregators ≡ p.num_aggregators
  pub thread_lt : e.thread_id < p.num_worker_threads

pub record AggregatorOf (p : Params) (e : Aggregator.Env) : Type 0 where
  pub qps : e.num_qps_per_aggregator_per_thread ≡ p.num_qps_per_aggregator_per_thread
  pub workers : e.num_workers ≡ p.num_workers
  pub thread_lt : e.thread_id < p.num_worker_threads

-- With queue pairs of different numbers, new tables, at least one queue pair for each of at
-- least one aggregator, and fewer than 2^32 in all: when init of a worker returns, the queue
-- pair on which a thread posts for a slot of its own has the completion queue of the thread, and
-- its number leads back to it.
pub worker_init-slot_qid :
    (v : Verbs) (p : Params) (before : QueuePairs) (r : Resources) (e : Worker.Env)
    → Numbered v
    → IsNew before
    → HasRoom p p.num_aggregators
    → WorkerOf p e
    → worker_init v p before ≡ ok r
    → (slot : ℕ) → slot < p.num_slots_per_thread
    → let i = Worker.slot_qid e (slot + p.num_slots_per_thread * e.thread_id) in
      (r.qps.cq i ≡ e.thread_id) × (r.qps.qp_num_revert (r.qps.qp_num i) ≡ some i)
unfolding Worker.slot_qid
worker_init-slot_qid v p before r e numbered new has of done slot h =
    let per = p.num_qps_per_aggregator_per_thread * p.num_aggregators in
    let ready = worker_init-IsReady v p before r numbered new done in
    let pos : 0 < per = mul-pos _ _ has.qps_pos has.peers_pos in
    let small : u32 per ≡ per =
      omega (arith, mul_mono 1 p.num_worker_threads per (omega (arith, of.thread_lt)), has.room) in
    let global = slot + p.num_slots_per_thread * e.thread_id in
    let thread : global / p.num_slots_per_thread ≡ e.thread_id =
      let shape : global ≡ e.thread_id * p.num_slots_per_thread + slot = omega arith in
      rw shape (div-add_mul e.thread_id slot p.num_slots_per_thread h) in
    let shape : (x : ℕ)
        → e.thread_id * p.num_qps_per_aggregator_per_thread * p.num_aggregators + x
          ≡ e.thread_id * per + x =
      λ x. omega arith in
    let id =
      qid-IsPolled v p p.num_aggregators r.qps has ready e.thread_id (global % per) of.thread_lt
        (mod-lt global pos) in
    rw (of.slots, of.qps, of.aggregators) (rw (small, thread) (rw (shape (global % per)) id))

-- Under the same conditions for workers, when init of an aggregator returns, the queue pair on
-- which a thread posts its first receive for a slot has the completion queue of the thread, and
-- its number leads back to it.
pub aggregator_init-receive_qid :
    (v : Verbs) (p : Params) (before : QueuePairs) (r : Resources) (e : Aggregator.Env)
    → Numbered v
    → IsNew before
    → HasRoom p p.num_workers
    → AggregatorOf p e
    → aggregator_init v p before ≡ ok r
    → (slot : ℕ)
    → let i = Aggregator.receive_qid e slot 0 in
      (r.qps.cq i ≡ e.thread_id) × (r.qps.qp_num_revert (r.qps.qp_num i) ≡ some i)
unfolding Aggregator.receive_qid
aggregator_init-receive_qid v p before r e numbered new has of done slot =
    let per = p.num_qps_per_aggregator_per_thread * p.num_workers in
    let ready = aggregator_init-IsReady v p before r numbered new done in
    let pos : 0 < per = mul-pos _ _ has.qps_pos has.peers_pos in
    let small : u32 per ≡ per =
      omega (arith, mul_mono 1 p.num_worker_threads per (omega (arith, of.thread_lt)), has.room) in
    let shape : (x : ℕ)
        → e.thread_id * p.num_qps_per_aggregator_per_thread * p.num_workers + x
          ≡ e.thread_id * per + x =
      λ x. omega arith in
    let id =
      qid-IsPolled v p p.num_workers r.qps has ready e.thread_id (slot % per) of.thread_lt
        (mod-lt slot pos) in
    rw (of.qps, of.workers) (rw small (rw (shape (slot % per)) id))
