-- ===== src/Resources.antt =====
-- init of omnireduce/context.cpp, built without CUDA, and of omnireduce/aggcontext.cpp, after
-- parse_parameters: the device, the completion queues, the buffers and the queue pairs. What libibverbs
-- and the C library answer is an argument.
pub mod Queues
pub mod Completion
use Prim.Native.String.{String, compare}
use text.Mathlib.Text.{is_eq}
use omnireduce.Base.{
  ℕ, zero, suc, ◌+◌, ◌*◌, ◌/◌, Bool, true, false, not, ◌||◌, List, [], ◌∷◌, Option, some, none, ℤ,
  ◌==◌, if◌then◌else◌, update, u32,
}
use omnireduce.Outcome.{Failure, Outcome, ok, failed, ◌>>=◌, ◌>>◌, guard}
use omnireduce.Params.{Params}
use omnireduce.ConData.{is_zero}
use omnireduce.QueuePairs.{insert_peer}
use omnireduce.Buffers.{worker_buffer_size, aggregator_buffer_size}

-- Whether a call gives a handle, or its result. The queue pairs are numbered in the order in which they
-- are asked for, and a queue pair comes with its qp_num.
pub record Verbs : Type 0 where
  pub device_list : Option (List String)
  pub open_device : Bool
  pub query_port : ℤ
  pub alloc_pd : Bool
  pub create_cq : ℕ → Bool
  pub memalign : ℤ
  pub reg_buffer : Bool
  pub reg_address : ℕ → Bool
  pub create_qp : ℕ → Option ℕ
  pub create_address_qp : ℕ → Bool

-- The queue pairs of the threads: qp_num, the index of their completion queue, and qp_num_revert.
pub record QueuePairs : Type 0 where
  pub qp_num : ℕ → ℕ
  pub cq : ℕ → ℕ
  pub qp_num_revert : ℕ → Option ℕ

-- `buffer_size` is that of comm_buf in bytes, which is registered whole.
pub record Resources : Type 0 where
  pub num_threads : ℕ
  pub buffer_size : ℕ
  pub qps : QueuePairs

-- `f i` to `f (i + n - 1)`, up to the first that is no handle.
unfoldable pub made_all : Failure → (f : ℕ → Bool) → (i n : ℕ) → Outcome (Unit {0})
made_all why f i zero = ok tt
made_all why f i (suc n) = guard (f i) why >> made_all why f (i + 1) n

unfoldable pub has_device : String → List String → Bool
has_device name [] = false
has_device name (d ∷ ds) = is_eq (compare d name) || has_device name ds

unfoldable pub search_device : String → List String → Outcome (Unit {0})
unfolding has_device
search_device name [] = failed Failure.no_devices
search_device name (d ∷ ds) = guard (has_device name (d ∷ ds)) Failure.device_not_found

unfoldable pub find_device : Verbs → Params → Outcome (Unit {0})
unfolding search_device
find_device v p = elim v.device_list [
  | none ↦ failed Failure.no_device_list
  | some devices ↦ search_device p.ib_hca devices
]

-- The device, its port, the protection domain, and a completion queue for each thread.
unfoldable pub open_queues : Verbs → Params → Outcome (Unit {0})
unfolding find_device made_all
open_queues v p = do
  find_device v p
  guard v.open_device Failure.open_failed
  guard (is_zero v.query_port) Failure.port_failed
  guard v.alloc_pd Failure.pd_failed
  made_all Failure.cq_failed v.create_cq 0 p.num_worker_threads

-- Queue pairs `i` to `i + n - 1`, `per_thread` of them for each completion queue.
unfoldable pub create_qps : Verbs → (per_thread i n : ℕ) → QueuePairs → Outcome QueuePairs
create_qps v per_thread i zero q = ok q
create_qps v per_thread i (suc n) q = elim (v.create_qp i) [
  | none ↦ failed Failure.create_qp_failed
  | some num ↦ create_qps v per_thread (i + 1) n (record {
    qp_num = update q.qp_num i num;
    cq = update q.cq i (i / per_thread);
    qp_num_revert = insert_peer num i q.qp_num_revert;
  })
]

-- The queue pairs of the threads, `peers` times the queue pairs of a peer for each, and one more for the
-- address of each peer.
unfoldable pub create_all_qps : Verbs → Params → (peers : ℕ) → QueuePairs → Outcome QueuePairs
unfolding create_qps made_all
create_all_qps v p peers before = do
  let per_thread = u32 (p.num_qps_per_aggregator_per_thread * peers)
  qps ← create_qps v per_thread 0 (u32 (per_thread * p.num_worker_threads)) before
  made_all Failure.create_qp_failed v.create_address_qp 0 peers
  ok qps

-- The buffer without direct memory is cleared before the result of posix_memalign is looked at.
unfoldable pub allocate_worker : Verbs → Params → Outcome (Unit {0})
allocate_worker v p = do
  guard (is_zero v.memalign)
      (if p.direct_memory == 0 then Failure.unallocated_write else Failure.memory_failed)
  guard v.reg_buffer Failure.register_failed
  guard (v.reg_address 0) Failure.register_failed

-- OmniContext::init; `before` are the tables of the process.
unfoldable pub worker_init : Verbs → Params → (before : QueuePairs) → Outcome Resources
unfolding open_queues allocate_worker create_all_qps
worker_init v p before = do
  open_queues v p
  allocate_worker v p
  qps ← create_all_qps v p p.num_aggregators before
  ok (record { num_threads = p.num_worker_threads; buffer_size = worker_buffer_size p; qps = qps })

-- A place for the address of each worker is registered before the buffer.
unfoldable pub allocate_aggregator : Verbs → Params → Outcome (Unit {0})
unfolding made_all
allocate_aggregator v p = do
  guard (is_zero v.memalign) Failure.memory_failed
  made_all Failure.register_failed v.reg_address 0 p.num_workers
  guard v.reg_buffer Failure.register_failed

-- AggContext::init.
unfoldable pub aggregator_init : Verbs → Params → (before : QueuePairs) → Outcome Resources
unfolding open_queues allocate_aggregator create_all_qps
aggregator_init v p before = do
  open_queues v p
  allocate_aggregator v p
  qps ← create_all_qps v p p.num_workers before
  ok (record {
    num_threads = p.num_worker_threads;
    buffer_size = aggregator_buffer_size p;
    qps = qps;
  })
