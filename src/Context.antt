-- ===== src/Context.antt =====
-- omnireduce/context.hpp and omnireduce/context.cpp: how OmniContext hands a tensor to the worker
-- threads and takes their results back. A method runs under its mutex, so each call is one step; a
-- `while (…) wait` that does not pass is `none`: the caller waits and the state stays.
pub mod Partition
pub mod Protocol
use omnireduce.Base.{
  ℕ, ◌+◌, ◌-◌, ◌*◌, ◌/◌, ◌%◌, ◌≡◌, Bool, true, false, ◌&&◌, not, Option, none, some, ℤ, pos, negsuc,
  ltb, ◌==◌, if◌then◌else◌, u32, sub32,
}
use omnireduce.Common.{TensorUpdate, TensorUpdateType, OpType}

pub record Context : Type 0 where
  pub num_worker_threads : ℕ
  pub master_ready : ℕ
  pub data_ready : ℕ
  pub results : ℕ
  pub tensor_update : Option TensorUpdate
  pub result_id : ℕ
  pub tid_counter : ℕ

-- The constructor, before init and StartMaster.
unfoldable pub initial_context : Context
initial_context = record {
  num_worker_threads = 1;
  master_ready = 0;
  data_ready = 0;
  results = 0;
  tensor_update = none;
  result_id = 0;
  tid_counter = 0;
}

unfoldable pub set_num_worker_threads : ℕ → Context → Context
set_num_worker_threads nt c = record c { num_worker_threads = nt }

-- true: master_ready_event is notified.
unfoldable pub set_master_ready : Context → Context × Bool
set_master_ready c =
    let ready = u32 (c.master_ready + 1) in
    (record c { master_ready = ready }, ready == c.num_worker_threads)

unfoldable pub wait_master_ready : Context → Option Context
wait_master_ready c = if c.master_ready == c.num_worker_threads then some c else none

unfoldable pub send_tensor : TensorUpdate → Context → Option Context
send_tensor tu c =
    if c.data_ready == 0
    then some (record c { tensor_update = some tu; data_ready = c.num_worker_threads })
    else none

-- The number of messages of a tensor, the last one perhaps partial.
unfoldable pub message_count : ℕ → ℕ → ℕ
message_count count message_size =
    if count % message_size == 0 then count / message_size else u32 (count / message_size + 1)

-- The messages of one thread.
unfoldable pub thread_share : ℕ → ℕ → ℕ → ℕ
thread_share messages num_worker_threads thread_id =
    if ltb thread_id (messages % num_worker_threads)
    then u32 (messages / num_worker_threads + 1)
    else messages / num_worker_threads

-- The count that the copy of thread `thread_id` gets.
unfoldable pub thread_count : ℕ → Context → ℕ → TensorUpdate → ℕ
thread_count message_size c thread_id tu =
    if c.data_ready == 1
    then sub32 tu.count tu.start_idx
    else u32 (
        thread_share (message_count tu.count message_size) c.num_worker_threads thread_id
        * message_size)

-- `none` beside the state is the return value false. The null tensor_update_ptr is never read: it is
-- set before data_ready.
unfoldable pub receive_tensor : ℕ → ℕ → Context → Context × Option TensorUpdate
receive_tensor message_size thread_id c =
    if c.data_ready == u32 (thread_id + 1)
    then elim c.tensor_update [
      | none ↦ (c, none)
      | some tu ↦
          let count = thread_count message_size c thread_id tu in
          (
            record c {
              tensor_update = some (record tu { start_idx = u32 (tu.start_idx + count) });
              data_ready = c.data_ready - 1;
            },
            some (record tu { count = count }),
          )
    ]
    else (c, none)

-- false: the results of the last tensor were not taken yet.
unfoldable pub send_result : ℕ → Context → Context × Bool
send_result rid c =
    if c.results == c.num_worker_threads
    then (c, false)
    else let results = u32 (c.results + 1) in
      (
        (if results == c.num_worker_threads
            then record c { results = results; result_id = rid }
            else record c { results = results }),
        true,
      )

unfoldable pub receive_result : ℕ → Context → Option Context
receive_result rid c =
    if not (c.results == c.num_worker_threads) && not (c.result_id == rid)
    then none
    else some (record c { results = 0; result_id = 0 })
