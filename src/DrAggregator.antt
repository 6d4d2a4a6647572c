-- ===== src/DrAggregator.antt =====
-- dr_aggregator of omnireduce/aggregator.cpp: an aggregator thread with direct memory, one block in a
-- message. Arrays are functions; the state is what lives across completions.
pub mod Layout
pub mod Round
pub mod Posted
pub mod Sum
use omnireduce.Base.{
  ℕ, zero, suc, ◌+◌, ◌-◌, ◌*◌, ◌/◌, ◌%◌, ◌^◌, Bool, List, [], ◌∷◌, ◌++◌, Option, none, some, ltb,
  ◌==◌, if◌then◌else◌, u32, sub32, update, Memory, clear_words, add_words,
}
use omnireduce.Common.{TensorUpdateType}
use omnireduce.Verbs.{SendRequest, Request, QpTable, element_add}

-- The thread_local parameters, and the fields of AggContext that the thread reads.
pub record Env : Type 0 where
  pub thread_id : ℕ
  pub num_server_threads : ℕ
  pub block_size : ℕ
  pub num_slots_per_thread : ℕ
  pub num_qps_per_aggregator_per_thread : ℕ
  pub num_workers : ℕ
  pub num_comm_buff : ℕ
  pub element_size : ℕ
  pub buff_unit_size : ℕ
  pub inf_offset_0 : ℕ
  pub tensor_size : ℕ
  pub typecode : TensorUpdateType
  pub qps : QpTable

-- `current_offset` is the thread's row of AggContext::current_offset_thread.
pub record State : Type 0 where
  pub block_next_offset : ℕ → ℕ → ℕ
  pub min_next_offset : ℕ → ℕ
  pub slot_to_qps : ℕ → ℕ → ℕ
  pub register_count : ℕ → ℕ
  pub set : ℕ → ℕ
  pub current_offset : ℕ → ℕ
  pub comm_buf : Memory

-- All tables are zero at first; `current_offset` and the buffer belong to AggContext.
unfoldable pub initial_state : (ℕ → ℕ) → Memory → State
initial_state current_offset comm_buf = record {
  block_next_offset = λ s w. 0;
  min_next_offset = λ s. 0;
  slot_to_qps = λ s w. 0;
  register_count = λ s. 0;
  set = λ s. 0;
  current_offset = current_offset;
  comm_buf = comm_buf;
}

unfoldable pub receive_qid : Env → ℕ → ℕ → ℕ
receive_qid e slot qp_num =
    if qp_num == 0
    then u32 (
        e.thread_id * e.num_qps_per_aggregator_per_thread * e.num_workers
        + slot % u32 (e.num_qps_per_aggregator_per_thread * e.num_workers))
    else e.qps.qp_num_revert qp_num

unfoldable pub dr_post_receive_server : Env → ℕ → ℕ → Request
dr_post_receive_server e slot qp_num =
    Request.receive (receive_qid e slot qp_num) (u32 (e.block_size * e.element_size))

-- The receives that the thread posts before its loop, for slots `i` to `i + n - 1`.
unfoldable pub prepost : Env → ℕ → ℕ → List Request
prepost e i zero = []
prepost e i (suc n) = dr_post_receive_server e i 0 ∷ prepost e (i + 1) n

unfoldable pub dr_post_send_server : Env → ℕ → ℕ → ℕ → ℕ → ℕ → Request
dr_post_send_server e current_offset next_offset set slot qp_num =
    let left = sub32 e.tensor_size current_offset in
    let length = if ltb e.block_size left then e.block_size else left in
    Request.send (record {
      qid = e.qps.qp_num_revert qp_num;
      peer = e.qps.qp_num_to_peerid qp_num;
      local_addr = u32 (
          (e.num_slots_per_thread * e.block_size * e.num_server_threads * (e.num_workers + set)
            + slot * e.block_size)
          * e.buff_unit_size);
      length = u32 (length * e.element_size);
      remote_addr = u32 (current_offset * e.element_size);
      imm_data = next_offset;
    })

unfoldable pub slot_of : Env → ℕ → ℕ
slot_of e offset = offset / e.block_size % e.num_slots_per_thread

unfoldable pub global_slot : Env → ℕ → ℕ
global_slot e slot = u32 (slot + e.num_slots_per_thread * e.thread_id)

-- The aggregation pool number `set` of a slot, and the part of the buffer that a worker writes.
unfoldable pub pool_addr : Env → ℕ → ℕ → ℕ
unfolding global_slot
pool_addr e set slot =
    4
    * u32 (
        e.num_slots_per_thread * e.block_size * e.num_server_threads * (e.num_workers + set)
        + e.block_size * (slot + e.num_slots_per_thread * e.thread_id))

unfoldable pub recv_addr : Env → ℕ → ℕ → ℕ
recv_addr e wid slot =
    4
    * u32 (
        wid * e.num_slots_per_thread * e.block_size * e.num_server_threads
        + e.block_size * (slot + e.num_slots_per_thread * e.thread_id))

-- slot_to_qps[slot][wid], while workers are still unknown.
unfoldable pub register : Env → ℕ → ℕ → ℕ → State → State
register e slot wid qp_num s =
    if ltb (s.register_count slot) e.num_workers
    then record s {
      slot_to_qps = update s.slot_to_qps slot (update (s.slot_to_qps slot) wid qp_num);
      register_count = update s.register_count slot (u32 (s.register_count slot + 1));
    }
    else s

-- min_next_offset over workers 0 to `n`.
unfoldable pub least_offset : (ℕ → ℕ) → ℕ → ℕ
least_offset row zero = row 0
least_offset row (suc n) =
    let least = least_offset row n in if ltb (row (suc n)) least then row (suc n) else least

unfoldable pub record_offset : Env → ℕ → ℕ → ℕ → State → State
record_offset e slot wid next_offset s =
    let row = update (s.block_next_offset slot) wid next_offset in
    record s {
      block_next_offset = update s.block_next_offset slot row;
      min_next_offset = update s.min_next_offset slot (least_offset row (e.num_workers - 1));
    }

-- What is posted for workers `k` to `k + n - 1` when a block is complete.
unfoldable pub post_block : Env → ℕ → State → ℕ → ℕ → List Request
post_block e slot s k zero = []
post_block e slot s k (suc n) =
    let qp = s.slot_to_qps slot k in
    let out =
      dr_post_send_server e (s.current_offset slot) (s.min_next_offset slot) (s.set slot)
        (global_slot e slot) qp
      ∷ post_block e slot s (k + 1) n in
    if s.min_next_offset slot == s.block_next_offset slot k
    then dr_post_receive_server e (global_slot e slot) qp ∷ out
    else out

-- The next block of the slot, or the end of its part of the tensor.
unfoldable pub advance : Env → ℕ → State → State
advance e slot s =
    if ltb (s.min_next_offset slot) e.inf_offset_0
    then record s { current_offset = update s.current_offset slot (s.min_next_offset slot) }
    else record s { block_next_offset = update s.block_next_offset slot (λ k. 0) }

unfoldable pub next_set : Env → ℕ → State → ℕ
next_set e slot s = (s.set slot + 1) % e.num_comm_buff

unfoldable pub complete : Env → ℕ → State → State × List Request
complete e slot s =
    let cleared = record s {
      comm_buf = clear_words e.block_size (pool_addr e (next_set e slot s) slot) s.comm_buf;
    } in
    let advanced = advance e slot cleared in
    (
      record advanced { set = update s.set slot (next_set e slot s) },
      post_block e slot cleared 0 e.num_workers,
    )

unfoldable pub accumulate : Env → (ℕ → ℕ → ℕ) → ℕ → ℕ → State → State
accumulate e add slot wid s = record s {
  comm_buf =
      add_words add e.block_size (pool_addr e (s.set slot) slot) (recv_addr e wid slot) s.comm_buf;
}

-- One successful completion of an RDMA write with immediate data `imm_data` on queue pair `qp_num`.
unfoldable pub handle : (ℕ → ℕ → ℕ) → Env → ℕ → ℕ → State → Option (State × List Request)
handle float_add e imm_data qp_num s =
    let slot = slot_of e imm_data in
    let wid = e.qps.qp_num_to_peerid qp_num in
    elim (element_add float_add e.typecode) [
      | none ↦ none
      | some add ↦
          let s1 = accumulate e add slot wid (register e slot wid qp_num s) in
          let s2 = record_offset e slot wid imm_data s1 in
          some (
            if ltb (s2.current_offset slot) (s2.min_next_offset slot)
            then complete e slot s2
            else (s2, []))
    ]
