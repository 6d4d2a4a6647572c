-- ===== src/Aggregator.antt =====
-- aggregator of omnireduce/aggregator.cpp: an aggregator thread without direct memory. A message holds
-- up to message_size / block_size blocks and, behind them, the next offset of each. Arrays are
-- functions; the state is what lives across completions.
pub mod Blocks
pub mod Layout
pub mod Sum
pub mod Answer
pub mod Round
use omnireduce.Base.{
  ℕ, zero, suc, ◌+◌, ◌-◌, ◌*◌, ◌/◌, ◌%◌, Bool, false, ◌&&◌, ◌||◌, List, [], ◌∷◌, ◌++◌, Option, none,
  some, ltb, leb, ◌==◌, if◌then◌else◌, u32, sub32, update, loop_over, Memory, copy_words,
  clear_words, add_words,
}
use omnireduce.Common.{TensorUpdateType}
use omnireduce.Verbs.{Request, QpTable, element_add}
use omnireduce.Wire.{imm_data, imm_typecode, imm_num, imm_slot}

-- The thread_local parameters; `block_size` is read again at every completion.
pub record Env : Type 0 where
  pub thread_id : ℕ
  pub num_server_threads : ℕ
  pub block_size : ℕ
  pub message_size : ℕ
  pub num_slots_per_thread : ℕ
  pub num_qps_per_aggregator_per_thread : ℕ
  pub num_workers : ℕ
  pub num_comm_buff : ℕ
  pub element_size : ℕ
  pub buff_unit_size : ℕ
  pub inf_offset_0 : ℕ
  pub qps : QpTable

-- Tables by slot, but for current_offset, block_next_offset and min_next_offset, which are by block.
pub record State : Type 0 where
  pub current_offset : ℕ → ℕ
  pub block_next_offset : ℕ → ℕ → ℕ
  pub min_next_offset : ℕ → ℕ
  pub slot_to_qps : ℕ → ℕ → ℕ
  pub register_count : ℕ → ℕ
  pub finished_blocks : ℕ → ℕ
  pub completed_blocks : ℕ → ℕ
  pub current_offsets : ℕ → ℕ → ℕ
  pub next_offsets : ℕ → ℕ → ℕ
  pub set : ℕ → ℕ
  pub buff_index : ℕ → ℕ
  pub comm_buf : Memory

-- message_size / block_size, and num_blocks_per_thread.
unfoldable pub blocks_per_message : Env → ℕ
blocks_per_message e = e.message_size / e.block_size

unfoldable pub blocks_per_thread : Env → ℕ
blocks_per_thread e = u32 (e.num_slots_per_thread * blocks_per_message e)

unfoldable pub block_index : Env → ℕ → ℕ
block_index e offset = offset / e.block_size % blocks_per_thread e

-- All tables are zero at first.
unfoldable pub initial_state : Memory → State
initial_state comm_buf = record {
  current_offset = λ b. 0;
  block_next_offset = λ b w. 0;
  min_next_offset = λ b. 0;
  slot_to_qps = λ s w. 0;
  register_count = λ s. 0;
  finished_blocks = λ s. 0;
  completed_blocks = λ s. 0;
  current_offsets = λ s k. 0;
  next_offsets = λ s k. 0;
  set = λ s. 0;
  buff_index = λ s. 0;
  comm_buf = comm_buf;
}

unfoldable pub receive_qid : Env → ℕ → ℕ → ℕ
receive_qid e slot qp_num =
    if qp_num == 0
    then u32 (
        e.thread_id * e.num_qps_per_aggregator_per_thread * e.num_workers
        + slot % u32 (e.num_qps_per_aggregator_per_thread * e.num_workers))
    else e.qps.qp_num_revert qp_num

unfoldable pub post_receive_server : Env → ℕ → ℕ → Request
post_receive_server e slot qp_num = Request.receive (receive_qid e slot qp_num) 0

-- The messages that go out are behind those of the workers, one for each buff_index.
unfoldable pub send_buff : Env → ℕ → ℕ → ℕ
send_buff e slot buff_index = u32 (
    (e.num_slots_per_thread
        * (2 * e.message_size)
        * e.num_server_threads
        * (e.num_workers + buff_index)
      + slot * (2 * e.message_size))
    * e.buff_unit_size)

-- Where they go in the worker's buffer.
unfoldable pub remote_addr : Env → ℕ → ℕ → ℕ
remote_addr e slot buff_index = u32 (
    (buff_index * (2 * e.message_size) * e.num_slots_per_thread * e.num_server_threads
      + slot * (2 * e.message_size))
    * e.buff_unit_size)

unfoldable pub post_send_server : Env → ℕ → ℕ → ℕ → ℕ → ℕ → Request
post_send_server e typecode num slot qp_num buff_index = Request.send (record {
  qid = e.qps.qp_num_revert qp_num;
  peer = e.qps.qp_num_to_peerid qp_num;
  local_addr = send_buff e slot buff_index;
  length = u32 (e.block_size * num * e.element_size + num * 4);
  remote_addr = remote_addr e slot buff_index;
  imm_data = imm_data typecode num slot;
})

-- The receives that the thread posts before its loop.
unfoldable pub prepost : Env → ℕ → ℕ → List Request
prepost e i zero = []
prepost e i (suc n) = post_receive_server e i 0 ∷ prepost e (i + 1) n

-- The message of worker `wid`, and what follows its blocks.
unfoldable pub recv_addr : Env → ℕ → ℕ → ℕ
recv_addr e slot wid = u32 (
    (wid * e.num_slots_per_thread * (2 * e.message_size) * e.num_server_threads
      + slot * (2 * e.message_size)
      + e.thread_id * (2 * e.message_size) * e.num_slots_per_thread)
    * e.buff_unit_size)

unfoldable pub meta_addr : Env → ℕ → ℕ → ℕ → ℕ
meta_addr e slot wid num = recv_addr e slot wid + u32 (e.block_size * num * e.element_size)

-- The two aggregation pools, behind the messages, and block `bid` of the thread in one.
unfoldable pub pool_base : Env → ℕ → ℕ
pool_base e set = u32 (
    ((e.num_workers + e.num_comm_buff)
        * e.num_slots_per_thread
        * (2 * e.message_size)
        * e.num_server_threads
      + set * e.num_slots_per_thread * e.message_size * e.num_server_threads)
    * e.buff_unit_size)

unfoldable pub pool_addr : Env → ℕ → ℕ → ℕ
pool_addr e set bid =
    pool_base e set
    + u32 ((bid + e.thread_id * blocks_per_thread e) * e.block_size * e.element_size)

unfoldable pub global_slot : Env → ℕ → ℕ
global_slot e slot = u32 (slot + e.num_slots_per_thread * e.thread_id)

unfoldable pub register : Env → ℕ → ℕ → ℕ → State → State
register e slot wid qp_num s =
    if ltb (s.register_count slot) e.num_workers
    then record s {
      slot_to_qps = update s.slot_to_qps slot (update (s.slot_to_qps slot) wid qp_num);
      register_count = update s.register_count slot (u32 (s.register_count slot + 1));
    }
    else s

-- The least of the next offsets of workers 0 to `n`.
unfoldable pub least_offset : (ℕ → ℕ) → ℕ → ℕ
least_offset row zero = row 0
least_offset row (suc n) =
    let least = least_offset row n in if ltb (row (suc n)) least then row (suc n) else least

unfoldable pub record_offset : Env → ℕ → ℕ → ℕ → State → State
record_offset e bid wid next_offset s =
    let row = update (s.block_next_offset bid) wid next_offset in
    record s {
      block_next_offset = update s.block_next_offset bid row;
      min_next_offset = update s.min_next_offset bid (least_offset row (e.num_workers - 1));
    }

-- A block that every worker is past is complete.
unfoldable pub note_complete : ℕ → ℕ → State → State
note_complete slot bid s =
    let n = s.completed_blocks slot in
    if ltb (s.current_offset bid) (s.min_next_offset bid)
    then record s {
      current_offsets =
          update s.current_offsets slot (update (s.current_offsets slot) n (s.current_offset bid));
      next_offsets =
          update s.next_offsets slot (update (s.next_offsets slot) n (s.min_next_offset bid));
      completed_blocks = update s.completed_blocks slot (u32 (n + 1));
    }
    else s

unfoldable pub accumulate : Env → (ℕ → ℕ → ℕ) → ℕ → ℕ → ℕ → ℕ → State → State
accumulate e add slot wid bid k s = record s {
  comm_buf =
      add_words add e.block_size (pool_addr e (s.set slot) bid)
        (recv_addr e slot wid + u32 (k * e.block_size * e.element_size)) s.comm_buf;
}

-- Block `k` of a message of `num` blocks.
unfoldable pub receive_block : Env → (ℕ → ℕ → ℕ) → ℕ → ℕ → ℕ → ℕ → State → State
receive_block e add slot wid num k s =
    let next_offset = s.comm_buf (meta_addr e slot wid num + 4 * k) in
    let bid = block_index e next_offset in
    accumulate e add slot wid bid k (note_complete slot bid (record_offset e bid wid next_offset s))

unfoldable pub receive_blocks : Env → (ℕ → ℕ → ℕ) → ℕ → ℕ → ℕ → State → State
receive_blocks e add slot wid num s = loop_over 0 num (receive_block e add slot wid num) s

-- The answer is put together: blocks `k` to `k + n - 1`, then their next offsets.
unfoldable pub gather_blocks : Env → ℕ → ℕ → State → ℕ → ℕ → Memory → Memory
gather_blocks e slot send_buf s k zero m = m
gather_blocks e slot send_buf s k (suc n) m = gather_blocks e slot send_buf s (k + 1) n (
    copy_words e.block_size (send_buf + u32 (k * e.block_size * e.element_size))
      (pool_addr e (s.set slot) (block_index e (s.next_offsets slot k))) m m)

-- memcpy of `n` words of an array to the buffer.
unfoldable pub store_words : ℕ → (ℕ → ℕ) → ℕ → Memory → Memory
store_words dst words zero m = m
store_words dst words (suc n) m = update (store_words dst words n m) (dst + 4 * n) (words n)

unfoldable pub gather : Env → ℕ → State → Memory
gather e slot s =
    let send_buf = send_buff e (global_slot e slot) (s.buff_index slot) in
    let n = s.completed_blocks slot in
    store_words (send_buf + u32 (n * e.block_size * e.element_size)) (s.next_offsets slot) n
      (gather_blocks e slot send_buf s 0 n s.comm_buf)

unfoldable pub clear_shadow : Env → ℕ → State → Memory → Memory
clear_shadow e slot s m =
    clear_words e.message_size
      (pool_base e ((s.set slot + 1) % 2)
        + u32 (global_slot e slot * e.message_size * e.element_size))
      m

-- Does worker `w` send one of the completed blocks `k` to `k + n - 1` next?
unfoldable pub awaits : Env → ℕ → State → ℕ → ℕ → ℕ → Bool
awaits e slot s w k zero = false
awaits e slot s w k (suc n) =
    let next = s.next_offsets slot k in
    s.block_next_offset (block_index e next) w == next && ltb next e.inf_offset_0
    || awaits e slot s w (k + 1) n

-- The requests for workers `k` to `k + n - 1`.
unfoldable pub post_answers : Env → ℕ → ℕ → State → ℕ → ℕ → List Request
post_answers e typecode slot s k zero = []
post_answers e typecode slot s k (suc n) =
    let qp = s.slot_to_qps slot k in
    let out =
      post_send_server e typecode (s.completed_blocks slot) (global_slot e slot) qp
        (s.buff_index slot)
      ∷ post_answers e typecode slot s (k + 1) n in
    if awaits e slot s k 0 (s.completed_blocks slot)
    then post_receive_server e (global_slot e slot) qp ∷ out
    else out

-- A completed block goes on to its next offset, or is finished.
unfoldable pub advance_block : Env → ℕ → ℕ → State → State
advance_block e slot k s =
    let next = s.next_offsets slot k in
    let bid = block_index e next in
    if leb e.inf_offset_0 next
    then record s {
      current_offset = update s.current_offset bid 0;
      block_next_offset =
          update s.block_next_offset bid
            (λ w. if ltb w e.num_workers then 0 else s.block_next_offset bid w);
      finished_blocks = update s.finished_blocks slot (u32 (s.finished_blocks slot + 1));
    }
    else record s { current_offset = update s.current_offset bid next }

unfoldable pub rearm : Env → ℕ → State → ℕ → ℕ → List Request
rearm e slot s k zero = []
rearm e slot s k (suc n) =
    post_receive_server e (global_slot e slot) (s.slot_to_qps slot k) ∷ rearm e slot s (k + 1) n

unfoldable pub finish_slot : Env → ℕ → State → State × List Request
finish_slot e slot s =
    if s.finished_blocks slot == blocks_per_message e
    then (
      record s {
        finished_blocks = update s.finished_blocks slot 0;
        buff_index = update s.buff_index slot 0;
      },
      rearm e slot s 0 e.num_workers,
    )
    else (s, [])

-- All blocks of the slot that are still open are complete: the answer goes out.
unfoldable pub answer : Env → ℕ → ℕ → State → State × List Request
answer e typecode slot s =
    let sent = record s { comm_buf = clear_shadow e slot s (gather e slot s) } in
    let posted = post_answers e typecode slot sent 0 e.num_workers in
    let numbered = record sent {
      buff_index = update s.buff_index slot ((s.buff_index slot + 1) % e.num_comm_buff);
    } in
    let advanced = loop_over 0 (s.completed_blocks slot) (advance_block e slot) numbered in
    let (finished, rearmed) =
      finish_slot e slot
        (record advanced { completed_blocks = update advanced.completed_blocks slot 0 }) in
    (
      record finished { set = update finished.set slot ((finished.set slot + 1) % 2) },
      posted ++ rearmed,
    )

-- completed_blocks[slot] >= message_size/block_size-finished_blocks[slot]
unfoldable pub slot_complete : Env → ℕ → State → Bool
slot_complete e slot s =
    leb (sub32 (blocks_per_message e) (s.finished_blocks slot)) (s.completed_blocks slot)

-- The type codes that the switch knows; the others end in exit(1).
unfoldable pub code_add : (ℕ → ℕ → ℕ) → ℕ → Option (ℕ → ℕ → ℕ)
code_add float_add typecode =
    if typecode == 1
    then element_add float_add TensorUpdateType.int32
    else if typecode == 2
    then element_add float_add TensorUpdateType.float32
    else none

-- One successful completion of an RDMA write with immediate data `imm` on queue pair `qp_num`.
unfoldable pub handle : (ℕ → ℕ → ℕ) → Env → ℕ → ℕ → State → Option (State × List Request)
handle float_add e imm qp_num s =
    let slot = imm_slot imm % e.num_slots_per_thread in
    let wid = e.qps.qp_num_to_peerid qp_num in
    elim (code_add float_add (imm_typecode imm)) [
      | none ↦ none
      | some add ↦
          let received =
            receive_blocks e add slot wid (imm_num imm) (register e slot wid qp_num s) in
          some (
            if slot_complete e slot received
            then answer e (imm_typecode imm) slot received
            else (received, []))
    ]
