-- ===== src/DrWorker.antt =====
-- dr_worker of omnireduce/worker.cpp: a worker thread with direct memory, built without CUDA; the
-- tensor part lies in the communication buffer while it is reduced.
pub mod Address
pub mod Respond
pub mod Blocks
use omnireduce.Base.{
  ℕ, zero, suc, ◌+◌, ◌-◌, ◌*◌, ◌/◌, ◌%◌, Bool, List, [], ◌∷◌, ◌++◌, Option, none, some, ltb, ◌==◌,
  if◌then◌else◌, u32, sub32, Memory, copy_words,
}
use omnireduce.Common.{TensorUpdate, TensorUpdateType}
use omnireduce.Verbs.{SendRequest, Request, QpTable}
use omnireduce.NextBlock.{Part, dr_find_next_nonzero_block}

-- The thread_local parameters; `own_qp_num` is dctx_ptr->qp[qid]->qp_num.
pub record Env : Type 0 where
  pub part : Part
  pub open part use *
  pub thread_id : ℕ
  pub worker_id : ℕ
  pub num_worker_threads : ℕ
  pub num_qps_per_aggregator_per_thread : ℕ
  pub num_aggregators : ℕ
  pub element_size : ℕ
  pub buff_unit_size : ℕ
  pub prepost_recv_num : ℕ
  pub own_qp_num : ℕ → ℕ
  pub qps : QpTable

-- The queue pair of a global slot, for the first message.
unfoldable pub slot_qid : Env → ℕ → ℕ
slot_qid e slot =
    let per_thread = u32 (e.num_qps_per_aggregator_per_thread * e.num_aggregators) in
    u32 (
      slot / e.num_slots_per_thread * e.num_qps_per_aggregator_per_thread * e.num_aggregators
      + slot % per_thread)

unfoldable pub send_qid : Env → ℕ → ℕ → ℕ
send_qid e slot qp_num = if qp_num == 0 then slot_qid e slot else e.qps.qp_num_revert qp_num

unfoldable pub send_peer : Env → ℕ → ℕ → ℕ
send_peer e slot qp_num =
    if qp_num == 0
    then e.qps.qp_num_to_peerid (e.own_qp_num (slot_qid e slot))
    else e.qps.qp_num_to_peerid qp_num

unfoldable pub dr_post_receive_client : Env → ℕ → ℕ → Request
dr_post_receive_client e slot qp_num = Request.receive (send_qid e slot qp_num) 0

-- The elements of the block at `current_offset` that belong to the part.
unfoldable pub block_length : Part → ℕ → ℕ
block_length p current_offset =
    let left = sub32 p.tensor_size (sub32 current_offset p.start_offset) in
    if ltb p.block_size left then p.block_size else left

-- Where the block of a global slot goes in the aggregator's buffer.
unfoldable pub remote_addr : Env → ℕ → ℕ
remote_addr e slot = u32 (
    (e.block_size * slot
      + e.block_size * e.num_slots_per_thread * e.num_worker_threads * e.worker_id)
    * e.buff_unit_size)

unfoldable pub dr_post_send_client : Env → ℕ → ℕ → ℕ → ℕ → Request
dr_post_send_client e current_offset next_offset slot qp_num = Request.send (record {
  qid = send_qid e slot qp_num;
  peer = send_peer e slot qp_num;
  local_addr = u32 (current_offset * e.element_size);
  length = u32 (block_length e.part current_offset * e.element_size);
  remote_addr = remote_addr e slot;
  imm_data = next_offset;
})

unfoldable pub slot_of : Env → ℕ → ℕ
slot_of e offset = offset / e.block_size % e.num_slots_per_thread

unfoldable pub global_slot : Env → ℕ → ℕ
global_slot e slot = u32 (slot + e.num_slots_per_thread * e.thread_id)

-- The receives that a thread posts before it takes tensors: `n` for each of the slots from `i` on.
unfoldable pub prepost : Env → ℕ → ℕ → List Request
prepost e i zero = []
prepost e i (suc n) =
    dr_post_receive_client e (u32 (i + e.num_slots_per_thread * e.thread_id)) 0 ∷ prepost e i n

unfoldable pub prepost_all : Env → ℕ → ℕ → List Request
prepost_all e i zero = []
prepost_all e i (suc n) = prepost e i e.prepost_recv_num ++ prepost_all e (i + 1) n

-- A new tensor, with the block size of the configuration at that time: its part and the size of its elements; other types end in exit(1).
unfoldable pub accept : TensorUpdate → (block_size : ℕ) → (ℕ → ℕ) → Env → Option Env
accept tu block_size bitmap e =
    let taken = record e {
      part = record (e.part) {
        start_offset = tu.start_idx;
        tensor_size = tu.count;
        block_count = tu.block_count;
        bitmap = bitmap;
        block_size = block_size;
      };
      element_size = 4;
    } in
    elim tu.type [
      | TensorUpdateType.no_type ↦ none
      | TensorUpdateType.int32 ↦ some taken
      | TensorUpdateType.float32 ↦ some taken
      | TensorUpdateType.float16 ↦ none
    ]

-- The number of messages, and how many are sent at once.
unfoldable pub total_num_msgs : Part → ℕ
total_num_msgs p =
    if p.tensor_size % p.block_size == 0
    then p.tensor_size / p.block_size
    else u32 (p.tensor_size / p.block_size + 1)

unfoldable pub first_burst : Part → ℕ
first_burst p =
    if ltb (total_num_msgs p) p.num_slots_per_thread
    then total_num_msgs p
    else p.num_slots_per_thread

-- A block and the announcement of the next one; `none` is a search without end.
unfoldable pub send_block : Env → ℕ → ℕ → ℕ → Option Request
send_block e fuel offset qp_num =
    elim (dr_find_next_nonzero_block e.part fuel
      (u32 (offset + e.block_size * e.num_slots_per_thread))) [
        | none ↦ none
        | some next ↦
            some (dr_post_send_client e offset next (global_slot e (slot_of e next)) qp_num)
      ]

-- Messages `i` to `i + n - 1` of the first burst.
unfoldable pub burst : Env → ℕ → ℕ → ℕ → Option (List Request)
burst e fuel i zero = some []
burst e fuel i (suc n) =
    let rest = burst e fuel (i + 1) n in
    elim (send_block e fuel (u32 (e.start_offset + i * e.block_size)) 0) [
      | none ↦ none
      | some r ↦ elim rest [ none ↦ none | some rs ↦ some (r ∷ rs) ]
    ]

-- One completion with immediate data `imm_data`: the block of that offset is asked for, or the slot
-- is finished. The first component of the result is finished_slots.
unfoldable pub handle : Env → ℕ → ℕ → ℕ → ℕ → Option (ℕ × List Request)
handle e fuel imm_data qp_num finished_slots =
    let slot = slot_of e imm_data in
    let posted = dr_post_receive_client e slot qp_num in
    if ltb imm_data (e.inf_offset 0)
    then (if e.bitmap (imm_data / e.block_size) == 0
        then elim (dr_find_next_nonzero_block e.part fuel
            (u32 (imm_data + e.block_size * e.num_slots_per_thread))) [
              | none ↦ none
              | some next ↦ some (
                finished_slots,
                posted ∷ dr_post_send_client e imm_data next (global_slot e slot) qp_num ∷ [],
              )
            ]
        else some (finished_slots, posted ∷ []))
    else some (u32 (finished_slots + 1), posted ∷ [])

-- memcpy of the part into the communication buffer before, and back after the reduction.
unfoldable pub load_part : Env → Memory → Memory → Memory
load_part e tensor comm_buf =
    copy_words (u32 (e.tensor_size * e.element_size) / 4) (u32 (e.start_offset * e.element_size))
      (u32 (e.start_offset * e.element_size)) tensor comm_buf

unfoldable pub store_part : Env → Memory → Memory → Memory
store_part e comm_buf tensor =
    copy_words (u32 (e.tensor_size * e.element_size) / 4) (u32 (e.start_offset * e.element_size))
      (u32 (e.start_offset * e.element_size)) comm_buf tensor
