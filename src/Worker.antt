-- ===== src/Worker.antt =====
-- worker of omnireduce/worker.cpp: a worker thread without direct memory, for tensors in host memory,
-- built without CUDA. The scratch arrays current_offsets and next_offsets are lists of pairs.
pub mod Address
pub mod Bounds
pub mod Message
pub mod Delivered
pub mod Taken
use omnireduce.Base.{
  ℕ, zero, suc, ◌+◌, ◌*◌, ◌/◌, ◌%◌, not, ◌&&◌, List, [], ◌∷◌, ◌++◌, Option, none, some, ltb, ◌==◌,
  if◌then◌else◌, u32, sub32, update, Memory, copy_words, length,
}
use omnireduce.Common.{TensorUpdate, TensorUpdateType, type_code}
use omnireduce.Verbs.{Request, QpTable}
use omnireduce.NextBlock.{Part, find_next_nonzero_block}
use omnireduce.Wire.{imm_data, imm_num, imm_slot}

-- The thread_local parameters; `own_qp_num` is dctx_ptr->qp[qid]->qp_num.
pub record Env : Type 0 where
  pub part : Part
  pub open part use *
  pub thread_id : ℕ
  pub worker_id : ℕ
  pub num_worker_threads : ℕ
  pub num_qps_per_aggregator_per_thread : ℕ
  pub num_aggregators : ℕ
  pub num_comm_buff : ℕ
  pub element_size : ℕ
  pub buff_unit_size : ℕ
  pub prepost_recv_num : ℕ
  pub typecode : ℕ
  pub own_qp_num : ℕ → ℕ
  pub qps : QpTable

-- `tensor` is the memory at tu.ptr.
pub record State : Type 0 where
  pub current_offset : ℕ → ℕ
  pub buff_index : ℕ → ℕ
  pub finished_blocks : ℕ → ℕ
  pub finished_slots : ℕ
  pub comm_buf : Memory
  pub tensor : Memory

-- The queue pair of a global slot, for the first message.
unfoldable pub slot_qid : Env → ℕ → ℕ
slot_qid e slot =
    let per_thread = u32 (e.num_qps_per_aggregator_per_thread * e.num_aggregators) in
    u32 (
      slot / e.num_slots_per_thread * e.num_qps_per_aggregator_per_thread * e.num_aggregators
      + slot % per_thread)

unfoldable pub send_qid : Env → ℕ → ℕ → ℕ
send_qid e slot qp_num = if qp_num == 0 then slot_qid e slot else e.qps.qp_num_revert qp_num

unfoldable pub send_peer : Env → ℕ → ℕ → ℕ
send_peer e slot qp_num =
    if qp_num == 0
    then e.qps.qp_num_to_peerid (e.own_qp_num (slot_qid e slot))
    else e.qps.qp_num_to_peerid qp_num

unfoldable pub post_receive_client : Env → ℕ → ℕ → Request
post_receive_client e slot qp_num = Request.receive (send_qid e slot qp_num) 0

-- The buffer of a global slot: one for each message of the slot under way.
unfoldable pub message_addr : Env → ℕ → ℕ → ℕ
message_addr e slot buff_index = u32 (
    (2 * e.message_size * slot
      + buff_index * (2 * e.message_size) * e.num_slots_per_thread * e.num_worker_threads)
    * e.buff_unit_size)

-- How many words of the block at `offset` are copied to the message.
unfoldable pub send_words : Env → ℕ → ℕ
send_words e offset =
    if ltb e.tensor_size (sub32 (offset + e.block_size) e.start_offset)
    then (if ltb (sub32 offset e.start_offset) e.tensor_size
        then u32 (sub32 (e.start_offset + e.tensor_size) offset * e.element_size) / 4
        else 0)
    else u32 (e.block_size * e.element_size) / 4

-- Blocks `i`, `i + 1`, … of a message.
unfoldable pub fill_blocks : Env → Memory → ℕ → ℕ → List (ℕ × ℕ) → Memory → Memory
fill_blocks e tensor tmp i [] m = m
fill_blocks e tensor tmp i ((current, next) ∷ bs) m = fill_blocks e tensor tmp (i + 1) bs (
    copy_words (send_words e current) (tmp + u32 (i * e.block_size * e.element_size))
      (u32 (current * e.element_size)) tensor m)

-- Behind the blocks, the next offset of each.
unfoldable pub fill_offsets : ℕ → List (ℕ × ℕ) → Memory → Memory
fill_offsets dst [] m = m
fill_offsets dst ((current, next) ∷ bs) m = fill_offsets (dst + 4) bs (update m dst next)

-- Where the message goes in the aggregator's buffer.
unfoldable pub remote_addr : Env → ℕ → ℕ
remote_addr e slot = u32 (
    (2 * e.message_size * slot
      + 2 * e.message_size * e.num_slots_per_thread * e.num_worker_threads * e.worker_id)
    * e.buff_unit_size)

unfoldable pub post_send_client :
    Env → List (ℕ × ℕ) → ℕ → ℕ → ℕ → Memory → Memory → Memory × Request
post_send_client e blocks slot qp_num buff_index tensor comm_buf =
    let tmp = message_addr e slot buff_index in
    let num = length blocks in
    (
      fill_offsets (tmp + u32 (e.block_size * num * e.element_size)) blocks
          (fill_blocks e tensor tmp 0 blocks comm_buf),
      Request.send (record {
        qid = send_qid e slot qp_num;
        peer = send_peer e slot qp_num;
        local_addr = tmp;
        length = u32 (e.block_size * num * e.element_size + num * 4);
        remote_addr = remote_addr e slot;
        imm_data = imm_data e.typecode num slot;
      }),
    )

-- The receives that the thread posts before it takes tensors: `n` for each of the slots from `i` on.
unfoldable pub prepost : Env → ℕ → ℕ → List Request
prepost e i zero = []
prepost e i (suc n) =
    post_receive_client e (u32 (i + e.num_slots_per_thread * e.thread_id)) 0 ∷ prepost e i n

unfoldable pub prepost_all : Env → ℕ → ℕ → List Request
prepost_all e i zero = []
prepost_all e i (suc n) = prepost e i e.prepost_recv_num ++ prepost_all e (i + 1) n

-- The code of a type; other types end in exit(1).
unfoldable pub tensor_typecode : TensorUpdateType → Option ℕ
tensor_typecode TensorUpdateType.int32 = some (type_code TensorUpdateType.int32)
tensor_typecode TensorUpdateType.float32 = some (type_code TensorUpdateType.float32)
tensor_typecode _ = none

-- A new tensor, with the block size of the configuration at that time: the part, and the counters at zero.
unfoldable pub accept :
    TensorUpdate → (block_size : ℕ) → (ℕ → ℕ) → Memory → Env → State → Option (Env × State)
accept tu block_size bitmap tensor e s = elim (tensor_typecode tu.type) [
  | none ↦ none
  | some code ↦ some (
    record e {
      part = record (e.part) {
        start_offset = tu.start_idx;
        tensor_size = tu.count;
        block_count = tu.block_count;
        bitmap = bitmap;
        block_size = block_size;
        num_blocks_per_thread = u32 (e.num_slots_per_thread * (e.message_size / block_size));
      };
      element_size = 4;
      typecode = code;
    },
    record s {
      buff_index = λ i. if ltb i e.num_slots_per_thread then 0 else s.buff_index i;
      finished_blocks = λ i. if ltb i e.num_slots_per_thread then 0 else s.finished_blocks i;
      finished_slots = 0;
      tensor = tensor;
    },
  )
]

unfoldable pub total_num_msgs : Part → ℕ
total_num_msgs p =
    if not (p.tensor_size % p.message_size == 0) && ltb 0 p.tensor_size
    then u32 (p.tensor_size / p.message_size + 1)
    else p.tensor_size / p.message_size

unfoldable pub first_burst : Part → ℕ
first_burst p =
    if ltb (total_num_msgs p) p.num_slots_per_thread
    then total_num_msgs p
    else p.num_slots_per_thread

unfoldable pub block_index : Env → ℕ → ℕ
block_index e offset = offset / e.block_size % e.num_blocks_per_thread

-- The search from one round after `offset`; `none` is a search without end.
unfoldable pub next_after : Env → ℕ → ℕ → Option ℕ
next_after e fuel offset =
    find_next_nonzero_block e.part fuel (u32 (offset + e.message_size * e.num_slots_per_thread))

-- Blocks `j` to `j + n - 1` of message `i` of the first burst.
unfoldable pub open_blocks : Env → ℕ → ℕ → ℕ → ℕ → State → Option (State × List (ℕ × ℕ))
open_blocks e fuel i j zero s = some (s, [])
open_blocks e fuel i j (suc n) s =
    let current = u32 (e.start_offset + i * e.message_size + j * e.block_size) in
    let rest =
      open_blocks e fuel i (j + 1) n
        (record s { current_offset = update s.current_offset (block_index e current) current }) in
    elim (next_after e fuel current) [
      | none ↦ none
      | some next ↦ elim rest [ none ↦ none | some (s', bs) ↦ some (s', (current, next) ∷ bs) ]
    ]

-- Messages `i` to `i + n - 1` of the first burst.
unfoldable pub burst : Env → ℕ → ℕ → ℕ → State → Option (State × List Request)
burst e fuel i zero s = some (s, [])
burst e fuel i (suc n) s =
    let rest = burst e fuel (i + 1) n in
    elim (open_blocks e fuel i 0 (e.message_size / e.block_size) s) [
      | none ↦ none
      | some (s1, blocks) ↦
          let slot = u32 (
            (e.start_offset / e.message_size + i) % e.num_slots_per_thread
            + e.num_slots_per_thread * e.thread_id) in
          let (comm_buf, r) = post_send_client e blocks slot 0 0 s1.tensor s1.comm_buf in
          elim (rest (record s1 { comm_buf = comm_buf })) [
            | none ↦ none
            | some (s2, rs) ↦ some (s2, r ∷ rs)
          ]
    ]

-- Where the answer to a slot lies.
unfoldable pub answer_addr : Env → ℕ → ℕ → ℕ
answer_addr e slot buff_index = u32 (
    (slot * (2 * e.message_size)
      + e.thread_id * (2 * e.message_size) * e.num_slots_per_thread
      + buff_index * (2 * e.message_size) * e.num_slots_per_thread * e.num_worker_threads)
    * e.buff_unit_size)

-- copy_size, in bytes.
unfoldable pub copy_size : Env → ℕ → ℕ
copy_size e current =
    let left = u32 (sub32 (e.start_offset + e.tensor_size) current * e.element_size) in
    let whole = u32 (e.block_size * e.element_size) in if ltb whole left then whole else left

-- The reduced block `k` of an answer goes to its place in the tensor.
unfoldable pub store_block : Env → ℕ → ℕ → ℕ → State → State
store_block e slot bid k s =
    let current = s.current_offset bid in
    record s {
      tensor =
          copy_words (copy_size e current / 4) (u32 (current * e.element_size))
            (u32 (k * e.block_size * e.element_size) + answer_addr e slot (s.buff_index slot))
            s.comm_buf s.tensor;
    }

-- Block `k` of an answer: stored, and if the next block asked for is one of this worker's, queued with
-- its successor.
unfoldable pub take_block : Env → ℕ → ℕ → ℕ → ℕ → State → Option (State × List (ℕ × ℕ))
take_block e fuel slot num k s =
    let meta = s.comm_buf (
      u32 (e.block_size * num * e.element_size) + answer_addr e slot (s.buff_index slot) + 4 * k) in
    let bid = block_index e meta in
    let stored = store_block e slot bid k s in
    let moved = record stored { current_offset = update stored.current_offset bid meta } in
    if ltb meta (e.inf_offset 0)
    then (if e.bitmap (meta / e.block_size) == 0
        then elim (next_after e fuel meta) [
          | none ↦ none
          | some next ↦ some (moved, (meta, next) ∷ [])
        ]
        else some (moved, []))
    else some (
      record moved {
        finished_blocks = update moved.finished_blocks slot (u32 (moved.finished_blocks slot + 1));
      },
      [],
    )

-- Blocks `k` to `k + n - 1`.
unfoldable pub take_blocks : Env → ℕ → ℕ → ℕ → ℕ → ℕ → State → Option (State × List (ℕ × ℕ))
take_blocks e fuel slot num k zero s = some (s, [])
take_blocks e fuel slot num k (suc n) s =
    let rest = take_blocks e fuel slot num (k + 1) n in
    elim (take_block e fuel slot num k s) [
      | none ↦ none
      | some (s1, bs) ↦ elim (rest s1) [ none ↦ none | some (s2, cs) ↦ some (s2, bs ++ cs) ]
    ]

-- The reply to an answer: the queued blocks, unless there are none or the slot is finished.
unfoldable pub reply : Env → ℕ → ℕ → List (ℕ × ℕ) → State → State × List Request
reply e slot qp_num blocks s =
    if ltb (s.finished_blocks slot) (e.message_size / e.block_size)
    then (if ltb 0 (length blocks)
        then (let (comm_buf, r) =
              post_send_client e blocks (u32 (slot + e.num_slots_per_thread * e.thread_id)) qp_num
                (s.buff_index slot) s.tensor s.comm_buf in
            (record s { comm_buf = comm_buf }, r ∷ []))
        else (s, []))
    else (record s { finished_slots = u32 (s.finished_slots + 1) }, [])

-- One successful completion of an RDMA write with immediate data `imm` on queue pair `qp_num`.
unfoldable pub handle : Env → ℕ → ℕ → ℕ → State → Option (State × List Request)
handle e fuel imm qp_num s =
    let slot = imm_slot imm % e.num_slots_per_thread in
    let num = imm_num imm in
    let posted = post_receive_client e (u32 (slot + e.num_slots_per_thread * e.thread_id)) qp_num in
    elim (take_blocks e fuel slot num 0 num s) [
      | none ↦ none
      | some (s1, blocks) ↦
          let numbered = record s1 {
            buff_index = update s1.buff_index slot ((s1.buff_index slot + 1) % e.num_comm_buff);
          } in
          let (s2, out) = reply e slot qp_num blocks numbered in some (s2, posted ∷ out)
    ]
