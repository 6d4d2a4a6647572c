-- ===== src/AllReduce.antt =====
-- AllReduce, AllReduce_NGDR, AllReduce_GDR and send_address of omnireduce/context.cpp: what a call does, as
-- the sequence of its effects. The versions for float and int32_t are one definition with the type as
-- argument. A tensor id is a positive int32_t, so that this holds for the first 2^31 - 1 calls.
pub mod Sequence
pub mod Adapted
use omnireduce.Base.{
  ℕ, ◌+◌, ◌*◌, ◌/◌, ◌%◌, Bool, true, false, List, [], ◌∷◌, ◌++◌, ◌==◌, if◌then◌else◌, u32, ℤ, pos,
  negsuc,
}
use omnireduce.Outcome.{Failure, Outcome, ok, failed, ◌>>=◌, divide}
use omnireduce.Common.{TensorUpdate, TensorUpdateType, OpType}
use omnireduce.Params.{Params, set_inf_offset}

-- The three words that send_address sends to every aggregator (src_).
pub record Address : Type 0 where
  pub count : ℕ
  pub typecode : TensorUpdateType
  pub block_size : ℕ

-- The effects, in order. `announce` is send_address, which returns when all aggregators are ready;
-- `hand_over` is send_tensor and `await` receive_result. The others are calls of CUDA: `bitmap_of`
-- computes a bitmap and copies it to the host, `alloc` and `release` are those of the bitmap.
pub data Call : Type 0 where
  set_device : ℕ → Call
  synchronize : Call
  alloc : ℕ → Call
  release : Call
  to_host from_host : (ptr count : ℕ) → Call
  bitmap_of : (ptr count block_size threshold : ℕ) → Call
  announce : Address → Call
  hand_over : TensorUpdate → Call
  await : ℕ → Call

-- The object that AllReduce is called on, and the parameters of the process.
pub record Caller : Type 0 where
  pub params : Params
  pub tid_counter : ℕ
  pub host_tensor : ℕ
  pub bitmap : ℕ

unfoldable pub send_address : Params → ℕ → TensorUpdateType → Call
send_address p count type =
    Call.announce (record { count = u32 count; typecode = type; block_size = p.block_size })

-- tid_counter.fetch_add(1)+1
unfoldable pub next_id : Caller → ℕ
next_id c = c.tid_counter + 1

unfoldable pub tensor_update :
    TensorUpdateType
    → (ptr count bitmap_ptr block_count : ℕ) → ℤ
    → (async bitmap_async : Bool) → (id : ℕ) → TensorUpdate
tensor_update type ptr count bitmap_ptr block_count dev_id async bitmap_async id = record {
  ptr = ptr;
  count = u32 count;
  start_idx = 0;
  id = id;
  root = 0;
  type = type;
  op = OpType.allreduce;
  bitmap_ptr = bitmap_ptr;
  block_count = block_count;
  dev_id = dev_id;
  async = async;
  bitmap_async = bitmap_async;
}

-- A tensor in host memory.
unfoldable pub all_reduce_host :
    TensorUpdateType → (ptr count bitmap_ptr block_count : ℕ) → Caller → Caller × List Call
unfolding send_address next_id tensor_update
all_reduce_host type ptr count bitmap_ptr block_count c =
    let id = next_id c in
    let tu = tensor_update type ptr count bitmap_ptr block_count (negsuc 0) false false id in
    let rest = Call.hand_over tu ∷ Call.await id ∷ [] in
    (
      record c { tid_counter = id },
      if c.params.direct_memory == 0 then rest else send_address c.params count type ∷ rest,
    )

-- A tensor on the GPU that is copied to the host and back.
unfoldable pub all_reduce_copied :
    TensorUpdateType → (ptr count bitmap_ptr block_count dev : ℕ) → Caller → Caller × List Call
unfolding next_id tensor_update
all_reduce_copied type ptr count bitmap_ptr block_count dev c =
    let id = next_id c in
    let tu =
      tensor_update type c.host_tensor count bitmap_ptr block_count (pos dev) false false id in
    (
      record c { tid_counter = id },
      Call.set_device dev
          ∷ Call.to_host ptr count
          ∷ Call.hand_over tu
          ∷ Call.await id
          ∷ Call.from_host ptr count
          ∷ [],
    )

-- A tensor on the GPU with a bitmap of the caller's.
unfoldable pub all_reduce_device :
    TensorUpdateType
    → (ptr count bitmap_ptr block_count dev : ℕ) → Bool
    → Caller
    → Caller × List Call
unfolding next_id tensor_update
all_reduce_device type ptr count bitmap_ptr block_count dev async c =
    let id = next_id c in
    let tu = tensor_update type ptr count bitmap_ptr block_count (pos dev) async false id in
    (
      record c { tid_counter = id },
      Call.set_device dev ∷ Call.synchronize ∷ Call.hand_over tu ∷ Call.await id ∷ [],
    )

-- The blocks of a tensor, the last one perhaps partial.
unfoldable pub block_count_of : ℕ → ℕ → Outcome ℕ
block_count_of count block_size = do
  n ← divide count block_size
  ok (if count % block_size == 0 then n else u32 (n + 1))

-- The threshold of the bitmap: that of the configuration for float, 0 for int32_t.
unfoldable pub threshold_of : TensorUpdateType → Params → ℕ
threshold_of TensorUpdateType.float32 p = p.threshold
threshold_of _ p = 0

unfoldable pub all_reduce_ngdr :
    TensorUpdateType
    → (ptr count dev : ℕ) → (async bitmap_async : Bool) → Caller
    → Outcome (Caller × List Call)
unfolding next_id tensor_update block_count_of threshold_of
all_reduce_ngdr type ptr count dev async bitmap_async c = do
  n ← block_count_of count c.params.block_size
  let id = next_id c
  let tu = tensor_update type ptr count c.bitmap n (pos dev) async bitmap_async id
  let rest = Call.hand_over tu ∷ Call.await id ∷ Call.release ∷ []
  let prepared =
      if bitmap_async
      then rest
      else Call.bitmap_of ptr count c.params.block_size (threshold_of type c.params) ∷ rest
  ok (record c { tid_counter = id }, Call.set_device dev ∷ Call.alloc n ∷ prepared)

unfoldable pub all_reduce_gdr :
    TensorUpdateType → (ptr count dev : ℕ) → Caller → Outcome (Caller × List Call)
unfolding send_address next_id tensor_update block_count_of threshold_of
all_reduce_gdr type ptr count dev c = do
  n ← block_count_of count c.params.block_size
  let id = next_id c
  let tu = tensor_update type ptr count c.bitmap n (negsuc 0) false false id
  if c.params.direct_memory == 0
      then failed Failure.not_direct
      else ok (
        record c { tid_counter = id },
        Call.set_device dev
            ∷ Call.alloc n
            ∷ Call.bitmap_of ptr count c.params.block_size (threshold_of type c.params)
            ∷ send_address c.params count type
            ∷ Call.hand_over tu
            ∷ Call.await id
            ∷ Call.release
            ∷ [],
      )

-- The block size that adaptive_blocksize sets, with direct memory and without.
abbrev pub adaptive_size : ℕ
adaptive_size = 256

unfoldable pub adapt_direct : Params → Params
adapt_direct p =
    let q = record p { block_size = adaptive_size; message_size = adaptive_size } in
    set_inf_offset q.num_slots_per_thread q

unfoldable pub adapt : Params → Params
adapt p =
    let q = record p { block_size = adaptive_size } in
    set_inf_offset (u32 (q.num_slots_per_thread * (q.message_size / adaptive_size))) q

-- AllReduce(ptr, count, stream, devId), the entry for tensors on the GPU.
unfoldable pub all_reduce :
    TensorUpdateType → (ptr count dev : ℕ) → Caller → Outcome (Caller × List Call)
unfolding send_address adapt_direct adapt all_reduce_ngdr all_reduce_gdr
all_reduce type ptr count dev c =
    let adaptive = if c.params.adaptive_blocksize == 0 then false else true in
    if c.params.gpu_dev_id == dev
    then (if c.params.direct_memory == 0
        then (if adaptive
            then (do
              let d = record c { params = adapt c.params }
              (e, calls) ← all_reduce_ngdr type ptr count dev true false d
              ok (e, Call.set_device dev ∷ send_address d.params count type ∷ calls))
            else (do
              (e, calls) ← all_reduce_ngdr type ptr count dev true false c
              ok (e, Call.set_device dev ∷ calls)))
        else (do
          let d = if adaptive then record c { params = adapt_direct c.params } else c
          (e, calls) ← all_reduce_gdr type ptr count dev d
          ok (e, Call.set_device dev ∷ calls)))
    else failed Failure.gpu_mismatch
