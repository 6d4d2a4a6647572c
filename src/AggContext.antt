-- ===== src/AggContext.antt =====
-- AggContext of omnireduce/aggcontext.cpp: how the aggregator learns of a tensor from all workers,
-- takes over its block size, and splits it over the threads.
pub mod Starts
pub mod Learn
pub mod Collect
pub mod Rows
pub mod FirstOffsets
use omnireduce.Base.{
  ℕ, zero, suc, ◌+◌, ◌*◌, ◌/◌, ◌%◌, Bool, List, [], ◌∷◌, ◌++◌, Option, some, none, ltb, ◌==◌, ◌||◌,
  if◌then◌else◌, u32, sub32, update,
}
use omnireduce.Outcome.{Failure, Outcome, ok, failed, ◌>>=◌, divide}
use omnireduce.Common.{TensorUpdateType}
use omnireduce.Params.{Params, set_inf_offset}
use omnireduce.AllReduce.{Address}

-- The messages of thread `t`, in blocks.
unfoldable pub block_share : (count block_size num_server_threads t : ℕ) → ℕ
block_share count block_size num_server_threads t =
    let blocks =
      if count % block_size == 0 then count / block_size else u32 (count / block_size + 1) in
    if ltb t (blocks % num_server_threads)
    then u32 (blocks / num_server_threads + 1)
    else blocks / num_server_threads

unfoldable pub server_count : (count block_size num_server_threads t start_offset : ℕ) → ℕ
server_count count block_size num_server_threads t start_offset =
    if t == 0
    then sub32 count start_offset
    else u32 (block_share count block_size num_server_threads t * block_size)

-- start_offset of threads `t - 1` down to 0.
unfoldable pub server_starts : (count block_size num_server_threads t start_offset : ℕ) → List ℕ
server_starts count block_size n zero start_offset = []
server_starts count block_size n (suc t) start_offset =
    start_offset
    ∷ server_starts count block_size n t
        (u32 (start_offset + server_count count block_size n t start_offset))

-- current_offset_thread of a thread: slots `c` to `c + n - 1` of its part.
unfoldable pub first_offsets : (block_size num_slots start_offset c n : ℕ) → (ℕ → ℕ) → ℕ → ℕ
first_offsets block_size num_slots start_offset c zero row = row
first_offsets block_size num_slots start_offset c (suc n) row =
    let offset = u32 (start_offset + c * block_size) in
    first_offsets block_size num_slots start_offset (c + 1) n
      (update row (offset / block_size % num_slots) offset)

-- What is posted on the queue pairs for addresses: post_receive_address and post_send_ready.
pub data AddressRequest : Type 0 where
  receive_address send_ready : (worker_id : ℕ) → AddressRequest

-- The fields that StartMaster reads and writes; `srcs` is where the addresses of the workers arrive.
pub record Server : Type 0 where
  pub params : Params
  pub srcs : ℕ → Address
  pub worker_count : ℕ
  pub tensor_size : ℕ
  pub typecode : TensorUpdateType
  pub element_size : ℕ
  pub current_offset_thread : ℕ → ℕ → ℕ

unfoldable pub receive_addresses : (w n : ℕ) → List AddressRequest
receive_addresses w zero = []
receive_addresses w (suc n) = receive_address w ∷ receive_addresses (w + 1) n

unfoldable pub send_readies : (w n : ℕ) → List AddressRequest
send_readies w zero = []
send_readies w (suc n) = send_ready w ∷ send_readies (w + 1) n

-- Before the loop.
unfoldable pub first_receives : Params → List AddressRequest
first_receives p =
    if p.direct_memory == 0
    then (if p.adaptive_blocksize == 1 then receive_addresses 0 p.num_workers else [])
    else receive_addresses 0 p.num_workers

-- setBlockSize, setMessageSize with direct memory, and setInfOffset.
unfoldable pub take_size : ℕ → Params → Outcome Params
take_size block_size p = do
  let q =
      if p.direct_memory == 1
      then record p { block_size = block_size; message_size = block_size }
      else record p { block_size = block_size }
  n ← divide q.message_size q.block_size
  ok (set_inf_offset (u32 (q.num_slots_per_thread * n)) q)

-- The address of one worker; other types end in exit(1).
unfoldable pub learn : Address → Server → Outcome Server
unfolding take_size
learn a s =
    let taken = (do
      p ← take_size a.block_size s.params
      ok (record s {
        params = p;
        tensor_size = a.count;
        typecode = a.typecode;
        element_size = 4;
      })) in
    elim a.typecode [
      | TensorUpdateType.no_type ↦ failed Failure.data_type
      | TensorUpdateType.int32 ↦ taken
      | TensorUpdateType.float32 ↦ taken
      | TensorUpdateType.float16 ↦ failed Failure.data_type
    ]

-- The addresses of workers `w` to `w + n - 1`.
unfoldable pub learn_all : (w n : ℕ) → Server → Outcome Server
learn_all w zero s = ok s
learn_all w (suc n) s = do t ← learn (s.srcs w) s; learn_all (w + 1) n t

-- Threads `t - 1` down to 0 of `num_server_threads`, the first of them from `start_offset` on.
unfoldable pub set_starts : (num_server_threads t start_offset : ℕ) → Server → Server
unfolding server_count block_share first_offsets
set_starts n zero start_offset s = s
set_starts n (suc t) start_offset s =
    let block_size = s.params.block_size in
    let row =
      first_offsets block_size s.params.num_slots_per_thread start_offset 0
        s.params.num_slots_per_thread (s.current_offset_thread t) in
    set_starts n t (u32 (start_offset + server_count s.tensor_size block_size n t start_offset))
      (record s { current_offset_thread = update s.current_offset_thread t row })

-- One completion of a receive on these queue pairs: an address has arrived in `srcs`.
unfoldable pub handle_address : Server → Outcome (Server × List AddressRequest)
handle_address s =
    let workers = s.params.num_workers in
    let arrived = s.worker_count + 1 in
    if arrived == workers
    then (do
      t ← learn_all 0 workers s
      let u = set_starts t.params.num_worker_threads t.params.num_worker_threads 0 t
      ok (record u { worker_count = 0 }, receive_addresses 0 workers ++ send_readies 0 workers))
    else ok (record s { worker_count = arrived }, [])
