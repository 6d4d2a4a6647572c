-- ===== src/NextBlock.antt =====
-- find_next_nonzero_block and dr_find_next_nonzero_block of omnireduce/worker.cpp: the next block of
-- a slot that a worker has to send. A bitmap entry 0 marks a block that is not all zero.
-- The bitmap is there; the wait for an asynchronous copy (bitmap_async, CUDA only) is in BitmapChunks.
pub mod Scan
pub mod Slot
pub mod Respond
use omnireduce.Base.{
  ℕ, zero, suc, ◌+◌, ◌*◌, ◌/◌, ◌%◌, Bool, ◌&&◌, Option, none, some, ltb, ◌==◌, if◌then◌else◌, u32,
  sub32,
}

-- The thread's part of a tensor and its blocks.
pub record Part : Type 0 where
  pub start_offset : ℕ
  pub tensor_size : ℕ
  pub block_count : ℕ
  pub bitmap : ℕ → ℕ
  pub block_size : ℕ
  pub num_slots_per_thread : ℕ
  pub message_size : ℕ
  pub num_blocks_per_thread : ℕ
  pub inf_offset : ℕ → ℕ

-- next_nonzero_offset-start_offset<tensor_size && next_nonzero_offset/block_size < tu.block_count
unfoldable pub in_part : Part → ℕ → Bool
in_part p offset =
    ltb (sub32 offset p.start_offset) p.tensor_size && ltb (offset / p.block_size) p.block_count

-- The while loop with step `stride`; `none` means that the fuel ran out.
unfoldable pub scan : Part → (stride max_index fuel offset : ℕ) → Option ℕ
scan p stride max_index zero offset = none
scan p stride max_index (suc fuel) offset =
    let rest = scan p stride max_index fuel (u32 (offset + stride)) in
    if in_part p offset
    then (if p.bitmap (offset / p.block_size) == 0 then some offset else rest)
    else some max_index

unfoldable pub find_next_nonzero_block : Part → ℕ → ℕ → Option ℕ
find_next_nonzero_block p fuel next_offset =
    let bid = next_offset / p.block_size % p.num_blocks_per_thread in
    scan p (u32 (p.num_slots_per_thread * p.message_size)) (p.inf_offset bid) fuel next_offset

unfoldable pub dr_find_next_nonzero_block : Part → ℕ → ℕ → Option ℕ
dr_find_next_nonzero_block p fuel next_offset =
    let bid = next_offset / p.block_size % p.num_slots_per_thread in
    scan p (u32 (p.num_slots_per_thread * p.block_size)) (p.inf_offset bid) fuel next_offset
