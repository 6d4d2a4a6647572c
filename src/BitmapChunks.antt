-- ===== src/BitmapChunks.antt =====
-- The bitmap that worker of omnireduce/worker.cpp lets the device compute in chunks (bitmap_async), and
-- the search that waits for it. A launch is given by its elements of the tensor and its entries of the
-- bitmap.
pub mod Started
pub mod Search
use omnireduce.Base.{
  ℕ, zero, suc, ◌+◌, ◌-◌, ◌*◌, ◌/◌, ◌%◌, Bool, true, List, [], ◌∷◌, Option, none, some, ◌==◌,
  if◌then◌else◌, u32, sub32, update,
}
use omnireduce.Common.{TensorUpdateType}
use omnireduce.Outcome.{Failure, Outcome, ok, failed, ◌>>=◌, ◌>>◌}
use omnireduce.NextBlock.{Part, in_part}
use omnireduce.Worker.{Env}
use omnireduce.Chunks.{chunk_num}

-- compute_bitmap on `count` elements from `first` on, then a copy of `entries` entries from `entry` of
-- the bitmap on the device to entry `to` of bitmap_ptr.
pub record Launch : Type 0 where
  pub first : ℕ
  pub count : ℕ
  pub entry : ℕ
  pub to : ℕ
  pub entries : ℕ

-- The blocks of the part.
unfoldable pub part_blocks : Env → ℕ
part_blocks e =
    let n = e.tensor_size / e.block_size in
    if e.tensor_size % e.block_size == 0 then n else u32 (n + 1)

-- The last of `n` chunks.
unfoldable pub last_launch : Env → (b_chunk_size n : ℕ) → Launch
unfolding part_blocks
last_launch e b_chunk_size n =
    let before = u32 (b_chunk_size * (n - 1)) / e.element_size in
    record {
      first = e.start_offset + before;
      count = sub32 e.tensor_size before;
      entry = before / e.block_size;
      to = e.start_offset / e.block_size + before / e.block_size;
      entries = sub32 (part_blocks e) (before / e.block_size);
    }

-- The switch after the loop.
unfoldable pub launch_last : Env → TensorUpdateType → (b_chunk_size n : ℕ) → Outcome (List Launch)
launch_last e TensorUpdateType.int32 b_chunk_size n = ok (last_launch e b_chunk_size n ∷ [])
launch_last e TensorUpdateType.float32 b_chunk_size n = ok (last_launch e b_chunk_size n ∷ [])
launch_last e _ b_chunk_size n = failed Failure.data_type

-- The switch in the loop has no break: whatever the type, the first of the other chunks falls through to
-- exit(1).
unfoldable pub launch_before : (rounds : ℕ) → Outcome (Unit {0})
launch_before zero = ok tt
launch_before (suc n) = failed Failure.data_type

unfoldable pub bitmap_launches : Env → TensorUpdateType → ℕ → Outcome (List Launch)
unfolding chunk_num launch_before launch_last
bitmap_launches e type b_chunk_size = if e.tensor_size == 0 then ok [] else (do
  n ← chunk_num e b_chunk_size
  launch_before (sub32 n 1)
  launch_last e type b_chunk_size n)

-- b_chunk_id of the block at `offset`.
unfoldable pub b_chunk_of : Part → (element_size b_chunk_size offset : ℕ) → ℕ
b_chunk_of p element_size b_chunk_size offset =
    u32 (sub32 offset p.start_offset * element_size) / b_chunk_size

-- The while loop of find_next_nonzero_block with its waits: the offset, and b_chunk_finished. The device
-- fills tu.bitmap_ptr meanwhile: `host` gives its entries when the chunks of its argument are finished.
unfoldable pub scan_waiting :
    Part
    → (host : (ℕ → Bool) → ℕ → ℕ) → (element_size b_chunk_size stride max_index fuel offset : ℕ)
    → (ℕ → Bool)
    → Option (ℕ × (ℕ → Bool))
scan_waiting p host element_size b_chunk_size stride max_index zero offset finished = none
scan_waiting p host element_size b_chunk_size stride max_index (suc fuel) offset finished =
    let waited = update finished (b_chunk_of p element_size b_chunk_size offset) true in
    let rest =
      scan_waiting p host element_size b_chunk_size stride max_index fuel (u32 (offset + stride))
        waited in
    if in_part p offset
    then (if host waited (offset / p.block_size) == 0 then some (offset, waited) else rest)
    else some (max_index, finished)

unfoldable pub find_next_waiting :
    Part
    → (host : (ℕ → Bool) → ℕ → ℕ) → (element_size b_chunk_size fuel next_offset : ℕ) → (ℕ → Bool)
    → Option (ℕ × (ℕ → Bool))
find_next_waiting p host element_size b_chunk_size fuel next_offset finished =
    let bid = next_offset / p.block_size % p.num_blocks_per_thread in
    scan_waiting p host element_size b_chunk_size (u32 (p.num_slots_per_thread * p.message_size))
      (p.inf_offset bid) fuel next_offset finished
