-- ===== src/Bitmap.antt =====
-- compute_bitmap of omnireduce/cuda_utils.cu and its kernel. The threads of a block run in an order that
-- is an argument, phase by phase between the barriers; the blocks write apart and are taken in turn.
-- `above x` is the comparison std::abs(x) > threshold, for float and for int.
pub mod Threads
pub mod Phases
pub mod Zeroed
use omnireduce.Base.{
  ℕ, zero, suc, ◌+◌, ◌*◌, ◌/◌, ◌%◌, Bool, true, false, ◌&&◌, List, [], ◌∷◌, ltb, ◌==◌,
  if◌then◌else◌, u32, update, loop_over,
}
use omnireduce.Outcome.{Outcome, ok, ◌>>=◌, divide}

-- The tensor and the bitmap in the memory of the GPU.
pub record Device : Type 0 where
  pub input : ℕ → ℕ
  pub bitmap : ℕ → ℕ

-- Up to the second barrier: the threads of a block from element `first` on write zero_block.
unfoldable pub test_phase : (above : ℕ → Bool) → (len first : ℕ) → List ℕ → Device → Bool → Bool
test_phase above len first [] d zero_block = zero_block
test_phase above len first (t ∷ ts) d zero_block =
    let hit = ltb (first + t) len && above (d.input (first + t)) in
    test_phase above len first ts d (if hit then false else zero_block)

-- Up to the last one: thread `t` writes its element, and the entry of block `b`.
unfoldable pub write_thread : (len first b : ℕ) → (zero_block : Bool) → ℕ → Device → Device
write_thread len first b zero_block t d =
    if ltb (first + t) len
    then (if zero_block
        then record d { input = update d.input (first + t) 0; bitmap = update d.bitmap b 1 }
        else record d { bitmap = update d.bitmap b 0 })
    else d

unfoldable pub write_phase : (len first b : ℕ) → (zero_block : Bool) → List ℕ → Device → Device
unfolding write_thread
write_phase len first b zero_block [] d = d
write_phase len first b zero_block (t ∷ ts) d =
    write_phase len first b zero_block ts (write_thread len first b zero_block t d)

-- Block `b`.
unfoldable pub bitmap_cuda_kernel :
    (above : ℕ → Bool) → (order : ℕ → List ℕ) → (len block_size b : ℕ) → Device → Device
unfolding test_phase write_phase
bitmap_cuda_kernel above order len block_size b d =
    let first = b * block_size in
    write_phase len first b (test_phase above len first (order b) d true) (order b) d

unfoldable pub compute_bitmap :
    (above : ℕ → Bool)
    → (order : ℕ → List ℕ) → (tensor_size block_size : ℕ) → Device
    → Outcome Device
unfolding bitmap_cuda_kernel
compute_bitmap above order tensor_size block_size d = do
  n ← divide tensor_size block_size
  let block_num = if tensor_size % block_size == 0 then u32 n else u32 (n + 1)
  ok (loop_over 0 block_num (bitmap_cuda_kernel above order tensor_size block_size) d)
