-- ===== src/DrWorker/Blocks.antt =====
-- The blocks of a thread's part: how many there are, and what of each is sent.
use omnireduce.Base.{
  ℕ, zero, suc, ◌+◌, ◌-◌, ◌*◌, ◌/◌, ◌%◌, ◌^◌, ◌≤◌, ◌<◌, ◌≡◌, ◌≢◌, inl, inr, arith, Bool-cases, ltb,
  ◌==◌, if◌then◌else◌, u32, sub32, div-add-mod, div-le_self, mul_mono,
}
use native.Mathlib.Nat.{mod-lt}
use omnireduce.NextBlock.{Part}
use omnireduce.DrWorker.{total_num_msgs, block_length}

-- The lengths of the first `n` blocks together.
abbrev pub lengths : Part → ℕ → ℕ
lengths p zero = 0
lengths p (suc n) = lengths p n + block_length p (p.start_offset + n * p.block_size)

module _ (p : Part) (block_pos : 0 < p.block_size)
    (small : p.start_offset + p.tensor_size + p.block_size < 2 ^ 32) where
  total_bounds :
      (p.tensor_size ≤ total_num_msgs p * p.block_size)
      × (total_num_msgs p * p.block_size < p.tensor_size + p.block_size)
  unfolding total_num_msgs
  total_bounds = elim (Bool-cases (p.tensor_size % p.block_size == 0)) [
    | inl e ↦
        let z : p.tensor_size % p.block_size ≡ 0 = ground arith in
        let d = div-add-mod p.tensor_size p.block_size block_pos in rw e (omega arith, omega arith)
    | inr e ↦
        let z : p.tensor_size % p.block_size ≢ 0 = ground arith in
        let d = div-add-mod p.tensor_size p.block_size block_pos in
        let wrapped : u32 (p.tensor_size / p.block_size + 1) ≡ p.tensor_size / p.block_size + 1 =
          omega (arith, div-le_self p.tensor_size p.block_size block_pos) in
        rw (e, wrapped) (omega (arith, mod-lt p.tensor_size block_pos), omega arith)
  ]

  block_length-eq :
      (x : ℕ)
      → x ≤ p.tensor_size
      → block_length p (p.start_offset + x)
        ≡ (if ltb p.block_size (p.tensor_size - x) then p.block_size else p.tensor_size - x)
  unfolding block_length
  block_length-eq x h =
      let left : sub32 p.tensor_size (sub32 (p.start_offset + x) p.start_offset)
          ≡ p.tensor_size - x =
        omega arith in
      rw left

  -- Under the same conditions, at an offset up to the end of the part: what a direct-memory
  -- worker sends of a block ends within the part and is at most a block.
  pub block_length-inside :
      (x : ℕ)
      → x ≤ p.tensor_size
      → (x + block_length p (p.start_offset + x) ≤ p.tensor_size)
        × (block_length p (p.start_offset + x) ≤ p.block_size)
  block_length-inside x h = rw (block_length-eq x h) (ground arith, ground arith)

  lengths-prefix :
      (n : ℕ)
      → n ≤ total_num_msgs p
      → lengths p n
        ≡ (if ltb p.tensor_size (n * p.block_size) then p.tensor_size else n * p.block_size)
  lengths-prefix zero h = ground arith
  lengths-prefix (suc n) h =
      let ih = lengths-prefix n (omega arith) in
      let before_end : n * p.block_size < p.tensor_size =
        omega (arith, mul_mono (suc n) (total_num_msgs p) p.block_size h, total_bounds) in
      let b = block_length-eq (n * p.block_size) (omega arith) in ground arith

  -- For blocks that are not empty and a part that leaves room for one more block in a
  -- uint32_t: the lengths that a direct-memory worker sends for the blocks of its part add up
  -- to the size of the part.
  pub lengths-total : lengths p (total_num_msgs p) ≡ p.tensor_size
  lengths-total =
      let t = total_bounds in
      let l = lengths-prefix (total_num_msgs p) (omega arith) in ground arith
