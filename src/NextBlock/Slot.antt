-- ===== src/NextBlock/Slot.antt =====
-- The next block belongs to the same slot as the last one, so that the receiver of an offset finds the
-- slot in it, sentinels included.
use native.Mathlib.Nat.{add-mul-div_right, add-mul-mod_self_right, mod-lt}
use omnireduce.Base.{
  ◌∙◌, mul-pos, ℕ, ◌+◌, ◌*◌, ◌/◌, ◌%◌, ◌^◌, ◌≤◌, ◌<◌, ◌≡◌, arith, some, u32, u32_mod,
}
use omnireduce.Params.{inf_offset_at}
use omnireduce.Params.InfOffset.{inf_offset-index}
use omnireduce.NextBlock.{scan, Part, find_next_nonzero_block, dr_find_next_nonzero_block}
use omnireduce.NextBlock.Scan.{First, found, exhausted, scan-First}

-- What the configuration guarantees: a message is a whole number of blocks, the sentinels are those of
-- setInfOffset, and the part leaves room for one more round in a uint32_t.
pub record Geometry (blocks_per_message : ℕ) (p : Part) : Type 0 where
  pub block_pos : 0 < p.block_size
  pub slots_pos : 0 < p.num_slots_per_thread
  pub message_pos : 0 < blocks_per_message
  pub message : p.message_size ≡ blocks_per_message * p.block_size
  pub blocks : p.num_blocks_per_thread ≡ p.num_slots_per_thread * blocks_per_message
  pub round_small : p.num_blocks_per_thread * p.block_size < u32_mod
  pub sentinels : p.inf_offset ≡ inf_offset_at p.block_size p.num_blocks_per_thread
  pub room : p.start_offset + p.tensor_size + p.num_blocks_per_thread * p.block_size ≤ 2 ^ 32

-- `k` rounds further the block has the same index.
index-add_rounds : (a k m b : ℕ) → 0 < b → 0 < m → (a + k * (m * b)) / b % m ≡ a / b % m
index-add_rounds a k m b pos h =
    let e : a + k * (m * b) ≡ a + k * m * b = omega arith in
    rw (e, add-mul-div_right a (k * m) pos) (add-mul-mod_self_right (a / b) k m)

First-index :
    (p : Part) (m next r : ℕ)
    → 0 < p.block_size
    → 0 < m
    → m * p.block_size < u32_mod
    → p.inf_offset ≡ inf_offset_at p.block_size m
    → First p (m * p.block_size) (p.inf_offset (next / p.block_size % m)) next r
    → r / p.block_size % m ≡ next / p.block_size % m
First-index p m next r pos h small e (found k r' q inside set before) =
    rw q (index-add_rounds next k m p.block_size pos h)
First-index p m next r pos h small e (exhausted none_set) =
    rw e (inf_offset-index p.block_size m pos h small (next / p.block_size % m) (mod-lt _ h))

module _ (blocks_per_message : ℕ) (p : Part) (g : Geometry blocks_per_message p) where
  abbrev m : ℕ
  m = p.num_blocks_per_thread

  m_pos : 0 < m
  m_pos =
      rw (g.blocks) (mul-pos p.num_slots_per_thread blocks_per_message g.slots_pos g.message_pos)

  stride-eq : u32 (p.num_slots_per_thread * p.message_size) ≡ m * p.block_size
  stride-eq =
      let e : p.num_slots_per_thread * p.message_size ≡ m * p.block_size =
        rw (g.message, g.blocks) (omega arith) in
      rw e (omega (arith, g.round_small))

  -- When a message is a whole number of blocks, the sentinels are those of setInfOffset and
  -- the part leaves one round of room in a uint32_t: from an offset at or above the start of
  -- the part, with fuel beyond its end, the search ends; its result is the first block at a
  -- whole number of rounds from the offset that is not all zero, or else the sentinel, and has
  -- the block index of the offset.
  pub find_next_nonzero_block-First :
      (next fuel : ℕ)
      → 0 < fuel
      → p.start_offset ≤ next
      → next < 2 ^ 32
      → p.start_offset + p.tensor_size < next + fuel
      → (r : ℕ) × (find_next_nonzero_block p fuel next ≡ some r)
        × First p (m * p.block_size) (p.inf_offset (next / p.block_size % m)) next r
        × (r / p.block_size % m ≡ next / p.block_size % m)
  unfolding find_next_nonzero_block
  find_next_nonzero_block-First next fuel pos low small enough =
      let (r, ran, f) =
        scan-First p (m * p.block_size) (p.inf_offset (next / p.block_size % m))
          (mul-pos m p.block_size m_pos g.block_pos) g.room fuel next pos low small enough in
      (r, rw stride-eq ran, f, First-index p m next r g.block_pos m_pos g.round_small g.sentinels f)

  dr_find-scan :
      (next fuel : ℕ)
      → blocks_per_message ≡ 1
      → dr_find_next_nonzero_block p fuel next
        ≡ scan p (m * p.block_size) (p.inf_offset (next / p.block_size % m)) fuel next
  unfolding dr_find_next_nonzero_block
  dr_find-scan next fuel one =
      let slots : p.num_slots_per_thread ≡ m = rw (g.blocks, one) (omega arith) in
      let wrapped : u32 (m * p.block_size) ≡ m * p.block_size = omega (arith, g.round_small) in
      simp (slots, wrapped)

  -- The same for the search with direct memory, where a message is one block.
  pub dr_find_next_nonzero_block-First :
      (next fuel : ℕ)
      → blocks_per_message ≡ 1
      → 0 < fuel
      → p.start_offset ≤ next
      → next < 2 ^ 32
      → p.start_offset + p.tensor_size < next + fuel
      → (r : ℕ) × (dr_find_next_nonzero_block p fuel next ≡ some r)
        × First p (m * p.block_size) (p.inf_offset (next / p.block_size % m)) next r
        × (r / p.block_size % m ≡ next / p.block_size % m)
  dr_find_next_nonzero_block-First next fuel one pos low small enough =
      let (r, ran, f) =
        scan-First p (m * p.block_size) (p.inf_offset (next / p.block_size % m))
          (mul-pos m p.block_size m_pos g.block_pos) g.room fuel next pos low small enough in
      (
        r,
        dr_find-scan next fuel one ∙ ran,
        f,
        First-index p m next r g.block_pos m_pos g.round_small g.sentinels f,
      )
