-- ===== src/Params/Consistent.antt =====
-- What the threads rely on in the parameters.
use omnireduce.Base.{◌^◌, ◌<◌, ◌≡◌, ◌≢◌, ◌⊎◌}
use omnireduce.Params.{Params, inf_offset_at, num_blocks_per_thread}

-- The sentinels are those of the block size and the blocks of a thread, and with direct memory a message
-- is one block.
pub record IsConsistent (p : Params) : Type 0 where
  pub block_pos : p.block_size ≢ 0
  pub slots_small : p.num_slots_per_thread < 2 ^ 32
  pub sentinels : p.inf_offset ≡ inf_offset_at p.block_size (num_blocks_per_thread p)
  pub direct : (p.direct_memory ≡ 0) ⊎ ((p.direct_memory ≡ 1) × (p.message_size ≡ p.block_size))
