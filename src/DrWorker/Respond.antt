-- ===== src/DrWorker/Respond.antt =====
-- How a worker answers an aggregator that asks for a block.
use omnireduce.Base.{ℕ, ◌+◌, ◌*◌, ◌/◌, ◌%◌}
use omnireduce.NextBlock.Scan.{First}
use omnireduce.DrWorker.{Env}

-- The distance between two blocks of a slot.
abbrev pub stride : Env → ℕ
stride e = e.num_blocks_per_thread * e.block_size

-- The search that follows the block at `asked`.
abbrev pub IsNext : Env → ℕ → ℕ → Type 0
IsNext e asked next =
    First e.part (stride e)
      (e.inf_offset ((asked + stride e) / e.block_size % e.num_blocks_per_thread))
      (asked + stride e) next
