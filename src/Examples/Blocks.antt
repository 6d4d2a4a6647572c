-- ===== src/Examples/Blocks.antt =====
-- A thread with two slots of two blocks, and a tensor of 12 blocks of which only block 6 is not zero.
use omnireduce.Base.{ℕ, ◌/◌, ◌%◌, ◌≡◌, refl, arith, some, ◌==◌, if◌then◌else◌}
use omnireduce.Params.{inf_offset_at}
use omnireduce.Wire.{imm_data, imm_typecode, imm_num, imm_slot}
use omnireduce.Wire.Roundtrip.{imm_data-roundtrip}
use omnireduce.NextBlock.{Part, find_next_nonzero_block, dr_find_next_nonzero_block}
use omnireduce.NextBlock.Scan.{First}
use omnireduce.NextBlock.Slot.{
  Geometry, find_next_nonzero_block-First, dr_find_next_nonzero_block-First,
}

abbrev sparse : Part
sparse = record {
  start_offset = 0;
  tensor_size = 24;
  block_count = 12;
  bitmap = λ b. if b == 6 then 0 else 1;
  block_size = 2;
  num_slots_per_thread = 2;
  message_size = 4;
  num_blocks_per_thread = 4;
  inf_offset = inf_offset_at 2 4;
}

abbrev direct : Part
direct = record sparse {
  message_size = 2;
  num_blocks_per_thread = 2;
  inf_offset = inf_offset_at 2 2;
}

sparse-Geometry : Geometry 2 sparse
sparse-Geometry = record {
  block_pos = omega arith;
  slots_pos = omega arith;
  message_pos = omega arith;
  message = refl;
  blocks = refl;
  round_small = omega arith;
  sentinels = refl;
  room = omega arith;
}

direct-Geometry : Geometry 1 direct
direct-Geometry = record {
  block_pos = omega arith;
  slots_pos = omega arith;
  message_pos = omega arith;
  message = refl;
  blocks = refl;
  round_small = omega arith;
  sentinels = refl;
  room = omega arith;
}

find_next_nonzero_block_example :
    (r : ℕ) × (find_next_nonzero_block sparse 30 4 ≡ some r)
    × First sparse 8 (inf_offset_at 2 4 2) 4 r
    × (r / 2 % 4 ≡ 2)
find_next_nonzero_block_example =
    find_next_nonzero_block-First 2 sparse sparse-Geometry 4 30 (omega arith) (omega arith)
      (omega arith) (omega arith)

dr_find_next_nonzero_block_example :
    (r : ℕ) × (dr_find_next_nonzero_block direct 30 4 ≡ some r)
    × First direct 4 (inf_offset_at 2 2 0) 4 r
    × (r / 2 % 2 ≡ 0)
dr_find_next_nonzero_block_example =
    dr_find_next_nonzero_block-First 1 direct direct-Geometry 4 30 refl (omega arith) (omega arith)
      (omega arith) (omega arith)

imm_data-roundtrip_example :
    (imm_typecode (imm_data 2 4 17) ≡ 2)
    × (imm_num (imm_data 2 4 17) ≡ 4)
    × (imm_slot (imm_data 2 4 17) ≡ 17)
imm_data-roundtrip_example = imm_data-roundtrip 2 4 17 (omega arith) (omega arith) (omega arith)
