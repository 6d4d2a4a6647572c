-- ===== src/Wire.antt =====
-- The immediate data of a message without direct memory, which omnireduce/worker.cpp and
-- omnireduce/aggregator.cpp write and read: the element type in 4 bits, the number of blocks in 12 and
-- the slot in 16. Masks and shifts are written as division and remainder.
pub mod Roundtrip
use omnireduce.Base.{ℕ, ◌+◌, ◌*◌, ◌/◌, ◌%◌, ◌^◌, u32}

-- (typecode << 28) + (num << 16) + slot
unfoldable pub imm_data : ℕ → ℕ → ℕ → ℕ
imm_data typecode num slot = u32 (u32 (typecode * 2 ^ 28) + u32 (num * 2 ^ 16) + slot)

-- (imm_data & 0xF0000000) >> 28
unfoldable pub imm_typecode : ℕ → ℕ
imm_typecode imm = imm / 2 ^ 28 % 2 ^ 4

-- (imm_data & 0x0FFF0000) >> 16
unfoldable pub imm_num : ℕ → ℕ
imm_num imm = imm / 2 ^ 16 % 2 ^ 12

-- imm_data & 0x0000FFFF
unfoldable pub imm_slot : ℕ → ℕ
imm_slot imm = imm % 2 ^ 16
