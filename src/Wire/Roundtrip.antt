-- ===== src/Wire/Roundtrip.antt =====
-- What was put into the immediate data comes out again.
use omnireduce.Base.{ℕ, ◌^◌, ◌<◌, ◌≡◌, arith}
use omnireduce.Wire.{imm_data, imm_typecode, imm_num, imm_slot}

-- A type code of 4 bits, a block count of 12 bits and a slot of 16 bits are read back from the
-- immediate data as they were written.
pub imm_data-roundtrip :
    (typecode num slot : ℕ)
    → typecode < 2 ^ 4
    → num < 2 ^ 12
    → slot < 2 ^ 16
    → (imm_typecode (imm_data typecode num slot) ≡ typecode)
      × (imm_num (imm_data typecode num slot) ≡ num)
      × (imm_slot (imm_data typecode num slot) ≡ slot)
unfolding imm_data imm_typecode imm_num imm_slot
imm_data-roundtrip typecode num slot t n s = (omega arith, omega arith, omega arith)
