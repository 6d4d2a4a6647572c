-- ===== src/Common.antt =====
-- omnireduce/common.hpp: the types that the threads share.
use omnireduce.Base.{ℕ, ℤ, Bool}

pub data TensorUpdateType : Type 0 where
  no_type int32 float32 float16 : TensorUpdateType

abbrev pub type_code : TensorUpdateType → ℕ
type_code TensorUpdateType.no_type = 0
type_code TensorUpdateType.int32 = 1
type_code TensorUpdateType.float32 = 2
type_code TensorUpdateType.float16 = 3

pub data OpType : Type 0 where
  nop allreduce broadcast ack : OpType

-- Pointers are addresses; `id` is a positive int32_t.
pub record TensorUpdate : Type 0 where
  pub ptr : ℕ
  pub count : ℕ
  pub start_idx : ℕ
  pub id : ℕ
  pub root : ℕ
  pub type : TensorUpdateType
  pub op : OpType
  pub bitmap_ptr : ℕ
  pub block_count : ℕ
  pub dev_id : ℤ
  pub async : Bool
  pub bitmap_async : Bool
