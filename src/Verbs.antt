-- ===== src/Verbs.antt =====
-- The work requests that the threads post (ibv_post_send, ibv_post_recv), as values, and the
-- arithmetic of the two element types. The NIC and float addition are not the repository's code.
use omnireduce.Base.{ℕ, ◌+◌, Option, none, some, u32}
use omnireduce.Common.{TensorUpdateType}

-- An RDMA write with immediate data: `length` bytes from `local_addr` of the own buffer to
-- `remote_addr` of the buffer of peer `peer`. Addresses are offsets in the registered buffers.
pub record SendRequest : Type 0 where
  pub qid : ℕ
  pub peer : ℕ
  pub local_addr : ℕ
  pub length : ℕ
  pub remote_addr : ℕ
  pub imm_data : ℕ

pub data Request : Type 0 where
  send : SendRequest → Request
  receive : (qid length : ℕ) → Request

-- The maps qp_num_revert and qp_num_to_peerid, which connection setup fills.
pub record QpTable : Type 0 where
  pub qp_num_revert : ℕ → ℕ
  pub qp_num_to_peerid : ℕ → ℕ

-- `+=` on the elements of a tensor; `none` is the exit on "Data type error". int32_t addition is
-- taken modulo 2^32 on the bit patterns; `float_add` is that of the machine.
unfoldable pub element_add : (ℕ → ℕ → ℕ) → TensorUpdateType → Option (ℕ → ℕ → ℕ)
element_add float_add TensorUpdateType.float32 = some float_add
element_add float_add TensorUpdateType.int32 = some (λ a b. u32 (a + b))
element_add float_add _ = none
