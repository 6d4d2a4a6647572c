-- ===== src/Worker/Delivered.antt =====
-- The message of a worker, as the aggregator reads it.
use omnireduce.Base.{ℕ, ◌+◌, ◌*◌, ◌^◌, ◌<◌, ◌≡◌, List, length, Memory}
use omnireduce.Wire.{imm_data}
use omnireduce.Aggregator
use omnireduce.Aggregator.Round.{Message}
use omnireduce.Worker.{Env, message_addr, post_send_client}

-- The RDMA write of a message of a worker, on queue pair `qp_num` of the aggregator.
abbrev pub sent :
    Env
    → (blocks : List (ℕ × ℕ)) → (slot worker_qp buff_index qp_num : ℕ) → (tensor comm_buf : Memory)
    → Message
sent e blocks slot worker_qp buff_index qp_num tensor comm_buf = record {
  qp_num = qp_num;
  imm = imm_data e.typecode (length blocks) slot;
  payload = λ a.
      (post_send_client e blocks slot worker_qp buff_index tensor comm_buf).0
        (message_addr e slot buff_index + a);
}

-- A worker and an aggregator with the same slots and blocks, and a message that fits its immediate data.
pub record Speaks (e : Env) (a : Aggregator.Env) (num slot : ℕ) : Type 0 where
  pub four : e.element_size ≡ 4
  pub small : 4 * (e.start_offset + e.tensor_size) + 4 * e.block_size < 2 ^ 32
  pub block : e.block_size ≡ a.block_size
  pub code : e.typecode < 2 ^ 4
  pub few : num < 2 ^ 12
  pub slot_lt : slot < a.num_slots_per_thread
  pub global : slot + a.num_slots_per_thread * a.thread_id < 2 ^ 16
  pub room : 4 * (num * e.block_size) < 2 ^ 32
