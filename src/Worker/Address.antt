-- ===== src/Worker/Address.antt =====
-- The two sides agree where the messages without direct memory lie.
use omnireduce.Base.{ℕ, ◌+◌, ◌*◌, ◌^◌, ◌<◌, ◌≡◌, ap, arith, u32, u32_of_lt}
use omnireduce.Worker.{Env, remote_addr, answer_addr}
use omnireduce.Aggregator
use omnireduce.Aggregator.{recv_addr, global_slot}

-- The same configuration on both sides.
pub record SameConfig (w : Env) (a : Aggregator.Env) : Type 0 where
  pub threads : w.num_worker_threads ≡ a.num_server_threads
  pub thread : w.thread_id ≡ a.thread_id
  pub slots : w.num_slots_per_thread ≡ a.num_slots_per_thread
  pub message : w.message_size ≡ a.message_size
  pub unit : w.buff_unit_size ≡ a.buff_unit_size

to_aggregator :
    (slot m ns nt wid tid unit : ℕ)
    → (2 * m * (slot + ns * tid) + 2 * m * ns * nt * wid) * unit
      ≡ (wid * ns * (2 * m) * nt + slot * (2 * m) + tid * (2 * m) * ns) * unit
to_aggregator slot m ns nt wid tid unit = omega arith

to_worker :
    (slot m ns nt i tid unit : ℕ)
    → (i * (2 * m) * ns * nt + (slot + ns * tid) * (2 * m)) * unit
      ≡ (slot * (2 * m) + tid * (2 * m) * ns + i * (2 * m) * ns * nt) * unit
to_worker slot m ns nt i tid unit = omega arith

module _ (w : Env) (a : Aggregator.Env) (slot : ℕ) (same : SameConfig w a)
    (small : slot + a.num_slots_per_thread * a.thread_id < 2 ^ 32) where
  remote_addr-message : remote_addr w (global_slot a slot) ≡ recv_addr a slot w.worker_id
  unfolding remote_addr global_slot recv_addr
  remote_addr-message =
      rw (u32_of_lt _ small, same.threads, same.slots, same.message, same.unit)
        (ap u32 (
          to_aggregator slot a.message_size a.num_slots_per_thread a.num_server_threads w.worker_id
            a.thread_id a.buff_unit_size))

  remote_addr-answer :
      (buff_index : ℕ)
      → Aggregator.remote_addr a (global_slot a slot) buff_index ≡ answer_addr w slot buff_index
  unfolding Aggregator.remote_addr global_slot answer_addr
  remote_addr-answer buff_index =
      rw (u32_of_lt _ small, same.threads, same.thread, same.slots, same.message, same.unit)
        (ap u32 (
          to_worker slot a.message_size a.num_slots_per_thread a.num_server_threads buff_index
            a.thread_id a.buff_unit_size))

  -- With the same configuration on both sides and a global slot below 2^32, a worker without
  -- direct memory writes its message for a slot to the place where the aggregator reads it,
  -- and the aggregator its answer to the place where the worker reads it.
  pub remote_addr_both :
      (remote_addr w (global_slot a slot) ≡ recv_addr a slot w.worker_id)
      × ((buff_index : ℕ)
          → Aggregator.remote_addr a (global_slot a slot) buff_index
            ≡ answer_addr w slot buff_index)
  remote_addr_both = (remote_addr-message, remote_addr-answer)
