-- ===== src/Buffers/Blocks.antt =====
-- What an aggregator thread without direct memory reads and writes, and the buffer of
-- omnireduce/aggcontext.cpp.
use omnireduce.Base.{ℕ, ◌+◌, ◌*◌, ◌^◌, ◌≤◌, ◌<◌, ◌≡◌, arith, true, ◌==◌, u32, mul_mono}
use omnireduce.Params.{Params}
use omnireduce.Buffers.{aggregator_buffer_size}
use omnireduce.Aggregator.{Env, recv_addr, send_buff, pool_addr, global_slot, block_index}
use omnireduce.Aggregator.Layout.{
  Fits, pools_start, pool_size, recv_addr-eq, send_buff-eq, pool_addr-eq, block_index_lt,
}

-- An aggregator thread without direct memory, of the configuration.
pub record IsAggregator (p : Params) (e : Env) : Type 0 where
  pub direct : p.direct_memory ≡ 0
  pub unit : p.buff_unit_size ≡ 4
  pub threads : e.num_server_threads ≡ p.num_worker_threads
  pub slots : e.num_slots_per_thread ≡ p.num_slots_per_thread
  pub workers : e.num_workers ≡ p.num_workers
  pub buffers : e.num_comm_buff ≡ p.num_comm_buff
  pub message : e.message_size ≡ p.message_size

-- Blocks and their next offsets are at most two messages of words.
offsets_fit : (b num q : ℕ) → 0 < b → num ≤ q → b * num + num ≤ 2 * (q * b)
offsets_fit b num q pos h = omega (arith, mul_mono num q b h, mul_mono 1 b num pos)

size_words :
    (ns m nt nc nw : ℕ)
    → 4 * ((nw + nc) * ns * (2 * m) * nt + 2 * (ns * m * nt)) < 2 ^ 32
    → u32 (ns * (m * 2) * nt * (nc + nw) + ns * m * nt * 2) * 4
      ≡ 4 * ((nw + nc) * ns * (2 * m) * nt + 2 * (ns * m * nt))
size_words ns m nt nc nw h =
    let same : ns * (m * 2) * nt * (nc + nw) ≡ (nw + nc) * ns * (2 * m) * nt = omega arith in
    rw same (omega (arith, h))

module _ (q : ℕ) (p : Params) (e : Env) (f : Fits q e) (set_up : IsAggregator p e) where
  size-eq : aggregator_buffer_size p ≡ 4 * (pools_start e + 2 * pool_size e)
  unfolding aggregator_buffer_size
  size-eq =
      let z : (p.direct_memory == 0) ≡ true = ground (arith, set_up.direct) in
      rw
        (
          z,
          set_up.unit,
          ← set_up.slots,
          ← set_up.message,
          ← set_up.threads,
          ← set_up.buffers,
          ← set_up.workers,
        )
        (size_words e.num_slots_per_thread e.message_size e.num_server_threads e.num_comm_buff
          e.num_workers f.room)

  -- For an aggregator without direct memory with the configuration of its buffer, elements of
  -- four bytes, messages of q blocks and a buffer of less than 2^32 bytes: a message of at
  -- most q blocks with their next offsets that a worker writes for a slot, one that the
  -- aggregator puts together to answer, and the block of an offset in each of the two pools,
  -- end within the buffer.
  pub recv_addr-send_buff-pool_addr-inside :
      (slot wid buff num set offset : ℕ)
      → slot < e.num_slots_per_thread
      → wid < e.num_workers
      → buff < e.num_comm_buff
      → num ≤ q
      → set < 2
      → (recv_addr e slot wid + 4 * (e.block_size * num + num) ≤ aggregator_buffer_size p)
        × (send_buff e (global_slot e slot) buff + 4 * (e.block_size * num + num)
            ≤ aggregator_buffer_size p)
        × (pool_addr e set (block_index e offset) + 4 * e.block_size ≤ aggregator_buffer_size p)
  recv_addr-send_buff-pool_addr-inside slot wid buff num set offset hs hw hb hn hp =
      let words = offsets_fit e.block_size num q f.block_pos hn in
      let message = recv_addr-eq q e f slot wid hs hw in
      let reply = send_buff-eq q e f slot buff hs hb in
      let block = pool_addr-eq q e f set (block_index e offset) hp (block_index_lt q e f offset) in
      let second = mul_mono set 1 (pool_size e) (omega arith) in
      (
        omega (arith, size-eq, words, f.message, message.0, message.1),
        omega (arith, size-eq, words, f.message, reply.0, reply.1),
        omega (arith, size-eq, second, block.0, block.1),
      )
