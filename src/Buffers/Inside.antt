-- ===== src/Buffers/Inside.antt =====
-- What the threads read and write lies inside the buffers.
use omnireduce.Base.{
  ℕ, suc, ◌+◌, ◌*◌, ◌/◌, ◌^◌, ◌≤◌, ◌<◌, ◌≡◌, ◌≢◌, refl, arith, true, false, ◌==◌, u32, mul_mono,
  div-mul-le,
}
use omnireduce.Params.{Params}
use omnireduce.Buffers.{worker_buffer_size, aggregator_buffer_size}
use omnireduce.DrAggregator
use omnireduce.DrAggregator.Layout.{
  Fits, columns, column, cell, row_fits, column-lt-columns, recv_addr-eq, pool_addr-eq,
}
use omnireduce.Worker

-- A direct-memory aggregator thread of the configuration, with blocks that are at most as large.
pub record IsDirect (p : Params) (e : DrAggregator.Env) : Type 0 where
  pub direct : p.direct_memory ≢ 0
  pub unit : p.buff_unit_size ≡ 4
  pub threads : e.num_server_threads ≡ p.num_worker_threads
  pub slots : e.num_slots_per_thread ≡ p.num_slots_per_thread
  pub workers : e.num_workers ≡ p.num_workers
  pub pools : e.num_comm_buff ≡ p.num_comm_buff
  pub block : e.block_size ≤ p.block_size
  pub room :
      4
        * (p.num_slots_per_thread
            * p.block_size
            * p.num_worker_threads
            * (p.num_workers + p.num_comm_buff))
      < 2 ^ 32

scale : (b c ns nt rows : ℕ) → b ≤ c → rows * (ns * nt) * b ≤ ns * c * nt * rows
scale b c ns nt rows h = omega (arith, mul_mono b c (rows * (ns * nt)) h)

module _ (p : Params) (e : DrAggregator.Env) (slot : ℕ) (set_up : IsDirect p e)
    (low : slot < e.num_slots_per_thread) (mine : e.thread_id < e.num_server_threads) where
  -- All rows, with the block size of the configuration.
  all_words : ℕ
  all_words =
      p.num_slots_per_thread
      * p.block_size
      * p.num_worker_threads
      * (p.num_workers + p.num_comm_buff)

  rows-le : (e.num_workers + e.num_comm_buff) * columns e * e.block_size ≤ all_words
  unfolding all_words
  rows-le =
      rw (set_up.threads, set_up.slots, set_up.workers, set_up.pools)
        (scale e.block_size p.block_size p.num_slots_per_thread p.num_worker_threads
          (p.num_workers + p.num_comm_buff) set_up.block)

  fits : Fits e slot
  unfolding all_words
  fits = record { slot_lt = low; thread_lt = mine; room = omega (arith, rows-le, set_up.room) }

  size-eq : aggregator_buffer_size p ≡ 4 * all_words
  unfolding all_words aggregator_buffer_size
  size-eq =
      let z : (p.direct_memory == 0) ≡ false = ground (arith, set_up.direct) in
      rw (z, set_up.unit) (omega (arith, set_up.room))

  cell-inside :
      (row : ℕ)
      → row < e.num_workers + e.num_comm_buff
      → cell e row slot + 4 * e.block_size ≤ aggregator_buffer_size p
  cell-inside row h = omega (
    arith,
    size-eq,
    rows-le,
    row_fits (e.num_workers + e.num_comm_buff) row (columns e) (column e slot) e.block_size h
        (column-lt-columns e slot fits),
  )

  -- For a direct-memory aggregator with the configuration of its buffer, blocks of at most the
  -- configured size and a buffer of less than 2^32 bytes: the block that a worker writes and
  -- the pools, of a slot of a thread, end within the buffer.
  pub recv_addr-pool_addr-inside :
      (wid set : ℕ)
      → wid < e.num_workers
      → set < e.num_comm_buff
      → (DrAggregator.recv_addr e wid slot + 4 * e.block_size ≤ aggregator_buffer_size p)
        × (DrAggregator.pool_addr e set slot + 4 * e.block_size ≤ aggregator_buffer_size p)
  recv_addr-pool_addr-inside wid set h k = (
    rw (recv_addr-eq e slot fits wid h) (cell-inside wid (omega arith)),
    rw (pool_addr-eq e slot fits set k) (cell-inside (e.num_workers + set) (omega arith)),
  )

-- A worker thread without direct memory, of the configuration, and a message of `num` blocks.
pub record IsWorker (p : Params) (e : Worker.Env) (num : ℕ) : Type 0 where
  pub direct : p.direct_memory ≡ 0
  pub unit : (e.buff_unit_size ≡ 4) × (p.buff_unit_size ≡ 4)
  pub threads : e.num_worker_threads ≡ p.num_worker_threads
  pub slots : e.num_slots_per_thread ≡ p.num_slots_per_thread
  pub message : e.message_size ≡ p.message_size
  pub block_pos : 0 < e.block_size
  pub blocks : num ≤ e.message_size / e.block_size
  pub room :
      4 * (p.num_slots_per_thread * (p.message_size * 2) * p.num_worker_threads * p.num_comm_buff)
      < 2 ^ 32

-- Cell `i` of `n` cells of `m` words.
cell_fits : (m i n : ℕ) → i < n → m * i + m ≤ m * n
cell_fits m i n h = omega (arith, mul_mono (suc i) n m h)

index-lt : (slot cols b rows : ℕ) → slot < cols → b < rows → slot + b * cols < cols * rows
index-lt slot cols b rows h k = omega (arith, mul_mono (suc b) rows cols k)

total : (m ns nt nc x : ℕ) → x ≤ 2 * m * (ns * nt * nc) → x ≤ ns * (m * 2) * nt * nc
total m ns nt nc x h = omega arith

place-eq :
    (m slot b ns nt : ℕ)
    → 4 * (2 * m * (slot + b * (ns * nt))) < 2 ^ 32
    → u32 ((2 * m * slot + b * (2 * m) * ns * nt) * 4) ≡ 4 * (2 * m * (slot + b * (ns * nt)))
place-eq m slot b ns nt h = omega arith

-- Its blocks, and their next offsets behind them, are at most two messages of words.
message_words : (b num m : ℕ) → 0 < b → num ≤ m / b → b * num + num ≤ 2 * m
message_words b num m pos h =
    omega (arith, mul_mono num (m / b) b h, div-mul-le m b pos, mul_mono 1 b num pos)

module _ (p : Params) (e : Worker.Env) (slot buff_index num : ℕ) (set_up : IsWorker p e num)
    (low : slot < e.num_slots_per_thread * e.num_worker_threads)
    (buff : buff_index < p.num_comm_buff) where
  message-size-eq :
      worker_buffer_size p
      ≡ 4 * (p.num_slots_per_thread * (p.message_size * 2) * p.num_worker_threads * p.num_comm_buff)
  unfolding worker_buffer_size
  message-size-eq =
      let z : (p.direct_memory == 0) ≡ true = ground (arith, set_up.direct) in
      rw (z, set_up.unit.1) (omega (arith, set_up.room))

  -- For a worker without direct memory with the configuration of its buffer, which has less
  -- than 2^32 bytes, a slot and a place that exist and as many blocks as a message has at
  -- most: the blocks of the message and their next offsets end within the buffer.
  pub message_addr-inside :
      Worker.message_addr e slot buff_index + 4 * (e.block_size * num + num) ≤ worker_buffer_size p
  unfolding Worker.message_addr
  message_addr-inside =
      let columns = p.num_slots_per_thread * p.num_worker_threads in
      let words = message_words e.block_size num e.message_size set_up.block_pos set_up.blocks in
      let column : slot < columns = rw (set_up.threads, set_up.slots) at low in
      let cell =
        cell_fits (2 * p.message_size) (slot + buff_index * columns) (columns * p.num_comm_buff)
          (index-lt slot columns buff_index p.num_comm_buff column buff) in
      let m = p.message_size in
      let at_cell : Worker.message_addr e slot buff_index
          ≡ u32 (
              (2 * m * slot + buff_index * (2 * m) * p.num_slots_per_thread * p.num_worker_threads)
              * 4) =
        rw (set_up.message, set_up.slots, set_up.threads, set_up.unit.0) refl in
      let fit : 2 * m * (slot + buff_index * columns) + 2 * m
          ≤ p.num_slots_per_thread * (m * 2) * p.num_worker_threads * p.num_comm_buff =
        total m p.num_slots_per_thread p.num_worker_threads p.num_comm_buff _ cell in
      let here =
        place-eq m slot buff_index p.num_slots_per_thread p.num_worker_threads
          (omega (arith, fit, set_up.room)) in
      omega (arith, at_cell, here, fit, message-size-eq, words, set_up.message)
