-- ===== src/DrAggregator/Layout.antt =====
-- Where dr_aggregator keeps what: the buffer is a table of blocks, a row for each worker and for each
-- pool, a column for each slot of each thread.
use omnireduce.Base.{
  suc, ℕ, ◌+◌, ◌*◌, ◌^◌, ◌≤◌, ◌<◌, ◌≡◌, ◌≢◌, ◌⊎◌, inl, inr, arith, Apart, mul_mono, dec_lt,
  ℕ_discrete,
}
use omnireduce.DrAggregator.{Env, pool_addr, recv_addr}

-- The columns.
abbrev pub columns : Env → ℕ
columns e = e.num_slots_per_thread * e.num_server_threads

abbrev pub column : Env → ℕ → ℕ
column e slot = slot + e.num_slots_per_thread * e.thread_id

abbrev pub cell : Env → ℕ → ℕ → ℕ
cell e row slot = 4 * ((row * columns e + column e slot) * e.block_size)

-- The buffer that AggContext::init allocates has addresses of 32 bits.
pub record Fits (e : Env) (slot : ℕ) : Type 0 where
  pub slot_lt : slot < e.num_slots_per_thread
  pub thread_lt : e.thread_id < e.num_server_threads
  pub room : 4 * ((e.num_workers + e.num_comm_buff) * columns e * e.block_size) < 2 ^ 32

column-lt : (a t n s : ℕ) → s < n → t < a → s + n * t < n * a
column-lt a t n s h k = grind arith

pub row_fits :
    (rows row cols col bs : ℕ)
    → row < rows
    → col < cols
    → (row * cols + col) * bs + bs ≤ rows * cols * bs
row_fits rows row cols col bs h k = omega (
  arith,
  mul_mono (suc (row * cols + col)) (rows * cols) bs
      (omega (arith, mul_mono (suc row) rows cols h)),
)

rows_apart :
    (r q cols col bs : ℕ) → r < q → col < cols → (r * cols + col) * bs + bs ≤ (q * cols + col) * bs
rows_apart r q cols col bs h k = omega (
  arith,
  mul_mono (suc (r * cols + col)) (q * cols + col) bs (omega (arith, mul_mono (suc r) q cols h)),
)

module _ (e : Env) (slot : ℕ) (fits : Fits e slot) where
  pub column-lt-columns : column e slot < columns e
  column-lt-columns =
      column-lt e.num_server_threads e.thread_id e.num_slots_per_thread slot fits.slot_lt
        fits.thread_lt

  pub cell-fits :
      (row : ℕ)
      → row < e.num_workers + e.num_comm_buff
      → (row * columns e + column e slot) * e.block_size + e.block_size ≤ 2 ^ 30
  cell-fits row h = omega (
    arith,
    row_fits (e.num_workers + e.num_comm_buff) row (columns e) (column e slot) e.block_size h
        column-lt-columns,
    fits.room,
  )

  pub pool_addr-eq :
      (set : ℕ) → set < e.num_comm_buff → pool_addr e set slot ≡ cell e (e.num_workers + set) slot
  unfolding pool_addr
  pool_addr-eq set h = omega (arith, cell-fits (e.num_workers + set) (omega arith))

  pub recv_addr-eq : (wid : ℕ) → wid < e.num_workers → recv_addr e wid slot ≡ cell e wid slot
  unfolding recv_addr
  recv_addr-eq wid h = omega (arith, cell-fits wid (omega arith))

  pub cells-Apart : (r q : ℕ) → r ≢ q → Apart (cell e r slot) (cell e q slot) e.block_size
  cells-Apart r q ne = elim (dec_lt r q) [
    | yes h ↦
        inl (
          omega
            (arith, rows_apart r q (columns e) (column e slot) e.block_size h column-lt-columns))
    | no h ↦ inr (
        omega (
          arith,
          rows_apart q r (columns e) (column e slot) e.block_size (omega arith) column-lt-columns,
        ))
  ]

  -- For a slot, pools and workers within bounds and a buffer of less than 2^32 bytes: no pool
  -- of the slot overlaps the block that a worker writes, and neither two different pools nor
  -- the blocks of two different workers overlap.
  pub pool_addr-recv_addr-Apart :
      (set set' wid wid' : ℕ)
      → set < e.num_comm_buff
      → set' < e.num_comm_buff
      → wid < e.num_workers
      → wid' < e.num_workers
      → Apart (pool_addr e set slot) (recv_addr e wid slot) e.block_size
        × ((set ≡ set') ⊎ Apart (pool_addr e set slot) (pool_addr e set' slot) e.block_size)
        × ((wid ≡ wid') ⊎ Apart (recv_addr e wid slot) (recv_addr e wid' slot) e.block_size)
  pool_addr-recv_addr-Apart set set' wid wid' h h' k k' =
      rw (pool_addr-eq set h, pool_addr-eq set' h', recv_addr-eq wid k, recv_addr-eq wid' k')
        (
          cells-Apart (e.num_workers + set) wid (omega arith),
          elim (ℕ_discrete set set') [
            | yes same ↦ inl same
            | no ne ↦ inr (cells-Apart (e.num_workers + set) (e.num_workers + set') (omega arith))
          ],
          elim (ℕ_discrete wid wid') [
            | yes same ↦ inl same
            | no ne ↦ inr (cells-Apart wid wid' ne)
          ],
        )
