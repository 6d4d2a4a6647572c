-- ===== src/DrWorker/Address.antt =====
-- The two sides of the direct-memory protocol agree on slots and addresses.
use omnireduce.Base.{ℕ, zero, suc, ◌+◌, ◌*◌, ◌^◌, ◌≤◌, ◌<◌, ◌≡◌, arith, u32, u32_of_lt}
use omnireduce.DrWorker.{Env, remote_addr, global_slot}
use omnireduce.DrAggregator
use omnireduce.DrAggregator.{recv_addr}
use omnireduce.DrAggregator.Layout.{Fits, column, columns, cell-fits, recv_addr-eq}

-- The same configuration on both sides.
pub record SameConfig (w : Env) (a : DrAggregator.Env) : Type 0 where
  pub threads : w.num_worker_threads ≡ a.num_server_threads
  pub thread : w.thread_id ≡ a.thread_id
  pub slots : w.num_slots_per_thread ≡ a.num_slots_per_thread
  pub block : w.block_size ≡ a.block_size
  pub block_pos : 0 < a.block_size
  pub unit : w.buff_unit_size ≡ 4
  pub known : w.worker_id < a.num_workers

column-small : (row c bs : ℕ) → 0 < bs → (row + c) * bs + bs ≤ 2 ^ 30 → c < 2 ^ 32
column-small row c zero pos h = omega arith
column-small row c (suc bs) pos h = omega arith

addr-eq :
    (bs ns nt wid slot tid : ℕ)
    → slot + ns * tid < 2 ^ 32
    → (wid * (ns * nt) + (slot + ns * tid)) * bs + bs ≤ 2 ^ 30
    → 0 < bs
    → u32 ((bs * u32 (slot + ns * tid) + bs * ns * nt * wid) * 4)
      ≡ 4 * ((wid * (ns * nt) + (slot + ns * tid)) * bs)
addr-eq bs ns nt wid slot tid h room pos = rw (u32_of_lt (slot + ns * tid) h) (omega arith)

-- With the same configuration on both sides, blocks that are not empty, units of four bytes, a
-- worker number below the number of workers and a buffer of less than 2^32 bytes: a
-- direct-memory worker writes its block to the address from which the aggregator adds it.
pub remote_addr-recv_addr :
    (w : Env) (a : DrAggregator.Env) (slot : ℕ)
    → SameConfig w a
    → Fits a slot
    → remote_addr w (global_slot w slot) ≡ recv_addr a w.worker_id slot
unfolding remote_addr global_slot
remote_addr-recv_addr w a slot same fits =
    let room = cell-fits a slot fits w.worker_id (omega (arith, same.known)) in
    rw
      (
        recv_addr-eq a slot fits w.worker_id same.known,
        same.threads,
        same.thread,
        same.slots,
        same.block,
        same.unit,
      )
      (addr-eq a.block_size a.num_slots_per_thread a.num_server_threads w.worker_id slot a.thread_id
        (column-small (w.worker_id * columns a) (column a slot) a.block_size same.block_pos room)
        room same.block_pos)
