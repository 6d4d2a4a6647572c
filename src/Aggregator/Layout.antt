-- ===== src/Aggregator/Layout.antt =====
-- comm_buf of an aggregator without direct memory, in words: the messages of the workers, the answers,
-- and behind them the two pools.
use native.Mathlib.Nat.{mod-lt}
use omnireduce.Base.{
  ℕ, suc, ◌+◌, ◌*◌, ◌^◌, ◌<◌, ◌≤◌, ◌≡◌, ◌≢◌, ◌⊎◌, inl, inr, refl, arith, u32, mul_mono, dec_lt,
  mul-pos, ◌∙◌, ap, Outside,
}
use omnireduce.Aggregator.{
  Env, recv_addr, send_buff, pool_base, pool_addr, global_slot, block_index,
}
use omnireduce.Aggregator.Blocks.{Geometry, blocks-eq}

-- A message is `q` blocks of elements of four bytes, and the buffer has less than 2^32 bytes.
pub record Fits (q : ℕ) (e : Env) : Type 0 where
  pub block_pos : 0 < e.block_size
  pub message_pos : 0 < q
  pub slots_pos : 0 < e.num_slots_per_thread
  pub message : e.message_size ≡ q * e.block_size
  pub element : e.element_size ≡ 4
  pub unit : e.buff_unit_size ≡ 4
  pub thread_lt : e.thread_id < e.num_server_threads
  pub room :
      4
        * ((e.num_workers + e.num_comm_buff)
              * e.num_slots_per_thread
              * (2 * e.message_size)
              * e.num_server_threads
            + 2 * (e.num_slots_per_thread * e.message_size * e.num_server_threads))
      < 2 ^ 32

pool_room :
    (ns nt q bs ms all : ℕ)
    → ms ≡ q * bs
    → 4 * (all + 2 * (ns * ms * nt)) < 2 ^ 32
    → 4 * (ns * nt * q * bs) < 2 ^ 32
pool_room ns nt q bs ms all h room =
    let same : ns * ms * nt ≡ ns * nt * q * bs = ap (λ (x : ℕ). ns * x * nt) h ∙ omega arith in
    omega (arith, same)

pub Fits-Geometry : (q : ℕ) (e : Env) → Fits q e → Geometry q e
Fits-Geometry q e f = record {
  block_pos = f.block_pos;
  message_pos = f.message_pos;
  slots_pos = f.slots_pos;
  message = f.message;
  element = f.element;
  thread_lt = f.thread_lt;
  room = pool_room _ _ q _ e.message_size _ f.message f.room;
}

-- The words before the pools, and the words of one pool.
abbrev pub pools_start : Env → ℕ
pools_start e =
    (e.num_workers + e.num_comm_buff)
    * e.num_slots_per_thread
    * (2 * e.message_size)
    * e.num_server_threads

abbrev pub pool_size : Env → ℕ
pool_size e = e.num_slots_per_thread * e.message_size * e.num_server_threads

-- Message `i` of thread `tid`, `slot`, of those of one worker or one answer after the other.
abbrev pub message_word : Env → (i slot : ℕ) → ℕ
message_word e i slot =
    i * (e.num_slots_per_thread * (2 * e.message_size) * e.num_server_threads)
    + (slot + e.num_slots_per_thread * e.thread_id) * (2 * e.message_size)

message_inside :
    (i n slot ns tid nt ms : ℕ)
    → i < n
    → slot < ns
    → tid < nt
    → i * (ns * (2 * ms) * nt) + (slot + ns * tid) * (2 * ms) + 2 * ms ≤ n * ns * (2 * ms) * nt
message_inside i n slot ns tid nt ms hi hs ht =
    let row : suc (slot + ns * tid) ≤ ns * nt = omega (arith, mul_mono (suc tid) nt ns ht) in
    let rows = mul_mono (suc (slot + ns * tid)) (ns * nt) (2 * ms) row in
    let all = mul_mono (suc i) n (ns * (2 * ms) * nt) hi in omega arith

-- Block `b` of thread `tid` of the pool `set`.
abbrev pub pool_word : ℕ → Env → (set b : ℕ) → ℕ
pool_word q e set b =
    pools_start e
    + set * pool_size e
    + (b + e.thread_id * (e.num_slots_per_thread * q)) * e.block_size

block_inside :
    (b tid ns nt q bs : ℕ)
    → b < ns * q
    → tid < nt
    → (b + tid * (ns * q)) * bs + bs ≤ ns * (q * bs) * nt
block_inside b tid ns nt q bs hb ht =
    let all : suc (b + tid * (ns * q)) ≤ nt * (ns * q) =
      omega (arith, mul_mono (suc tid) nt (ns * q) ht) in
    omega (arith, mul_mono (suc (b + tid * (ns * q))) (nt * (ns * q)) bs all)

rows_apart : (b b' x bs : ℕ) → b < b' → (b + x) * bs + bs ≤ (b' + x) * bs
rows_apart b b' x bs h = omega (arith, mul_mono (suc (b + x)) (b' + x) bs (omega arith))

differ : {set set' b b' : ℕ} → set ≡ set' → (set ≢ set') ⊎ (b ≢ b') → ¬ (b < b') → b' < b
differ same (inl sets) high = absurd (sets same)
differ same (inr blocks) high = omega (arith, blocks)

apart_words :
    (set set' b b' j bs x size start : ℕ)
    → set < 2
    → set' < 2
    → j < bs
    → (b + x) * bs + bs ≤ size
    → (b' + x) * bs + bs ≤ size
    → (set ≢ set') ⊎ (b ≢ b')
    → Outside
        (4 * (start + set * size + (b + x) * bs))
        bs
        (4 * (start + set' * size + (b' + x) * bs) + 4 * j)
apart_words set set' b b' j bs x size start hs hs' hj inside inside' other =
    elim (dec_lt set set') [
      | yes low ↦ inr (omega (arith, mul_mono (suc set) set' size low))
      | no above ↦ elim (dec_lt set' set) [
        | yes low ↦ inl (omega (arith, mul_mono (suc set') set size low))
        | no below ↦
            let same : set ≡ set' = omega arith in
            let product : set * size ≡ set' * size = ap (λ (i : ℕ). i * size) same in
            elim (dec_lt b b') [
              | yes low ↦ inr (omega (arith, rows_apart b b' x bs low, product))
              | no high ↦
                  inl (omega (arith, rows_apart b' b x bs (differ same other high), product))
            ]
      ]
    ]

module _ (q : ℕ) (e : Env) (f : Fits q e) where
  geometry : Geometry q e
  geometry = Fits-Geometry q e f

  pub recv_addr-eq :
      (slot wid : ℕ)
      → slot < e.num_slots_per_thread
      → wid < e.num_workers
      → (recv_addr e slot wid ≡ 4 * message_word e wid slot)
        × (message_word e wid slot + 2 * e.message_size ≤ pools_start e)
  unfolding recv_addr
  recv_addr-eq slot wid hs hw =
      let inside =
        message_inside wid (e.num_workers + e.num_comm_buff) slot e.num_slots_per_thread e.thread_id
          e.num_server_threads e.message_size (omega arith) hs f.thread_lt in
      (rw (f.unit) (omega (arith, inside, f.room)), inside)

  pub send_buff-eq :
      (slot i : ℕ)
      → slot < e.num_slots_per_thread
      → i < e.num_comm_buff
      → (send_buff e (global_slot e slot) i ≡ 4 * message_word e (e.num_workers + i) slot)
        × (message_word e (e.num_workers + i) slot + 2 * e.message_size ≤ pools_start e)
  unfolding send_buff global_slot
  send_buff-eq slot i hs hi =
      let inside =
        message_inside (e.num_workers + i) (e.num_workers + e.num_comm_buff) slot
          e.num_slots_per_thread e.thread_id e.num_server_threads e.message_size (omega arith) hs
          f.thread_lt in
      let pos : 0 < e.message_size =
        rw (f.message) (mul-pos q e.block_size f.message_pos f.block_pos) in
      let one =
        mul_mono 1 (2 * e.message_size) (slot + e.num_slots_per_thread * e.thread_id)
          (omega (arith, pos)) in
      let global : u32 (slot + e.num_slots_per_thread * e.thread_id)
          ≡ slot + e.num_slots_per_thread * e.thread_id =
        omega (arith, f.room) in
      (rw (f.unit, global) (omega (arith, inside, f.room)), inside)

  pub pool_addr-eq :
      (set b : ℕ)
      → set < 2
      → b < e.num_slots_per_thread * q
      → (pool_addr e set b ≡ 4 * pool_word q e set b)
        × ((b + e.thread_id * (e.num_slots_per_thread * q)) * e.block_size + e.block_size
            ≤ pool_size e)
  unfolding pool_addr pool_base
  pool_addr-eq set b hs hb =
      let inside =
        block_inside b e.thread_id e.num_slots_per_thread e.num_server_threads q e.block_size hb
          f.thread_lt in
      let blocks = blocks-eq q e geometry in
      let size : e.num_slots_per_thread * (q * e.block_size) * e.num_server_threads ≡ pool_size e =
        rw (← f.message) refl in
      let inside' : (b + e.thread_id * (e.num_slots_per_thread * q)) * e.block_size + e.block_size
          ≤ pool_size e =
        rw (← size) inside in
      let second = mul_mono set 1 (pool_size e) (omega arith) in
      (rw (blocks, f.unit, f.element) (omega (arith, inside', second, f.room)), inside')

  pub pool_base_ge : (set : ℕ) → set < 2 → 4 * pools_start e ≤ pool_base e set
  unfolding pool_base
  pool_base_ge set hs =
      let second = mul_mono set 1 (pool_size e) (omega arith) in
      rw (f.unit) (omega (arith, second, f.room))

  pub pool_addr-Outside :
      (set b word : ℕ)
      → set < 2
      → b < e.num_slots_per_thread * q
      → word < pools_start e
      → Outside (pool_addr e set b) e.block_size (4 * word)
  pool_addr-Outside set b word hs hb h = inl (rw ((pool_addr-eq set b hs hb).0) (omega arith))

  -- A word of another block, of the same pool or of the other one.
  pub pool_addr-Apart :
      (set set' b b' j : ℕ)
      → set < 2
      → set' < 2
      → b < e.num_slots_per_thread * q
      → b' < e.num_slots_per_thread * q
      → j < e.block_size
      → (set ≢ set') ⊎ (b ≢ b')
      → Outside (pool_addr e set b) e.block_size (pool_addr e set' b' + 4 * j)
  pool_addr-Apart set set' b b' j hs hs' hb hb' hj other =
      let at = pool_addr-eq set b hs hb in
      let at' = pool_addr-eq set' b' hs' hb' in
      rw (at.0, at'.0)
        (apart_words set set' b b' j e.block_size (e.thread_id * (e.num_slots_per_thread * q))
          (pool_size e) (pools_start e) hs hs' hj (at.1) (at'.1) other)

  pub block_index_lt : (offset : ℕ) → block_index e offset < e.num_slots_per_thread * q
  unfolding block_index
  block_index_lt offset =
      rw (blocks-eq q e geometry) (mod-lt _ (mul-pos _ _ f.slots_pos f.message_pos))
