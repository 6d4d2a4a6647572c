-- ===== src/Aggregator/Blocks.antt =====
-- The blocks of a slot: block indices, slots and the part of the pool that is cleared fit together.
use native.Mathlib.Nat.{mod-lt, div-div-eq-div-mul}
use mathlib.Core.Logic.{◌↔◌}
use omnireduce.Base.{
  ℕ, suc, ◌+◌, ◌*◌, ◌/◌, ◌%◌, ◌^◌, ◌<◌, ◌≤◌, ◌≡◌, true, arith, u32, u32_of_lt, div-add_mul,
  mod-add_mul, div-add-mod, div-mul_self, mul-pos, mul_mono, ◌∙◌, ap, Memory, clear_words,
  clear_words-inside,
}
use omnireduce.Aggregator.{
  Env, State, block_index, blocks_per_thread, blocks_per_message, slot_complete, clear_shadow,
  pool_addr, pool_base, global_slot,
}

index_of_parts : (c d r q n : ℕ) → d < n → r < q → (c * (n * q) + (d * q + r)) % (n * q) / q ≡ d
index_of_parts c d r q n h k =
    let inside : d * q + r < n * q = omega (arith, mul_mono (suc d) n q h) in
    rw (mod-add_mul c (d * q + r) (n * q) inside) (div-add_mul d r q k)

index-slot : (a q n : ℕ) → 0 < q → 0 < n → a % (n * q) / q ≡ a / q % n
index-slot a q n pos pos' =
    let parts : a / q / n * (n * q) + (a / q % n * q + a % q) ≡ a =
      omega (arith, ap (λ (b : ℕ). b * q) (div-add-mod (a / q) n pos'), div-add-mod a q pos) in
    rw parts at
      (index_of_parts (a / q / n) (a / q % n) (a % q) q n (mod-lt (a / q) pos') (mod-lt a pos))

-- What the configuration guarantees: a message is `q` blocks.
pub record Geometry (q : ℕ) (e : Env) : Type 0 where
  pub block_pos : 0 < e.block_size
  pub message_pos : 0 < q
  pub slots_pos : 0 < e.num_slots_per_thread
  pub message : e.message_size ≡ q * e.block_size
  pub element : e.element_size ≡ 4
  pub thread_lt : e.thread_id < e.num_server_threads
  pub room : 4 * (e.num_slots_per_thread * e.num_server_threads * q * e.block_size) < 2 ^ 32

pool_room :
    (slot tid ns nt q bs k : ℕ)
    → slot < ns
    → tid < nt
    → k < q
    → (slot * q + k + tid * (ns * q)) * bs + bs ≤ ns * nt * q * bs
pool_room slot tid ns nt q bs k h h' h'' =
    let row : suc (slot * q + k) ≤ ns * q = omega (arith, mul_mono (suc slot) ns q h) in
    let all : suc (slot * q + k + tid * (ns * q)) ≤ nt * (ns * q) =
      omega (arith, mul_mono (suc tid) nt (ns * q) h') in
    omega (arith, mul_mono (suc (slot * q + k + tid * (ns * q))) (nt * (ns * q)) bs all)

block_offset :
    (slot tid ns q bs k j : ℕ)
    → 4 * ((slot * q + k + tid * (ns * q)) * bs) + 4 * j
      ≡ 4 * ((slot + ns * tid) * (q * bs)) + 4 * (k * bs + j)
block_offset slot tid ns q bs k j = omega arith

times_four : (a bs : ℕ) → a * bs * 4 ≡ 4 * (a * bs)
times_four a bs = omega arith

below_room : (a b bs : ℕ) → a + bs ≤ b → 4 * b < 2 ^ 32 → 4 * a < 2 ^ 32
below_room a b bs h k = omega arith

same_room :
    (slot tid ns q bs room : ℕ)
    → (slot * q + 0 + tid * (ns * q)) * bs + bs ≤ room
    → (slot + ns * tid) * (q * bs) + bs ≤ room
same_room slot tid ns q bs room h = omega arith

clear_words-at :
    (n base a b j i : ℕ) (m : Memory)
    → b + 4 * j ≡ a + 4 * i
    → i < n
    → clear_words n (base + a) m (base + b + 4 * j) ≡ 0
clear_words-at n base a b j i m same h =
    let place : base + b + 4 * j ≡ base + a + 4 * i = omega (arith, same) in
    rw place (clear_words-inside n (base + a) m i h)

module _ (q : ℕ) (e : Env) (g : Geometry q e) where
  pub message-eq : blocks_per_message e ≡ q
  unfolding blocks_per_message
  message-eq = rw (g.message) (div-mul_self q e.block_size g.block_pos)

  blocks-small : e.num_slots_per_thread * q < 2 ^ 30
  blocks-small = omega (
    arith,
    g.room,
    mul_mono 1 e.block_size (e.num_slots_per_thread * q) g.block_pos,
    mul_mono 1 e.num_server_threads (e.num_slots_per_thread * q * e.block_size)
        (omega (arith, g.thread_lt)),
  )

  pub blocks-eq : blocks_per_thread e ≡ e.num_slots_per_thread * q
  unfolding blocks_per_thread
  blocks-eq = rw message-eq (u32_of_lt _ (omega (arith, blocks-small)))

  block_start :
      (slot k : ℕ)
      → slot < e.num_slots_per_thread
      → k < q
      → u32 ((slot * q + k + e.thread_id * (e.num_slots_per_thread * q)) * e.block_size * 4)
        ≡ 4 * ((slot * q + k + e.thread_id * (e.num_slots_per_thread * q)) * e.block_size)
  block_start slot k h h' =
      let r =
        pool_room slot e.thread_id e.num_slots_per_thread e.num_server_threads q e.block_size k h
          g.thread_lt h' in
      let f = times_four (slot * q + k + e.thread_id * (e.num_slots_per_thread * q)) e.block_size in
      rw f (u32_of_lt _ (below_room _ _ e.block_size r g.room))

  clear_start :
      (slot : ℕ)
      → slot < e.num_slots_per_thread
      → u32 (u32 (slot + e.num_slots_per_thread * e.thread_id) * (q * e.block_size) * 4)
        ≡ 4 * ((slot + e.num_slots_per_thread * e.thread_id) * (q * e.block_size))
  clear_start slot h =
      let r =
        pool_room slot e.thread_id e.num_slots_per_thread e.num_server_threads q e.block_size 0 h
          g.thread_lt g.message_pos in
      let f = times_four (slot + e.num_slots_per_thread * e.thread_id) (q * e.block_size) in
      let r' = same_room slot e.thread_id e.num_slots_per_thread q e.block_size _ r in
      let small = below_room _ _ e.block_size r' g.room in
      let one =
        mul_mono 1 (q * e.block_size) (slot + e.num_slots_per_thread * e.thread_id)
          (mul-pos q e.block_size g.message_pos g.block_pos) in
      rw (u32_of_lt (slot + e.num_slots_per_thread * e.thread_id) (omega arith), f)
        (u32_of_lt _ small)

  -- When a message is a whole number of blocks and the pools of the threads have less than
  -- 2^32 bytes: the block index of an offset, divided by the blocks of a message, is the slot
  -- of the message to which the offset belongs.
  pub block_index-slot :
      (offset : ℕ)
      → block_index e offset / blocks_per_message e
        ≡ offset / e.message_size % e.num_slots_per_thread
  unfolding block_index
  block_index-slot offset =
      let halves : offset / e.block_size / q ≡ offset / (q * e.block_size) =
        div-div-eq-div-mul offset e.block_size q ∙ ap (λ (d : ℕ). offset / d) (omega arith) in
      rw (blocks-eq, message-eq, g.message, ← halves)
        (index-slot (offset / e.block_size) q e.num_slots_per_thread g.message_pos g.slots_pos)

  -- Under the same conditions, with elements of four bytes: after clear_shadow for a slot the
  -- next pool is zero in every word of the blocks of the slot.
  pub clear_shadow-pool :
      (slot k j : ℕ) (s : State) (m : Memory)
      → slot < e.num_slots_per_thread
      → k < blocks_per_message e
      → j < e.block_size
      → clear_shadow e slot s m
          (pool_addr e ((s.set slot + 1) % 2) (slot * blocks_per_message e + k) + 4 * j)
        ≡ 0
  unfolding clear_shadow pool_addr global_slot
  clear_shadow-pool slot k j s m h h' h'' =
      let in_message : k < q = rw message-eq at h' in
      let inside : k * e.block_size + j < q * e.block_size =
        omega (arith, mul_mono (suc k) q e.block_size in_message) in
      clear_words-at e.message_size (pool_base e ((s.set slot + 1) % 2)) _ _ j
        (k * e.block_size + j) m
        (rw
          (
            message-eq,
            blocks-eq,
            g.message,
            g.element,
            clear_start slot h,
            block_start slot k h in_message,
          )
          (block_offset slot e.thread_id e.num_slots_per_thread q e.block_size k j))
        (rw (g.message) inside)

-- The slot is complete when the complete and the finished blocks are together all blocks of a message.
slot_complete_iff :
    (e : Env) (slot : ℕ) (s : State)
    → blocks_per_message e < 2 ^ 32
    → s.finished_blocks slot ≤ blocks_per_message e
    → (slot_complete e slot s ≡ true)
      ↔ (blocks_per_message e ≤ s.completed_blocks slot + s.finished_blocks slot)
unfolding slot_complete
slot_complete_iff e slot s small some_left = (λ h. ground arith, λ h. ground arith)
