-- ===== src/Aggregator/Answer.antt =====
-- The answer of aggregator of omnireduce/aggregator.cpp for a slot: what stands in the message that goes
-- out, and what the pools are afterwards.
use omnireduce.Base.{
  ℕ, zero, suc, ◌+◌, ◌*◌, ◌%◌, ◌<◌, ◌≤◌, ◌≡◌, inl, inr, refl, sym, ◌∙◌, ap, arith, u32, leb, ◌==◌,
  ==_iff, Bool-cases, true, mul_mono, ℕ_discrete, update, loop_over, Memory, Outside, copy_words,
  copy_words-Outside, copy_words-inside, clear_words-Outside,
}
use omnireduce.Aggregator.{
  Env, State, block_index, pool_addr, send_buff, global_slot, gather_blocks, store_words, gather,
  clear_shadow, answer, advance_block, finish_slot, blocks_per_message,
}
use omnireduce.Aggregator.Layout.{
  Fits, Fits-Geometry, pools_start, message_word, send_buff-eq, pool_addr-eq, pool_base_ge,
  block_index_lt,
}
use omnireduce.Aggregator.Blocks.{clear_shadow-pool}

store_words-inside :
    (n dst : ℕ) (words : ℕ → ℕ) (m : Memory) (i : ℕ)
    → i < n
    → store_words dst words n m (dst + 4 * i) ≡ words i
unfolding store_words
store_words-inside zero dst words m i h = absurd (omega arith)
store_words-inside (suc n) dst words m i h = elim (ℕ_discrete i n) [
  | yes e ↦ ground arith
  | no ne ↦ ground (arith, store_words-inside n dst words m i)
]

store_words-Outside :
    (n dst : ℕ) (words : ℕ → ℕ) (m : Memory) (a : ℕ)
    → Outside dst n a
    → store_words dst words n m a ≡ m a
unfolding store_words
store_words-Outside zero dst words m a h = refl
store_words-Outside (suc n) dst words m a h = ground (arith, store_words-Outside n dst words m a)

advance_block-frame :
    (e : Env) (slot k : ℕ) (s : State)
    → ((advance_block e slot k s).set ≡ s.set) × ((advance_block e slot k s).comm_buf ≡ s.comm_buf)
unfolding advance_block
advance_block-frame e slot k s = elim (Bool-cases (leb e.inf_offset_0 (s.next_offsets slot k))) [
  | inl h ↦ rw h (refl, refl)
  | inr h ↦ rw h (refl, refl)
]

advance_blocks-frame :
    (e : Env) (slot k n : ℕ) (s : State)
    → ((loop_over k n (advance_block e slot) s).set ≡ s.set)
      × ((loop_over k n (advance_block e slot) s).comm_buf ≡ s.comm_buf)
unfolding loop_over
advance_blocks-frame e slot k zero s = (refl, refl)
advance_blocks-frame e slot k (suc n) s =
    let first = advance_block-frame e slot k s in
    let rest = advance_blocks-frame e slot (k + 1) n (advance_block e slot k s) in
    (rest.0 ∙ first.0, rest.1 ∙ first.1)

finish_slot-frame :
    (e : Env) (slot : ℕ) (s : State)
    → ((finish_slot e slot s).0.set ≡ s.set) × ((finish_slot e slot s).0.comm_buf ≡ s.comm_buf)
unfolding finish_slot
finish_slot-frame e slot s = elim (Bool-cases (s.finished_blocks slot == blocks_per_message e)) [
  | inl h ↦ rw h (refl, refl)
  | inr h ↦ rw h (refl, refl)
]

answer-frame :
    (e : Env) (typecode slot : ℕ) (s : State)
    → ((answer e typecode slot s).0.set slot ≡ (s.set slot + 1) % 2)
      × ((answer e typecode slot s).0.comm_buf ≡ clear_shadow e slot s (gather e slot s))
unfolding answer
answer-frame e typecode slot s =
    let sent = record s { comm_buf = clear_shadow e slot s (gather e slot s) } in
    let numbered = record sent {
      buff_index = update s.buff_index slot ((s.buff_index slot + 1) % e.num_comm_buff);
    } in
    let advanced = loop_over 0 (s.completed_blocks slot) (advance_block e slot) numbered in
    let frame = advance_blocks-frame e slot 0 (s.completed_blocks slot) numbered in
    let closed =
      finish_slot-frame e slot
        (record advanced { completed_blocks = update advanced.completed_blocks slot 0 }) in
    let self : (slot == slot) ≡ true = (==_iff slot slot).1 refl in
    (rw self (ap (λ (u : ℕ → ℕ). (u slot + 1) % 2) (closed.0 ∙ frame.0)), closed.1 ∙ frame.1)

block_before : (i k bs j : ℕ) → i < k → j < bs → i * bs + j < k * bs
block_before i k bs j h hj = omega (arith, mul_mono (suc i) k bs h)

module _ (q : ℕ) (e : Env) (f : Fits q e) (slot : ℕ) (s : State)
    (slot_lt : slot < e.num_slots_per_thread) (set_lt : s.set slot < 2)
    (index_lt : s.buff_index slot < e.num_comm_buff) where
  -- The message, in words, and the block of the pool that is its block `i`.
  abbrev start : ℕ
  start = message_word e (e.num_workers + s.buff_index slot) slot

  abbrev send : ℕ
  send = send_buff e (global_slot e slot) (s.buff_index slot)

  abbrev source : ℕ → ℕ
  source i = pool_addr e (s.set slot) (block_index e (s.next_offsets slot i))

  inside : (send ≡ 4 * start) × (start + 2 * e.message_size ≤ pools_start e)
  inside = send_buff-eq q e f slot (s.buff_index slot) slot_lt index_lt

  blocks_room : (i : ℕ) → i < q → i * e.block_size + e.block_size ≤ e.message_size
  blocks_room i h = omega (arith, f.message, mul_mono (suc i) q e.block_size h)

  block_place :
      (i : ℕ)
      → i < q
      → send + u32 (i * e.block_size * e.element_size) ≡ 4 * (start + i * e.block_size)
  block_place i h = rw (inside.0, f.element) (omega (arith, inside.1, blocks_room i h, f.room))

  source_above : (i : ℕ) → 4 * pools_start e ≤ source i
  source_above i = omega (
    arith,
    (pool_addr-eq q e f (s.set slot) (block_index e (s.next_offsets slot i)) set_lt
        (block_index_lt q e f _)).0,
  )

  record Gathered (k n : ℕ) (m m' : Memory) : Type 0 where
    kept : (a : ℕ) → 4 * pools_start e ≤ a → m' a ≡ m a
    before : (w : ℕ) → w < start + k * e.block_size → m' (4 * w) ≡ m (4 * w)
    blocks :
        (i j : ℕ)
        → k ≤ i
        → i < k + n
        → j < e.block_size
        → m' (4 * (start + i * e.block_size + j)) ≡ m (source i + 4 * j)

  gather_blocks-Gathered :
      (k n : ℕ) (m : Memory) → k + n ≤ q → Gathered k n m (gather_blocks e slot send s k n m)
  unfolding gather_blocks
  gather_blocks-Gathered k zero m h = record {
    kept = λ a above. refl;
    before = λ w lt. refl;
    blocks = λ i j low high hj. absurd (omega arith);
  }
  gather_blocks-Gathered k (suc n) m h =
      let dst = send + u32 (k * e.block_size * e.element_size) in
      let m1 = copy_words e.block_size dst (source k) m m in
      let at : dst ≡ 4 * (start + k * e.block_size) = block_place k (omega arith) in
      let rest = gather_blocks-Gathered (k + 1) n m1 (omega arith) in
      let room = blocks_room k (omega arith) in
      let above_kept : (a : ℕ) → 4 * pools_start e ≤ a → m1 a ≡ m a = λ a above.
        copy_words-Outside e.block_size dst (source k) m m a
          (inr (omega (arith, at, room, inside.1, above))) in
      record {
        kept = λ a above. rest.kept a above ∙ above_kept a above;
        before = λ w lt.
            rest.before w (omega (arith, lt))
            ∙ copy_words-Outside e.block_size dst (source k) m m (4 * w)
                (inl (omega (arith, at, lt)));
        blocks = λ i j low high hj. elim (ℕ_discrete i k) [
          | yes same ↦
              let place : 4 * (start + k * e.block_size + j) ≡ dst + 4 * j = omega (arith, at) in
              rw same (
                rest.before (start + k * e.block_size + j) (omega (arith, hj))
                ∙ ap m1 place
                ∙ copy_words-inside e.block_size dst (source k) m m j hj)
          | no other ↦
              rest.blocks i j (omega arith) (omega arith) hj
              ∙ above_kept (source i + 4 * j) (omega (arith, source_above i))
        ];
      }

  abbrev sent : ℕ
  sent = s.completed_blocks slot

  -- What goes out, and what is left in the pools.
  pub record IsAnswered (s' : State) : Type 0 where
    pub blocks :
        (i j : ℕ)
        → i < sent
        → j < e.block_size
        → s'.comm_buf (send + u32 (i * e.block_size * e.element_size) + 4 * j)
          ≡ s.comm_buf (source i + 4 * j)
    pub offsets :
        (i : ℕ)
        → i < sent
        → s'.comm_buf (send + u32 (sent * e.block_size * e.element_size) + 4 * i)
          ≡ s.next_offsets slot i
    pub next_pool : s'.set slot ≡ (s.set slot + 1) % 2
    pub cleared :
        (k j : ℕ)
        → k < blocks_per_message e
        → j < e.block_size
        → s'.comm_buf (pool_addr e (s'.set slot) (slot * blocks_per_message e + k) + 4 * j) ≡ 0

  clear_shadow-below :
      (w : ℕ) (m : Memory) → w < pools_start e → clear_shadow e slot s m (4 * w) ≡ m (4 * w)
  unfolding clear_shadow
  clear_shadow-below w m low = clear_words-Outside e.message_size _ m (4 * w) (
      inl (
        let above = pool_base_ge q e f ((s.set slot + 1) % 2) (omega arith) in
        omega (arith, above, low)))

  pub answer-IsAnswered : (typecode : ℕ) → sent ≤ q → IsAnswered ((answer e typecode slot s).0)
  unfolding gather
  answer-IsAnswered typecode few =
      let s' = (answer e typecode slot s).0 in
      let frame = answer-frame e typecode slot s in
      let m1 = gather_blocks e slot send s 0 sent s.comm_buf in
      let dst = send + u32 (sent * e.block_size * e.element_size) in
      let m2 = store_words dst (s.next_offsets slot) sent m1 in
      let gathered = gather_blocks-Gathered 0 sent s.comm_buf (omega (arith, few)) in
      let rows = mul_mono sent q e.block_size few in
      let few_words = mul_mono 1 e.block_size sent f.block_pos in
      let place : dst ≡ 4 * (start + sent * e.block_size) =
        rw (inside.0, f.element) (omega (arith, inside.1, f.message, rows, f.room)) in
      let buffer : (w : ℕ) → w < pools_start e → s'.comm_buf (4 * w) ≡ m2 (4 * w) =
        λ w low. ap (λ (m : Memory). m (4 * w)) (frame.1) ∙ clear_shadow-below w m2 low in
      record {
        blocks = λ i j h hj.
            let room = blocks_room i (omega arith) in
            let row = block_before i sent e.block_size j h hj in
            let w = start + i * e.block_size + j in
            let at : send + u32 (i * e.block_size * e.element_size) + 4 * j ≡ 4 * w =
              omega (arith, block_place i (omega arith)) in
            ap s'.comm_buf at
            ∙ buffer w (omega (arith, inside.1, room))
            ∙ store_words-Outside sent dst (s.next_offsets slot) m1 (4 * w)
                (inl (omega (arith, place, row)))
            ∙ gathered.blocks i j (omega arith) (omega arith) hj;
        offsets = λ i h.
            let w = start + sent * e.block_size + i in
            let at : dst + 4 * i ≡ 4 * w = omega (arith, place) in
            ap s'.comm_buf at
            ∙ buffer w (omega (arith, inside.1, f.message, rows, few_words))
            ∙ ap m2 (sym at)
            ∙ store_words-inside sent dst (s.next_offsets slot) m1 i h;
        next_pool = frame.0;
        cleared = λ k j h hj.
            rw (frame.0, frame.1)
              (clear_shadow-pool q e (Fits-Geometry q e f) slot k j s m2 slot_lt h hj);
      }
