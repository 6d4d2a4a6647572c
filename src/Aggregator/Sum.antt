-- ===== src/Aggregator/Sum.antt =====
-- What the message of a worker does to the pool of its slot, in aggregator of omnireduce/aggregator.cpp.
use mathlib.Core.Path.{subst}
use omnireduce.Base.{
  ℕ, zero, suc, ◌+◌, ◌-◌, ◌*◌, ◌<◌, ◌≤◌, ◌≡◌, ◌≢◌, inl, inr, refl, sym, ◌∙◌, ap, arith, u32, ltb,
  ◌==◌, ==_iff, if◌then◌else◌, Bool-cases, true, false, mul_mono, ℕ_discrete, loop_over, Memory,
  Apart, add_words, add_words-Outside, add_words-inside,
}
use omnireduce.Aggregator.{
  Env, State, block_index, recv_addr, meta_addr, pool_addr, record_offset, note_complete,
  receive_block, receive_blocks, accumulate, register,
}
use omnireduce.Aggregator.Layout.{
  Fits, pools_start, message_word, recv_addr-eq, pool_addr-eq, pool_addr-Outside, pool_addr-Apart,
  block_index_lt,
}

-- What a message carries: the next offset of its block `k`, and word `j` of it.
pub record Carries (e : Env) (slot wid num : ℕ) (next : ℕ → ℕ) (word : ℕ → ℕ → ℕ) (m : Memory)
    : Type 0 where
  pub offsets : (k : ℕ) → k < num → m (meta_addr e slot wid num + 4 * k) ≡ next k
  pub words :
      (k j : ℕ)
      → k < num
      → j < e.block_size
      → m (recv_addr e slot wid + u32 (k * e.block_size * e.element_size) + 4 * j) ≡ word k j

-- Blocks `k` to `k + n - 1` of a message add their word to that of the block `b` of the slot, if it is
-- theirs.
abbrev pub added : (ℕ → ℕ → ℕ) → (bid : ℕ → ℕ) → (word : ℕ → ℕ) → (b k n : ℕ) → ℕ → ℕ
added add bid word b k zero v = v
added add bid word b k (suc n) v =
    added add bid word b (k + 1) n (if b == bid k then add v (word k) else v)

block_room : (k num q bs ms : ℕ) → k < num → num ≤ q → ms ≡ q * bs → k * bs + bs ≤ ms
block_room k num q bs ms h le eq = omega (arith, eq, mul_mono (suc k) q bs (omega arith))

offset_room : (num q bs ms : ℕ) → num ≤ q → 0 < bs → ms ≡ q * bs → bs * num + num ≤ 2 * ms
offset_room num q bs ms le pos eq = omega (arith, eq, mul_mono num q bs le, mul_mono 1 bs num pos)

note_complete-frame :
    (slot bid : ℕ) (s : State)
    → ((note_complete slot bid s).set ≡ s.set)
      × ((note_complete slot bid s).comm_buf ≡ s.comm_buf)
      × ((note_complete slot bid s).buff_index ≡ s.buff_index)
unfolding note_complete
note_complete-frame slot bid s =
    elim (Bool-cases (ltb (s.current_offset bid) (s.min_next_offset bid))) [
      | inl h ↦ rw h (refl, refl, refl)
      | inr h ↦ rw h (refl, refl, refl)
    ]

pub register-frame :
    (e : Env) (slot wid qp_num : ℕ) (s : State)
    → ((register e slot wid qp_num s).set ≡ s.set)
      × ((register e slot wid qp_num s).comm_buf ≡ s.comm_buf)
      × ((register e slot wid qp_num s).buff_index ≡ s.buff_index)
unfolding register
register-frame e slot wid qp_num s = elim (Bool-cases (ltb (s.register_count slot) e.num_workers)) [
  | inl h ↦ rw h (refl, refl, refl)
  | inr h ↦ rw h (refl, refl, refl)
]

module _ (q : ℕ) (e : Env) (f : Fits q e) (add : ℕ → ℕ → ℕ) (slot wid num : ℕ)
    (slot_lt : slot < e.num_slots_per_thread) (wid_lt : wid < e.num_workers)
    (num_le : num ≤ q) where
  -- Where the message is, in words.
  abbrev start : ℕ
  start = message_word e wid slot

  word_place :
      (k j : ℕ)
      → k < num
      → j < e.block_size
      → (recv_addr e slot wid + u32 (k * e.block_size * e.element_size)
          ≡ 4 * (start + k * e.block_size))
        × (start + k * e.block_size + j < pools_start e)
  word_place k j h hj =
      let at = recv_addr-eq q e f slot wid slot_lt wid_lt in
      let inside = block_room k num q e.block_size e.message_size h num_le f.message in
      (rw (at.0, f.element) (omega (arith, at.1, inside, f.room)), omega (arith, at.1, inside))

  offset_place :
      (k : ℕ)
      → k < num
      → (meta_addr e slot wid num + 4 * k ≡ 4 * (start + e.block_size * num + k))
        × (start + e.block_size * num + k < pools_start e)
  unfolding meta_addr
  offset_place k h =
      let at = recv_addr-eq q e f slot wid slot_lt wid_lt in
      let inside = offset_room num q e.block_size e.message_size num_le f.block_pos f.message in
      (rw (at.0, f.element) (omega (arith, at.1, inside, f.room)), omega (arith, at.1, inside))

  -- A change of the pools leaves the message alone.
  abbrev pub SameMessages : Memory → Memory → Type 0
  SameMessages m m' = (w : ℕ) → w < pools_start e → m' (4 * w) ≡ m (4 * w)

  SameMessages-Carries :
      (next : ℕ → ℕ) (word : ℕ → ℕ → ℕ) (m m' : Memory)
      → SameMessages m m'
      → Carries e slot wid num next word m
      → Carries e slot wid num next word m'
  SameMessages-Carries next word m m' same c = record {
    offsets = λ k h.
        let at = offset_place k h in
        ap m' (at.0) ∙ same _ (at.1) ∙ ap m (sym (at.0)) ∙ c.offsets k h;
    words = λ k j h hj.
        let at = word_place k j h hj in
        let there : recv_addr e slot wid + u32 (k * e.block_size * e.element_size) + 4 * j
            ≡ 4 * (start + k * e.block_size + j) =
          omega (arith, at.0) in
        ap m' there ∙ same _ (at.1) ∙ ap m (sym there) ∙ c.words k j h hj;
  }

  receive_block-buffer :
      (k : ℕ) (s : State)
      → let bid = block_index e (s.comm_buf (meta_addr e slot wid num + 4 * k)) in
        ((receive_block e add slot wid num k s).set ≡ s.set)
        × ((receive_block e add slot wid num k s).comm_buf
            ≡ add_words add e.block_size
                (pool_addr e (s.set slot) bid)
                (recv_addr e slot wid + u32 (k * e.block_size * e.element_size))
                s.comm_buf)
        × ((receive_block e add slot wid num k s).buff_index ≡ s.buff_index)
  unfolding receive_block accumulate record_offset
  receive_block-buffer k s =
      let next = s.comm_buf (meta_addr e slot wid num + 4 * k) in
      let frame =
        note_complete-frame slot (block_index e next)
          (record_offset e (block_index e next) wid next s) in
      (frame.0, rw (frame.0, frame.1) refl, frame.2)

  module _ (next : ℕ → ℕ) (word : ℕ → ℕ → ℕ) where
    abbrev pub bid : ℕ → ℕ
    bid k = block_index e (next k)

    -- One block, and a run of blocks.
    pub record Step (k n : ℕ) (s r : State) : Type 0 where
      pub same_set : r.set ≡ s.set
      pub same_index : r.buff_index ≡ s.buff_index
      pub messages : SameMessages s.comm_buf r.comm_buf
      pub sums :
          (b j : ℕ)
          → b < e.num_slots_per_thread * q
          → j < e.block_size
          → r.comm_buf (pool_addr e (s.set slot) b + 4 * j)
            ≡ added add bid (λ k. word k j) b k n (s.comm_buf (pool_addr e (s.set slot) b + 4 * j))
      pub others :
          (set b j : ℕ)
          → set < 2
          → set ≢ s.set slot
          → b < e.num_slots_per_thread * q
          → j < e.block_size
          → r.comm_buf (pool_addr e set b + 4 * j) ≡ s.comm_buf (pool_addr e set b + 4 * j)

    receive_block-Step :
        (k : ℕ) (s : State)
        → k < num
        → s.set slot < 2
        → Carries e slot wid num next word s.comm_buf
        → Step k 1 s (receive_block e add slot wid num k s)
    receive_block-Step k s h set_lt c =
        let set = s.set slot in
        let effect = receive_block-buffer k s in
        let bid_lt = block_index_lt q e f (next k) in
        let dst = pool_addr e set (bid k) in
        let src = recv_addr e slot wid + u32 (k * e.block_size * e.element_size) in
        let buffer : (receive_block e add slot wid num k s).comm_buf
            ≡ add_words add e.block_size dst src s.comm_buf =
          rw (effect.1) (rw (c.offsets k h) refl) in
        let apart : Apart dst src e.block_size =
          let last = word_place k (e.block_size - 1) h (omega (arith, f.block_pos)) in
          let to = pool_addr-eq q e f set (bid k) set_lt bid_lt in
          inr (omega (arith, last.0, last.1, to.0, f.block_pos)) in
        record {
          same_set = effect.0;
          same_index = effect.2;
          messages = λ w lt. rw buffer (
              add_words-Outside add e.block_size dst src s.comm_buf (4 * w)
                (pool_addr-Outside q e f set (bid k) w set_lt bid_lt lt));
          sums = λ b j hb hj. elim (ℕ_discrete b (bid k)) [
            | yes same ↦
                let test : (b == bid k) ≡ true = (==_iff _ _).1 same in
                let sum : (receive_block e add slot wid num k s).comm_buf (dst + 4 * j)
                    ≡ add (s.comm_buf (dst + 4 * j)) (word k j) =
                  rw buffer (
                    add_words-inside add e.block_size dst src s.comm_buf apart j hj
                    ∙ ap (add (s.comm_buf (dst + 4 * j))) (c.words k j h hj)) in
                rw test (rw same sum)
            | no other ↦
                let far =
                  pool_addr-Apart q e f set set (bid k) b j set_lt set_lt bid_lt hb hj
                    (inr (λ eq. other (sym eq))) in
                let test : (b == bid k) ≡ false = ground (arith, other) in
                rw test (rw buffer (add_words-Outside add e.block_size dst src s.comm_buf _ far))
          ];
          others = λ set' b j hs ne hb hj.
              let far =
                pool_addr-Apart q e f set set' (bid k) b j set_lt hs bid_lt hb hj
                  (inl (λ eq. ne (sym eq))) in
              rw buffer (add_words-Outside add e.block_size dst src s.comm_buf _ far);
        }

    receive_loop :
        (k n : ℕ) (s : State)
        → k + n ≤ num
        → s.set slot < 2
        → Carries e slot wid num next word s.comm_buf
        → Step k n s (loop_over k n (receive_block e add slot wid num) s)
    unfolding loop_over
    receive_loop k zero s h set_lt c = record {
      same_set = refl;
      same_index = refl;
      messages = λ w lt. refl;
      sums = λ b j hb hj. refl;
      others = λ set b j hs ne hb hj. refl;
    }
    receive_loop k (suc n) s h set_lt c =
        let s1 = receive_block e add slot wid num k s in
        let first = receive_block-Step k s (omega arith) set_lt c in
        let same : s1.set slot ≡ s.set slot = ap (λ (t : ℕ → ℕ). t slot) (first.same_set) in
        let rest =
          receive_loop (k + 1) n s1 (omega arith) (rw same set_lt)
            (SameMessages-Carries next word s.comm_buf s1.comm_buf first.messages c) in
        record {
          same_set = rest.same_set ∙ first.same_set;
          same_index = rest.same_index ∙ first.same_index;
          messages = λ w lt. rest.messages w lt ∙ first.messages w lt;
          sums = λ b j hb hj.
              subst
                (λ t.
                  (loop_over (k + 1) n (receive_block e add slot wid num) s1).comm_buf
                    (pool_addr e t b + 4 * j)
                  ≡ added add bid (λ i. word i j) b (k + 1) n
                      (s1.comm_buf (pool_addr e t b + 4 * j)))
                same (rest.sums b j hb hj)
              ∙ ap (added add bid (λ i. word i j) b (k + 1) n) (first.sums b j hb hj);
          others = λ set b j hs ne hb hj.
              rest.others set b j hs (λ eq. ne (eq ∙ same)) hb hj
              ∙ first.others set b j hs ne hb hj;
        }

    abbrev Total : (ℕ → ℕ) → Memory → State → (b j : ℕ) → Type 0
    Total u m r b j =
        r.comm_buf (pool_addr e (u slot) b + 4 * j)
        ≡ added add bid (λ k. word k j) b 0 num (m (pool_addr e (u slot) b + 4 * j))

    pub receive_message-Step :
        (qp_num : ℕ) (s : State)
        → s.set slot < 2
        → Carries e slot wid num next word s.comm_buf
        → Step 0 num s (receive_blocks e add slot wid num (register e slot wid qp_num s))
    unfolding receive_blocks
    receive_message-Step qp_num s set_lt c =
        let frame = register-frame e slot wid qp_num s in
        let t = register e slot wid qp_num s in
        let r = loop_over 0 num (receive_block e add slot wid num) t in
        let step = receive_loop 0 num t (omega arith) (rw (frame.0) set_lt) (rw (frame.1) c) in
        record {
          same_set = step.same_set ∙ frame.0;
          same_index = step.same_index ∙ frame.2;
          messages = λ w lt. step.messages w lt ∙ ap (λ (m : Memory). m (4 * w)) (frame.1);
          sums = λ b j hb hj.
              subst (λ (m : Memory). Total s.set m r b j) (frame.1)
                (subst (λ u. Total u t.comm_buf r b j) (frame.0) (step.sums b j hb hj));
          others = λ set b j hs ne hb hj.
              step.others set b j hs (λ eq. ne (eq ∙ ap (λ (u : ℕ → ℕ). u slot) (frame.0))) hb hj
              ∙ ap (λ (m : Memory). m (pool_addr e set b + 4 * j)) (frame.1);
        }
