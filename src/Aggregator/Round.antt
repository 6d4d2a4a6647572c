-- ===== src/Aggregator/Round.antt =====
-- A round of a slot of aggregator of omnireduce/aggregator.cpp: the completions of the messages of the
-- workers, up to the one with which the slot is complete.
use mathlib.Core.Path.{subst}
use omnireduce.Base.{
  ℕ, suc, ◌+◌, ◌*◌, ◌%◌, ◌<◌, ◌≤◌, ◌≡◌, inr, refl, sym, ◌∙◌, ap, arith, u32, true, false,
  if◌then◌else◌, Option, none, some, List, [], ◌∷◌, ◌++◌, Memory, mul_mono,
}
use mathlib.Core.List.{append-nil}
use omnireduce.Verbs.{Request}
use omnireduce.Wire.{imm_typecode, imm_num, imm_slot}
use omnireduce.DrAggregator.Sum.{Nic}
use omnireduce.Aggregator.{
  Env, State, block_index, blocks_per_message, recv_addr, meta_addr, pool_addr, send_buff,
  global_slot, register, receive_blocks, slot_complete, answer, code_add, handle,
}
use omnireduce.Aggregator.Layout.{Fits, recv_addr-eq, pool_addr-eq, block_index_lt}
use omnireduce.Aggregator.Sum.{Carries, added, receive_message-Step}
use omnireduce.Aggregator.Answer.{answer-IsAnswered}

-- What a worker sends: an RDMA write with immediate data of its blocks and, behind them, their next
-- offsets.
pub record Message : Type 0 where
  pub qp_num : ℕ
  pub imm : ℕ
  pub payload : Memory

abbrev pub sender : Env → Message → ℕ
sender e m = e.qps.qp_num_to_peerid m.qp_num

abbrev pub next : Env → Message → ℕ → ℕ
next e m k = m.payload (4 * (e.block_size * imm_num m.imm + k))

abbrev pub word : Env → Message → ℕ → ℕ → ℕ
word e m k j = m.payload (4 * (k * e.block_size + j))

abbrev pub deliver : Nic → Env → ℕ → Message → State → State
deliver nic e slot m s = record s {
  comm_buf =
      nic.write (e.block_size * imm_num m.imm + imm_num m.imm) (recv_addr e slot (sender e m))
        m.payload s.comm_buf;
}

-- The state after the completion of a message, before an answer.
abbrev pub receive : Nic → Env → (ℕ → ℕ → ℕ) → ℕ → Message → State → State
receive nic e add slot m s =
    receive_blocks e add slot (sender e m) (imm_num m.imm)
      (register e slot (sender e m) m.qp_num (deliver nic e slot m s))

-- The completions, one after the other, and what the thread posts.
unfoldable pub run_round :
    Nic → (ℕ → ℕ → ℕ) → Env → ℕ → List Message → State → Option (State × List Request)
run_round nic float_add e slot [] s = some (s, [])
run_round nic float_add e slot (m ∷ ms) s =
    let rest = run_round nic float_add e slot ms in
    elim (handle float_add e m.imm m.qp_num (deliver nic e slot m s)) [
      | none ↦ none
      | some (s1, out1) ↦ elim (rest s1) [ none ↦ none | some (s2, out2) ↦ some (s2, out1 ++ out2) ]
    ]

-- A message of blocks for the slot, of a type that `add` adds.
pub record IsFor (q : ℕ) (float_add : ℕ → ℕ → ℕ) (e : Env) (add : ℕ → ℕ → ℕ) (slot : ℕ)
    (m : Message) : Type 0 where
  pub its_slot : imm_slot m.imm % e.num_slots_per_thread ≡ slot
  pub its_sender : sender e m < e.num_workers
  pub few : imm_num m.imm ≤ q
  pub its_type : code_add float_add (imm_typecode m.imm) ≡ some add

-- `m` and then `ms` are the messages of a round: the slot is complete with the last of them, and not
-- before. `t` is the state with which it is complete.
abbrev pub Sends :
    ℕ
    → Nic
    → (ℕ → ℕ → ℕ)
    → Env
    → (ℕ → ℕ → ℕ)
    → ℕ
    → (m : Message) → (ms : List Message) → (s t : State) → Type 0
Sends q nic float_add e add slot m [] s t =
    IsFor q float_add e add slot m
    × (receive nic e add slot m s ≡ t)
    × (slot_complete e slot t ≡ true)
Sends q nic float_add e add slot m (m' ∷ ms) s t =
    IsFor q float_add e add slot m
    × (slot_complete e slot (receive nic e add slot m s) ≡ false)
    × Sends q nic float_add e add slot m' ms (receive nic e add slot m s) t

-- All that the messages have for word `j` of the block `b`, added to `v` in the order of arrival.
abbrev pub total : Env → (ℕ → ℕ → ℕ) → (b j : ℕ) → Message → List Message → ℕ → ℕ
total e add b j m [] v =
    added add (λ k. block_index e (next e m k)) (λ k. word e m k j) b 0 (imm_num m.imm) v
total e add b j m (m' ∷ ms) v =
    total e add b j m' ms
      (added add (λ k. block_index e (next e m k)) (λ k. word e m k j) b 0 (imm_num m.imm) v)

abbrev pub last_type : Message → List Message → ℕ
last_type m [] = imm_typecode m.imm
last_type m (m' ∷ ms) = last_type m' ms

handle-eq :
    (q : ℕ) (float_add : ℕ → ℕ → ℕ) (e : Env) (add : ℕ → ℕ → ℕ) (slot : ℕ) (m : Message) (s : State)
    → IsFor q float_add e add slot m
    → let received =
        receive_blocks e add slot
          (sender e m)
          (imm_num m.imm)
          (register e slot (sender e m) m.qp_num s) in
      handle float_add e m.imm m.qp_num s
      ≡ some (
          if slot_complete e slot received
          then answer e (imm_typecode m.imm) slot received
          else (received, []))
unfolding handle
handle-eq q float_add e add slot m s h = rw (h.its_type, handle) (rw (h.its_slot) refl)

run_round_empty :
    (nic : Nic) (float_add : ℕ → ℕ → ℕ) (e : Env) (slot : ℕ) (s : State)
    → run_round nic float_add e slot [] s ≡ some (s, [])
unfolding run_round
run_round_empty nic float_add e slot s = refl

run_round-cons :
    (nic : Nic) (float_add : ℕ → ℕ → ℕ) (e : Env) (slot : ℕ) (m : Message) (ms : List Message)
    (s : State) (first rest : State × List Request)
    → handle float_add e m.imm m.qp_num (deliver nic e slot m s) ≡ some first
    → run_round nic float_add e slot ms (first.0) ≡ some rest
    → run_round nic float_add e slot (m ∷ ms) s ≡ some (rest.0, first.1 ++ rest.1)
unfolding run_round
run_round-cons nic float_add e slot m ms s first rest h h' = rw (h, run_round) (rw h' refl)

module _ (q : ℕ) (e : Env) (f : Fits q e) (nic : Nic) (add : ℕ → ℕ → ℕ) (slot : ℕ)
    (slot_lt : slot < e.num_slots_per_thread) where
  payload_room : (num : ℕ) → num ≤ q → e.block_size * num + num ≤ 2 * e.message_size
  payload_room num h =
      omega
        (arith, f.message, mul_mono num q e.block_size h, mul_mono 1 e.block_size num f.block_pos)

  deliver-Carries :
      (float_add : ℕ → ℕ → ℕ) (m : Message) (s : State)
      → IsFor q float_add e add slot m
      → Carries e slot
          (sender e m)
          (imm_num m.imm)
          (next e m)
          (word e m)
          (deliver nic e slot m s).comm_buf
  unfolding meta_addr
  deliver-Carries float_add m s h =
      let num = imm_num m.imm in
      let at = recv_addr-eq q e f slot (sender e m) slot_lt h.its_sender in
      let room = payload_room num h.few in
      let written = (deliver nic e slot m s).comm_buf in
      record {
        offsets = λ k lt.
            let same : recv_addr e slot (sender e m)
                  + u32 (e.block_size * num * e.element_size)
                  + 4 * k
                ≡ recv_addr e slot (sender e m) + 4 * (e.block_size * num + k) =
              rw (f.element) (omega (arith, at.1, room, f.room)) in
            ap written same
            ∙ nic.write-inside _ _ m.payload s.comm_buf (e.block_size * num + k) (omega arith);
        words = λ k j lt hj.
            let row = mul_mono (suc k) num e.block_size lt in
            let same : recv_addr e slot (sender e m)
                  + u32 (k * e.block_size * e.element_size)
                  + 4 * j
                ≡ recv_addr e slot (sender e m) + 4 * (k * e.block_size + j) =
              rw (f.element) (omega (arith, at.1, room, row, f.room)) in
            ap written same
            ∙ nic.write-inside _ _ m.payload s.comm_buf (k * e.block_size + j)
                (omega (arith, row, hj));
      }

  deliver-pools :
      (float_add : ℕ → ℕ → ℕ) (m : Message) (s : State)
      → IsFor q float_add e add slot m
      → (set b j : ℕ) → set < 2
      → b < e.num_slots_per_thread * q
      → (deliver nic e slot m s).comm_buf (pool_addr e set b + 4 * j)
        ≡ s.comm_buf (pool_addr e set b + 4 * j)
  deliver-pools float_add m s h set b j hs hb =
      let at = recv_addr-eq q e f slot (sender e m) slot_lt h.its_sender in
      let to = pool_addr-eq q e f set b hs hb in
      let room = payload_room (imm_num m.imm) h.few in
      nic.write-outside _ _ m.payload s.comm_buf _ (inr (omega (arith, at.0, at.1, to.0, room)))

  -- One message: what it adds, and what it leaves alone.
  receive-sums :
      (float_add : ℕ → ℕ → ℕ) (m : Message) (s : State)
      → IsFor q float_add e add slot m
      → s.set slot < 2
      → let r = receive nic e add slot m s in
        (r.set ≡ s.set)
        × (r.buff_index ≡ s.buff_index)
        × ((b j : ℕ)
            → b < e.num_slots_per_thread * q
            → j < e.block_size
            → r.comm_buf (pool_addr e (s.set slot) b + 4 * j)
              ≡ total e add b j m [] (s.comm_buf (pool_addr e (s.set slot) b + 4 * j)))
  receive-sums float_add m s h set_lt =
      let step =
        receive_message-Step q e f add slot (sender e m) (imm_num m.imm) slot_lt h.its_sender h.few
          (next e m) (word e m) m.qp_num (deliver nic e slot m s) set_lt
          (deliver-Carries float_add m s h) in
      (
        step.same_set,
        step.same_index,
        λ b j hb hj.
            step.sums b j hb hj
            ∙ ap
                (added add (λ k. block_index e (next e m k)) (λ k. word e m k j) b 0
                  (imm_num m.imm))
                (deliver-pools float_add m s h (s.set slot) b j set_lt hb),
      )

  round-sums :
      (float_add : ℕ → ℕ → ℕ) (m : Message) (ms : List Message) (s t : State)
      → s.set slot < 2
      → Sends q nic float_add e add slot m ms s t
      → (t.set ≡ s.set)
        × (t.buff_index ≡ s.buff_index)
        × ((b j : ℕ)
            → b < e.num_slots_per_thread * q
            → j < e.block_size
            → t.comm_buf (pool_addr e (s.set slot) b + 4 * j)
              ≡ total e add b j m ms (s.comm_buf (pool_addr e (s.set slot) b + 4 * j)))
  round-sums float_add m [] s t set_lt h =
      subst
        (λ r.
          (r.set ≡ s.set)
          × (r.buff_index ≡ s.buff_index)
          × ((b j : ℕ)
              → b < e.num_slots_per_thread * q
              → j < e.block_size
              → r.comm_buf (pool_addr e (s.set slot) b + 4 * j)
                ≡ total e add b j m [] (s.comm_buf (pool_addr e (s.set slot) b + 4 * j))))
        (h.1) (receive-sums float_add m s (h.0) set_lt)
  round-sums float_add m (m' ∷ ms) s t set_lt h =
      let r = receive nic e add slot m s in
      let first = receive-sums float_add m s (h.0) set_lt in
      let same = ap (λ (u : ℕ → ℕ). u slot) (first.0) in
      let rest = round-sums float_add m' ms r t (rw same set_lt) (h.2) in
      (
        rest.0 ∙ first.0,
        rest.1 ∙ first.1,
        λ b j hb hj.
            subst
              (λ u.
                t.comm_buf (pool_addr e u b + 4 * j)
                ≡ total e add b j m' ms (r.comm_buf (pool_addr e u b + 4 * j)))
              same (rest.2 b j hb hj)
            ∙ ap (total e add b j m' ms) (first.2 b j hb hj),
      )

  run_round-answer :
      (float_add : ℕ → ℕ → ℕ) (m : Message) (ms : List Message) (s t : State)
      → Sends q nic float_add e add slot m ms s t
      → run_round nic float_add e slot (m ∷ ms) s ≡ some (answer e (last_type m ms) slot t)
  run_round-answer float_add m [] s t h =
      let handled = handle-eq q float_add e add slot m (deliver nic e slot m s) (h.0) in
      let r = receive nic e add slot m s in
      let a = answer e (imm_typecode m.imm) slot t in
      let last : (if slot_complete e slot r then answer e (imm_typecode m.imm) slot r else (r, []))
          ≡ a =
        subst
          (λ u.
            (if slot_complete e slot u then answer e (imm_typecode m.imm) slot u else (u, [])) ≡ a)
          (sym (h.1)) (rw (h.2) refl) in
      run_round-cons nic float_add e slot m [] s a (a.0, []) (handled ∙ ap some last)
        (run_round_empty nic float_add e slot (a.0))
      ∙ ap (λ l. some (a.0, l)) (append-nil (a.1))
  run_round-answer float_add m (m' ∷ ms) s t h =
      let handled = handle-eq q float_add e add slot m (deliver nic e slot m s) (h.0) in
      let r = receive nic e add slot m s in
      run_round-cons nic float_add e slot m (m' ∷ ms) s (r, []) (answer e (last_type m' ms) slot t)
        (handled ∙ rw (h.1) refl) (run_round-answer float_add m' ms r t (h.2))

  -- After the round, in state `s'`: what stands in the answer, and what the pools hold. `t` is the
  -- state in which the thread answers.
  pub record IsSummed (m : Message) (ms : List Message) (s t s' : State) : Type 0 where
    pub sums :
        (i j : ℕ)
        → i < t.completed_blocks slot
        → j < e.block_size
        → let b = block_index e (t.next_offsets slot i) in
          s'.comm_buf (
            send_buff e (global_slot e slot) (s.buff_index slot)
            + u32 (i * e.block_size * e.element_size)
            + 4 * j)
          ≡ total e add b j m ms (s.comm_buf (pool_addr e (s.set slot) b + 4 * j))
    pub offsets :
        (i : ℕ)
        → i < t.completed_blocks slot
        → s'.comm_buf (
            send_buff e (global_slot e slot) (s.buff_index slot)
            + u32 (t.completed_blocks slot * e.block_size * e.element_size)
            + 4 * i)
          ≡ t.next_offsets slot i
    pub next_pool : s'.set slot ≡ (s.set slot + 1) % 2
    pub cleared :
        (k j : ℕ)
        → k < blocks_per_message e
        → j < e.block_size
        → s'.comm_buf (pool_addr e (s'.set slot) (slot * blocks_per_message e + k) + 4 * j) ≡ 0

  -- For an aggregator thread without direct memory, with elements of four bytes, messages of q
  -- blocks and a buffer of less than 2^32 bytes, a slot, pool and answer buffer that exist,
  -- and a round of messages for the slot, each of at most q blocks and of a type that is
  -- summed, with the last of which, and not before, the slot is complete, at most q blocks of
  -- it: the thread handles all messages, and its answer holds, for each block that is
  -- complete, the old words of the pool plus the words that the messages have for this block,
  -- in the order of arrival, and then the next offsets of the blocks; the slot goes to the
  -- other pool, in which its blocks are zero.
  pub run_round-IsSummed :
      (float_add : ℕ → ℕ → ℕ) (m : Message) (ms : List Message) (s t : State)
      → s.set slot < 2
      → s.buff_index slot < e.num_comm_buff
      → Sends q nic float_add e add slot m ms s t
      → t.completed_blocks slot ≤ q
      → (s' : State) × (out : List Request) × (run_round nic float_add e slot (m ∷ ms) s
          ≡ some (s', out))
        × IsSummed m ms s t s'
  run_round-IsSummed float_add m ms s t set_lt index_lt h few =
      let a = answer e (last_type m ms) slot t in
      let sums = round-sums float_add m ms s t set_lt h in
      let same_set : t.set slot ≡ s.set slot = ap (λ (u : ℕ → ℕ). u slot) (sums.0) in
      let same_index : t.buff_index slot ≡ s.buff_index slot =
        ap (λ (u : ℕ → ℕ). u slot) (sums.1) in
      let done =
        answer-IsAnswered q e f slot t slot_lt (rw same_set set_lt) (rw same_index index_lt)
          (last_type m ms) few in
      (
        a.0,
        a.1,
        run_round-answer float_add m ms s t h,
        record {
          sums = λ i j hi hj.
              let b = block_index e (t.next_offsets slot i) in
              subst
                (λ x.
                  a.0.comm_buf (
                    send_buff e (global_slot e slot) x
                    + u32 (i * e.block_size * e.element_size)
                    + 4 * j)
                  ≡ t.comm_buf (pool_addr e (t.set slot) b + 4 * j))
                same_index (done.blocks i j hi hj)
              ∙ ap (λ (u : ℕ). t.comm_buf (pool_addr e u b + 4 * j)) same_set
              ∙ sums.2 b j (block_index_lt q e f (t.next_offsets slot i)) hj;
          offsets = λ i hi.
              subst
                (λ x.
                  a.0.comm_buf (
                    send_buff e (global_slot e slot) x
                    + u32 (t.completed_blocks slot * e.block_size * e.element_size)
                    + 4 * i)
                  ≡ t.next_offsets slot i)
                same_index (done.offsets i hi);
          next_pool = done.next_pool ∙ ap (λ (u : ℕ). (u + 1) % 2) same_set;
          cleared = done.cleared;
        },
      )
