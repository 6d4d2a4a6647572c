-- ===== src/DrAggregator/Sum/Answer.antt =====
-- Every round of dr_aggregator is answered: from cleared pool to answer, for every order of arrival.
use mathlib.Core.List.{append-nil}
use omnireduce.Base.{
  ◌∙◌, ap, ℕ, ◌+◌, ◌-◌, ◌*◌, ◌≤◌, ◌<◌, ◌≡◌, refl, arith, true, false, ltb, if◌then◌else◌, some,
  List, [], ◌∷◌, ◌++◌, update, Outside,
}
use omnireduce.Verbs.{Request, element_add}
use omnireduce.DrAggregator.{Env, State, slot_of, complete, handle}
use omnireduce.DrAggregator.Layout.{Fits, cell, recv_addr-eq, cells-Apart}
use omnireduce.DrAggregator.Round.{
  handle-arrived, arrived, arrived-frame, arrived-pool, least_offset-le, lt-least_offset,
}
use omnireduce.DrAggregator.Sum.{Message, sender, Sends, Nic, deliver, run_round, Answered}
use omnireduce.DrAggregator.Sum.Complete.{
  other_pool, with_cleared, done_set, done-Outside, done_cleared, done_current, done_row,
  done_posted,
}

run_round-cons :
    (nic : Nic) (float_add : ℕ → ℕ → ℕ) (e : Env) (slot : ℕ) (m : Message) (ms : List Message)
    (s s1 s2 : State) (out1 out2 : List Request)
    → handle float_add e m.next_offset m.qp_num (deliver nic e slot m s) ≡ some (s1, out1)
    → run_round nic float_add e slot ms s1 ≡ some (s2, out2)
    → run_round nic float_add e slot (m ∷ ms) s ≡ some (s2, out1 ++ out2)
unfolding run_round
run_round-cons nic float_add e slot m ms s s1 s2 out1 out2 h r = ground arith

run_round-nil :
    (nic : Nic) (float_add : ℕ → ℕ → ℕ) (e : Env) (slot : ℕ) (s : State)
    → run_round nic float_add e slot [] s ≡ some (s, [])
unfolding run_round
run_round-nil nic float_add e slot s = refl

module _ (nic : Nic) (float_add add : ℕ → ℕ → ℕ) (e : Env) (slot : ℕ) (fits : Fits e slot)
    (add-eq : element_add float_add e.typecode ≡ some add) (workers_pos : 0 < e.num_workers)
    (two_pools : 2 ≤ e.num_comm_buff) where
  abbrev pool : ℕ → ℕ
  pool set = cell e (e.num_workers + set) slot

  abbrev taken : Message → State → State
  taken m s = arrived e add slot (sender e m) m.qp_num m.next_offset (deliver nic e slot m s)

  module _ (m : Message) (s : State) (here : slot_of e m.next_offset ≡ slot)
      (known : sender e m < e.num_workers) (set_lt : s.set slot < e.num_comm_buff) where
    pool-Outside :
        (j : ℕ)
        → j < e.block_size
        → Outside (cell e (sender e m) slot) e.block_size (pool (s.set slot) + 4 * j)
    pool-Outside j h =
        omega
          (arith, cells-Apart e slot fits (sender e m) (e.num_workers + s.set slot) (omega arith))

    taken-pool :
        (j : ℕ)
        → j < e.block_size
        → (taken m s).comm_buf (pool (s.set slot) + 4 * j)
          ≡ add (s.comm_buf (pool (s.set slot) + 4 * j)) (m.block (4 * j))
    taken-pool j h =
        let p =
          arrived-pool e add slot (sender e m) m.qp_num m.next_offset (deliver nic e slot m s) fits
            set_lt known j h in
        let q = recv_addr-eq e slot fits (sender e m) known in
        rw (
          p,
          q,
          nic.write-outside e.block_size _ m.block s.comm_buf _ (pool-Outside j h),
          nic.write-inside e.block_size _ m.block s.comm_buf j h,
        )

    handle-taken :
        handle float_add e m.next_offset m.qp_num (deliver nic e slot m s)
        ≡ some (
            if ltb ((taken m s).current_offset slot) ((taken m s).min_next_offset slot)
            then complete e slot (taken m s)
            else (taken m s, []))
    handle-taken =
        rw here at
          (handle-arrived float_add add e m.next_offset m.qp_num (deliver nic e slot m s) add-eq)

    abbrev new_row : ℕ → ℕ
    new_row = update (s.block_next_offset slot) (sender e m) m.next_offset

    -- Some worker is still at the block: nothing is posted.
    handle-waits :
        (w : ℕ)
        → w < e.num_workers
        → new_row w ≤ s.current_offset slot
        → handle float_add e m.next_offset m.qp_num (deliver nic e slot m s) ≡ some (taken m s, [])
    handle-waits w lt h =
        let f =
          arrived-frame e add slot (sender e m) m.qp_num m.next_offset (deliver nic e slot m s) in
        let least = least_offset-le new_row (e.num_workers - 1) w (omega arith) in
        let test : ltb ((taken m s).current_offset slot) ((taken m s).min_next_offset slot)
            ≡ false =
          rw (f.0, f.3) (ground arith) in
        rw (handle-taken, test)

    -- No worker is: the block is complete.
    handle-answers :
        ((w : ℕ) → w < e.num_workers → s.current_offset slot < new_row w)
        → handle float_add e m.next_offset m.qp_num (deliver nic e slot m s)
          ≡ some (complete e slot (taken m s))
    handle-answers h =
        let f =
          arrived-frame e add slot (sender e m) m.qp_num m.next_offset (deliver nic e slot m s) in
        let least =
          lt-least_offset new_row (e.num_workers - 1) (s.current_offset slot)
            (λ w le. h w (omega arith)) in
        let test : ltb ((taken m s).current_offset slot) ((taken m s).min_next_offset slot) ≡ true =
          rw (f.0, f.3) (ground arith) in
        rw (handle-taken, test)

  complete-Answered :
      (m : Message) (s : State)
      → slot_of e m.next_offset ≡ slot
      → sender e m < e.num_workers
      → s.set slot < e.num_comm_buff
      → Answered add e slot
          (m ∷ [])
          s
          (complete e slot (taken m s)).0
          (complete e slot (taken m s)).1
  complete-Answered m s here known set_lt =
      let f =
        arrived-frame e add slot (sender e m) m.qp_num m.next_offset (deliver nic e slot m s) in
      let set-eq : (taken m s).set slot ≡ s.set slot = ap (λ (g : ℕ → ℕ). g slot) f.1 in
      let current-eq : (taken m s).current_offset slot ≡ s.current_offset slot =
        ap (λ (g : ℕ → ℕ). g slot) f.0 in
      let lt : (taken m s).set slot < e.num_comm_buff = rw set-eq set_lt in
      record {
        t = with_cleared e slot fits two_pools (taken m s);
        same_block = current-eq;
        same_pool = set-eq;
        last_row = f.2;
        least = rw (f.2) f.3;
        posted = done_posted e slot fits two_pools (taken m s) lt;
        next_pool = rw (← set-eq) (done_set e slot fits two_pools (taken m s) lt);
        sum = λ j h.
            done-Outside e slot fits two_pools (taken m s) lt _
              (rw set-eq (other_pool e slot fits two_pools (s.set slot) set_lt j h))
            ∙ taken-pool m s here known set_lt j h;
        cleared = λ j h.
            rw (done_set e slot fits two_pools (taken m s) lt)
              (done_cleared e slot fits two_pools (taken m s) lt j h);
        next_block = rw (← current-eq) (done_current e slot fits two_pools (taken m s) lt);
        next_row = done_row e slot fits two_pools (taken m s) lt;
      }

  -- One more message before a round.
  Answered-cons :
      (m : Message) (ms : List Message) (s s' : State) (out : List Request)
      → sender e m < e.num_workers
      → slot_of e m.next_offset ≡ slot
      → s.set slot < e.num_comm_buff
      → Answered add e slot ms (taken m s) s' out
      → Answered add e slot (m ∷ ms) s s' out
  Answered-cons m ms s s' out known here set_lt r =
      let f =
        arrived-frame e add slot (sender e m) m.qp_num m.next_offset (deliver nic e slot m s) in
      let set-eq : (taken m s).set slot ≡ s.set slot = ap (λ (g : ℕ → ℕ). g slot) f.1 in
      let current-eq : (taken m s).current_offset slot ≡ s.current_offset slot =
        ap (λ (g : ℕ → ℕ). g slot) f.0 in
      record {
        t = r.t;
        same_block = r.same_block ∙ current-eq;
        same_pool = r.same_pool ∙ set-eq;
        last_row = rw (← f.2) r.last_row;
        least = r.least;
        posted = r.posted;
        next_pool = rw (← set-eq) r.next_pool;
        sum = λ j h. rw (← taken-pool m s here known set_lt j h, ← set-eq) (r.sum j h);
        cleared = r.cleared;
        next_block = rw (← current-eq) r.next_block;
        next_row = r.next_row;
      }

  -- With at least one worker and two pools, a buffer of less than 2^32 bytes and a known
  -- element type: for every sequence of messages of a round, each from a worker that is still
  -- at the current block of the slot and after the last of which no worker is, the
  -- direct-memory thread handles all of them and posts nothing but the requests of a complete
  -- block; the pool holds its old words plus the blocks in the order of arrival, the next pool
  -- is all zero, and the slot goes on to the least next offset, or is reset when that is a
  -- sentinel.
  pub round-Answered :
      (m : Message) (ms : List Message) (s : State)
      → s.set slot < e.num_comm_buff
      → Sends e slot (s.block_next_offset slot) (s.current_offset slot) (m ∷ ms)
      → (s' : State) × (out : List Request) × (run_round nic float_add e slot (m ∷ ms) s
          ≡ some (s', out))
        × Answered add e slot (m ∷ ms) s s' out
  round-Answered m [] s set_lt (here, known, pending, last) = (
    (complete e slot (taken m s)).0,
    (complete e slot (taken m s)).1,
    rw (← append-nil (complete e slot (taken m s)).1) (
        run_round-cons nic float_add e slot m [] s _ _ _ []
          (handle-answers m s here known set_lt last) (run_round-nil nic float_add e slot _)),
    complete-Answered m s here known set_lt,
  )
  round-Answered m (m' ∷ ms) s set_lt (here, known, pending, more) =
      let f =
        arrived-frame e add slot (sender e m) m.qp_num m.next_offset (deliver nic e slot m s) in
      let set-eq : (taken m s).set slot ≡ s.set slot = ap (λ (g : ℕ → ℕ). g slot) f.1 in
      let current-eq : (taken m s).current_offset slot ≡ s.current_offset slot =
        ap (λ (g : ℕ → ℕ). g slot) f.0 in
      let (s', out, ran, r) =
        round-Answered m' ms (taken m s) (rw set-eq set_lt) (rw (f.2, current-eq) more) in
      (
        s',
        out,
        run_round-cons nic float_add e slot m (m' ∷ ms) s (taken m s) s' [] out
            (handle-waits m s here known set_lt (sender e m') more.1 more.2) ran,
        Answered-cons m (m' ∷ ms) s s' out known here set_lt r,
      )
