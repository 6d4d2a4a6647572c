-- ===== src/DrAggregator/Sum/Complete.antt =====
-- The last part of a round of dr_aggregator: the state when a block is complete.
use native.Mathlib.Nat.{mod-lt}
use omnireduce.Base.{
  mod_succ-ne, clear_words, ℕ, ◌+◌, ◌*◌, ◌%◌, ◌≤◌, ◌<◌, ◌≡◌, ◌≢◌, refl, inl, inr, arith, ltb,
  if◌then◌else◌, Bool-cases, Outside, clear_words-Outside, clear_words-inside,
}
use omnireduce.DrAggregator.{Env, State, pool_addr, complete, advance, next_set, post_block}
use omnireduce.DrAggregator.Layout.{Fits, cell, pool_addr-eq, cells-Apart}
use omnireduce.DrAggregator.Round.{==-self}

advance-frame :
    (e : Env) (slot : ℕ) (t : State)
    → ((advance e slot t).set ≡ t.set)
      × ((advance e slot t).comm_buf ≡ t.comm_buf)
      × ((advance e slot t).current_offset slot ≡ (
          if ltb (t.min_next_offset slot) e.inf_offset_0
          then t.min_next_offset slot
          else t.current_offset slot))
      × ((advance e slot t).block_next_offset slot ≡ (
          if ltb (t.min_next_offset slot) e.inf_offset_0
          then t.block_next_offset slot
          else (λ k. 0)))
unfolding advance
advance-frame e slot t = elim (Bool-cases (ltb (t.min_next_offset slot) e.inf_offset_0)) [
  | inl h ↦ rw h (refl, refl, rw (==-self slot), refl)
  | inr h ↦ rw h (refl, refl, refl, rw (==-self slot))
]

module _ (e : Env) (slot : ℕ) (fits : Fits e slot) (two_pools : 2 ≤ e.num_comm_buff) where
  abbrev pool : ℕ → ℕ
  pool set = cell e (e.num_workers + set) slot

  next_pool_lt : (set : ℕ) → (set + 1) % e.num_comm_buff < e.num_comm_buff
  next_pool_lt set = mod-lt (set + 1) (omega arith)

  next_pool_ne : (set : ℕ) → set < e.num_comm_buff → (set + 1) % e.num_comm_buff ≢ set
  next_pool_ne set h = mod_succ-ne set e.num_comm_buff h two_pools

  pub other_pool :
      (set : ℕ)
      → set < e.num_comm_buff
      → (j : ℕ) → j < e.block_size
      → Outside (pool ((set + 1) % e.num_comm_buff)) e.block_size (pool set + 4 * j)
  other_pool set h j lt =
      let ne = next_pool_ne set h in
      omega (
        arith,
        cells-Apart e slot fits (e.num_workers + (set + 1) % e.num_comm_buff) (e.num_workers + set)
            (omega arith),
      )

  abbrev pub with_cleared : State → State
  with_cleared t = record t {
    comm_buf = clear_words e.block_size (pool_addr e (next_set e slot t) slot) t.comm_buf;
  }

  module _ (t : State) (set_lt : t.set slot < e.num_comm_buff) where
    abbrev done : State
    done = (complete e slot t).0

    abbrev next : ℕ
    next = (t.set slot + 1) % e.num_comm_buff

    pub done_set : done.set slot ≡ next
    unfolding complete next_set
    done_set = rw (==-self slot)

    pub done-Outside : (x : ℕ) → Outside (pool next) e.block_size x → done.comm_buf x ≡ t.comm_buf x
    unfolding complete next_set
    done-Outside x out =
        let f = advance-frame e slot (with_cleared t) in
        rw (f.1, pool_addr-eq e slot fits next (next_pool_lt (t.set slot)))
          (clear_words-Outside e.block_size (pool next) t.comm_buf x out)

    pub done_cleared : (j : ℕ) → j < e.block_size → done.comm_buf (pool next + 4 * j) ≡ 0
    unfolding complete next_set
    done_cleared j h =
        let f = advance-frame e slot (with_cleared t) in
        rw (f.1, pool_addr-eq e slot fits next (next_pool_lt (t.set slot)))
          (clear_words-inside e.block_size (pool next) t.comm_buf j h)

    pub done_current : done.current_offset slot ≡ (
        if ltb (t.min_next_offset slot) e.inf_offset_0
        then t.min_next_offset slot
        else t.current_offset slot)
    unfolding complete
    done_current = (advance-frame e slot (with_cleared t)).2

    pub done_row : done.block_next_offset slot ≡ (
        if ltb (t.min_next_offset slot) e.inf_offset_0 then t.block_next_offset slot else (λ k. 0))
    unfolding complete
    done_row = (advance-frame e slot (with_cleared t)).3

    pub done_posted : (complete e slot t).1 ≡ post_block e slot (with_cleared t) 0 e.num_workers
    unfolding complete
    done_posted = refl
