-- ===== src/DrAggregator/Round.antt =====
-- A round of one slot: the aggregator adds up the blocks that arrive, and answers when every worker
-- has gone past the current block.
use omnireduce.Base.{
  ℕ, zero, suc, ◌+◌, ◌-◌, ◌*◌, ◌≤◌, ◌<◌, ◌≡◌, refl, inl, inr, arith, true, ltb, ◌==◌, if◌then◌else◌,
  Bool-cases, some, [], update, Outside, add_words-Outside, add_words-inside, ℕ_discrete,
}
use omnireduce.Verbs.{element_add}
use omnireduce.DrAggregator.{
  Env, State, slot_of, register, least_offset, record_offset, complete, accumulate, handle,
}
use omnireduce.DrAggregator.Layout.{Fits, cell, pool_addr-eq, recv_addr-eq, cells-Apart}

pub least_offset-le : (row : ℕ → ℕ) (n k : ℕ) → k ≤ n → least_offset row n ≤ row k
unfolding least_offset
least_offset-le row zero k h = let e : k ≡ 0 = omega arith in rw e (omega arith)
least_offset-le row (suc n) k h = elim (ℕ_discrete k (suc n)) [
  | yes e ↦ rw e (ground arith)
  | no ne ↦ ground (arith, least_offset-le row n k)
]

pub lt-least_offset :
    (row : ℕ → ℕ) (n c : ℕ) → ((k : ℕ) → k ≤ n → c < row k) → c < least_offset row n
unfolding least_offset
lt-least_offset row zero c h = h 0 (omega arith)
lt-least_offset row (suc n) c h =
    ground (arith, lt-least_offset row n c (λ k le. h k (omega arith)), h (suc n))

-- The least offset is that of some worker.
pub least_offset-attained : (row : ℕ → ℕ) (n : ℕ) → (k : ℕ) × (k ≤ n) × (least_offset row n ≡ row k)
unfolding least_offset
least_offset-attained row zero = (0, omega arith, refl)
least_offset-attained row (suc n) = elim (Bool-cases (ltb (row (suc n)) (least_offset row n))) [
  | inl e ↦ (suc n, omega arith, rw e)
  | inr e ↦ let (k, le, q) = least_offset-attained row n in (k, omega arith, rw e q)
]

abbrev pub arrived : Env → (ℕ → ℕ → ℕ) → ℕ → ℕ → ℕ → ℕ → State → State
arrived e add slot wid qp_num next s =
    record_offset e slot wid next (accumulate e add slot wid (register e slot wid qp_num s))

pub handle-arrived :
    (float_add add : ℕ → ℕ → ℕ) (e : Env) (imm qp_num : ℕ) (s : State)
    → element_add float_add e.typecode ≡ some add
    → let slot = slot_of e imm in
      let a = arrived e add slot (e.qps.qp_num_to_peerid qp_num) qp_num imm s in
      handle float_add e imm qp_num s
      ≡ some (
          if ltb (a.current_offset slot) (a.min_next_offset slot)
          then complete e slot a
          else (a, []))
unfolding handle
handle-arrived float_add add e imm qp_num s h = rw (h, handle)

register-frame :
    (e : Env) (slot wid qp_num : ℕ) (s : State)
    → let r = register e slot wid qp_num s in
      (r.current_offset ≡ s.current_offset)
      × (r.set ≡ s.set)
      × (r.block_next_offset ≡ s.block_next_offset)
      × (r.comm_buf ≡ s.comm_buf)
unfolding register
register-frame e slot wid qp_num s = elim (Bool-cases (ltb (s.register_count slot) e.num_workers)) [
  | inl h ↦ rw h (refl, refl, refl, refl)
  | inr h ↦ rw h (refl, refl, refl, refl)
]

pub ==-self : (n : ℕ) → (n == n) ≡ true
==-self n = ground arith

module _ (e : Env) (add : ℕ → ℕ → ℕ) (slot wid qp_num next : ℕ) (s : State) where
  abbrev a : State
  a = arrived e add slot wid qp_num next s

  -- The row of next offsets of the slot.
  abbrev pub row : ℕ → ℕ
  row = update (s.block_next_offset slot) wid next

  pub arrived-frame :
      (a.current_offset ≡ s.current_offset)
      × (a.set ≡ s.set)
      × (a.block_next_offset slot ≡ row)
      × (a.min_next_offset slot ≡ least_offset row (e.num_workers - 1))
  unfolding accumulate record_offset
  arrived-frame =
      let f = register-frame e slot wid qp_num s in
      (f.0, f.1, rw (==-self slot, f.2) refl, rw (==-self slot, f.2) refl)

  module _ (fits : Fits e slot) (set_lt : s.set slot < e.num_comm_buff)
      (wid_lt : wid < e.num_workers) where
    pub arrived-pool :
        (j : ℕ)
        → j < e.block_size
        → a.comm_buf (cell e (e.num_workers + s.set slot) slot + 4 * j)
          ≡ add
              (s.comm_buf (cell e (e.num_workers + s.set slot) slot + 4 * j))
              (s.comm_buf (cell e wid slot + 4 * j))
    unfolding accumulate record_offset
    arrived-pool j h =
        let f = register-frame e slot wid qp_num s in
        rw
          (
            f.1,
            f.3,
            pool_addr-eq e slot fits (s.set slot) set_lt,
            recv_addr-eq e slot fits wid wid_lt,
          )
          (add_words-inside add e.block_size _ _ s.comm_buf
            (cells-Apart e slot fits (e.num_workers + s.set slot) wid (omega arith)) j h)

    pub arrived-Outside :
        (x : ℕ)
        → Outside (cell e (e.num_workers + s.set slot) slot) e.block_size x
        → a.comm_buf x ≡ s.comm_buf x
    unfolding accumulate record_offset
    arrived-Outside x out =
        let f = register-frame e slot wid qp_num s in
        rw (f.1, f.3, pool_addr-eq e slot fits (s.set slot) set_lt)
          (add_words-Outside add e.block_size _ _ s.comm_buf x out)
