-- ===== src/DrAggregator/Posted.antt =====
-- What dr_aggregator posts when a block is complete.
use mathlib.Core.Logic.{◌↔◌}
use omnireduce.Base.{
  ℕ, zero, suc, ◌+◌, ◌-◌, ◌*◌, ◌^◌, ◌≤◌, ◌<◌, ◌≡◌, ◌≢◌, ◌⊎◌, inl, inr, refl, sym, ap, ◌∙◌,
  ℕ_discrete, arith, false, Bool-cases, ◌==◌, ==_iff, u32, List, [], ◌∷◌, some, map, length,
  get_elem?, clear_words, mul_mono,
}
use omnireduce.Verbs.{Request, SendRequest}
use omnireduce.DrAggregator.{
  Env, State, dr_post_send_server, dr_post_receive_server, receive_qid, global_slot, pool_addr,
  post_block, least_offset, complete, next_set,
}
use omnireduce.DrAggregator.Layout.{Fits, column, cell-fits, pool_addr-eq}
use omnireduce.DrAggregator.Round.{least_offset-le, least_offset-attained}

-- The sends among posted requests, and the receives.
abbrev pub sends : List Request → List Request
sends [] = []
sends (Request.send r ∷ rs) = Request.send r ∷ sends rs
sends (Request.receive q l ∷ rs) = sends rs

abbrev pub receives : List Request → List Request
receives [] = []
receives (Request.send r ∷ rs) = receives rs
receives (Request.receive q l ∷ rs) = Request.receive q l ∷ receives rs

abbrev pub IsIn : ℕ → List ℕ → Type 0
IsIn w [] = ⊥
IsIn w (x ∷ xs) = (w ≡ x) ⊎ IsIn w xs

-- Ascending numbers from `k` on.
abbrev pub IsAscending : ℕ → List ℕ → Type 0
IsAscending k [] = Unit {0}
IsAscending k (x ∷ xs) = (k ≤ x) × IsAscending (x + 1) xs

-- The receive for the next block of worker `w`, on the queue pair of that worker.
abbrev pub receive_from : Env → ℕ → State → ℕ → Request
receive_from e slot s w =
    Request.receive (e.qps.qp_num_revert (s.slot_to_qps slot w))
      (u32 (e.block_size * e.element_size))

-- The answer to worker `w`: the sum of the block goes from the pool of the slot to its place in the
-- tensor of that worker, on the queue pair of that worker, with the next offset.
pub record IsAnswer (e : Env) (slot : ℕ) (s : State) (w : ℕ) (r : SendRequest) : Type 0 where
  pub own_queue : r.qid ≡ e.qps.qp_num_revert (s.slot_to_qps slot w)
  pub own_peer : r.peer ≡ w
  pub from_pool : r.local_addr ≡ pool_addr e (s.set slot) slot
  pub to_place : r.remote_addr ≡ u32 (s.current_offset slot * e.element_size)
  pub next : r.imm_data ≡ s.min_next_offset slot

-- The queue pairs over which the workers of a slot have registered.
pub record IsRegistered (e : Env) (slot : ℕ) (s : State) : Type 0 where
  pub known : (w : ℕ) → w < e.num_workers → s.slot_to_qps slot w ≢ 0
  pub peer : (w : ℕ) → w < e.num_workers → e.qps.qp_num_to_peerid (s.slot_to_qps slot w) ≡ w

IsAscending-from : (k j : ℕ) (ws : List ℕ) → j ≤ k → IsAscending k ws → IsAscending j ws
IsAscending-from k j [] le a = tt
IsAscending-from k j (w ∷ ws) le (low, rest) = (omega (arith, le, low), rest)

-- The numbers from `k` to `k + n - 1` at which the row has the least value.
abbrev IsAwaited : (least : ℕ) (row : ℕ → ℕ) (k n w : ℕ) → Type 0
IsAwaited least row k n w = (k ≤ w) × (w < k + n) × (least ≡ row w)

with_first :
    (least : ℕ) (row : ℕ → ℕ) (k n : ℕ) (ws : List ℕ)
    → least ≡ row k
    → ((w : ℕ) → IsIn w ws ↔ IsAwaited least row (k + 1) n w)
    → (w : ℕ) → IsIn w (k ∷ ws) ↔ IsAwaited least row k (suc n) w
with_first least row k n ws same each w = (
  λ h. elim h [
    | inl now ↦ (omega (arith, now), omega (arith, now), same ∙ ap row (sym now))
    | inr later ↦
        let (low, high, at) = (each w).0 later in (omega (arith, low), omega (arith, high), at)
  ],
  λ (low, high, at). elim (ℕ_discrete w k) [
    | yes now ↦ inl now
    | no other ↦ inr ((each w).1 (omega (arith, low, other), omega (arith, high), at))
  ],
)

without_first :
    (least : ℕ) (row : ℕ → ℕ) (k n : ℕ) (ws : List ℕ)
    → least ≢ row k
    → ((w : ℕ) → IsIn w ws ↔ IsAwaited least row (k + 1) n w)
    → (w : ℕ) → IsIn w ws ↔ IsAwaited least row k (suc n) w
without_first least row k n ws differ each w = (
  λ later. let (low, high, at) = (each w).0 later in (omega (arith, low), omega (arith, high), at),
  λ (low, high, at). elim (ℕ_discrete w k) [
    | yes now ↦ absurd (differ (at ∙ ap row now))
    | no other ↦ (each w).1 (omega (arith, low, other), omega (arith, high), at)
  ],
)

module _ (e : Env) (slot : ℕ) (s : State) where
  abbrev answer : ℕ → Request
  answer w =
      dr_post_send_server e (s.current_offset slot) (s.min_next_offset slot) (s.set slot)
        (global_slot e slot) (s.slot_to_qps slot w)

  sends-cons :
      (k n : ℕ)
      → sends (post_block e slot s k (suc n)) ≡ answer k ∷ sends (post_block e slot s (k + 1) n)
  unfolding post_block dr_post_send_server dr_post_receive_server
  sends-cons k n = elim (Bool-cases (s.min_next_offset slot == s.block_next_offset slot k)) [
    | inl h ↦ rw h refl
    | inr h ↦ rw h refl
  ]

  answer_at :
      (k n i : ℕ) (l : List Request)
      → ((j : ℕ) → j < n → get_elem? l j ≡ some (answer (k + 1 + j)))
      → i < suc n
      → get_elem? (answer k ∷ l) i ≡ some (answer (k + i))
  answer_at k n zero l rest h =
      let same : k ≡ k + 0 = omega arith in ap (λ (w : ℕ). some (answer w)) same
  answer_at k n (suc i) l rest h =
      let same : k + 1 + i ≡ k + suc i = omega arith in
      rest i (omega arith) ∙ ap (λ (w : ℕ). some (answer w)) same

  sends-eq :
      (k n : ℕ)
      → (length (sends (post_block e slot s k n)) ≡ n)
        × ((i : ℕ) → i < n → get_elem? (sends (post_block e slot s k n)) i ≡ some (answer (k + i)))
  unfolding post_block
  sends-eq k zero = (refl, λ i h. absurd (omega arith))
  sends-eq k (suc n) =
      let (count, each) = sends-eq (k + 1) n in
      let step = sends-cons k n in
      (
        (ap length step ∙ ap suc count),
        λ i h. ap (λ (l : List Request). get_elem? l i) step ∙ answer_at k n i _ each h,
      )

  -- The workers whose next offset is the one that is sent.
  abbrev Awaited : (k n : ℕ) → List ℕ → Type 0
  Awaited k n ws =
      (receives (post_block e slot s k n) ≡ map (receive_from e slot s) ws)
      × IsAscending k ws
      × ((w : ℕ) → IsIn w ws ↔ IsAwaited (s.min_next_offset slot) (s.block_next_offset slot) k n w)

  receives-eq :
      (k n : ℕ) → ((w : ℕ) → w < k + n → s.slot_to_qps slot w ≢ 0) → (ws : List ℕ) × Awaited k n ws
  unfolding post_block dr_post_send_server dr_post_receive_server receive_qid
  receives-eq k zero known = ([], (refl, tt, λ w. (λ h. absurd h, λ h. absurd (omega arith))))
  receives-eq k (suc n) known =
      let (ws, (same, up, each)) = receives-eq (k + 1) n (λ w h. known w (omega arith)) in
      elim (Bool-cases (s.min_next_offset slot == s.block_next_offset slot k)) [
        | inl awaited ↦
            let here : (s.slot_to_qps slot k == 0) ≡ false =
              ground (arith, known k (omega arith)) in
            (
              k ∷ ws,
              (
                rw (awaited, here, same) refl,
                (omega arith, up),
                with_first _ _ k n ws ((==_iff _ _).0 awaited) each,
              ),
            )
        | inr passed ↦ (
          ws,
          (
            rw (passed, same) refl,
            IsAscending-from (k + 1) k ws (omega arith) up,
            without_first _ _ k n ws (λ at. let both = (==_iff _ _).1 at in cc) each,
          ),
        )
      ]

same_place :
    (ns bs nt row col : ℕ)
    → 0 < bs
    → 4 * ((row * (ns * nt) + col) * bs) < 2 ^ 32
    → u32 ((ns * bs * nt * row + u32 col * bs) * 4) ≡ 4 * ((row * (ns * nt) + col) * bs)
same_place ns bs nt row col pos h =
    let few = mul_mono 1 bs col pos in
    let low : u32 col ≡ col = omega (arith, few, h) in rw low (omega (arith, h))

module _ (e : Env) (slot : ℕ) (fits : Fits e slot) (unit : e.buff_unit_size ≡ 4)
    (workers : 0 < e.num_workers) (block_pos : 0 < e.block_size) (s : State)
    (set_lt : s.set slot < e.num_comm_buff) (registered : IsRegistered e slot s)
    (least : s.min_next_offset slot
      ≡ least_offset (s.block_next_offset slot) (e.num_workers - 1)) where
  answer-IsAnswer :
      (w : ℕ)
      → w < e.num_workers
      → (r : SendRequest) × (answer e slot s w ≡ Request.send r) × IsAnswer e slot s w r
  unfolding dr_post_send_server global_slot pool_addr
  answer-IsAnswer w h = (
    _,
    refl,
    record {
      own_queue = refl;
      own_peer = registered.peer w h;
      from_pool =
          rw (unit, pool_addr-eq e slot fits (s.set slot) set_lt)
            (same_place e.num_slots_per_thread e.block_size e.num_server_threads
              (e.num_workers + s.set slot) (column e slot) block_pos
              (omega (
                arith,
                block_pos,
                cell-fits e slot fits (e.num_workers + s.set slot) (omega (arith, set_lt)),
              )));
      to_place = refl;
      next = refl;
    },
  )

  IsAwaited-iff :
      (w : ℕ)
      → IsAwaited (s.min_next_offset slot) (s.block_next_offset slot) 0 e.num_workers w ↔ (
          (w < e.num_workers)
          × ((v : ℕ) → v < e.num_workers → s.block_next_offset slot w ≤ s.block_next_offset slot v))
  IsAwaited-iff w = (
    λ (low, high, at). (
      omega (arith, high),
      λ v h. omega (
        arith,
        at,
        least,
        least_offset-le (s.block_next_offset slot) (e.num_workers - 1) v (omega arith),
      ),
    ),
    λ (high, below).
        let (v, le, at) = least_offset-attained (s.block_next_offset slot) (e.num_workers - 1) in
        let under =
          least_offset-le (s.block_next_offset slot) (e.num_workers - 1) w (omega arith) in
        (
          omega arith,
          omega (arith, high),
          omega (arith, least, at, under, below v (omega (arith, le, workers))),
        ),
  )

  -- For a direct-memory aggregator with at least one worker, a buffer of less than 2^32 bytes,
  -- units of four bytes and blocks that are not empty, a slot and a pool that exist, workers
  -- that have registered their queue pairs for the slot, and a least next offset that is up to
  -- date: when a block is complete, there is one send for each worker, in the order of the
  -- workers, on the queue pair of that worker and to that worker, from the pool of the slot to
  -- the place of the block in the tensor, with the least next offset; and the receives are, in
  -- the order of the workers and once each, those on the queue pairs of exactly the workers
  -- whose next offset is at most that of every worker.
  pub complete-answers :
      (length (sends (complete e slot s).1) ≡ e.num_workers)
      × ((w : ℕ)
          → w < e.num_workers
          → (r : SendRequest) × (get_elem? (sends (complete e slot s).1) w ≡ some (Request.send r))
            × IsAnswer e slot s w r)
      × ((ws : List ℕ) × (receives (complete e slot s).1 ≡ map (receive_from e slot s) ws)
          × IsAscending 0 ws
          × ((w : ℕ)
              → IsIn w ws ↔ (
                  (w < e.num_workers)
                  × ((v : ℕ)
                      → v < e.num_workers
                      → s.block_next_offset slot w ≤ s.block_next_offset slot v))))
  unfolding complete
  complete-answers =
      let cleared : State = record s {
        comm_buf = clear_words e.block_size (pool_addr e (next_set e slot s) slot) s.comm_buf;
      } in
      let (count, each) = sends-eq e slot cleared 0 e.num_workers in
      let (ws, (same, up, awaited)) =
        receives-eq e slot cleared 0 e.num_workers (λ w h. registered.known w (omega arith)) in
      (
        count,
        λ w h.
            let (r, made, is) = answer-IsAnswer w h in
            let here : 0 + w ≡ w = omega arith in
            (r, each w h ∙ ap (λ (x : ℕ). some (answer e slot s x)) here ∙ ap some made, is),
        (
          ws,
          same,
          up,
          λ w. (
            λ h. (IsAwaited-iff w).0 ((awaited w).0 h),
            λ h. (awaited w).1 ((IsAwaited-iff w).1 h),
          ),
        ),
      )
