-- ===== src/DrAggregator/Sum.antt =====
-- A round of dr_aggregator of omnireduce/aggregator.cpp for one slot: the completions of the RDMA writes
-- of the workers, and what the thread is to do with them.
pub mod Complete
pub mod Answer
use omnireduce.Base.{
  ℕ, zero, suc, ◌+◌, ◌-◌, ◌*◌, ◌%◌, ◌≤◌, ◌<◌, ◌≡◌, ltb, if◌then◌else◌, Option, none, some, List, [],
  ◌∷◌, ◌++◌, update, Memory, Outside,
}
use omnireduce.Verbs.{Request}
use omnireduce.DrAggregator.{Env, State, slot_of, recv_addr, least_offset, handle, post_block}
use omnireduce.DrAggregator.Layout.{cell}

-- What a worker sends: an RDMA write of its block, with the worker's next offset as immediate data.
pub record Message : Type 0 where
  pub qp_num : ℕ
  pub next_offset : ℕ
  pub block : Memory

abbrev pub sender : Env → Message → ℕ
sender e m = e.qps.qp_num_to_peerid m.qp_num

-- The messages of a round: each from a worker that is still at the block at offset `c`, and after the
-- last of them no worker is.
abbrev pub Sends : Env → ℕ → (ℕ → ℕ) → ℕ → List Message → Type 0
Sends e slot row c [] = (w : ℕ) → w < e.num_workers → c < row w
Sends e slot row c (m ∷ ms) =
    (slot_of e m.next_offset ≡ slot)
    × (sender e m < e.num_workers)
    × (row (sender e m) ≤ c)
    × Sends e slot (update row (sender e m) m.next_offset) c ms

-- The sum of the words `j` of the blocks, in the order of arrival.
abbrev pub total : (ℕ → ℕ → ℕ) → List Message → ℕ → ℕ → ℕ
total add [] start j = start
total add (m ∷ ms) start j = total add ms (add start (m.block (4 * j))) j

abbrev pub final_row : Env → (ℕ → ℕ) → List Message → ℕ → ℕ
final_row e row [] = row
final_row e row (m ∷ ms) = final_row e (update row (sender e m) m.next_offset) ms

-- The effect of an RDMA write: `n` words of `payload` to `dst`, and nothing else.
pub record Nic : Type 0 where
  pub write : ℕ → ℕ → Memory → Memory → Memory
  pub write-inside :
      (n dst : ℕ) (payload m : Memory) (j : ℕ)
      → j < n
      → write n dst payload m (dst + 4 * j) ≡ payload (4 * j)
  pub write-outside :
      (n dst : ℕ) (payload m : Memory) (x : ℕ) → Outside dst n x → write n dst payload m x ≡ m x

abbrev pub deliver : Nic → Env → ℕ → Message → State → State
deliver nic e slot m s = record s {
  comm_buf = nic.write e.block_size (recv_addr e (sender e m) slot) m.block s.comm_buf;
}

-- The completions of a round, one after the other, and what the thread posts.
unfoldable pub run_round :
    Nic → (ℕ → ℕ → ℕ) → Env → ℕ → List Message → State → Option (State × List Request)
run_round nic float_add e slot [] s = some (s, [])
run_round nic float_add e slot (m ∷ ms) s =
    let rest = run_round nic float_add e slot ms in
    elim (handle float_add e m.next_offset m.qp_num (deliver nic e slot m s)) [
      | none ↦ none
      | some (s1, out1) ↦ elim (rest s1) [ none ↦ none | some (s2, out2) ↦ some (s2, out1 ++ out2) ]
    ]

-- What the round leaves behind, and what it has posted: `t` is the state in which it answers.
pub record Answered (add : ℕ → ℕ → ℕ) (e : Env) (slot : ℕ) (ms : List Message) (s s' : State)
    (out : List Request) : Type 0 where
  pub t : State
  pub same_block : t.current_offset slot ≡ s.current_offset slot
  pub same_pool : t.set slot ≡ s.set slot
  pub last_row : t.block_next_offset slot ≡ final_row e (s.block_next_offset slot) ms
  pub least : t.min_next_offset slot ≡ least_offset (t.block_next_offset slot) (e.num_workers - 1)
  pub posted : out ≡ post_block e slot t 0 e.num_workers
  pub next_pool : s'.set slot ≡ (s.set slot + 1) % e.num_comm_buff
  pub sum :
      (j : ℕ)
      → j < e.block_size
      → s'.comm_buf (cell e (e.num_workers + s.set slot) slot + 4 * j)
        ≡ total add ms (s.comm_buf (cell e (e.num_workers + s.set slot) slot + 4 * j)) j
  pub cleared :
      (j : ℕ)
      → j < e.block_size
      → s'.comm_buf (cell e (e.num_workers + s'.set slot) slot + 4 * j) ≡ 0
  pub next_block : s'.current_offset slot ≡ (
      if ltb (t.min_next_offset slot) e.inf_offset_0
      then t.min_next_offset slot
      else s.current_offset slot)
  pub next_row :
      s'.block_next_offset slot
      ≡ (if ltb (t.min_next_offset slot) e.inf_offset_0 then t.block_next_offset slot else (λ k. 0))
