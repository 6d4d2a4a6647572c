-- ===== src/Worker/Taken.antt =====
-- What worker of omnireduce/worker.cpp does with the blocks of an answer.
pub mod Stored
use mathlib.Core.Path.{subst}
use omnireduce.Base.{
  ℕ, zero, suc, ◌+◌, ◌-◌, ◌*◌, ◌/◌, ◌%◌, ◌^◌, ◌<◌, ◌≤◌, ◌≡◌, ◌≢◌, ◌⊎◌, inl, inr, refl, sym, ap, ◌∙◌,
  arith, Bool, true, false, Bool-cases, List, [], ◌∷◌, ◌++◌, Option, none, some, ltb, ◌==◌, ==_iff,
  if◌then◌else◌, u32, update, ℕ_discrete, Memory, Outside, Apart, copy_words, copy_words-Outside,
  copy_words-inside,
}
use mathlib.Core.List.{append-nil}
use omnireduce.Worker.{
  Env, State, block_index, next_after, answer_addr, copy_size, store_block, take_block, take_blocks,
}
use omnireduce.Worker.Bounds.{copy_size-lem}

-- An answer of `num` blocks for `slot`: word `j` of block `k`, its next offset, where the worker is with its
-- block index from block `first` on, and what the search after the next offset finds.
pub record Answer (e : Env) (fuel slot num first : ℕ) (word : ℕ → ℕ → ℕ)
    (next current found : ℕ → ℕ) (s : State) : Type 0 where
  pub offsets :
      (k : ℕ)
      → k < num
      → s.comm_buf (
          u32 (e.block_size * num * e.element_size)
          + answer_addr e slot (s.buff_index slot)
          + 4 * k)
        ≡ next k
  pub words :
      (k j : ℕ)
      → k < num
      → j < e.block_size
      → s.comm_buf
          (u32 (k * e.block_size * e.element_size) + answer_addr e slot (s.buff_index slot) + 4 * j)
        ≡ word k j
  pub here : (k : ℕ) → first ≤ k → k < num → s.current_offset (block_index e (next k)) ≡ current k
  pub searched :
      (k : ℕ)
      → k < num
      → ltb (next k) (e.inf_offset 0) ≡ true
      → next_after e fuel (next k) ≡ some (found k)

-- The blocks of an answer are different blocks of the part.
pub record Different (e : Env) (num : ℕ) (next current : ℕ → ℕ) : Type 0 where
  pub indices :
      (i k : ℕ) → i < num → k < num → block_index e (next i) ≡ block_index e (next k) → i ≡ k
  pub inside :
      (k : ℕ)
      → k < num
      → (e.start_offset ≤ current k) × (current k < e.start_offset + e.tensor_size)
  pub apart :
      (i k : ℕ) → i < num → k < num → i ≢ k → Apart (4 * current i) (4 * current k) e.block_size

-- The blocks that go into the reply: those not all zero of the worker, with the block after them.
abbrev pub queued : Env → (next found : ℕ → ℕ) → (k n : ℕ) → List (ℕ × ℕ)
queued e next found k zero = []
queued e next found k (suc n) =
    (if ltb (next k) (e.inf_offset 0)
      then (if e.bitmap (next k / e.block_size) == 0 then (next k, found k) ∷ [] else [])
      else [])
    ++ queued e next found (k + 1) n

pub take_blocks_none :
    (e : Env) (fuel slot num k : ℕ) (s : State) → take_blocks e fuel slot num k 0 s ≡ some (s, [])
unfolding take_blocks
take_blocks_none e fuel slot num k s = refl

pub take_blocks-cons :
    (e : Env) (fuel slot num k n : ℕ) (s : State) (first rest : State × List (ℕ × ℕ))
    → take_block e fuel slot num k s ≡ some first
    → take_blocks e fuel slot num (k + 1) n (first.0) ≡ some rest
    → take_blocks e fuel slot num k (suc n) s ≡ some (rest.0, first.1 ++ rest.1)
unfolding take_blocks
take_blocks-cons e fuel slot num k n s first rest h h' = rw (h, take_blocks) (rw h' refl)

-- take_block, with the next offset that it reads.
abbrev pub taken : Env → ℕ → ℕ → (meta k : ℕ) → State → Option (State × List (ℕ × ℕ))
taken e fuel slot meta k s =
    let bid = block_index e meta in
    let stored = store_block e slot bid k s in
    let moved = record stored { current_offset = update stored.current_offset bid meta } in
    if ltb meta (e.inf_offset 0)
    then (if e.bitmap (meta / e.block_size) == 0
        then elim (next_after e fuel meta) [
          | none ↦ none
          | some next ↦ some (moved, (meta, next) ∷ [])
        ]
        else some (moved, []))
    else some (
      record moved {
        finished_blocks = update moved.finished_blocks slot (u32 (moved.finished_blocks slot + 1));
      },
      [],
    )
