-- ===== src/CopyBack.antt =====
-- How worker of omnireduce/worker.cpp copies a part that it has got in host_tensor back to the device
-- (async): a chunk when every block index of the thread is past it, and the last chunk at the end.
pub mod Passed
use omnireduce.Base.{
  ℕ, zero, suc, ◌+◌, ◌-◌, ◌*◌, List, [], ◌∷◌, ◌++◌, ltb, leb, ◌==◌, if◌then◌else◌, u32, sub32,
  update,
}
use omnireduce.Outcome.{Outcome, ok}
use omnireduce.Worker.{Env, copy_size}
use omnireduce.Chunks.{Copy, chunk_of}

-- previous_chunk by block index, chunk_completed by chunk, and the chunks that were copied, the last one
-- first.
pub record Progress : Type 0 where
  pub previous_chunk : ℕ → ℕ
  pub chunk_completed : ℕ → ℕ
  pub copied : List ℕ

-- for (cid = ...): the `n` chunks from `cid` on.
unfoldable pub pass_chunks : (blocks cid n : ℕ) → Progress → Progress
pass_chunks blocks cid zero p = p
pass_chunks blocks cid (suc n) p =
    let count = u32 (p.chunk_completed cid + 1) in
    pass_chunks blocks (cid + 1) n (record p {
      chunk_completed = update p.chunk_completed cid count;
      copied = if count == blocks then cid ∷ p.copied else p.copied;
    })

-- current_chunk: the chunk of the block at `current`, or the last one if the block index is finished.
unfoldable pub current_chunk : Env → (chunk_size chunk_num current next : ℕ) → ℕ
unfolding chunk_of
current_chunk e chunk_size chunk_num current next =
    if leb (e.inf_offset 0) next then sub32 chunk_num 1 else chunk_of e chunk_size current

-- The answer for the block `bid`, which was at `current` and goes on at `next`. Where nothing of it is in
-- the part the whole step is left out.
unfoldable pub pass_block : Env → (chunk_size chunk_num bid current next : ℕ) → Progress → Progress
unfolding pass_chunks
pass_block e chunk_size chunk_num bid current next p =
    let chunk = current_chunk e chunk_size chunk_num current next in
    let first = p.previous_chunk bid in
    let passed = pass_chunks e.num_blocks_per_thread first (chunk - first) p in
    if copy_size e current == 0
    then p
    else record passed { previous_chunk = update passed.previous_chunk bid chunk }

-- The bytes of chunk `cid`, and those of the last one.
unfoldable pub chunk_back : Env → (chunk_size cid : ℕ) → Copy
chunk_back e chunk_size cid = record {
  offset = u32 (e.start_offset * e.element_size + chunk_size * cid);
  size = chunk_size;
}

unfoldable pub last_chunk_back : Env → (chunk_size chunk_num : ℕ) → Copy
last_chunk_back e chunk_size chunk_num = record {
  offset = u32 (e.start_offset * e.element_size + chunk_size * (chunk_num - 1));
  size = sub32 (e.tensor_size * e.element_size) (chunk_size * (chunk_num - 1));
}

-- previous_chunk and chunk_completed of a new part.
unfoldable pub no_progress : Progress
no_progress = record { previous_chunk = λ b. 0; chunk_completed = λ c. 0; copied = [] }

-- The blocks of the answers of a part, one after the other: block index, offset and next offset.
unfoldable pub pass_blocks :
    Env → (chunk_size chunk_num : ℕ) → List (ℕ × ℕ × ℕ) → Progress → Progress
pass_blocks e chunk_size chunk_num [] p = p
pass_blocks e chunk_size chunk_num ((bid, current, next) ∷ bs) p =
    pass_blocks e chunk_size chunk_num bs (pass_block e chunk_size chunk_num bid current next p)
