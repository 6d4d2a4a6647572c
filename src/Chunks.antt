-- ===== src/Chunks.antt =====
-- The asynchronous copy of a part to host memory in worker of omnireduce/worker.cpp, and the messages
-- that cuda_sync_post_send_client and cuda_async_post_send_client put together. A copy is given by its
-- bytes in the tensor; the events are numbered like the chunks.
pub mod Waited
use omnireduce.Base.{
  ℕ, zero, suc, ◌+◌, ◌-◌, ◌*◌, ◌/◌, ◌%◌, Bool, true, false, List, [], ◌∷◌, ◌++◌, length, ltb, ◌==◌,
  if◌then◌else◌, u32, sub32, update, Memory, copy_words,
}
use omnireduce.Outcome.{Outcome, ok, ◌>>=◌, divide}
use omnireduce.Verbs.{Request}
use omnireduce.Wire.{imm_data}
use omnireduce.Worker.{
  Env, message_addr, send_words, fill_offsets, send_qid, send_peer, remote_addr, post_send_client,
}

pub record Copy : Type 0 where
  pub offset : ℕ
  pub size : ℕ

unfoldable pub chunk_num : Env → ℕ → Outcome ℕ
chunk_num e chunk_size = do
  let bytes = u32 (e.tensor_size * e.element_size)
  n ← divide bytes chunk_size
  ok (if bytes % chunk_size == 0 then n else u32 (n + 1))

-- Chunk `i` of `n`.
unfoldable pub chunk_copy : Env → (chunk_size n i : ℕ) → Copy
chunk_copy e chunk_size n i = record {
  offset = u32 (e.start_offset * e.element_size + chunk_size * i);
  size =
      if ltb i (n - 1)
      then chunk_size
      else sub32 (e.tensor_size * e.element_size) (chunk_size * (n - 1));
}

-- Chunks `i` to `i + k - 1` of `n`.
unfoldable pub chunk_copies : Env → (chunk_size n i k : ℕ) → List Copy
unfolding chunk_copy
chunk_copies e chunk_size n i zero = []
chunk_copies e chunk_size n i (suc k) =
    chunk_copy e chunk_size n i ∷ chunk_copies e chunk_size n (i + 1) k

-- The copies of a part, in the order of the events.
unfoldable pub async_copies : Env → ℕ → Outcome (List Copy)
unfolding chunk_num chunk_copies
async_copies e chunk_size =
    if e.tensor_size == 0
    then ok []
    else (do n ← chunk_num e chunk_size; ok (chunk_copies e chunk_size n 0 n))

-- chunk_id of the block at `offset`.
unfoldable pub chunk_of : Env → (chunk_size offset : ℕ) → ℕ
chunk_of e chunk_size offset = u32 (sub32 offset e.start_offset * e.element_size) / chunk_size

-- The events that are waited for, and chunk_finished afterwards.
unfoldable pub wait_chunks : Env → ℕ → List (ℕ × ℕ) → (ℕ → Bool) → List ℕ × (ℕ → Bool)
unfolding chunk_of
wait_chunks e chunk_size [] finished = ([], finished)
wait_chunks e chunk_size ((current, next) ∷ bs) finished =
    let c = chunk_of e chunk_size current in
    let rest = wait_chunks e chunk_size bs (update finished c true) in
    if finished c then rest else (c ∷ rest.0, rest.1)

-- cudaMemcpy is complete when it returns: the message is that of a tensor in host memory.
unfoldable pub cuda_sync_post_send_client :
    Env → List (ℕ × ℕ) → ℕ → ℕ → ℕ → Memory → Memory → Memory × Request
unfolding post_send_client
cuda_sync_post_send_client e blocks slot qp_num buff_index device comm_buf =
    post_send_client e blocks slot qp_num buff_index device comm_buf

-- The message is put together from host_tensor, as it is once the events are over.
unfoldable pub cuda_async_post_send_client :
    Env
    → ℕ
    → List (ℕ × ℕ)
    → ℕ
    → ℕ
    → ℕ
    → Memory
    → (ℕ → Bool)
    → Memory
    → (List ℕ × (ℕ → Bool)) × (Memory × Request)
unfolding wait_chunks post_send_client
cuda_async_post_send_client e chunk_size blocks slot qp_num buff_index host_tensor finished
      comm_buf =
    (
      wait_chunks e chunk_size blocks finished,
      post_send_client e blocks slot qp_num buff_index host_tensor comm_buf,
    )
