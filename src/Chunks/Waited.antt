-- ===== src/Chunks/Waited.antt =====
-- A block is in host memory when the event of its chunk is over.
use omnireduce.Base.{ℕ, ◌+◌, ◌*◌, ◌^◌, ◌<◌, ◌≡◌, arith, mul-pos}
use omnireduce.Outcome.{ok}
use omnireduce.Worker.{Env}
use omnireduce.Chunks.{chunk_num}

-- Elements of four bytes, a part with room for one more block in 2^32 bytes, and chunks of whole blocks.
pub record IsChunked (e : Env) (chunk_size k : ℕ) : Type 0 where
  pub four : e.element_size ≡ 4
  pub small : 4 * (e.start_offset + e.tensor_size) + 4 * e.block_size < 2 ^ 32
  pub block_pos : 0 < e.block_size
  pub chunk_pos : 0 < k
  pub whole : chunk_size ≡ k * (4 * e.block_size)

module _ (e : Env) (chunk_size k n : ℕ) (known : IsChunked e chunk_size k)
    (count : chunk_num e chunk_size ≡ ok n) where
  chunk_pos : 0 < chunk_size
  chunk_pos =
      rw (known.whole)
        (mul-pos k (4 * e.block_size) known.chunk_pos (omega (arith, known.block_pos)))
