-- ===== src/Worker/Bounds.antt =====
-- How much of a block the worker copies: into a message, and out of an answer.
use omnireduce.Base.{ℕ, ◌+◌, ◌-◌, ◌*◌, ◌^◌, ◌<◌, ◌≤◌, ◌≡◌, arith, ltb, if◌then◌else◌}
use omnireduce.Worker.{Env, send_words, copy_size}

module _ (e : Env) (four : e.element_size ≡ 4)
    (small : 4 * (e.start_offset + e.tensor_size) + 4 * e.block_size < 2 ^ 32) where
  -- For elements of four bytes and a part with room for one more block in 2^32 bytes: of the
  -- block at an offset from the start of the part on, the words before the end of the part go
  -- into a message, a whole block at most.
  pub send_words-lem :
      (offset : ℕ)
      → e.start_offset ≤ offset
      → offset + e.block_size < 2 ^ 32
      → send_words e offset ≡ (
          if ltb e.block_size (e.start_offset + e.tensor_size - offset)
          then e.block_size
          else e.start_offset + e.tensor_size - offset)
  unfolding send_words
  send_words-lem offset low high = rw four (ground arith)

  -- Under the same conditions, for an offset that with two more blocks is below 2^30: up to
  -- the end of the part, the bytes copied out of an answer are those of the words before the
  -- end of the part, a whole block at most; beyond the end, the difference wraps around and a
  -- whole block is copied.
  pub copy_size-lem :
      (offset : ℕ)
      → e.start_offset ≤ offset
      → offset + 2 * e.block_size < 2 ^ 30
      → copy_size e offset
        ≡ 4
          * (if ltb (e.start_offset + e.tensor_size) offset
              then e.block_size
              else if ltb e.block_size (e.start_offset + e.tensor_size - offset)
              then e.block_size
              else e.start_offset + e.tensor_size - offset)
  unfolding copy_size
  copy_size-lem offset low high = rw four (ground arith)
