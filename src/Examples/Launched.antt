-- ===== src/Examples/Launched.antt =====
-- The worker of Examples/Messages on a GPU: its part of 20 bytes goes back to the device in chunks of 16
-- bytes, and the bitmap is computed in one chunk of 32 bytes.
use omnireduce.Base.{
  ℕ, zero, suc, ◌*◌, ◌<◌, ◌≤◌, ◌≡◌, refl, inr, arith, true, false, Bool, get_elem?, List, [], ◌∷◌,
  some, ltb, if◌then◌else◌,
}
use omnireduce.Common.{TensorUpdateType}
use omnireduce.Outcome.{Failure, ok, failed}
use omnireduce.Params.{inf_offset_at}
use omnireduce.NextBlock.{find_next_nonzero_block}
use omnireduce.Worker.{copy_size}
use omnireduce.CopyBack.{pass_chunks, current_chunk, pass_block, pass_blocks, no_progress}
use omnireduce.CopyBack.Passed.{times, Onward, pass_blocks-times}
use omnireduce.BitmapChunks.{Launch, bitmap_launches, find_next_waiting}
use omnireduce.BitmapChunks.Started.{whole_part, bitmap_launches-whole}
use omnireduce.BitmapChunks.Search.{
  IsCopied, offset_of, finished_of, find_next_waiting-find_next_nonzero_block,
}
use omnireduce.Examples.Messages.{worker}

-- Each of the four block indices is finished with its first answer.
abbrev answers : List (ℕ × ℕ × ℕ)
answers = (0, 0, 4294967295) ∷ (1, 2, 4294967295) ∷ (2, 4, 4294967295) ∷ (3, 6, 4294967295) ∷ []

answers-Onward : Onward worker 16 2 (omega arith) (omega arith) answers no_progress
unfolding no_progress pass_block pass_chunks current_chunk copy_size inf_offset_at
answers-Onward = omega arith

pass_blocks-times_example :
    ((c : ℕ)
      → ((b : ℕ) → b < 4 → c < (pass_blocks worker 16 2 answers no_progress).previous_chunk b)
      → times c (pass_blocks worker 16 2 answers no_progress).copied ≡ 1)
    × ((c b : ℕ)
        → b < 4
        → (pass_blocks worker 16 2 answers no_progress).previous_chunk b ≤ c
        → times c (pass_blocks worker 16 2 answers no_progress).copied ≡ 0)
pass_blocks-times_example =
    pass_blocks-times worker 16 2 (omega arith) (omega arith) answers answers-Onward

bitmap_launches-whole_example :
    bitmap_launches worker TensorUpdateType.float32 32
    ≡ (if ltb 32 (4 * 5) then failed Failure.data_type else ok (whole_part worker ∷ []))
bitmap_launches-whole_example =
    bitmap_launches-whole worker refl (omega arith) (omega arith) (omega arith) 32 (omega arith)
      TensorUpdateType.float32 (inr refl)

-- The bitmap on the host: all zero blocks, until chunk 0 has arrived.
abbrev arriving : (ℕ → Bool) → ℕ → ℕ
arriving finished b = if finished 0 then worker.bitmap b else 1

launched : bitmap_launches worker TensorUpdateType.float32 32 ≡ ok (whole_part worker ∷ [])
launched = bitmap_launches-whole_example

arrives :
    (finished : ℕ → Bool) (c entry : ℕ) (l : Launch)
    → get_elem? (whole_part worker ∷ []) c ≡ some l
    → finished c ≡ true
    → arriving finished entry ≡ worker.bitmap entry
arrives finished zero entry l at done = rw done refl
arrives finished (suc c) entry l at done = cc

arriving-IsCopied : IsCopied worker.part (whole_part worker ∷ []) arriving
arriving-IsCopied = record {
  copied = λ finished c entry l at done from until. arrives finished c entry l at done;
}

find_next_waiting-find_next_nonzero_block_example :
    (offset_of (find_next_waiting worker.part arriving 4 32 9 2 (λ c. false))
      ≡ find_next_nonzero_block worker.part 9 2)
    × ((c : ℕ)
        → 1 ≤ c
        → finished_of (λ c. false) (find_next_waiting worker.part arriving 4 32 9 2 (λ c. false)) c
          ≡ false)
find_next_waiting-find_next_nonzero_block_example =
    find_next_waiting-find_next_nonzero_block worker refl (omega arith) (omega arith) (omega arith)
      (omega arith) 0 refl 32 (omega arith) TensorUpdateType.float32 (whole_part worker ∷ [])
      arriving (inr refl) launched arriving-IsCopied 9 2 (λ c. false) (omega arith)
