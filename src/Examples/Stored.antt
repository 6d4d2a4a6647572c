-- ===== src/Examples/Stored.antt =====
-- The worker of Examples/Messages takes an answer of two blocks, after which it has no further ones.
use omnireduce.Base.{
  ℕ, zero, suc, ◌+◌, ◌-◌, ◌*◌, ◌/◌, ◌<◌, ◌≡◌, refl, arith, false, some, ltb, if◌then◌else◌, u32,
  Outside,
}
use omnireduce.Params.{inf_offset_at}
use omnireduce.Worker.{State, block_index, answer_addr, take_blocks}
use omnireduce.Worker.Taken.{Answer, Different, queued}
use omnireduce.Worker.Taken.Stored.{take_blocks-stored}
use omnireduce.Examples.Messages.{worker}

abbrev waiting : State
waiting = record {
  current_offset = λ b. 2 * b;
  buff_index = λ s. 0;
  finished_blocks = λ s. 0;
  finished_slots = 0;
  comm_buf = λ a. if ltb a 16 then a else inf_offset_at 2 4 ((a - 16) / 4);
  tensor = λ a. 0;
}

abbrev next : ℕ → ℕ
next k = inf_offset_at 2 4 k

abbrev here : ℕ → ℕ
here k = 2 * k

abbrev word : ℕ → ℕ → ℕ
word k j = 8 * k + 4 * j

offsets :
    (k : ℕ)
    → k < 2
    → waiting.comm_buf (u32 (2 * 2 * 4) + answer_addr worker 0 (waiting.buff_index 0) + 4 * k)
      ≡ next k
unfolding answer_addr inf_offset_at
offsets zero h = refl
offsets (suc zero) h = refl
offsets (suc (suc k)) h = absurd (omega arith)

words :
    (k j : ℕ)
    → k < 2
    → j < 2
    → waiting.comm_buf (u32 (k * 2 * 4) + answer_addr worker 0 (waiting.buff_index 0) + 4 * j)
      ≡ word k j
unfolding answer_addr
words k j h hj = ground arith

at_block : (k : ℕ) → k < 2 → block_index worker (next k) ≡ k
unfolding block_index inf_offset_at
at_block zero h = refl
at_block (suc zero) h = refl
at_block (suc (suc k)) h = absurd (omega arith)

no_more : (k : ℕ) → k < 2 → ltb (next k) (inf_offset_at 2 4 0) ≡ false
unfolding inf_offset_at
no_more zero h = refl
no_more (suc zero) h = refl
no_more (suc (suc k)) h = absurd (omega arith)

waiting-Answer : Answer worker 9 0 2 0 word next here (λ k. 0) waiting
waiting-Answer = record {
  offsets = offsets;
  words = words;
  here = λ k low h. rw (at_block k h) refl;
  searched = λ k h more. let none_left = no_more k h in cc;
}

waiting-Different : Different worker 2 next here
waiting-Different = record {
  indices = λ i k h h' same. omega (arith, at_block i h, at_block k h', same);
  inside = λ k h. omega arith;
  apart = λ i k h h' ne. ground arith;
}

take_blocks-stored_example :
    (r : State) × (take_blocks worker 9 0 2 0 2 waiting ≡ some (r, queued worker next (λ k. 0) 0 2))
    × ((k j : ℕ) → k < 2 → j < 2 → here k + j < 5 → r.tensor (4 * (here k + j)) ≡ word k j)
    × ((x : ℕ) → ((k : ℕ) → k < 2 → Outside (4 * here k) 2 x) → r.tensor x ≡ waiting.tensor x)
    × ((k : ℕ) → k < 2 → r.current_offset (block_index worker (next k)) ≡ next k)
take_blocks-stored_example =
    take_blocks-stored worker refl (omega arith) (omega arith) 9 0 2 word next here (λ k. 0)
      waiting-Different waiting waiting-Answer
