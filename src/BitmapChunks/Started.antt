-- ===== src/BitmapChunks/Started.antt =====
-- When the launches of the bitmap of a part succeed.
use omnireduce.Base.{
  ℕ, suc, zero, ◌+◌, ◌*◌, ◌/◌, ◌%◌, ◌^◌, ◌<◌, ◌≤◌, ◌≡◌, ◌⊎◌, inl, inr, refl, ◌∙◌, ap, arith, true,
  false, Bool-cases, [], ◌∷◌, ltb, ◌==◌, if◌then◌else◌, u32, sub32, dec_lt, div-add-mod, lt-div-mul,
  mul_mono, lt-of-mul, div-le_self, ==_iff, ◌≢◌,
}
use omnireduce.Common.{TensorUpdateType}
use omnireduce.Outcome.{Failure, ok, failed, divide}
use omnireduce.Worker.{Env}
use omnireduce.Chunks.{chunk_num}
use omnireduce.BitmapChunks.{
  Launch, part_blocks, last_launch, launch_last, launch_before, bitmap_launches,
}

abbrev pub IsSummed : TensorUpdateType → Type 0
IsSummed type = (type ≡ TensorUpdateType.int32) ⊎ (type ≡ TensorUpdateType.float32)

-- One launch for all blocks of the part.
abbrev pub whole_part : Env → Launch
whole_part e = record {
  first = e.start_offset;
  count = e.tensor_size;
  entry = 0;
  to = e.start_offset / e.block_size;
  entries = part_blocks e;
}

few_of_mul : (q c x n : ℕ) → q * c ≤ x → x < n * c → q < n
few_of_mul q c x n low high = lt-of-mul q n c (omega arith)

one_chunk : (x c : ℕ) → 0 < x → x ≤ c → (if x % c == 0 then x / c else u32 (x / c + 1)) ≡ 1
one_chunk x c pos le =
    let parts = div-add-mod x c (omega arith) in
    let few : x / c < 2 = few_of_mul (x / c) c x 2 (omega (arith, parts)) (omega arith) in
    elim (Bool-cases (x % c == 0)) [
      | inl e ↦
          let none_left : x % c ≡ 0 = (==_iff _ _).0 e in
          let some_whole : x / c ≢ 0 =
            λ z. let product : x / c * c ≡ 0 * c = ap (λ (a : ℕ). a * c) z in omega arith in
          rw e (omega (arith, some_whole))
      | inr e ↦
          let some_left : x % c ≢ 0 = λ z. let bad = (==_iff _ _).1 z in cc in
          let no_whole : x / c < 1 = elim (dec_lt (x / c) 1) [
            | yes h ↦ h
            | no over ↦ absurd (omega (arith, mul_mono 1 (x / c) c (omega arith), parts, some_left))
          ] in
          rw e (omega arith)
    ]

more_chunks :
    (x c : ℕ) → 0 < c → c < x → x < 2 ^ 32 → 1 < (if x % c == 0 then x / c else u32 (x / c + 1))
more_chunks x c pos lt small =
    let parts = div-add-mod x c pos in
    let below = lt-div-mul x c pos in
    let some_whole : 0 < x / c = lt-of-mul 0 (x / c) c (omega arith) in
    let one = mul_mono 1 c (x / c) pos in
    elim (Bool-cases (x % c == 0)) [
      | inl e ↦
          let none_left : x % c ≡ 0 = (==_iff _ _).0 e in
          let more : 1 < x / c = lt-of-mul 1 (x / c) c (omega arith) in rw e more
      | inr e ↦
          let some_left : x % c ≢ 0 = λ z. let bad = (==_iff _ _).1 z in cc in
          rw e (omega (arith, some_left))
    ]

launch_before_fails : (n : ℕ) → 0 < n → launch_before n ≡ failed Failure.data_type
unfolding launch_before
launch_before_fails zero h = absurd (omega arith)
launch_before_fails (suc n) h = refl

module _ (e : Env) (four : e.element_size ≡ 4) (small : 4 * e.tensor_size < 2 ^ 32)
    (elements : 0 < e.tensor_size) (block_pos : 0 < e.block_size) (b_chunk_size : ℕ)
    (chunk_pos : 0 < b_chunk_size) where
  count : ℕ
  count =
      if 4 * e.tensor_size % b_chunk_size == 0
      then 4 * e.tensor_size / b_chunk_size
      else u32 (4 * e.tensor_size / b_chunk_size + 1)

  chunk_num-count : chunk_num e b_chunk_size ≡ ok count
  unfolding chunk_num divide count
  chunk_num-count =
      let z : (b_chunk_size == 0) ≡ false = ground (arith, chunk_pos) in
      let bytes : u32 (e.tensor_size * e.element_size) ≡ 4 * e.tensor_size =
        rw four (omega arith) in
      rw (bytes, z) refl

  count_lt : count < 2 ^ 32
  unfolding count
  count_lt = ground (arith, div-le_self (4 * e.tensor_size) b_chunk_size chunk_pos)

  -- What is left after `before` elements.
  abbrev from : ℕ → Launch
  from before = record {
    first = e.start_offset + before;
    count = sub32 e.tensor_size before;
    entry = before / e.block_size;
    to = e.start_offset / e.block_size + before / e.block_size;
    entries = sub32 (part_blocks e) (before / e.block_size);
  }

  part_blocks_lt : part_blocks e < 2 ^ 32
  unfolding part_blocks
  part_blocks_lt = ground (arith, div-le_self e.tensor_size e.block_size block_pos)

  from_start : from 0 ≡ whole_part e
  from_start =
      let z : 0 / e.block_size ≡ 0 = grind (arith, block_pos) in
      rw z (ground (arith, part_blocks_lt))

  only_launch : last_launch e b_chunk_size 1 ≡ whole_part e
  unfolding last_launch
  only_launch =
      let z : u32 (b_chunk_size * 0) / e.element_size ≡ 0 = rw four (omega arith) in
      ap from z ∙ from_start

  launch_last-only :
      (type : TensorUpdateType)
      → IsSummed type
      → launch_last e type b_chunk_size 1 ≡ ok (whole_part e ∷ [])
  unfolding launch_last
  launch_last-only type (inl h) = rw h (ap (λ (l : Launch). ok (l ∷ [])) only_launch)
  launch_last-only type (inr h) = rw h (ap (λ (l : Launch). ok (l ∷ [])) only_launch)

  -- For a part that is not empty, of less than 2^32 bytes and elements of four bytes, a
  -- positive block size and bitmap chunk size, and a type that is summed: the launch of the
  -- bitmap ends in the exit for a wrong data type if the part has more bytes than a bitmap
  -- chunk, and otherwise is one launch for the whole part with the entries of all its blocks.
  pub bitmap_launches-whole :
      (type : TensorUpdateType)
      → IsSummed type
      → bitmap_launches e type b_chunk_size ≡ (
          if ltb b_chunk_size (4 * e.tensor_size)
          then failed Failure.data_type
          else ok (whole_part e ∷ []))
  unfolding count bitmap_launches
  bitmap_launches-whole type known =
      let some_elements : (e.tensor_size == 0) ≡ false = ground (arith, elements) in
      elim (dec_lt b_chunk_size (4 * e.tensor_size)) [
        | yes more ↦
            let two = more_chunks (4 * e.tensor_size) b_chunk_size chunk_pos more small in
            let failing = launch_before_fails (sub32 count 1) (omega (arith, two, count_lt)) in
            let test : ltb b_chunk_size (4 * e.tensor_size) ≡ true = ground arith in
            rw test (rw (some_elements, bitmap_launches) (rw chunk_num-count (rw failing refl)))
        | no fits ↦
            let one : count ≡ 1 =
              one_chunk (4 * e.tensor_size) b_chunk_size (omega arith) (omega arith) in
            let counted : chunk_num e b_chunk_size ≡ ok 1 = chunk_num-count ∙ ap ok one in
            let test : ltb b_chunk_size (4 * e.tensor_size) ≡ false = ground (arith, fits) in
            rw test (rw (some_elements, bitmap_launches) (rw counted (launch_last-only type known)))
      ]
