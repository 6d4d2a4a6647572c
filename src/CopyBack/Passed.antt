-- ===== src/CopyBack/Passed.antt =====
-- The count of a chunk is the number of block indices that are past it.
use omnireduce.Base.{
  ℕ, zero, suc, ◌+◌, ◌-◌, ◌^◌, ◌<◌, ◌≤◌, ◌≡◌, inl, inr, refl, sym, arith, false, Bool-cases, List,
  [], ◌∷◌, ltb, leb, ◌==◌, if◌then◌else◌, u32, update, ℕ_discrete, Bool,
}
use omnireduce.Worker.{Env, copy_size}
use omnireduce.CopyBack.{Progress, pass_chunks, current_chunk, pass_block, pass_blocks, no_progress}

-- How many of the block indices below `n` are past chunk `cid`.
abbrev pub passed : (previous : ℕ → ℕ) → (cid n : ℕ) → ℕ
passed previous cid zero = 0
passed previous cid (suc n) = (if ltb cid (previous n) then 1 else 0) + passed previous cid n

passed_le : (previous : ℕ → ℕ) (cid n : ℕ) → passed previous cid n ≤ n
passed_le previous cid zero = omega arith
passed_le previous cid (suc n) = ground (arith, passed_le previous cid n)

passed-update_above :
    (previous : ℕ → ℕ) (cid n bid chunk : ℕ)
    → n ≤ bid
    → passed (update previous bid chunk) cid n ≡ passed previous cid n
passed-update_above previous cid zero bid chunk h = refl
passed-update_above previous cid (suc n) bid chunk h =
    ground (arith, passed-update_above previous cid n bid chunk)

passed-update :
    (previous : ℕ → ℕ) (cid n bid chunk : ℕ)
    → bid < n
    → previous bid ≤ chunk
    → passed (update previous bid chunk) cid n
      ≡ passed previous cid n
        + (if leb (previous bid) cid then (if ltb cid chunk then 1 else 0) else 0)
passed-update previous cid zero bid chunk h k = absurd (omega arith)
passed-update previous cid (suc n) bid chunk h k = elim (ℕ_discrete n bid) [
  | yes same ↦ ground (arith, passed-update_above previous cid n bid chunk)
  | no other ↦ ground (arith, passed-update previous cid n bid chunk)
]

-- How often a chunk was copied.
abbrev pub times : ℕ → List ℕ → ℕ
times c [] = 0
times c (d ∷ ds) = (if d == c then 1 else 0) + times c ds

abbrev counted : ℕ → ℕ → Progress → Progress
counted blocks cid p =
    let count = u32 (p.chunk_completed cid + 1) in
    record p {
      chunk_completed = update p.chunk_completed cid count;
      copied = if count == blocks then cid ∷ p.copied else p.copied;
    }

abbrev between : ℕ → ℕ → ℕ → Bool
between first n c = if leb first c then ltb c (first + n) else false

-- What the loop over the chunks does.
pass_chunks-count :
    (blocks first n c : ℕ) (p : Progress)
    → (pass_chunks blocks first n p).chunk_completed c
      ≡ (if between first n c then u32 (p.chunk_completed c + 1) else p.chunk_completed c)
unfolding pass_chunks
pass_chunks-count blocks first zero c p = ground arith
pass_chunks-count blocks first (suc n) c p =
    ground (arith, pass_chunks-count blocks (first + 1) n c (counted blocks first p))

times-counted :
    (blocks cid c : ℕ) (p : Progress)
    → times c (counted blocks cid p).copied
      ≡ times c p.copied
        + (if cid == c then (if u32 (p.chunk_completed c + 1) == blocks then 1 else 0) else 0)
times-counted blocks cid c p = ground arith

pass_chunks-times :
    (blocks first n c : ℕ) (p : Progress)
    → times c (pass_chunks blocks first n p).copied
      ≡ times c p.copied
        + (if between first n c
            then (if u32 (p.chunk_completed c + 1) == blocks then 1 else 0)
            else 0)
unfolding pass_chunks
pass_chunks-times blocks first zero c p = ground arith
pass_chunks-times blocks first (suc n) c p =
    let rest = pass_chunks-times blocks (first + 1) n c (counted blocks first p) in
    let once = times-counted blocks first c p in
    elim (ℕ_discrete first c) [ yes same ↦ ground arith | no other ↦ ground arith ]

-- The count of each chunk, and its copy, go with the number of block indices that are past it.
pub record IsCounted (blocks : ℕ) (p : Progress) : Type 0 where
  pub completed : (c : ℕ) → p.chunk_completed c ≡ passed p.previous_chunk c blocks
  pub once :
      (c : ℕ) → times c p.copied ≡ (if passed p.previous_chunk c blocks == blocks then 1 else 0)

pass_chunks-previous :
    (blocks first n : ℕ) (p : Progress)
    → (pass_chunks blocks first n p).previous_chunk ≡ p.previous_chunk
unfolding pass_chunks
pass_chunks-previous blocks first zero p = refl
pass_chunks-previous blocks first (suc n) p =
    pass_chunks-previous blocks (first + 1) n (counted blocks first p)

passed-all :
    (previous : ℕ → ℕ) (c n : ℕ) → ((b : ℕ) → b < n → c < previous b) → passed previous c n ≡ n
passed-all previous c zero h = refl
passed-all previous c (suc n) h =
    ground (arith, h n, passed-all previous c n (λ b lt. h b (omega arith)))

passed-some : (previous : ℕ → ℕ) (c n b : ℕ) → b < n → previous b ≤ c → passed previous c n < n
passed-some previous c zero b h k = absurd (omega arith)
passed-some previous c (suc n) b h k = elim (ℕ_discrete n b) [
  | yes same ↦ ground (arith, passed_le previous c n)
  | no other ↦ ground (arith, passed-some previous c n b)
]

no_progress-passed : (c n : ℕ) → passed (λ b. 0) c n ≡ 0
no_progress-passed c zero = refl
no_progress-passed c (suc n) = ground (arith, no_progress-passed c n)

module _ (blocks : ℕ) (few : blocks < 2 ^ 32) where
  pass-IsCounted :
      (bid chunk : ℕ) (p : Progress)
      → bid < blocks
      → p.previous_chunk bid ≤ chunk
      → IsCounted blocks p
      → let after = pass_chunks blocks (p.previous_chunk bid) (chunk - p.previous_chunk bid) p in
        IsCounted blocks (record after { previous_chunk = update p.previous_chunk bid chunk })
  pass-IsCounted bid chunk p h mono k =
      let first = p.previous_chunk bid in
      record {
        completed = λ c. ground (
          arith,
          pass_chunks-count blocks first (chunk - first) c p,
          passed-update p.previous_chunk c blocks bid chunk,
          k.completed c,
          passed_le (update p.previous_chunk bid chunk) c blocks,
        );
        once = λ c. ground (
          arith,
          pass_chunks-times blocks first (chunk - first) c p,
          passed-update p.previous_chunk c blocks bid chunk,
          k.completed c,
          k.once c,
          passed_le (update p.previous_chunk bid chunk) c blocks,
        );
      }

module _ (e : Env) (size num : ℕ) (few : e.num_blocks_per_thread < 2 ^ 32)
    (pos : 0 < e.num_blocks_per_thread) where
  -- The block indices exist, and none goes back to an earlier chunk.
  abbrev pub Onward : List (ℕ × ℕ × ℕ) → Progress → Type 0
  Onward [] p = Unit {0}
  Onward ((bid, current, next) ∷ bs) p =
      (bid < e.num_blocks_per_thread)
      × (p.previous_chunk bid ≤ current_chunk e size num current next)
      × Onward bs (pass_block e size num bid current next p)

  no_progress-IsCounted : IsCounted e.num_blocks_per_thread no_progress
  unfolding no_progress
  no_progress-IsCounted = record {
    completed = λ c. sym (no_progress-passed c e.num_blocks_per_thread);
    once = λ c. ground (arith, no_progress-passed c e.num_blocks_per_thread);
  }

  pass_block-IsCounted :
      (bid current next : ℕ) (p : Progress)
      → bid < e.num_blocks_per_thread
      → p.previous_chunk bid ≤ current_chunk e size num current next
      → IsCounted e.num_blocks_per_thread p
      → IsCounted e.num_blocks_per_thread (pass_block e size num bid current next p)
  unfolding pass_block
  pass_block-IsCounted bid current next p h mono k =
      let chunk = current_chunk e size num current next in
      let first = p.previous_chunk bid in
      let moved = pass-IsCounted e.num_blocks_per_thread few bid chunk p h mono k in
      elim (Bool-cases (copy_size e current == 0)) [
        | inl nothing ↦ rw nothing k
        | inr some_words ↦
            rw some_words
              (rw (pass_chunks-previous e.num_blocks_per_thread first (chunk - first) p) moved)
      ]

  pass_blocks-IsCounted :
      (bs : List (ℕ × ℕ × ℕ)) (p : Progress)
      → Onward bs p
      → IsCounted e.num_blocks_per_thread p
      → IsCounted e.num_blocks_per_thread (pass_blocks e size num bs p)
  unfolding pass_blocks
  pass_blocks-IsCounted [] p h k = k
  pass_blocks-IsCounted ((bid, current, next) ∷ bs) p h k =
      pass_blocks-IsCounted bs (pass_block e size num bid current next p) (h.2)
        (pass_block-IsCounted bid current next p (h.0) (h.1) k)

  -- With 1 to 2^32 - 1 block indices, and answers for block indices that exist and do not go
  -- back to an earlier chunk: after the answers, a chunk that every block index is past has
  -- been copied back to the device exactly once, and a chunk that some block index is not past
  -- has not been copied.
  pub pass_blocks-times :
      (bs : List (ℕ × ℕ × ℕ))
      → Onward bs no_progress
      → let p = pass_blocks e size num bs no_progress in
        ((c : ℕ)
          → ((b : ℕ) → b < e.num_blocks_per_thread → c < p.previous_chunk b)
          → times c p.copied ≡ 1)
        × ((c b : ℕ) → b < e.num_blocks_per_thread → p.previous_chunk b ≤ c → times c p.copied ≡ 0)
  pass_blocks-times bs h =
      let p = pass_blocks e size num bs no_progress in
      let k = pass_blocks-IsCounted bs no_progress h no_progress-IsCounted in
      (
        λ c all.
            ground (arith, k.once c, passed-all p.previous_chunk c e.num_blocks_per_thread all),
        λ c b lt low.
            ground
              (arith, k.once c, passed-some p.previous_chunk c e.num_blocks_per_thread b lt low),
      )
