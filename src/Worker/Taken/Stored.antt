-- ===== src/Worker/Taken/Stored.antt =====
-- An answer is stored block by block.
use mathlib.Core.Path.{subst}
use omnireduce.Base.{
  ℕ, zero, suc, ◌+◌, ◌-◌, ◌*◌, ◌/◌, ◌^◌, ◌<◌, ◌≤◌, ◌≡◌, ◌≢◌, inl, inr, refl, sym, ap, ◌∙◌, arith,
  true, false, Bool-cases, List, [], ◌∷◌, ◌++◌, some, ltb, ◌==◌, ==_iff, if◌then◌else◌, u32, update,
  ℕ_discrete, Memory, Outside, copy_words, copy_words-Outside, copy_words-inside,
}
use mathlib.Core.List.{append-nil}
use omnireduce.Worker.{
  Env, State, block_index, answer_addr, copy_size, store_block, take_block, take_blocks,
}
use omnireduce.Worker.Bounds.{copy_size-lem}
use omnireduce.Worker.Taken.{Answer, Different, queued, taken, take_blocks_none, take_blocks-cons}

module _ (e : Env) (four : e.element_size ≡ 4)
    (small : 4 * (e.start_offset + e.tensor_size) + 4 * e.block_size < 2 ^ 32)
    (room : e.start_offset + e.tensor_size + 2 * e.block_size < 2 ^ 30) (fuel slot num : ℕ)
    (word : ℕ → ℕ → ℕ) (next current found : ℕ → ℕ) (d : Different e num next current) where
  -- Blocks `k` to `k + n - 1` are stored and have moved on.
  record Took (k n : ℕ) (s r : State) : Type 0 where
    same_buffer : r.comm_buf ≡ s.comm_buf
    same_index : r.buff_index ≡ s.buff_index
    stored :
        (i j : ℕ)
        → k ≤ i
        → i < k + n
        → j < e.block_size
        → current i + j < e.start_offset + e.tensor_size
        → r.tensor (4 * (current i + j)) ≡ word i j
    kept :
        (x : ℕ)
        → ((i : ℕ) → k ≤ i → i < k + n → Outside (4 * current i) e.block_size x)
        → r.tensor x ≡ s.tensor x
    moved : (i : ℕ) → k ≤ i → i < k + n → r.current_offset (block_index e (next i)) ≡ next i
    others :
        (b : ℕ)
        → ((i : ℕ) → k ≤ i → i < k + n → b ≢ block_index e (next i))
        → r.current_offset b ≡ s.current_offset b

  -- The words of a block that are in the part.
  size-eq :
      (k : ℕ)
      → k < num
      → copy_size e (current k) / 4 ≡ (
          if ltb e.block_size (e.start_offset + e.tensor_size - current k)
          then e.block_size
          else e.start_offset + e.tensor_size - current k)
  size-eq k h =
      let at = d.inside k h in
      let size = copy_size-lem e four small (current k) (at.0) (omega (arith, at.1, room)) in
      rw size (ground (arith, at.1))

  abbrev after : ℕ → State → State
  after k s = record (store_block e slot (block_index e (next k)) k s) {
    current_offset = update s.current_offset (block_index e (next k)) (next k);
  }

  after-Took :
      (k : ℕ) (s : State)
      → k < num
      → Answer e fuel slot num k word next current found s
      → Took k 1 s (after k s)
  unfolding store_block
  after-Took k s h a =
      let c = current k in
      let bid = block_index e (next k) in
      let at = d.inside k h in
      let n = copy_size e c / 4 in
      let src = u32 (k * e.block_size * e.element_size) + answer_addr e slot (s.buff_index slot) in
      let dst : u32 (c * e.element_size) ≡ 4 * c = rw four (omega (arith, at.1, room)) in
      let few : n ≤ e.block_size = rw (size-eq k h) (ground arith) in
      let tensor : (after k s).tensor ≡ copy_words n (4 * c) src s.comm_buf s.tensor =
        ap
          (λ (x : ℕ).
            copy_words (copy_size e x / 4) (u32 (x * e.element_size)) src s.comm_buf s.tensor)
          (a.here k (omega arith) h)
        ∙ ap (λ (x : ℕ). copy_words n x src s.comm_buf s.tensor) dst in
      let self : (bid == bid) ≡ true = (==_iff bid bid).1 refl in
      record {
        same_buffer = refl;
        same_index = refl;
        stored = λ i j low high hj inside.
            let same : i ≡ k = omega arith in
            let inside' : c + j < e.start_offset + e.tensor_size = rw same at inside in
            let sent : j < n = rw (size-eq k h) (ground (arith, hj, inside')) in
            let place : 4 * (c + j) ≡ 4 * c + 4 * j = omega arith in
            rw same (
              ap (λ (m : Memory). m (4 * (c + j))) tensor
              ∙ ap (copy_words n (4 * c) src s.comm_buf s.tensor) place
              ∙ copy_words-inside n (4 * c) src s.comm_buf s.tensor j sent
              ∙ a.words k j h hj);
        kept = λ x out.
            let far : Outside (4 * c) e.block_size x = out k (omega arith) (omega arith) in
            ap (λ (m : Memory). m x) tensor
            ∙ copy_words-Outside n (4 * c) src s.comm_buf s.tensor x (omega (arith, far, few));
        moved = λ i low high. let same : i ≡ k = omega arith in rw same (rw self refl);
        others = λ b ne.
            let other : (b == bid) ≡ false = ground (arith, ne k (omega arith) (omega arith)) in
            rw other refl;
      }

  take_block-eq :
      (k : ℕ) (s : State)
      → k < num
      → Answer e fuel slot num k word next current found s
      → (r : State) × (take_block e fuel slot num k s ≡ some (r, queued e next found k 1))
        × (r.tensor ≡ (after k s).tensor)
        × (r.current_offset ≡ (after k s).current_offset)
        × (r.comm_buf ≡ s.comm_buf)
        × (r.buff_index ≡ s.buff_index)
  unfolding take_block store_block
  take_block-eq k s h a =
      let read = ap (λ (meta : ℕ). taken e fuel slot meta k s) (a.offsets k h) in
      elim (Bool-cases (ltb (next k) (e.inf_offset 0))) [
        | inl going ↦ elim (Bool-cases (e.bitmap (next k / e.block_size) == 0)) [
          | inl mine ↦ (
            after k s,
            read ∙ rw (going, mine, a.searched k h going) refl,
            refl,
            refl,
            refl,
            refl,
          )
          | inr zeros ↦ (after k s, read ∙ rw (going, zeros) refl, refl, refl, refl, refl)
        ]
        | inr done ↦ (
          record (after k s) {
            finished_blocks = update s.finished_blocks slot (u32 (s.finished_blocks slot + 1));
          },
          read ∙ rw done refl,
          refl,
          refl,
          refl,
          refl,
        )
      ]

  abbrev Reads : (k : ℕ) → (ℕ → ℕ) → Memory → Type 0
  Reads k index m =
      ((i : ℕ)
        → i < num
        → m (u32 (e.block_size * num * e.element_size) + answer_addr e slot (index slot) + 4 * i)
          ≡ next i)
      × ((i j : ℕ)
          → i < num
          → j < e.block_size
          → m (u32 (i * e.block_size * e.element_size) + answer_addr e slot (index slot) + 4 * j)
            ≡ word i j)

  Took-Answer :
      (k : ℕ) (s r : State)
      → k < num
      → Answer e fuel slot num k word next current found s
      → Took k 1 s r
      → Answer e fuel slot num (k + 1) word next current found r
  Took-Answer k s r h a t =
      let reads : Reads k r.buff_index r.comm_buf =
        subst (λ index. Reads k index r.comm_buf) (sym (t.same_index))
          (subst (λ m. Reads k s.buff_index m) (sym (t.same_buffer)) (a.offsets, a.words)) in
      record {
        offsets = reads.0;
        words = reads.1;
        here = λ i low lt.
            t.others (block_index e (next i)) (λ i' low' high' same.
              let back = d.indices i i' lt (omega arith) same in absurd (omega arith))
            ∙ a.here i (omega arith) lt;
        searched = a.searched;
      }

  take_block-Took :
      (k : ℕ) (s : State)
      → k < num
      → Answer e fuel slot num k word next current found s
      → (r : State) × (take_block e fuel slot num k s ≡ some (r, queued e next found k 1))
        × Took k 1 s r
  take_block-Took k s h a =
      let (r, result, tensor, offsets, buffer, index) = take_block-eq k s h a in
      let t = after-Took k s h a in
      (
        r,
        result,
        record {
          same_buffer = buffer;
          same_index = index;
          stored = λ i j low high hj inside.
              ap (λ (m : Memory). m (4 * (current i + j))) tensor ∙ t.stored i j low high hj inside;
          kept = λ x out. ap (λ (m : Memory). m x) tensor ∙ t.kept x out;
          moved = λ i low high.
              ap (λ (m : ℕ → ℕ). m (block_index e (next i))) offsets ∙ t.moved i low high;
          others = λ b ne. ap (λ (m : ℕ → ℕ). m b) offsets ∙ t.others b ne;
        },
      )

  Took-trans :
      (k n : ℕ) (s s1 r : State)
      → k + suc n ≤ num
      → Took k 1 s s1
      → Took (k + 1) n s1 r
      → Took k (suc n) s r
  Took-trans k n s s1 r h t u = record {
    same_buffer = u.same_buffer ∙ t.same_buffer;
    same_index = u.same_index ∙ t.same_index;
    stored = λ i j low high hj inside. elim (ℕ_discrete i k) [
      | yes same ↦
          u.kept (4 * (current i + j)) (λ i' low' high'.
            let far = d.apart i i' (omega arith) (omega arith) (λ eq. absurd (omega (arith, eq))) in
            omega (arith, far, hj))
          ∙ t.stored i j low (omega arith) hj inside
      | no other ↦ u.stored i j (omega arith) (omega arith) hj inside
    ];
    kept = λ x out.
        u.kept x (λ i low high. out i (omega arith) (omega arith))
        ∙ t.kept x (λ i low high. out i low (omega arith));
    moved = λ i low high. elim (ℕ_discrete i k) [
      | yes same ↦
          u.others (block_index e (next i)) (λ i' low' high' eq.
            let back = d.indices i i' (omega arith) (omega arith) eq in absurd (omega arith))
          ∙ t.moved i low (omega arith)
      | no other ↦ u.moved i (omega arith) (omega arith)
    ];
    others = λ b ne.
        u.others b (λ i low high. ne i (omega arith) (omega arith))
        ∙ t.others b (λ i low high. ne i low (omega arith));
  }

  take_blocks-Took :
      (k n : ℕ) (s : State)
      → k + n ≤ num
      → Answer e fuel slot num k word next current found s
      → (r : State) × (take_blocks e fuel slot num k n s ≡ some (r, queued e next found k n))
        × Took k n s r
  take_blocks-Took k zero s h a = (
    s,
    take_blocks_none e fuel slot num k s,
    record {
      same_buffer = refl;
      same_index = refl;
      stored = λ i j low high hj inside. absurd (omega arith);
      kept = λ x out. refl;
      moved = λ i low high. absurd (omega arith);
      others = λ b ne. refl;
    },
  )
  take_blocks-Took k (suc n) s h a =
      let (s1, result, t) = take_block-Took k s (omega arith) a in
      let (r, results, u) =
        take_blocks-Took (k + 1) n s1 (omega arith) (Took-Answer k s s1 (omega arith) a t) in
      let mine : List (ℕ × ℕ) =
        if ltb (next k) (e.inf_offset 0)
        then (if e.bitmap (next k / e.block_size) == 0 then (next k, found k) ∷ [] else [])
        else [] in
      (
        r,
        take_blocks-cons e fuel slot num k n s (s1, queued e next found k 1)
              (r, queued e next found (k + 1) n) result results
            ∙ ap (λ l. some (r, l ++ queued e next found (k + 1) n)) (append-nil mine),
        Took-trans k n s s1 r h t u,
      )

  -- For a worker without direct memory, elements of four bytes, a part that ends with two
  -- blocks of room below 2^30 elements and with one below 2^32 bytes, and an answer whose
  -- blocks have different block indices and are different blocks of the part that do not
  -- overlap, where the search after each next offset below the first sentinel ends: the worker
  -- takes all blocks; every word of a block that is in the part is then in its place in the
  -- tensor, words outside the blocks are as before, each block index is at its next offset,
  -- and the blocks to reply with are those next offsets that are blocks of this worker, each
  -- with what the search finds.
  pub take_blocks-stored :
      (s : State)
      → Answer e fuel slot num 0 word next current found s
      → (r : State) × (take_blocks e fuel slot num 0 num s ≡ some (r, queued e next found 0 num))
        × ((k j : ℕ)
            → k < num
            → j < e.block_size
            → current k + j < e.start_offset + e.tensor_size
            → r.tensor (4 * (current k + j)) ≡ word k j)
        × ((x : ℕ)
            → ((k : ℕ) → k < num → Outside (4 * current k) e.block_size x)
            → r.tensor x ≡ s.tensor x)
        × ((k : ℕ) → k < num → r.current_offset (block_index e (next k)) ≡ next k)
  take_blocks-stored s a =
      let (r, result, t) = take_blocks-Took 0 num s (omega arith) a in
      (
        r,
        result,
        λ k j h hj inside. t.stored k j (omega arith) (omega arith) hj inside,
        λ x out. t.kept x (λ i low high. out i (omega arith)),
        λ k h. t.moved k (omega arith) (omega arith),
      )
