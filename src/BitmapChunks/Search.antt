-- ===== src/BitmapChunks/Search.antt =====
-- The search that waits for the bitmap while the device computes it, and the search in the whole bitmap.
use native.Mathlib.Nat.{mod-lt}
use omnireduce.Base.{
  ==_iff, ℕ, zero, suc, ◌+◌, ◌*◌, ◌/◌, ◌%◌, ◌^◌, ◌<◌, ◌≤◌, ◌≡◌, ◌≢◌, refl, ◌∙◌, ap, arith, true,
  Bool, Bool-cases, inl, inr, List, [], ◌∷◌, Option, none, some, ◌==◌, ltb, u32, sub32, update,
  length, get_elem?, div-add-mod, lt-of-mul, lt-div-mul, div-mul_self, div-add_mul, div-le_self,
  sym,
}
use omnireduce.Common.{TensorUpdateType}
use omnireduce.Outcome.{ok, ok-injective}
use omnireduce.NextBlock.{Part, in_part, scan, find_next_nonzero_block}
use omnireduce.Worker.{Env}
use omnireduce.BitmapChunks.{
  Launch, part_blocks, bitmap_launches, b_chunk_of, scan_waiting, find_next_waiting,
}
use omnireduce.BitmapChunks.Started.{IsSummed, whole_part, bitmap_launches-whole}

-- When the event of a chunk has been waited for, the entries that its launch copies are those of the
-- bitmap that the device computes. Nothing is said of the others.
pub record IsCopied (p : Part) (launches : List Launch) (host : (ℕ → Bool) → ℕ → ℕ) : Type 0 where
  pub copied :
      (finished : ℕ → Bool) (c entry : ℕ) (l : Launch)
      → get_elem? launches c ≡ some l
      → finished c ≡ true
      → l.to ≤ entry
      → entry < l.to + l.entries
      → host finished entry ≡ p.bitmap entry

abbrev pub offset_of : Option (ℕ × (ℕ → Bool)) → Option ℕ
offset_of none = none
offset_of (some r) = some (r.0)

-- The chunks that are finished when the search ends.
abbrev pub finished_of : (ℕ → Bool) → Option (ℕ × (ℕ → Bool)) → ℕ → Bool
finished_of finished none = finished
finished_of finished (some r) = r.1

finished_of_kept :
    (finished waited : ℕ → Bool) (r : Option (ℕ × (ℕ → Bool))) (c : ℕ)
    → waited c ≡ finished c
    → finished_of waited r c ≡ waited c
    → finished_of finished r c ≡ finished c
finished_of_kept finished waited none c same rest = refl
finished_of_kept finished waited (some r) c same rest = rest ∙ same

-- The search waits for chunk 0 only, and then reads the entries of the bitmap.
module _ (p : Part) (host : (ℕ → Bool) → ℕ → ℕ) (es b_chunk_size : ℕ)
    (first : (offset : ℕ)
      → offset < 2 ^ 32
      → in_part p offset ≡ true
      → b_chunk_of p es b_chunk_size offset ≡ 0)
    (reads : (finished : ℕ → Bool) (offset : ℕ)
      → finished 0 ≡ true
      → offset < 2 ^ 32
      → in_part p offset ≡ true
      → host finished (offset / p.block_size) ≡ p.bitmap (offset / p.block_size)) where
  scan_waiting-scan :
      (stride max_index fuel offset : ℕ) (finished : ℕ → Bool)
      → offset < 2 ^ 32
      → (offset_of (scan_waiting p host es b_chunk_size stride max_index fuel offset finished)
          ≡ scan p stride max_index fuel offset)
        × ((c : ℕ)
            → c ≢ 0
            → finished_of finished
                (scan_waiting p host es b_chunk_size stride max_index fuel offset finished)
                c
              ≡ finished c)
  unfolding scan_waiting scan
  scan_waiting-scan stride max_index zero offset finished small = (refl, λ c other. refl)
  scan_waiting-scan stride max_index (suc fuel) offset finished small =
      elim (Bool-cases (in_part p offset)) [
        | inr outside ↦ rw outside (refl, λ c other. refl)
        | inl inside ↦
            let chunk = first offset small inside in
            let waited = update finished 0 true in
            let read = reads waited offset refl small inside in
            let again =
              scan_waiting p host es b_chunk_size stride max_index fuel (u32 (offset + stride))
                waited in
            let rest =
              scan_waiting-scan stride max_index fuel (u32 (offset + stride)) waited
                (omega arith) in
            elim (Bool-cases (p.bitmap (offset / p.block_size) == 0)) [
              | inl found ↦ rw (inside, chunk, read, found) (refl, λ c other. ground arith)
              | inr zeros ↦
                  rw (inside, chunk, read, zeros)
                    (
                      rest.0,
                      λ c other.
                          finished_of_kept finished waited again c (ground arith) (rest.1 c other),
                    )
            ]
      ]

add-mul-div : (d k b : ℕ) → 0 < b → (d + k * b) / b ≡ d / b + k
add-mul-div d k b pos =
    let parts = div-add-mod d b pos in
    let whole : d + k * b ≡ (d / b + k) * b + d % b = omega (arith, parts) in
    ap (λ (x : ℕ). x / b) whole ∙ div-add_mul (d / b + k) (d % b) b (mod-lt d pos)

block_lt : (j bs n k : ℕ) → 0 < bs → j < n → n ≤ k * bs → j / bs < k
block_lt j bs n k pos low enough = lt-of-mul (j / bs) k bs (omega (arith, div-add-mod j bs pos))

module _ (e : Env) (four : e.element_size ≡ 4) (small : 4 * e.tensor_size < 2 ^ 32)
    (room : e.start_offset + e.tensor_size < 2 ^ 32) (elements : 0 < e.tensor_size)
    (block_pos : 0 < e.block_size) (first_block : ℕ)
    (start : e.start_offset ≡ first_block * e.block_size) (b_chunk_size : ℕ)
    (chunk_pos : 0 < b_chunk_size) where
  -- An offset in the part, and its distance from the start.
  inside_part :
      (offset : ℕ)
      → offset < 2 ^ 32
      → in_part e.part offset ≡ true
      → (d : ℕ) × (offset ≡ d + first_block * e.block_size)
        × (d < e.tensor_size)
        × (sub32 offset e.start_offset ≡ d)
  unfolding in_part
  inside_part offset low inside =
      let distance : sub32 offset e.start_offset < e.tensor_size = ground arith in
      (sub32 offset e.start_offset, omega (arith, distance, room, start), distance, refl)

  chunk_0 :
      4 * e.tensor_size ≤ b_chunk_size
      → (offset : ℕ) → offset < 2 ^ 32
      → in_part e.part offset ≡ true
      → b_chunk_of e.part e.element_size b_chunk_size offset ≡ 0
  unfolding b_chunk_of
  chunk_0 fits offset low inside =
      let (d, at, lt, same) = inside_part offset low inside in
      let q =
        block_lt (4 * d) b_chunk_size (4 * e.tensor_size) 1 chunk_pos (omega arith) (omega arith) in
      let bytes : u32 (d * e.element_size) ≡ 4 * d = rw four (omega arith) in
      rw (same, bytes) (omega (arith, q))

  entries_enough : e.tensor_size ≤ part_blocks e * e.block_size
  unfolding part_blocks
  entries_enough =
      let parts = div-add-mod e.tensor_size e.block_size block_pos in
      let below = lt-div-mul e.tensor_size e.block_size block_pos in
      let few = div-le_self e.tensor_size e.block_size block_pos in
      let fits : u32 (e.tensor_size / e.block_size + 1) ≡ e.tensor_size / e.block_size + 1 =
        omega (arith, few) in
      elim (Bool-cases (e.tensor_size % e.block_size == 0)) [
        | inl whole ↦
            let none_left = (==_iff _ _).0 whole in rw whole (omega (arith, parts, none_left))
        | inr more ↦ rw (more, fits) (omega (arith, below))
      ]

  -- They succeed only as one launch for the whole part, in one chunk.
  launched_one :
      (type : TensorUpdateType) (launches : List Launch)
      → IsSummed type
      → bitmap_launches e type b_chunk_size ≡ ok launches
      → (4 * e.tensor_size ≤ b_chunk_size) × (launches ≡ whole_part e ∷ [])
  launched_one type launches summed launched =
      let result =
        bitmap_launches-whole e four small elements block_pos b_chunk_size chunk_pos type summed in
      elim (Bool-cases (ltb b_chunk_size (4 * e.tensor_size))) [
        | inl more ↦ let none_made = rw more at result in cc
        | inr fits ↦
            let made = rw fits at result in
            (ground (arith, fits), ok-injective (sym launched ∙ made))
      ]

  -- The entry of a block of the part is among those of the launch.
  entry_inside :
      (offset : ℕ)
      → offset < 2 ^ 32
      → in_part e.part offset ≡ true
      → (e.start_offset / e.block_size ≤ offset / e.block_size)
        × (offset / e.block_size < e.start_offset / e.block_size + part_blocks e)
  entry_inside offset low inside =
      let (d, at, lt, same) = inside_part offset low inside in
      let q = block_lt d e.block_size e.tensor_size (part_blocks e) block_pos lt entries_enough in
      let first : e.start_offset / e.block_size ≡ first_block =
        ap (λ (x : ℕ). x / e.block_size) start ∙ div-mul_self first_block e.block_size block_pos in
      let place : offset / e.block_size ≡ d / e.block_size + first_block =
        ap (λ (x : ℕ). x / e.block_size) at ∙ add-mul-div d first_block e.block_size block_pos in
      omega (arith, q, first, place)

  -- For a part that is not empty, starts at a block and ends below 2^32, with less than 2^32
  -- bytes and elements of four bytes, positive block and bitmap chunk sizes, a type that is
  -- summed, and launches of the bitmap that succeed: as long as the entries of the bitmap that
  -- a launch copies are there once its event has been waited for, whatever the others are, the
  -- search that waits, from an offset below 2^32, returns what the search in the whole bitmap
  -- returns, and it leaves the marks of chunks without a launch as they were.
  pub find_next_waiting-find_next_nonzero_block :
      (type : TensorUpdateType) (launches : List Launch) (host : (ℕ → Bool) → ℕ → ℕ)
      → IsSummed type
      → bitmap_launches e type b_chunk_size ≡ ok launches
      → IsCopied e.part launches host
      → (fuel next_offset : ℕ) (finished : ℕ → Bool) → next_offset < 2 ^ 32
      → (offset_of
            (find_next_waiting e.part host e.element_size b_chunk_size fuel next_offset finished)
          ≡ find_next_nonzero_block e.part fuel next_offset)
        × ((c : ℕ)
            → length launches ≤ c
            → finished_of finished
                (find_next_waiting e.part host e.element_size b_chunk_size fuel next_offset
                  finished)
                c
              ≡ finished c)
  unfolding find_next_waiting find_next_nonzero_block
  find_next_waiting-find_next_nonzero_block type launches host summed launched m fuel next_offset
        finished low =
      let (fits, one) = launched_one type launches summed launched in
      let (same, kept) =
        scan_waiting-scan e.part host e.element_size b_chunk_size (chunk_0 fits)
          (λ now offset done below inside.
            let (from, until) = entry_inside offset below inside in
            m.copied now 0 (offset / e.block_size) (whole_part e) (rw one refl) done from until)
          _ _ fuel next_offset finished low in
      (same, λ c above. kept c (omega (arith, ap length one)))
