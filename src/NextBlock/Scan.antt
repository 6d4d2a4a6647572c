-- ===== src/NextBlock/Scan.antt =====
-- The loop ends, and finds the first block that is not all zero.
use omnireduce.Base.{
  ==_iff, le-div, div-mul-le, ℕ, zero, suc, ◌+◌, ◌*◌, ◌/◌, ◌^◌, ◌≤◌, ◌<◌, ◌≡◌, ◌≢◌, inl, inr, arith,
  true, false, Bool-cases, some, ◌==◌, u32,
}
use omnireduce.NextBlock.{Part, in_part, scan}

-- `offset` is in the part, as numbers.
pub record InPart (p : Part) (offset : ℕ) : Type 0 where
  pub lower : p.start_offset ≤ offset
  pub upper : offset < p.start_offset + p.tensor_size
  pub block_lt : offset / p.block_size < p.block_count

-- The result of a scan from `offset`: the block at `offset + k * stride` is the first one that is set,
-- or none is and the result is the sentinel.
pub data First (p : Part) (stride max_index offset : ℕ) : ℕ → Type 0 where
  found :
      (k r : ℕ)
      → r ≡ offset + k * stride
      → InPart p r
      → p.bitmap (r / p.block_size) ≡ 0
      → ((i : ℕ) → i < k → p.bitmap ((offset + i * stride) / p.block_size) ≢ 0)
      → First p stride max_index offset r
  exhausted :
      ((i : ℕ)
        → InPart p (offset + i * stride)
        → p.bitmap ((offset + i * stride) / p.block_size) ≢ 0)
      → First p stride max_index offset max_index

div_mono : (a b d : ℕ) → a / b ≤ (a + d) / b
div_mono a zero d = omega arith
div_mono a (suc b) d =
    le-div (a / suc b) (a + d) (suc b) (omega arith) (omega (arith, div-mul-le a (suc b)))

InPart-down :
    (p : Part) (offset d : ℕ) → p.start_offset ≤ offset → InPart p (offset + d) → InPart p offset
InPart-down p offset d low q = record {
  lower = low;
  upper = omega (arith, q.upper);
  block_lt = omega (arith, q.block_lt, div_mono offset p.block_size d);
}

step-eq : (offset stride i : ℕ) → offset + stride + i * stride ≡ offset + suc i * stride
step-eq offset stride i = omega arith

-- One block that is all zero before the rest.
First-later :
    (p : Part) (stride max_index offset r : ℕ)
    → p.bitmap (offset / p.block_size) ≢ 0
    → First p stride max_index (offset + stride) r
    → First p stride max_index offset r
First-later p stride max_index offset r zero_here (found k r' e q set before) =
    found (suc k) r' (omega arith) q set λ i h. all_zero i h
  where
    all_zero : (i : ℕ) → i < suc k → p.bitmap ((offset + i * stride) / p.block_size) ≢ 0
    all_zero zero h = let e0 : offset + 0 * stride ≡ offset = omega arith in rw e0 zero_here
    all_zero (suc i) h = rw (← step-eq offset stride i) (before i (omega arith))
First-later p stride max_index offset r zero_here (exhausted none_set) = exhausted all_zero
  where
    all_zero :
        (i : ℕ)
        → InPart p (offset + i * stride)
        → p.bitmap ((offset + i * stride) / p.block_size) ≢ 0
    all_zero zero q = let e0 : offset + 0 * stride ≡ offset = omega arith in rw e0 zero_here
    all_zero (suc i) q = rw (← step-eq offset stride i) (none_set i (rw step-eq q))

scan-skip :
    (p : Part) (stride max_index fuel offset r : ℕ)
    → in_part p offset ≡ true
    → (p.bitmap (offset / p.block_size) == 0) ≡ false
    → u32 (offset + stride) ≡ offset + stride
    → scan p stride max_index fuel (offset + stride) ≡ some r
    → scan p stride max_index (suc fuel) offset ≡ some r
unfolding scan
scan-skip p stride max_index fuel offset r e z wrapped ran = rw (e, z, wrapped) ran

module _ (p : Part) (stride max_index : ℕ) (stride_pos : 0 < stride)
    (room : p.start_offset + p.tensor_size + stride ≤ 2 ^ 32) where
  in_part-true :
      (offset : ℕ)
      → p.start_offset ≤ offset
      → offset < 2 ^ 32
      → in_part p offset ≡ true
      → InPart p offset
  unfolding in_part
  in_part-true offset h small e = ground arith

  in_part-false :
      (offset : ℕ)
      → p.start_offset ≤ offset
      → offset < 2 ^ 32
      → in_part p offset ≡ false
      → ¬ InPart p offset
  unfolding in_part
  in_part-false offset h small e q = ground arith

  -- Fuel beyond the rest of the part is enough.
  pub scan-First :
      (fuel offset : ℕ)
      → 0 < fuel
      → p.start_offset ≤ offset
      → offset < 2 ^ 32
      → p.start_offset + p.tensor_size < offset + fuel
      → (r : ℕ) × (scan p stride max_index fuel offset ≡ some r) × First p stride max_index offset r
  unfolding scan
  scan-First zero offset pos low small enough = absurd (omega arith)
  scan-First (suc fuel) offset pos low small enough = elim (Bool-cases (in_part p offset)) [
    | inr e ↦ (
      max_index,
      rw e,
      exhausted (λ i q.
          absurd (in_part-false offset low small e (InPart-down p offset (i * stride) low q))),
    )
    | inl e ↦
        let q = in_part-true offset low small e in
        elim (Bool-cases (p.bitmap (offset / p.block_size) == 0)) [
          | inl z ↦ (
            offset,
            rw (e, z),
            found 0 offset (omega arith) q ((==_iff _ 0).0 z) (λ i h. absurd (omega arith)),
          )
          | inr z ↦
              let wrapped : u32 (offset + stride) ≡ offset + stride = omega (arith, q.upper) in
              let (r, ran, f) =
                scan-First fuel (offset + stride) (omega (arith, q.upper)) (omega arith)
                  (omega (arith, q.upper)) (omega (arith, q.upper)) in
              (
                r,
                scan-skip p stride max_index fuel offset r e z wrapped ran,
                First-later p stride max_index offset r (ground arith) f,
              )
        ]
  ]
