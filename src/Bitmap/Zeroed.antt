-- ===== src/Bitmap/Zeroed.antt =====
-- What compute_bitmap leaves behind of a tensor.
use omnireduce.Base.{
  ℕ, zero, suc, ◌+◌, ◌*◌, ◌/◌, ◌%◌, ◌^◌, ◌<◌, ◌≤◌, ◌≡◌, inl, inr, refl, sym, ap, ◌∙◌, arith, Bool,
  Bool-cases, false, List, ◌==◌, if◌then◌else◌, u32, loop_over, ℕ_discrete, div-add-mod,
  div-le_self, div-mul-le, lt-div-mul, mul_mono, dec_lt, ==_iff,
}
use native.Mathlib.Nat.{mod-lt}
use omnireduce.Outcome.{ok, divide}
use omnireduce.Bitmap.{Device, bitmap_cuda_kernel, compute_bitmap}
use omnireduce.Bitmap.Phases.{IsBlock, Zeroed, bitmap_cuda_kernel-Zeroed, bitmap_cuda_kernel-other}

-- All elements are in some block.
div-lt : (i len bs n : ℕ) → 0 < bs → i < n * bs → i / bs < n
div-lt i len bs n bs_pos low = elim (dec_lt (i / bs) n) [
  | yes h ↦ h
  | no above_it ↦
      absurd (omega (arith, mul_mono n (i / bs) bs (omega arith), div-mul-le i bs bs_pos))
]

covered :
    (i len bs : ℕ)
    → 0 < bs
    → len < 2 ^ 31
    → i < len
    → i / bs < (if len % bs == 0 then u32 (len / bs) else u32 (len / bs + 1))
covered i len bs bs_pos small low =
    let whole = div-add-mod len bs bs_pos in
    let few = div-le_self len bs bs_pos in
    elim (Bool-cases (len % bs == 0)) [
      | inl e ↦
          let none_left : len % bs ≡ 0 = (==_iff _ _).0 e in
          let inside = div-lt i len bs (len / bs) bs_pos (omega arith) in rw e (omega arith)
      | inr e ↦
          let inside =
            div-lt i len bs (len / bs + 1) bs_pos (omega (arith, lt-div-mul len bs bs_pos)) in
          rw e (omega arith)
    ]

module _ (above : ℕ → Bool) (order : ℕ → List ℕ) (len bs : ℕ)
    (blocks : (b : ℕ) → IsBlock bs (order b)) where
  -- Blocks `f` to `f + n - 1`.
  abbrev launched : ℕ → ℕ → Device → Device
  launched f n d = loop_over f n (bitmap_cuda_kernel above order len bs) d

  launched-other :
      (f n b t : ℕ) (d : Device)
      → t < bs
      → b < f
      → ((launched f n d).input (b * bs + t) ≡ d.input (b * bs + t))
        × ((launched f n d).bitmap b ≡ d.bitmap b)
  unfolding loop_over
  launched-other f zero b t d inside before = (refl, refl)
  launched-other f (suc n) b t d inside before =
      let (e, e') =
        bitmap_cuda_kernel-other above order len bs f b t d (blocks f) inside (omega arith) in
      let (r, r') =
        launched-other (f + 1) n b t (bitmap_cuda_kernel above order len bs f d) inside
          (omega arith) in
      (r ∙ e, r' ∙ e')

  -- Devices that agree on block `b`.
  Zeroed-same :
      (b t : ℕ) (x y : ℕ → ℕ) (d e : Device)
      → t < bs
      → ((s : ℕ) → s < bs → x (b * bs + s) ≡ y (b * bs + s))
      → (e.input (b * bs + t) ≡ d.input (b * bs + t)) × (e.bitmap b ≡ d.bitmap b)
      → Zeroed above len bs b t x d
      → Zeroed above len bs b t y e
  Zeroed-same b t x y d e inside same (i, m) (inl (one, none, done)) =
      inl (m ∙ one, ap above (sym (same t inside)) ∙ none, i ∙ done)
  Zeroed-same b t x y d e inside same (i, m) (inr (entry, kept, (s, low, fits, hit))) =
      inr (m ∙ entry, i ∙ kept ∙ same t inside, (s, low, fits, ap above (sym (same s low)) ∙ hit))

  launched-Zeroed :
      (f n b t : ℕ) (d : Device)
      → t < bs
      → b * bs + t < len
      → f ≤ b
      → b < f + n
      → Zeroed above len bs b t d.input (launched f n d)
  unfolding loop_over
  launched-Zeroed f zero b t d inside low from to = absurd (omega arith)
  launched-Zeroed f (suc n) b t d inside low from to = elim (ℕ_discrete f b) [
    | yes e ↦ rw e (
        Zeroed-same b t d.input d.input (bitmap_cuda_kernel above order len bs b d)
          (launched (b + 1) n (bitmap_cuda_kernel above order len bs b d)) inside (λ s l. refl)
          (launched-other (b + 1) n b t (bitmap_cuda_kernel above order len bs b d) inside
            (omega arith))
          (bitmap_cuda_kernel-Zeroed above order len bs b t d (blocks b) inside low))
    | no ne ↦
        let d1 = bitmap_cuda_kernel above order len bs f d in
        Zeroed-same b t d1.input d.input (launched (f + 1) n d1) (launched (f + 1) n d1) inside
          (λ s l.
            (bitmap_cuda_kernel-other above order len bs f b s d (blocks f) l (omega arith)).0)
          (refl, refl) (launched-Zeroed (f + 1) n b t d1 inside low (omega arith) (omega arith))
  ]

  -- For blocks that are not empty, a tensor of less than 2^31 elements, and blocks whose
  -- threads run in any order, each of them at least once: compute_bitmap succeeds, and for
  -- every element either the entry of its block is 1, the element was not above the threshold
  -- and is 0 now, or the entry is 0, some element of the block was above the threshold, and
  -- this one is as before.
  pub compute_bitmap-Zeroed :
      (i : ℕ) (d : Device)
      → 0 < bs
      → len < 2 ^ 31
      → i < len
      → (d' : Device) × (compute_bitmap above order len bs d ≡ ok d')
        × Zeroed above len bs (i / bs) (i % bs) d.input d'
  unfolding compute_bitmap divide
  compute_bitmap-Zeroed i d bs_pos small low =
      let z : (bs == 0) ≡ false = ground arith in
      let t_low = mod-lt i bs_pos in
      let whole = div-add-mod i bs bs_pos in
      let n = if len % bs == 0 then u32 (len / bs) else u32 (len / bs + 1) in
      (
        launched 0 n d,
        rw z refl,
        launched-Zeroed 0 n (i / bs) (i % bs) d t_low (omega arith) (omega arith)
            (omega (arith, covered i len bs bs_pos small low)),
      )
