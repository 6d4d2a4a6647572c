-- ===== src/Bitmap/Phases.antt =====
-- What a block leaves behind, whatever the order of its threads.
use omnireduce.Base.{
  ℕ, ◌+◌, ◌*◌, ◌<◌, ◌≡◌, ◌≢◌, ◌⊎◌, inl, inr, refl, sym, ap, ◌/◌, div-add_mul, ◌∙◌, Bool, Bool-cases,
  true, false, List, [], ◌∷◌, Occurs, if◌then◌else◌,
}
use omnireduce.Bitmap.{Device, test_phase, write_phase, bitmap_cuda_kernel}
use omnireduce.Bitmap.Threads.{
  test_phase-none, test_phase-some, write_thread-input, write_thread-bitmap, write_thread-kept,
  write_thread-same, write_thread-entry, write_thread-entry_kept, write_thread-zero,
}

module _ (len first b : ℕ) where
  write_phase-input :
      (z : Bool) (ts : List ℕ) (i : ℕ) (d : Device)
      → ((t : ℕ) → Occurs t ts → first + t ≢ i)
      → (write_phase len first b z ts d).input i ≡ d.input i
  unfolding write_phase
  write_phase-input z [] i d away = refl
  write_phase-input z (t ∷ ts) i d away =
      write_phase-input z ts i _ (λ s m. away s (inr m))
      ∙ write_thread-input len first b z t i d (away t (inl refl))

  write_phase-bitmap :
      (z : Bool) (ts : List ℕ) (j : ℕ) (d : Device)
      → j ≢ b
      → (write_phase len first b z ts d).bitmap j ≡ d.bitmap j
  unfolding write_phase
  write_phase-bitmap z [] j d other = refl
  write_phase-bitmap z (t ∷ ts) j d other =
      write_phase-bitmap z ts j _ other ∙ write_thread-bitmap len first b z t j d other

  write_phase-kept :
      (ts : List ℕ) (s : ℕ) (d : Device)
      → d.input (first + s) ≡ 0
      → (write_phase len first b true ts d).input (first + s) ≡ 0
  unfolding write_phase
  write_phase-kept [] s d done = done
  write_phase-kept (t ∷ ts) s d done =
      write_phase-kept ts s _ (write_thread-kept len first b true t s d done)

  write_phase-zero :
      (ts : List ℕ) (s : ℕ) (d : Device)
      → Occurs s ts
      → first + s < len
      → (write_phase len first b true ts d).input (first + s) ≡ 0
  unfolding write_phase
  write_phase-zero [] s d member low = absurd member
  write_phase-zero (t ∷ ts) s d (inl same) low =
      write_phase-kept ts s _ (rw same (write_thread-zero len first b s d low))
  write_phase-zero (t ∷ ts) s d (inr later) low = write_phase-zero ts s _ later low

  write_phase-same :
      (ts : List ℕ) (i : ℕ) (d : Device) → (write_phase len first b false ts d).input i ≡ d.input i
  unfolding write_phase
  write_phase-same [] i d = refl
  write_phase-same (t ∷ ts) i d = write_phase-same ts i _ ∙ write_thread-same len first b t i d

  write_phase-entry_kept :
      (z : Bool) (ts : List ℕ) (d : Device)
      → d.bitmap b ≡ (if z then 1 else 0)
      → (write_phase len first b z ts d).bitmap b ≡ (if z then 1 else 0)
  unfolding write_phase
  write_phase-entry_kept z [] d done = done
  write_phase-entry_kept z (t ∷ ts) d done =
      write_phase-entry_kept z ts _ (write_thread-entry_kept len first b z t d done)

  write_phase-entry :
      (z : Bool) (ts : List ℕ) (s : ℕ) (d : Device)
      → Occurs s ts
      → first + s < len
      → (write_phase len first b z ts d).bitmap b ≡ (if z then 1 else 0)
  unfolding write_phase
  write_phase-entry z [] s d member low = absurd member
  write_phase-entry z (t ∷ ts) s d (inl same) low =
      write_phase-entry_kept z ts _ (rw same (write_thread-entry len first b z s d low))
  write_phase-entry z (t ∷ ts) s d (inr later) low = write_phase-entry z ts s _ later low

-- A block of threads 0 to `block_size - 1`, each of them once or more.
pub record IsBlock (block_size : ℕ) (ts : List ℕ) : Type 0 where
  pub all : (t : ℕ) → t < block_size → Occurs t ts
  pub only : (t : ℕ) → Occurs t ts → t < block_size

-- Element `b * bs + t` of `x`: with an entry of 1 no element of the block was above the threshold and
-- this one is 0; with an entry of 0 one was, and this one is as before.
abbrev pub Zeroed : (ℕ → Bool) → (len bs b t : ℕ) → (x : ℕ → ℕ) → Device → Type 0
Zeroed above len bs b t x d =
    ((d.bitmap b ≡ 1) × (above (x (b * bs + t)) ≡ false) × (d.input (b * bs + t) ≡ 0))
    ⊎ ((d.bitmap b ≡ 0)
        × (d.input (b * bs + t) ≡ x (b * bs + t))
        × ((s : ℕ) × (s < bs) × (b * bs + s < len) × (above (x (b * bs + s)) ≡ true)))

true-false : true ≡ false → ⊥
true-false h = cc

-- An element lies in one block only.
rows-differ : (b c s t n : ℕ) → s < n → t < n → b * n + s ≡ c * n + t → c ≡ b
rows-differ b c s t n low low' same =
    sym (div-add_mul c t n low') ∙ ap (λ v. v / n) (sym same) ∙ div-add_mul b s n low

module _ (above : ℕ → Bool) (order : ℕ → List ℕ) (len bs b : ℕ) where
  pub bitmap_cuda_kernel-Zeroed :
      (t : ℕ) (d : Device)
      → IsBlock bs (order b)
      → t < bs
      → b * bs + t < len
      → Zeroed above len bs b t d.input (bitmap_cuda_kernel above order len bs b d)
  unfolding bitmap_cuda_kernel
  bitmap_cuda_kernel-Zeroed t d block inside low =
      let ts = order b in
      let member = block.all t inside in
      elim (Bool-cases (test_phase above len (b * bs) ts d true)) [
        | inl e ↦ inl (
          rw e (write_phase-entry len (b * bs) b true ts t d member low),
          test_phase-none above len (b * bs) ts d true t e member low,
          rw e (write_phase-zero len (b * bs) b ts t d member low),
        )
        | inr e ↦ elim (test_phase-some above len (b * bs) ts d true e) [
          | inl never ↦ absurd (true-false never)
          | inr (s, m, low', hit) ↦ inr (
            rw e (write_phase-entry len (b * bs) b false ts t d member low),
            rw e (write_phase-same len (b * bs) b ts (b * bs + t) d),
            (s, block.only s m, low', hit),
          )
        ]
      ]

  -- Other blocks stay as they are.
  pub bitmap_cuda_kernel-other :
      (c t : ℕ) (d : Device)
      → IsBlock bs (order b)
      → t < bs
      → c ≢ b
      → ((bitmap_cuda_kernel above order len bs b d).input (c * bs + t) ≡ d.input (c * bs + t))
        × ((bitmap_cuda_kernel above order len bs b d).bitmap c ≡ d.bitmap c)
  unfolding bitmap_cuda_kernel
  bitmap_cuda_kernel-other c t d block inside other = (
    write_phase-input len (b * bs) b _ (order b) (c * bs + t) d
        (λ s m same. other (rows-differ b c s t bs (block.only s m) inside same)),
    write_phase-bitmap len (b * bs) b _ (order b) c d other,
  )
