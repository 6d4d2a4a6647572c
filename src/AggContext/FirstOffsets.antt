-- ===== src/AggContext/FirstOffsets.antt =====
-- The row of first offsets that the aggregator prepares for a thread: one block for each of its slots.
use omnireduce.Base.{
  ℕ, zero, suc, ◌+◌, ◌*◌, ◌/◌, ◌%◌, ◌^◌, ◌≤◌, ◌<◌, ◌≡◌, ◌≢◌, refl, ◌∙◌, arith, u32, true, false,
  ◌==◌, ==_iff, div-mul_self, ℕ_discrete, mul_mono,
}
use omnireduce.AggContext.{first_offsets}

-- Numbers closer than `n` have different remainders.
mod-window : (a b n : ℕ) → a < b → b < a + n → a % n ≢ b % n
mod-window a b n low high = grind arith

next : (q c n : ℕ) → q + (c + 1) + n ≡ q + c + suc n
next q c n = omega arith

-- Block `q + c` has its own slot.
slot-eq :
    (bs ns q c : ℕ)
    → 0 < bs
    → (q + c) * bs < 2 ^ 32
    → u32 (q * bs + c * bs) / bs % ns ≡ (q + c) % ns
slot-eq bs ns q c bs_pos small =
    let e : u32 (q * bs + c * bs) ≡ (q + c) * bs = omega arith in
    rw (e, div-mul_self (q + c) bs bs_pos) refl

module _ (bs ns q : ℕ) (bs_pos : 0 < bs) where
  first_offsets-outside :
      (slot c n : ℕ) (row : ℕ → ℕ)
      → (q + c + n) * bs ≤ 2 ^ 32
      → ((d : ℕ) → c ≤ d → d < c + n → slot ≢ (q + d) % ns)
      → first_offsets bs ns (q * bs) c n row slot ≡ row slot
  unfolding first_offsets
  first_offsets-outside slot c zero row small away = refl
  first_offsets-outside slot c (suc n) row small away =
      let room : (q + c + 1) * bs ≤ (q + c + suc n) * bs =
        mul_mono (q + c + 1) (q + c + suc n) bs (omega arith) in
      let fits : (q + c) * bs < 2 ^ 32 = omega arith in
      let other : slot ≢ (q + c) % ns = away c (omega arith) (omega arith) in
      let miss : (slot == (q + c) % ns) ≡ false = ground arith in
      let shift : (q + (c + 1) + n) * bs ≤ 2 ^ 32 = rw (next q c n) small in
      first_offsets-outside slot (c + 1) n _ shift
        (λ d low high. away d (omega arith) (omega arith))
      ∙ rw (slot-eq bs ns q c bs_pos fits, miss) refl

  pub first_offsets-at :
      (c n d : ℕ) (row : ℕ → ℕ)
      → n ≤ ns
      → (q + c + n) * bs ≤ 2 ^ 32
      → c ≤ d
      → d < c + n
      → first_offsets bs ns (q * bs) c n row ((q + d) % ns) ≡ q * bs + d * bs
  unfolding first_offsets
  first_offsets-at c zero d row few small low high = absurd (omega arith)
  first_offsets-at c (suc n) d row few small low high =
      let room : (q + c + 1) * bs ≤ (q + c + suc n) * bs =
        mul_mono (q + c + 1) (q + c + suc n) bs (omega arith) in
      let fits : (q + c) * bs < 2 ^ 32 = omega arith in
      let shift : (q + (c + 1) + n) * bs ≤ 2 ^ 32 = rw (next q c n) small in
      elim (ℕ_discrete c d) [
        | yes e ↦
            let whole : u32 (q * bs + c * bs) ≡ q * bs + c * bs = omega arith in
            let hit : ((q + c) % ns == (q + c) % ns) ≡ true = (==_iff _ _).1 refl in
            rw (← e) (
              first_offsets-outside ((q + c) % ns) (c + 1) n _ shift
                (λ d' low' high'. mod-window (q + c) (q + d') ns (omega arith) (omega arith))
              ∙ rw (slot-eq bs ns q c bs_pos fits, hit) whole)
        | no e ↦ first_offsets-at (c + 1) n d _ (omega arith) shift (omega arith) (omega arith)
      ]
