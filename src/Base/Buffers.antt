-- ===== src/Base/Buffers.antt =====
-- Buffers of 32-bit words, addressed in bytes from the start of the buffer; every access of the
-- program is at a multiple of 4.
use Prim.Native.Nat.{ℕ, zero, suc, ◌+◌, ◌*◌, ◌≤◌, ◌<◌}
use mathlib.Core.Path.{◌≡◌, refl}
use mathlib.Core.Logic.{◌⊎◌}
use native.Mathlib.Decide.{ℕ_discrete}
use native.Mathlib.Omega.{arith}
use omnireduce.Base.Arrays.{update}

abbrev pub Memory : Type 0
Memory = ℕ → ℕ

-- `a` lies outside the `n` words from `start`.
abbrev pub Outside : ℕ → ℕ → ℕ → Type 0
Outside start n a = (a < start) ⊎ (start + 4 * n ≤ a)

-- The `n` words from `p` and those from `q` have none in common.
abbrev pub Apart : ℕ → ℕ → ℕ → Type 0
Apart p q n = (p + 4 * n ≤ q) ⊎ (q + 4 * n ≤ p)

-- memcpy of `n` words of one buffer to another, or within one where the ranges are apart.
unfoldable pub copy_words : ℕ → ℕ → ℕ → Memory → Memory → Memory
copy_words zero dst src from to = to
copy_words (suc n) dst src from to =
    update (copy_words n dst src from to) (dst + 4 * n) (from (src + 4 * n))

-- memset of `n` words to 0.
pub clear_words : ℕ → ℕ → Memory → Memory
clear_words zero dst m = m
clear_words (suc n) dst m = update (clear_words n dst m) (dst + 4 * n) 0

-- for (j = 0; j < n; j++) dst[j] += src[j];
unfoldable pub add_words : (ℕ → ℕ → ℕ) → ℕ → ℕ → ℕ → Memory → Memory
add_words add zero dst src m = m
add_words add (suc n) dst src m =
    let before = add_words add n dst src m in
    update before (dst + 4 * n) (add (before (dst + 4 * n)) (before (src + 4 * n)))

pub copy_words-Outside :
    (n dst src : ℕ) (from to : Memory) (a : ℕ)
    → Outside dst n a
    → copy_words n dst src from to a ≡ to a
unfolding copy_words
copy_words-Outside zero dst src from to a h = refl
copy_words-Outside (suc n) dst src from to a h =
    ground (arith, copy_words-Outside n dst src from to a)

pub copy_words-inside :
    (n dst src : ℕ) (from to : Memory) (j : ℕ)
    → j < n
    → copy_words n dst src from to (dst + 4 * j) ≡ from (src + 4 * j)
unfolding copy_words
copy_words-inside zero dst src from to j h = absurd (omega arith)
copy_words-inside (suc n) dst src from to j h = elim (ℕ_discrete j n) [
  | yes e ↦ ground arith
  | no ne ↦ ground (arith, copy_words-inside n dst src from to j)
]

pub clear_words-Outside :
    (n dst : ℕ) (m : Memory) (a : ℕ) → Outside dst n a → clear_words n dst m a ≡ m a
unfolding clear_words
clear_words-Outside zero dst m a h = refl
clear_words-Outside (suc n) dst m a h = ground (arith, clear_words-Outside n dst m a)

pub clear_words-inside :
    (n dst : ℕ) (m : Memory) (j : ℕ) → j < n → clear_words n dst m (dst + 4 * j) ≡ 0
unfolding clear_words
clear_words-inside zero dst m j h = absurd (omega arith)
clear_words-inside (suc n) dst m j h = elim (ℕ_discrete j n) [
  | yes e ↦ ground arith
  | no ne ↦ ground (arith, clear_words-inside n dst m j)
]

pub add_words-Outside :
    (add : ℕ → ℕ → ℕ) (n dst src : ℕ) (m : Memory) (a : ℕ)
    → Outside dst n a
    → add_words add n dst src m a ≡ m a
unfolding add_words
add_words-Outside add zero dst src m a h = refl
add_words-Outside add (suc n) dst src m a h = ground (arith, add_words-Outside add n dst src m a)

pub add_words-inside :
    (add : ℕ → ℕ → ℕ) (n dst src : ℕ) (m : Memory)
    → Apart dst src n
    → (j : ℕ) → j < n
    → add_words add n dst src m (dst + 4 * j) ≡ add (m (dst + 4 * j)) (m (src + 4 * j))
unfolding add_words
add_words-inside add zero dst src m apart j h = absurd (omega arith)
add_words-inside add (suc n) dst src m apart j h = elim (ℕ_discrete j n) [
  | yes e ↦ ground (
    arith,
    add_words-Outside add n dst src m (dst + 4 * n),
    add_words-Outside add n dst src m (src + 4 * n),
  )
  | no ne ↦ ground (arith, add_words-inside add n dst src m (omega arith) j)
]
