-- ===== src/Base/Arrays.antt =====
-- C arrays as functions of the index, and counted loops over them.
use Prim.Native.Nat.{ℕ, zero, suc, ◌+◌}
use omnireduce.Base.Tests.{◌==◌, if◌then◌else◌}

-- a[i] = v
abbrev pub update {ℓ} : {A : Type ℓ} → (ℕ → A) → ℕ → A → ℕ → A
update f i v j = if j == i then v else f j

-- A counted loop: `visit k` for k from `first` on, `count` times.
unfoldable pub loop_over {ℓ} : {S : Type ℓ} → (first count : ℕ) → (visit : ℕ → S → S) → S → S
loop_over first zero visit state = state
loop_over first (suc count) visit state = loop_over (first + 1) count visit (visit first state)
