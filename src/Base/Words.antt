-- ===== src/Base/Words.antt =====
-- uint32_t and int32_t arithmetic on native numbers, with the wrap-around written out.
use Prim.Native.Nat.{ℕ, suc, ◌+◌, ◌-◌, ◌*◌, ◌/◌, ◌%◌, ◌^◌, ◌≤◌, ◌<◌}
use mathlib.Core.Path.{◌≡◌}
use mathlib.Core.Logic.{◌≢◌}
use native.Mathlib.Omega.{arith}

-- The range of uint32_t; UINT32_MAX is one less.
abbrev pub u32_mod : ℕ
u32_mod = 2 ^ 32

-- The value of a sum or a product of uint32_t.
abbrev pub u32 : ℕ → ℕ
u32 n = n % 2 ^ 32

-- The value of a difference of uint32_t.
abbrev pub sub32 : ℕ → ℕ → ℕ
sub32 a b = (a + 2 ^ 32 - b % 2 ^ 32) % 2 ^ 32

pub u32_of_lt : (n : ℕ) → n < 2 ^ 32 → u32 n ≡ n
u32_of_lt n h = omega arith

pub sub32_of_le : (a b : ℕ) → b ≤ a → a < 2 ^ 32 → sub32 a b ≡ a - b
sub32_of_le a b h k = omega arith

-- Quotients and remainders by a variable.
pub div-mul_self : (a b : ℕ) → 0 < b → a * b / b ≡ a
div-mul_self a b h = grind arith

pub div-add_mul : (q r b : ℕ) → r < b → (q * b + r) / b ≡ q
div-add_mul q r b h = grind arith

pub mod-add_mul : (q r b : ℕ) → r < b → (q * b + r) % b ≡ r
mod-add_mul q r b h = grind arith

pub div-mul-le : (a b : ℕ) → 0 < b → a / b * b ≤ a
div-mul-le a b h = grind arith

pub lt-div-mul : (a b : ℕ) → 0 < b → a < a / b * b + b
lt-div-mul a b h = grind arith

pub mul_mono : (a b c : ℕ) → a ≤ b → a * c ≤ b * c
mul_mono a b c h = grind arith

pub le-div : (a b c : ℕ) → 0 < c → a * c ≤ b → a ≤ b / c
le-div a b c pos h = grind arith

pub div-add-mod : (a b : ℕ) → 0 < b → a / b * b + a % b ≡ a
div-add-mod a b h = grind arith

pub div-le_self : (a b : ℕ) → 0 < b → a / b ≤ a
div-le_self a b h = grind arith

-- One row more.
pub sub-mul_step : (a b q : ℕ) → b < a → (a - suc b) * q + q ≡ (a - b) * q
sub-mul_step a b q h = let e : a - b ≡ a - suc b + 1 = omega arith in rw e (omega arith)

pub mod-mul_self : (a b : ℕ) → 0 < b → a * b % b ≡ 0
mod-mul_self a b h = grind arith

pub mod_succ-ne : (a n : ℕ) → a < n → 2 ≤ n → (a + 1) % n ≢ a
mod_succ-ne a n h k = grind arith

pub mul-pos : (a b : ℕ) → 0 < a → 0 < b → 0 < a * b
mul-pos a b h k = grind arith

pub lt-of-mul : (a b c : ℕ) → a * c < b * c → a < b
lt-of-mul a b c h = grind arith
