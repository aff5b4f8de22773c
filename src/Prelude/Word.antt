-- ===== src/Prelude/Word.antt =====
-- Rust's unsigned integers: the release build's wrapping operations and the saturating ones.
use Prim.Native.Nat.{ℕ, zero, suc, ◌+◌, ◌-◌, ◌*◌, ◌/◌, ◌%◌, ◌^◌, ◌≤◌, ◌<◌, min}
use mathlib.Core.Path.{◌≡◌}
use native.Mathlib.Omega.{arith}

abbrev pub u64_size : ℕ
u64_size = 2 ^ 64

abbrev pub u32_size : ℕ
u32_size = 2 ^ 32

-- `a + b` and `a - b` on `u64`; also `wrapping_add` and `wrapping_sub`.
unfoldable pub add64 : ℕ → ℕ → ℕ
add64 a b = (a + b) % u64_size

unfoldable pub sub64 : ℕ → ℕ → ℕ
sub64 a b = (a + u64_size - b) % u64_size

-- `u64::saturating_add`, `u64::saturating_mul` and `saturating_sub`
unfoldable pub sat_add64 : ℕ → ℕ → ℕ
sat_add64 a b = min (a + b) (u64_size - 1)

unfoldable pub sat_mul64 : ℕ → ℕ → ℕ
sat_mul64 a b = min (a * b) (u64_size - 1)

abbrev pub sat_sub : ℕ → ℕ → ℕ
sat_sub a b = a - b

pub add64-exact : (a b : ℕ) → a + b < u64_size → add64 a b ≡ a + b
unfolding add64
add64-exact a b h = omega arith

pub sub64-exact : (a b : ℕ) → a < u64_size → b ≤ a → sub64 a b ≡ a - b
unfolding sub64
sub64-exact a b h k = omega arith

pub sat_add64-exact : (a b : ℕ) → a + b < u64_size → sat_add64 a b ≡ a + b
unfolding sat_add64
sat_add64-exact a b h = omega arith

pub sat_mul64-exact : (a b : ℕ) → a * b < u64_size → sat_mul64 a b ≡ a * b
unfolding sat_mul64
sat_mul64-exact a b h = omega arith

-- Division, by its two bounds.
pub div_bounds : (a b : ℕ) → 0 < b → (a / b * b ≤ a) × (a < (a / b + 1) * b)
div_bounds a b h = (grind arith, grind arith)

pub div_unique : (a b q : ℕ) → 0 < b → q * b ≤ a → a < (q + 1) * b → a / b ≡ q
div_unique a b q h lo hi = grind arith

pub mul_mono : (a b c d : ℕ) → a ≤ b → c ≤ d → a * c ≤ b * d
mul_mono a b c d h k = grind arith

pub pred_mul : (e n : ℕ) → 0 < e → (e - 1) * n + n ≡ e * n
pred_mul zero n h = absurd (omega arith)
pred_mul (suc e) n h = let s : suc e - 1 ≡ e = omega arith in rw s (omega arith)
