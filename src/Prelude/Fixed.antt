-- ===== src/Prelude/Fixed.antt =====
-- `U57F7`, by its bits: 128 of them to one. Operations wrap as in a release build.
use Prim.Native.Nat.{ℕ, ◌+◌, ◌-◌, ◌*◌, ◌/◌, ◌%◌, ◌≤◌}
use native.Mathlib.Omega.{arith}
use nomos_node.Prelude.Word.{u64_size, mul_mono}

-- `U57F7::ONE`
abbrev pub one : ℕ
one = 128

unfoldable pub fixed_add : ℕ → ℕ → ℕ
fixed_add a b = (a + b) % u64_size

unfoldable pub fixed_sub : ℕ → ℕ → ℕ
fixed_sub a b = (a + u64_size - b) % u64_size

unfoldable pub fixed_mul : ℕ → ℕ → ℕ
fixed_mul a b = a * b / one % u64_size

pub fixed_mul-le : (a b : ℕ) → b ≤ one → fixed_mul a b ≤ a
unfolding fixed_mul
fixed_mul-le a b h = let m = mul_mono a a b 128 (omega arith) h in omega arith

pub fixed_add-le : (a b : ℕ) → fixed_add a b ≤ a + b
unfolding fixed_add
fixed_add-le a b = omega arith
