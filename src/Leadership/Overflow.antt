-- ===== src/Leadership/Overflow.antt =====
-- nomos-core/proof_statements/src/leadership.rs: where the 256-bit arithmetic can panic.
use nomos_node.Prelude.{
  ℕ, ◌-◌, ◌*◌, ◌/◌, ◌^◌, ◌≤◌, ◌<◌, ◌≡◌, refl, arith, lt→ltb, nat_eq, u64_size, ok, panic,
}
use nomos_node.Leadership.{u256_size, mul256, sub256, div256, phi_coefficients, phi_approx}

module _ {ℓ} {E : Type ℓ} where
  mul256-fits : (a b : ℕ) → a * b < u256_size → mul256 {E = E} a b ≡ ok (a * b)
  unfolding mul256
  mul256-fits a b h = rw (lt→ltb (a * b) u256_size h)

  div256-nonzero : (a b : ℕ) → 0 < b → div256 {E = E} a b ≡ ok (a / b)
  unfolding div256
  div256-nonzero a b h = ground arith

  div256-zero : (a : ℕ) → div256 {E = E} a 0 ≡ panic
  unfolding div256
  div256-zero a = refl

  sub256-fits : (a b : ℕ) → b ≤ a → sub256 {E = E} a b ≡ ok (a - b)
  unfolding sub256
  sub256-fits a b h = ground arith

  phi_approx-fits :
      (value t0 t1 : ℕ)
      → t1 * value ≤ t0
      → t0 < u256_size
      → value * t0 < u256_size
      → phi_approx {E = E} value (t0, t1) ≡ ok (value * (t0 - t1 * value))
  unfolding phi_approx
  phi_approx-fits value t0 t1 h b c =
      let d : value * (t0 - t1 * value) ≤ value * t0 = grind arith in
      rw (
        mul256-fits t1 value (omega arith),
        sub256-fits t0 (t1 * value) h,
        mul256-fits value (t0 - t1 * value) (omega arith),
      )

-- The scale 2^256 / 2^64 and the scale 2^256 / 2^128, rounded down as the code does.
abbrev pub scale : ℕ
scale = (2 ^ 256 - 1) / (2 ^ 64 - 1)

abbrev pub scale_sq : ℕ
scale_sq = scale / (2 ^ 64 - 1)

mul_bound : (a b m n : ℕ) → a ≤ m → b ≤ n → a * b ≤ m * n
mul_bound a b m n h k = grind arith

-- With stake in the network the coefficients are computed with no overflow.
pub phi_coefficients_lem {ℓ} :
    {E : Type ℓ} (stake ln : ℕ)
    → 0 < stake
    → stake < u64_size
    → ln < u64_size
    → phi_coefficients {E = E} stake ln
      ≡ ok (scale * ln / stake, scale_sq * (ln * ln) / (stake * stake * 2))
unfolding phi_coefficients
phi_coefficients_lem {E} stake ln pos s l =
    let max : ℕ = 2 ^ 64 - 1 in
    let sq : stake * stake ≤ max * max =
      mul_bound stake stake max max (omega arith) (omega arith) in
    let lsq : ln * ln ≤ max * max = mul_bound ln ln max max (omega arith) (omega arith) in
    let ps : 0 < stake * stake = grind arith in
    rw
      (
        mul256-fits stake stake (omega arith),
        mul256-fits (stake * stake) 2 (omega arith),
        mul256-fits ln ln (omega arith),
      )
      (rw (
        div256-nonzero (2 ^ 256 - 1) max (omega arith),
        div256-nonzero scale max (omega arith),
        mul256-fits scale ln (omega arith),
        div256-nonzero (scale * ln) stake pos,
        mul256-fits scale_sq (ln * ln) (omega arith),
        div256-nonzero (scale_sq * (ln * ln)) (stake * stake * 2) (omega arith),
      ))

-- Without stake the first division panics.
pub phi_coefficients_zero {ℓ} :
    {E : Type ℓ} (ln : ℕ) → ln < u64_size → phi_coefficients {E = E} 0 ln ≡ panic
unfolding phi_coefficients
phi_coefficients_zero {E} ln l =
    let max : ℕ = 2 ^ 64 - 1 in
    let lsq : ln * ln ≤ max * max = mul_bound ln ln max max (omega arith) (omega arith) in
    rw (mul256-fits ln ln (omega arith)) (
      rw (
        div256-nonzero (2 ^ 256 - 1) max (omega arith),
        div256-nonzero scale max (omega arith),
        mul256-fits scale ln (omega arith),
        mul256-fits 0 0 (omega arith),
        mul256-fits 0 2 (omega arith),
        div256-zero (scale * ln),
      ))

div_mul_le : (x b : ℕ) → x / b * b ≤ x
div_mul_le x b = grind arith

le_div : (a b x : ℕ) → 0 < b → a * b ≤ x → a ≤ x / b
le_div a b x pos h = grind arith

-- The second coefficient, times the stake, is at most the first one.
t1_le_t0 :
    (stake ln : ℕ)
    → 0 < stake
    → ln < u64_size
    → scale_sq * (ln * ln) / (stake * stake * 2) * stake ≤ scale * ln / stake
t1_le_t0 stake ln pos l =
    let max : ℕ = 2 ^ 64 - 1 in
    let t1 : ℕ = scale_sq * (ln * ln) / (stake * stake * 2) in
    let a : t1 * (stake * stake * 2) ≤ scale_sq * (ln * ln) =
      div_mul_le (scale_sq * (ln * ln)) (stake * stake * 2) in
    let b : scale_sq * ln ≤ scale = omega arith in
    let c : scale_sq * ln * ln ≤ scale * ln =
      mul_bound (scale_sq * ln) ln scale ln b (omega arith) in
    le_div (t1 * stake) stake (scale * ln) pos (omega arith)

-- For a total stake of 64 bits that is not zero, a scaled logarithm of 64 bits and a note worth at
-- most the total stake, the coefficients of `LeaderPublic::new` and the threshold of
-- `check_winning` are computed with no overflow and no panic, and the threshold is value * (t0 -
-- t1 * value).
pub phi_approx_total {ℓ} :
    {E : Type ℓ} (value stake ln : ℕ)
    → 0 < stake
    → stake < u64_size
    → ln < u64_size
    → value ≤ stake
    → (t0 : ℕ) × (t1 : ℕ) × (phi_coefficients {E = E} stake ln ≡ ok (t0, t1))
      × (phi_approx {E = E} value (t0, t1) ≡ ok (value * (t0 - t1 * value)))
phi_approx_total {E} value stake ln pos s l v =
    let t0 : ℕ = scale * ln / stake in
    let t1 : ℕ = scale_sq * (ln * ln) / (stake * stake * 2) in
    let below : t0 * stake ≤ scale * ln = div_mul_le (scale * ln) stake in
    let a : t1 * value ≤ t1 * stake = grind arith in
    let b : value * t0 ≤ stake * t0 = grind arith in
    let c : t0 ≤ t0 * stake = grind arith in
    (
      t0,
      t1,
      phi_coefficients_lem stake ln pos s l,
      phi_approx-fits value t0 t1 (omega (arith, t1_le_t0 stake ln pos l)) (omega arith)
          (omega arith),
    )
