-- ===== src/Leadership.antt =====
-- nomos-core/proof_statements/src/leadership.rs: the public inputs of a leader proof, in 256-bit
-- integers whose checked operations are unwrapped, so that an overflow panics.
pub mod Overflow
mod Samples
use nomos_node.Prelude.{
  ℕ, zero, suc, ◌+◌, ◌-◌, ◌*◌, ◌/◌, ◌%◌, ◌^◌, ◌≤◌, ◌<◌, ◌≡◌, refl, sym, ap, ap₂, subst, ◌∙◌, ◌≢◌,
  ◌↔◌, ◌⊎◌, inl, inr, Bool, true, false, not, ◌&&◌, ◌||◌, Option, none, some, List, [], ◌∷◌, ◌++◌,
  map, arith, ltb, leb, ◌==◌, if◌then◌else◌, ltb→lt, ltb→le, lt→ltb, le→ltb, leb→le, leb→lt, ==_iff,
  Bool-cases, Option-cases, Eq, nat_eq, length, length-append, All, In, All-In, Never, u64_size,
  u32_size, add64, sub64, sat_add64, sat_mul64, sat_sub, add64-exact, sub64-exact, sat_add64-exact,
  sat_mul64-exact, Outcome, ok, err, panic, timeout, ◌>>=◌, ◌>>◌, ok_or, unwrap, guard, assert,
  >>=-eq-ok,
}
use nomos_node.Engine.Time.{FloatOps}

abbrev pub u256_size : ℕ
u256_size = 2 ^ 256

-- `a.checked_mul(&b).unwrap()`, `checked_sub`, `checked_div`
unfoldable pub mul256 {ℓ} : {E : Type ℓ} → ℕ → ℕ → Outcome E ℕ
mul256 a b = if ltb (a * b) u256_size then ok (a * b) else panic

unfoldable pub sub256 {ℓ} : {E : Type ℓ} → ℕ → ℕ → Outcome E ℕ
sub256 a b = if leb b a then ok (a - b) else panic

unfoldable pub div256 {ℓ} : {E : Type ℓ} → ℕ → ℕ → Outcome E ℕ
div256 a b = if b == 0 then panic else ok (a / b)

pub record LeaderPublic : Type 0 where
  pub cm_root : ℕ
  pub epoch_nonce : ℕ
  pub slot : ℕ
  pub scaled_phi_approx : ℕ × ℕ
  pub nullifier : ℕ
  pub evolved_commitment : ℕ

-- The two coefficients, from the total stake and the scaled logarithm.
unfoldable pub phi_coefficients {ℓ} : {E : Type ℓ} → ℕ → ℕ → Outcome E (ℕ × ℕ)
phi_coefficients total_stake neg_f_ln = do
  total_stake_sq ← mul256 total_stake total_stake
  double_total_stake_sq ← mul256 total_stake_sq 2
  let precision = u64_size - 1
  order_div_precision ← div256 (u256_size - 1) precision
  order_div_precision_sq ← div256 order_div_precision precision
  neg_f_ln_sq ← mul256 neg_f_ln neg_f_ln
  neg_f_ln_order ← mul256 order_div_precision neg_f_ln
  t0 ← div256 neg_f_ln_order total_stake
  m ← mul256 order_div_precision_sq neg_f_ln_sq
  t1 ← div256 m double_total_stake_sq
  ok (t0, t1)

module _ ⦃fl : FloatOps⦄ where
  -- `LeaderPublic::new`
  unfoldable pub leader_public {ℓ} :
      {E : Type ℓ} → ℕ → ℕ → ℕ → fl.Float → ℕ → ℕ → ℕ → Outcome E LeaderPublic
  leader_public cm_root epoch_nonce slot active_slot_coefficient total_stake nullifier
        evolved_commitment =
      do
        phi ← phi_coefficients total_stake (fl.neg_ln_scaled active_slot_coefficient)
        ok (record {
          cm_root = cm_root;
          epoch_nonce = epoch_nonce;
          slot = slot;
          scaled_phi_approx = phi;
          nullifier = nullifier;
          evolved_commitment = evolved_commitment;
        })

unfoldable pub phi_approx {ℓ} : {E : Type ℓ} → ℕ → ℕ × ℕ → Outcome E ℕ
phi_approx stake (t0, t1) = do m ← mul256 t1 stake; d ← sub256 t0 m; mul256 stake d

-- `check_winning`; the ticket is a SHA-256 digest of the note's secrets.
unfoldable pub check_winning {ℓ} : {E : Type ℓ} → LeaderPublic → ℕ → ℕ → Outcome E Bool
check_winning self value ticket = do
  threshold ← phi_approx value self.scaled_phi_approx
  ok (ltb ticket threshold)
