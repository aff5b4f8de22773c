-- ===== src/Engine/Time.antt =====
-- consensus/cryptarchia-engine/src/time.rs and config.rs. `Slot(u64)` and `Epoch(u32)` are the
-- numbers that they wrap; a `NonZero` is its number, and `IsValid` states its range.
use nomos_node.Prelude.{
  ℕ, ◌*◌, ◌/◌, ◌%◌, Bool, Outcome, ok, panic, ◌>>=◌, ◌>>◌, assert, ltb, leb, ◌==◌, if◌then◌else◌,
  sat_add64, sat_mul64, add64, u32_size, u64_size,
}

-- What the code takes from `f64`, where `f` is a coefficient: `(f64::from(k) / f).floor() as u64`, and
-- `((-f64::ln(1f64 - f)) * (u64::MAX as f64)) as u64`.
pub record FloatOps : Type 1 where
  pub Float : Type 0
  pub floor_div : ℕ → Float → ℕ
  pub neg_ln_scaled : Float → ℕ

module _ ⦃fl : FloatOps⦄ where
  pub record Config : Type 0 where
    pub security_param : ℕ
    pub active_slot_coeff : fl.Float

  -- `NonZero::new(..).expect(..)`
  abbrev pub non_zero {ℓ} : {E : Type ℓ} → ℕ → Outcome E ℕ
  non_zero n = if n == 0 then panic else ok n

  unfoldable pub base_period_length {ℓ} : {E : Type ℓ} → Config → Outcome E ℕ
  base_period_length c = non_zero (fl.floor_div c.security_param c.active_slot_coeff)

  -- The number of slots in which at least k blocks are expected.
  unfoldable pub s {ℓ} : {E : Type ℓ} → Config → Outcome E ℕ
  s c = do n ← base_period_length c; ok (sat_mul64 n 3)

pub record EpochConfig : Type 0 where
  pub epoch_stake_distribution_stabilization : ℕ
  pub epoch_period_nonce_buffer : ℕ
  pub epoch_period_nonce_stabilization : ℕ

unfoldable pub epoch_length : EpochConfig → ℕ → ℕ
epoch_length c base_period_length =
    sat_mul64
      (sat_add64 (sat_add64 c.epoch_stake_distribution_stabilization c.epoch_period_nonce_buffer)
        c.epoch_period_nonce_stabilization)
      base_period_length

-- `u64 / u64` panics on a zero divisor.
unfoldable pub div64 {ℓ} : {E : Type ℓ} → ℕ → ℕ → Outcome E ℕ
div64 a b = if b == 0 then panic else ok (a / b)

-- `u64::try_into::<u32>().expect(..)`
unfoldable pub to_epoch {ℓ} : {E : Type ℓ} → ℕ → Outcome E ℕ
to_epoch n = if ltb n u32_size then ok n else panic

unfoldable pub epoch {ℓ} : {E : Type ℓ} → EpochConfig → ℕ → ℕ → Outcome E ℕ
epoch c slot base_period_length = do e ← div64 slot (epoch_length c base_period_length); to_epoch e

-- What the code reads of `offset_date_time - chain_start_time`, a `time::Duration`.
pub record SinceStart : Type 0 where
  pub is_negative : Bool
  pub whole_seconds : ℕ

abbrev pub nanos : ℕ
nanos = 1_000_000_000

-- `Slot::from_offset_and_config`. A `Duration` is its nanoseconds; `as_secs` rounds down.
unfoldable pub from_offset_and_config {ℓ} : {E : Type ℓ} → SinceStart → ℕ → Outcome E ℕ
from_offset_and_config since slot_duration =
    if since.is_negative then ok 0 else div64 since.whole_seconds (slot_duration / nanos)

-- `Duration * u32` panics when the seconds of the product do not fit 64 bits.
unfoldable pub times_duration {ℓ} : {E : Type ℓ} → ℕ → ℕ → Outcome E ℕ
times_duration duration n = do assert (ltb (duration * n / nanos) u64_size); ok (duration * n)

-- `SlotTimer::slot_interval`: the start of the next slot, in nanoseconds after the chain's start. The
-- slot's number is cut to 32 bits (`as u32`). `OffsetDateTime + Duration` panics beyond the latest date that
-- an `OffsetDateTime` can be: `latest` is that date, in nanoseconds after the chain's start.
unfoldable pub next_slot_start {ℓ} : {E : Type ℓ} → ℕ → SinceStart → ℕ → Outcome E ℕ
next_slot_start latest since slot_duration = do
  current ← from_offset_and_config since slot_duration
  offset ← times_duration slot_duration (add64 current 1 % u32_size)
  assert (leb offset latest)
  ok offset
