-- ===== src/Ledger/Config.antt =====
-- ledger/nomos-ledger/src/config.rs: epochs and the slots at which their snapshots are taken.
use nomos_node.Prelude.{
  ℕ, ◌+◌, ◌-◌, ◌*◌, ◌%◌, nat_eq, u64_size, u32_size, sat_add64, sat_mul64, sat_sub, Outcome, ok,
  ◌>>=◌,
}
use nomos_node.Engine.Time.{FloatOps, EpochConfig, base_period_length, epoch_length, epoch}
use nomos_node.Engine.Time

module _ ⦃fl : FloatOps⦄ where
  pub record Config : Type 0 where
    pub epoch_config : EpochConfig
    pub consensus_config : Time.Config

  unfoldable pub config_epoch_length {ℓ} : {E : Type ℓ} → Config → Outcome E ℕ
  config_epoch_length self = do
    n ← base_period_length self.consensus_config
    ok (epoch_length self.epoch_config n)

  unfoldable pub nonce_snapshot {ℓ} : {E : Type ℓ} → Config → ℕ → Outcome E ℕ
  nonce_snapshot self epoch = do
    n ← base_period_length self.consensus_config
    let offset = sat_mul64 n (
        sat_add64 self.epoch_config.epoch_period_nonce_buffer
          self.epoch_config.epoch_stake_distribution_stabilization)
    len ← config_epoch_length self
    let base = sat_mul64 (sat_sub epoch 1) len
    ok (sat_add64 base offset)

  -- `u64::from(u32::from(epoch) - 1) * self.epoch_length()`, where both operations wrap.
  unfoldable pub stake_distribution_snapshot {ℓ} : {E : Type ℓ} → Config → ℕ → Outcome E ℕ
  stake_distribution_snapshot self epoch = do
    len ← config_epoch_length self
    ok ((epoch + u32_size - 1) % u32_size * len % u64_size)

  unfoldable pub config_epoch {ℓ} : {E : Type ℓ} → Config → ℕ → Outcome E ℕ
  config_epoch self slot = do
    n ← base_period_length self.consensus_config
    epoch self.epoch_config slot n
