-- ===== src/Ledger/Snapshots.antt =====
-- ledger/nomos-ledger/src/config.rs: where an epoch lies, and where its snapshots are taken.
use nomos_node.Prelude.{
  ℕ, ◌+◌, ◌-◌, ◌*◌, ◌%◌, ◌/◌, ◌%◌, ◌≤◌, ◌<◌, ◌≡◌, ap, subst, ◌↔◌, false, arith, ltb, ◌==◌,
  if◌then◌else◌, lt→ltb, nat_eq, u64_size, u32_size, sat_add64, sat_mul64, sat_sub, sat_add64-exact,
  sat_mul64-exact, div_bounds, div_unique, mul_mono, pred_mul, pred_mul, ok, panic,
}
use nomos_node.Engine.Time.{FloatOps, base_period_length, epoch_length, epoch, div64, to_epoch}
use nomos_node.Ledger.State.{LedgerError}
use nomos_node.Ledger.Config.{
  Config, config_epoch_length, nonce_snapshot, stake_distribution_snapshot, config_epoch,
}

pos_not_zero : (n : ℕ) → 0 < n → (n == 0) ≡ false
pos_not_zero n h = ground arith

module _ ⦃fl : FloatOps⦄ where
  -- A proper configuration: the period `n` is not zero, the `NonZero` fields are not, and the length of
  -- an epoch, `len`, fits 64 bits.
  pub record IsProper (c : Config) (n len : ℕ) : Type 0 where
    pub period :
        fl.floor_div c.consensus_config.security_param c.consensus_config.active_slot_coeff ≡ n
    pub period_pos : 0 < n
    pub stabilization_pos : 0 < c.epoch_config.epoch_stake_distribution_stabilization
    pub buffer_pos : 0 < c.epoch_config.epoch_period_nonce_buffer
    pub nonce_pos : 0 < c.epoch_config.epoch_period_nonce_stabilization
    pub len_eq :
        (c.epoch_config.epoch_stake_distribution_stabilization
            + c.epoch_config.epoch_period_nonce_buffer
            + c.epoch_config.epoch_period_nonce_stabilization)
          * n
        ≡ len
    pub sum_fits :
        c.epoch_config.epoch_stake_distribution_stabilization
          + c.epoch_config.epoch_period_nonce_buffer
          + c.epoch_config.epoch_period_nonce_stabilization
        < u64_size
    pub len_fits : len < u64_size

  module _ {c : Config} {n len : ℕ} (v : IsProper c n len) where
    base_period : base_period_length {E = LedgerError} c.consensus_config ≡ ok n
    unfolding base_period_length
    base_period = rw v.period (ground (arith, v.period_pos))

    epoch_length_exact : epoch_length c.epoch_config n ≡ len
    unfolding epoch_length
    epoch_length_exact =
        let a = c.epoch_config.epoch_stake_distribution_stabilization in
        let b = c.epoch_config.epoch_period_nonce_buffer in
        let d = c.epoch_config.epoch_period_nonce_stabilization in
        rw
          (
            sat_add64-exact a b (omega (arith, v.sum_fits)),
            sat_add64-exact (a + b) d v.sum_fits,
            sat_mul64-exact (a + b + d) n (omega (arith, v.len_eq, v.len_fits)),
          )
          v.len_eq

    pub len_pos : 0 < len
    len_pos =
        let total =
          c.epoch_config.epoch_stake_distribution_stabilization
          + c.epoch_config.epoch_period_nonce_buffer
          + c.epoch_config.epoch_period_nonce_stabilization in
        let p : 1 * 1 ≤ total * n =
          mul_mono 1 total 1 n (omega (arith, v.stabilization_pos)) v.period_pos in
        omega (arith, v.len_eq)

    pub config_epoch_lem :
        (slot : ℕ)
        → config_epoch {E = LedgerError} c slot
          ≡ (if ltb (slot / len) u32_size then ok (slot / len) else panic)
    unfolding config_epoch epoch div64 to_epoch
    config_epoch_lem slot = rw (base_period, epoch_length_exact) (rw (pos_not_zero len len_pos))

    pub config_epoch_length_lem : config_epoch_length {E = LedgerError} c ≡ ok len
    unfolding config_epoch_length
    config_epoch_length_lem = rw (base_period, epoch_length_exact)

    -- With a proper configuration, a slot's epoch is `e` exactly when the slot is one of the `len`
    -- slots of `e` and `e` fits 32 bits.
    pub config_epoch_bounds :
        (slot e : ℕ)
        → (config_epoch {E = LedgerError} c slot ≡ ok e)
          ↔ ((e * len ≤ slot) × (slot < (e + 1) * len) × (e < u32_size))
    config_epoch_bounds slot e =
        let pos = len_pos in
        (
          λ h.
              let q : (slot / len ≡ e) × (e < u32_size) = ground (arith, config_epoch_lem slot) in
              let b = div_bounds slot len pos in
              (subst (λ x. x * len ≤ slot) q.0 b.0, subst (λ x. slot < (x + 1) * len) q.0 b.1, q.1),
          λ h.
              let q : slot / len ≡ e = div_unique slot len e pos h.0 h.1 in
              rw (config_epoch_lem slot, q) (rw (lt→ltb e u32_size h.2)),
        )

    -- The stake of an epoch is taken at the start of the epoch before it.
    pub stake_distribution_snapshot_lem :
        (e : ℕ)
        → 0 < e
        → e < u32_size
        → (e - 1) * len < u64_size
        → stake_distribution_snapshot {E = LedgerError} c e ≡ ok ((e - 1) * len)
    unfolding stake_distribution_snapshot
    stake_distribution_snapshot_lem e pos h k =
        let w : (e + u32_size - 1) % u32_size ≡ e - 1 = omega arith in
        rw (config_epoch_length_lem, w) (ap ok (omega arith))

    -- With a proper configuration, the nonce for epoch `e` is taken after the first slot of the
    -- epoch before it and before the first slot of `e`, if that slot's number fits 64 bits and `e`
    -- is not the first epoch.
    pub nonce_snapshot_lem :
        (e : ℕ)
        → 0 < e
        → e * len < u64_size
        → (at : ℕ) × (nonce_snapshot {E = LedgerError} c e ≡ ok at)
          × ((e - 1) * len < at)
          × (at < e * len)
    unfolding nonce_snapshot
    nonce_snapshot_lem e pos k =
        let a = c.epoch_config.epoch_stake_distribution_stabilization in
        let b = c.epoch_config.epoch_period_nonce_buffer in
        let d = c.epoch_config.epoch_period_nonce_stabilization in
        let before : (e - 1) * len + len ≡ e * len = pred_mul e len pos in
        let up : 1 * 1 ≤ n * (b + a) =
          mul_mono 1 n 1 (b + a) v.period_pos (omega (arith, v.buffer_pos)) in
        let down : 1 * 1 ≤ d * n = mul_mono 1 d 1 n v.nonce_pos v.period_pos in
        let whole : (a + b) * n + d * n ≡ len = omega (arith, v.len_eq) in
        let part : n * (b + a) + d * n ≡ len = omega arith in
        let sum : b + a < u64_size = omega (arith, v.sum_fits) in
        (
          (e - 1) * len + n * (b + a),
          rw
              (
                base_period,
                config_epoch_length_lem,
                sat_add64-exact b a sum,
                sat_mul64-exact n (b + a) (omega (arith, v.len_fits)),
              )
              (rw (
                sat_mul64-exact (e - 1) len (omega arith),
                sat_add64-exact ((e - 1) * len) (n * (b + a)) (omega arith),
              )),
          omega arith,
          omega arith,
        )

    -- Under a proper configuration the snapshots' slots are computed for every epoch.
    pub snapshots_total :
        (e : ℕ)
        → (a : ℕ) × (b : ℕ) × (nonce_snapshot {E = LedgerError} c e ≡ ok a)
          × (stake_distribution_snapshot {E = LedgerError} c e ≡ ok b)
    unfolding nonce_snapshot stake_distribution_snapshot
    snapshots_total e =
        let a = c.epoch_config.epoch_stake_distribution_stabilization in
        let b = c.epoch_config.epoch_period_nonce_buffer in
        (
          sat_add64 (sat_mul64 (sat_sub e 1) len) (sat_mul64 n (sat_add64 b a)),
          (e + u32_size - 1) % u32_size * len % u64_size,
          rw (base_period, config_epoch_length_lem),
          rw config_epoch_length_lem,
        )
