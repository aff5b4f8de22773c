-- ===== src/Ledger/Epochs.antt =====
-- ledger/nomos-ledger/src/lib.rs, `LedgerState::update_epoch_state`: the epoch states follow the slot,
-- and snapshots, once taken, do not change.
use nomos_node.Prelude.{
  ℕ, ◌+◌, ◌-◌, ◌*◌, ◌/◌, ◌≤◌, ◌<◌, ◌≡◌, ap, ◌∙◌, ◌≢◌, ◌⊎◌, inl, inr, arith, ltb, ◌==◌,
  if◌then◌else◌, lt→ltb, le→ltb, lt_or_le, Bool-cases, nat_eq, u64_size, u32_size, ok, err,
}
use nomos_node.Engine.Time.{FloatOps}
use nomos_node.Merkle.{Hasher}
use nomos_node.Ledger.Config.{Config, nonce_snapshot, stake_distribution_snapshot, config_epoch}
use nomos_node.Ledger.Snapshots.{
  IsProper, config_epoch_lem, config_epoch_bounds, stake_distribution_snapshot_lem,
  nonce_snapshot_lem, snapshots_total,
}
use nomos_node.Ledger.State.{
  LedgerError, invalid_slot, EpochState, LedgerState, next_epoch, update_from_ledger, stay_in_epoch,
  enter_next_epoch, skip_epochs, update_epoch_state,
}

module _ ⦃fl : FloatOps⦄ ⦃sha : Hasher⦄ where
  -- The epoch states are those of the slot's epoch and the one after it.
  pub record FollowsSlot (c : Config) (s : LedgerState) : Type 0 where
    pub current : config_epoch {E = LedgerError} c s.slot ≡ ok s.epoch_state.epoch
    pub next : s.next_epoch_state.epoch ≡ next_epoch s.epoch_state.epoch

  -- What an epoch update leaves alone.
  pub record SameNotes (s t : LedgerState) : Type 0 where
    pub lead : t.lead_commitments ≡ s.lead_commitments
    pub spend : t.spend_commitments ≡ s.spend_commitments
    pub nullifiers : t.nullifiers ≡ s.nullifiers
    pub nonce : t.nonce ≡ s.nonce

  update_from_ledger-epoch :
      (e t : EpochState) (s : LedgerState) (c : Config)
      → update_from_ledger e s c ≡ ok t
      → (t.epoch ≡ e.epoch) × (t.total_stake ≡ e.total_stake)
  unfolding update_from_ledger
  update_from_ledger-epoch e t s c h = ground arith

  -- A block is taken in only after its parent's slot, and then the epoch states are those of its slot.
  pub update_epoch_state-FollowsSlot :
      (s t : LedgerState) (slot : ℕ) (c : Config)
      → FollowsSlot c s
      → update_epoch_state s slot c ≡ ok t
      → FollowsSlot c t × (s.slot < slot) × (t.slot ≡ slot) × SameNotes s t
  unfolding update_epoch_state stay_in_epoch enter_next_epoch skip_epochs
  update_epoch_state-FollowsSlot s t slot c f h =
      ground (arith, update_from_ledger-epoch s.next_epoch_state t.next_epoch_state s c)

  update_from_ledger_lem :
      (e : EpochState) (s : LedgerState) (c : Config) (a b : ℕ)
      → nonce_snapshot {E = LedgerError} c e.epoch ≡ ok a
      → stake_distribution_snapshot {E = LedgerError} c e.epoch ≡ ok b
      → update_from_ledger e s c
        ≡ ok (record e {
          nonce = if ltb s.slot a then s.nonce else e.nonce;
          commitments = if ltb s.slot b then s.spend_commitments else e.commitments;
        })
  unfolding update_from_ledger
  update_from_ledger_lem e s c a b p q = rw (p, q)

  module _ {c : Config} {n len : ℕ} (v : IsProper c n len) where
    -- With a proper configuration and a state whose epochs are its slot's: a slot of the same
    -- epoch leaves the epoch's state as it is, and in the snapshot for the next epoch the
    -- commitments; the nonce of that snapshot is the ledger's as long as the state's slot lies
    -- before the nonce snapshot's, and stays from there on. The next epoch fits 32 bits and its
    -- start 64.
    pub snapshots_frozen :
        (s t : LedgerState) (slot : ℕ)
        → FollowsSlot c s
        → update_epoch_state s slot c ≡ ok t
        → config_epoch {E = LedgerError} c slot ≡ ok s.epoch_state.epoch
        → s.epoch_state.epoch + 1 < u32_size
        → (s.epoch_state.epoch + 1) * len < u64_size
        → (t.epoch_state ≡ s.epoch_state)
          × (t.next_epoch_state.commitments ≡ s.next_epoch_state.commitments)
          × (at : ℕ) × (nonce_snapshot {E = LedgerError} c (s.epoch_state.epoch + 1) ≡ ok at)
          × (t.next_epoch_state.nonce
              ≡ (if ltb s.slot at then s.nonce else s.next_epoch_state.nonce))
    unfolding update_epoch_state stay_in_epoch
    snapshots_frozen s t slot f h same fits32 fits64 =
        let e = s.epoch_state.epoch in
        let next : s.next_epoch_state.epoch ≡ e + 1 = f.next ∙ (unfold next_epoch in omega arith) in
        let bounds = (config_epoch_bounds v s.slot e).0 f.current in
        let (at, snap, lo, hi) = nonce_snapshot_lem v (e + 1) (omega arith) fits64 in
        let back : e + 1 - 1 ≡ e = omega arith in
        let stake : stake_distribution_snapshot {E = LedgerError} c (e + 1) ≡ ok (e * len) =
          stake_distribution_snapshot_lem v (e + 1) (omega arith) fits32 (rw back (omega arith))
          ∙ ap (λ x. ok (x * len)) back in
        let upd =
          update_from_ledger_lem s.next_epoch_state s c at (e * len)
            (ap (nonce_snapshot c) next ∙ snap) (ap (stake_distribution_snapshot c) next ∙ stake) in
        (ground (arith, upd), ground (arith, upd), at, snap, ground (arith, upd))

    -- A slot of another epoch moves the snapshots on, or makes them anew.
    pub epoch_entered :
        (s t : LedgerState) (slot new : ℕ)
        → FollowsSlot c s
        → update_epoch_state s slot c ≡ ok t
        → config_epoch {E = LedgerError} c slot ≡ ok new
        → new ≢ s.epoch_state.epoch
        → (t.next_epoch_state ≡ record {
          epoch = next_epoch new;
          nonce = s.nonce;
          commitments = s.spend_commitments;
          total_stake = s.epoch_state.total_stake;
        })
          × (t.epoch_state ≡ (
              if new == next_epoch s.epoch_state.epoch then s.next_epoch_state else record {
                epoch = new;
                nonce = s.nonce;
                commitments = s.spend_commitments;
                total_stake = s.epoch_state.total_stake;
              }))
    unfolding update_epoch_state enter_next_epoch skip_epochs
    epoch_entered s t slot new f h there other =
        (ground (arith, f.current), ground (arith, f.current))

    update_epoch_state_lem :
        (s : LedgerState) (slot : ℕ)
        → FollowsSlot c s
        → (s.slot < slot
            → slot / len < u32_size
            → (t : LedgerState) × (update_epoch_state s slot c ≡ ok t))
          × (slot ≤ s.slot → update_epoch_state s slot c ≡ err (invalid_slot s.slot slot))
    unfolding update_epoch_state stay_in_epoch
    update_epoch_state_lem s slot f =
        let (a, b, ha, hb) = snapshots_total v s.next_epoch_state.epoch in
        let upd = update_from_ledger_lem s.next_epoch_state s c a b ha hb in
        (
          λ later fits.
              let there : config_epoch {E = LedgerError} c slot ≡ ok (slot / len) =
                config_epoch_lem v slot ∙ rw (lt→ltb (slot / len) u32_size fits) in
              elim (Bool-cases (s.epoch_state.epoch == slot / len)) [
                | inl same ↦ (
                  record s {
                    slot = slot;
                    next_epoch_state = record s.next_epoch_state {
                      nonce = if ltb s.slot a then s.nonce else s.next_epoch_state.nonce;
                      commitments =
                          if ltb s.slot b
                          then s.spend_commitments
                          else s.next_epoch_state.commitments;
                    };
                  },
                  rw (lt→ltb s.slot slot later, f.current, there) (rw same (rw upd)),
                )
                | inr other ↦ elim (Bool-cases (slot / len == next_epoch s.epoch_state.epoch)) [
                  | inl one ↦ (
                    enter_next_epoch s slot (slot / len),
                    rw (lt→ltb s.slot slot later, f.current, there) (rw (other, one)),
                  )
                  | inr more ↦ (
                    skip_epochs s slot (slot / len),
                    rw (lt→ltb s.slot slot later, f.current, there) (rw (other, more)),
                  )
                ]
              ],
          λ early. rw (le→ltb s.slot slot early),
        )

    -- With a proper configuration, a state whose epochs are its slot's, and a slot whose epoch fits 32 bits,
    -- `update_epoch_state` returns a state when the slot is later than the state's, and else the error
    -- `invalid_slot`.
    pub update_epoch_state_total :
        (s : LedgerState) (slot : ℕ)
        → FollowsSlot c s
        → slot / len < u32_size
        → ((s.slot < slot) × (t : LedgerState) × (update_epoch_state s slot c ≡ ok t))
          ⊎ ((slot ≤ s.slot) × (update_epoch_state s slot c ≡ err (invalid_slot s.slot slot)))
    update_epoch_state_total s slot f fits = elim (lt_or_le s.slot slot) [
      | inl later ↦
          let (t, run) = (update_epoch_state_lem s slot f).0 later fits in inl (later, t, run)
      | inr early ↦ inr (early, (update_epoch_state_lem s slot f).1 early)
    ]
