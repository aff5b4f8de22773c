-- ===== src/Ledger/State.antt =====
-- ledger/nomos-ledger/src/lib.rs, `LedgerState` and `EpochState`, and leader_proof.rs. Nullifiers and
-- block ids are numbers.
use nomos_node.Prelude.{
  ℕ, ◌+◌, ◌%◌, Bool, not, ◌||◌, List, [], ◌∷◌, ltb, ◌==◌, if◌then◌else◌, nat_eq, u32_size, Outcome,
  ok, ◌>>=◌, ◌>>◌, guard, assert,
}
use nomos_node.Prelude.Map.{contains, add}
use nomos_node.Engine.Time.{FloatOps}
use nomos_node.Merkle.{Hasher}
use nomos_node.Leadership.{LeaderPublic, leader_public}
use nomos_node.Ledger.Config.{Config, nonce_snapshot, stake_distribution_snapshot, config_epoch}
use nomos_node.Ledger.NoteTree.{NoteTree, empty_tree, insert, is_valid_root, from_iter}

pub data LedgerError : Type 0 where
  double_spend : ℕ → LedgerError
  invalid_slot : ℕ → ℕ → LedgerError
  parent_not_found : ℕ → LedgerError
  orphan_missing : ℕ → LedgerError
  invalid_proof : LedgerError
  invalid_root : LedgerError

-- The third-party parts of the ledger: the digest behind the epoch nonce, Blake2b over "epoch-nonce",
-- the nonce, the nullifier and the slot; and the bytes of a commitment, which the proof statement takes.
pub record Crypto ⦃sha : Hasher⦄ : Type 0 where
  pub nonce_digest : ℕ → ℕ → ℕ → ℕ
  pub as_bytes : sha.Data → ℕ

-- `epoch + 1` on `u32`
unfoldable pub next_epoch : ℕ → ℕ
next_epoch e = (e + 1) % u32_size

module _ ⦃fl : FloatOps⦄ ⦃sha : Hasher⦄ where
  -- The trait `LeaderProof`: what the ledger asks of a proof.
  pub record LeaderProof : Type 0 where
    pub verify : LeaderPublic → Bool
    pub nullifier : ℕ
    pub evolved_commitment : sha.Data
    pub merke_root : ℕ

  pub record OrphanProof : Type 0 where
    pub nullifier : ℕ
    pub commitment : sha.Data
    pub cm_root : ℕ

  unfoldable pub to_orphan_proof : LeaderProof → OrphanProof
  to_orphan_proof self = record {
    nullifier = self.nullifier;
    commitment = self.evolved_commitment;
    cm_root = self.merke_root;
  }

  pub record EpochState : Type 0 where
    pub epoch : ℕ
    pub nonce : ℕ
    pub commitments : NoteTree
    pub total_stake : ℕ

  pub record LedgerState : Type 0 where
    pub lead_commitments : NoteTree
    pub spend_commitments : NoteTree
    pub nullifiers : List ℕ
    pub nonce : ℕ
    pub slot : ℕ
    pub next_epoch_state : EpochState
    pub epoch_state : EpochState

  unfoldable pub update_from_ledger :
      EpochState → LedgerState → Config → Outcome LedgerError EpochState
  update_from_ledger self ledger config = do
    nonce_snapshot_slot ← nonce_snapshot config self.epoch
    let nonce' = if ltb ledger.slot nonce_snapshot_slot then ledger.nonce else self.nonce
    stake_snapshot_slot ← stake_distribution_snapshot config self.epoch
    let commitments' =
        if ltb ledger.slot stake_snapshot_slot then ledger.spend_commitments else self.commitments
    ok (record {
      epoch = self.epoch;
      nonce = nonce';
      commitments = commitments';
      total_stake = self.total_stake;
    })

  -- The snapshot of a ledger's present state for an epoch.
  abbrev pub snapshot : LedgerState → ℕ → EpochState
  snapshot self e = record {
    epoch = e;
    nonce = self.nonce;
    commitments = self.spend_commitments;
    total_stake = self.epoch_state.total_stake;
  }

  -- Case 1: the block is in its parent's epoch.
  unfoldable pub stay_in_epoch : LedgerState → ℕ → Config → Outcome LedgerError LedgerState
  stay_in_epoch self slot' config = do
    e ← update_from_ledger self.next_epoch_state self config
    ok (record self { slot = slot'; next_epoch_state = e })

  -- Case 2: it is in the next one.
  unfoldable pub enter_next_epoch : LedgerState → ℕ → ℕ → LedgerState
  enter_next_epoch self slot' new_epoch = record self {
    slot = slot';
    next_epoch_state = snapshot self (next_epoch new_epoch);
    epoch_state = self.next_epoch_state;
  }

  -- Case 3: it is in a later one.
  unfoldable pub skip_epochs : LedgerState → ℕ → ℕ → LedgerState
  skip_epochs self slot' new_epoch = record self {
    slot = slot';
    next_epoch_state = snapshot self (next_epoch new_epoch);
    epoch_state = snapshot self new_epoch;
  }

  unfoldable pub update_epoch_state : LedgerState → ℕ → Config → Outcome LedgerError LedgerState
  update_epoch_state self slot' config = do
    guard (ltb self.slot slot') (invalid_slot self.slot slot')
    current_epoch ← config_epoch config self.slot
    new_epoch ← config_epoch config slot'
    if current_epoch == new_epoch
        then stay_in_epoch self slot' config
        else if new_epoch == next_epoch current_epoch
        then ok (enter_next_epoch self slot' new_epoch)
        else ok (skip_epochs self slot' new_epoch)

  unfoldable pub is_nullified : LedgerState → ℕ → Bool
  is_nullified self nf = contains nf self.nullifiers

  unfoldable pub try_apply_proof_outputs :
      LedgerState → ℕ → ℕ → sha.Data → Outcome LedgerError LedgerState
  try_apply_proof_outputs self cm_root nf evolved_commitment = do
    guard
        (is_valid_root self.lead_commitments cm_root
          || is_valid_root self.epoch_state.commitments cm_root)
        invalid_root
    guard (not (is_nullified self nf)) (double_spend nf)
    lead ← insert self.lead_commitments evolved_commitment
    spend ← insert self.spend_commitments evolved_commitment
    ok (record self {
      lead_commitments = lead;
      spend_commitments = spend;
      nullifiers = add nf self.nullifiers;
    })

  -- `from_commitments`
  unfoldable pub from_commitments : List sha.Data → ℕ → Outcome LedgerError LedgerState
  from_commitments commitments total_stake = do
    tree ← from_iter commitments
    ok (record {
      lead_commitments = tree;
      spend_commitments = tree;
      nullifiers = [];
      nonce = 0;
      slot = 0;
      next_epoch_state = record {
        epoch = 1;
        nonce = 0;
        commitments = empty_tree;
        total_stake = total_stake;
      };
      epoch_state = record {
        epoch = 0;
        nonce = 0;
        commitments = empty_tree;
        total_stake = total_stake;
      };
    })

  module _ ⦃cr : Crypto⦄ where
    unfoldable pub update_nonce : LedgerState → ℕ → ℕ → LedgerState
    update_nonce self nf slot' = record self { nonce = cr.nonce_digest self.nonce nf slot' }

    unfoldable pub try_apply_proof :
        LedgerState → ℕ → LeaderProof → Config → Outcome LedgerError LedgerState
    try_apply_proof self slot' proof config = do
      e ← config_epoch config slot'
      assert (e == self.epoch_state.epoch)
      public_inputs ←
          leader_public proof.merke_root self.epoch_state.nonce slot'
            config.consensus_config.active_slot_coeff self.epoch_state.total_stake proof.nullifier
            (cr.as_bytes proof.evolved_commitment)
      guard (proof.verify public_inputs) invalid_proof
      try_apply_proof_outputs self proof.merke_root proof.nullifier proof.evolved_commitment

    -- `for OrphanProof { .. } in orphan_proofs`
    unfoldable pub apply_orphans : LedgerState → List OrphanProof → Outcome LedgerError LedgerState
    apply_orphans self [] = ok self
    apply_orphans self (o ∷ orphans) = do
      self' ← try_apply_proof_outputs self o.cm_root o.nullifier o.commitment
      apply_orphans self' orphans

    unfoldable pub try_apply_leadership :
        LedgerState → ℕ → LeaderProof → List OrphanProof → Config → Outcome LedgerError LedgerState
    try_apply_leadership self slot' proof orphans config = do
      self' ← apply_orphans self orphans
      self'' ← try_apply_proof self' slot' proof config
      ok (update_nonce self'' proof.nullifier slot')

    -- `LedgerState::try_update`
    unfoldable pub try_update_state :
        LedgerState → ℕ → LeaderProof → List OrphanProof → Config → Outcome LedgerError LedgerState
    try_update_state self slot' proof orphans config = do
      self' ← update_epoch_state self slot' config
      try_apply_leadership self' slot' proof orphans config
