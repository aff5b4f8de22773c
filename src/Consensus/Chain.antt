-- ===== src/Consensus/Chain.antt =====
-- nomos-services/cryptarchia-consensus/src/lib.rs, `Cryptarchia`: the engine's tree of blocks and the ledger's states.
-- An operation returns a new value, and an error leaves the old one.
use nomos_node.Prelude.{
  ℕ, Option, none, some, List, map, ◌==◌, if◌then◌else◌, nat_eq, Outcome, ok, err, panic, timeout,
  ◌>>=◌, unwrap,
}
use nomos_node.Prelude.Map.{get}
use nomos_node.Merkle.{Hasher}
use nomos_node.Engine.Time.{FloatOps}
use nomos_node.Engine.Branches
use nomos_node.Engine.Cryptarchia as Engine
use nomos_node.Engine.Cryptarchia.{start, receive_block}
use nomos_node.Ledger.Config.{Config, config_epoch}
use nomos_node.Ledger.State.{
  LedgerError, EpochState, LedgerState, LeaderProof, OrphanProof, to_orphan_proof, Crypto,
}
use nomos_node.Ledger.Store.{Ledger, new_ledger, try_update}

pub data Error : Type 0 where
  ledger_error : LedgerError → Error
  consensus_error : Branches.Error → Error

-- `?` with `From`
abbrev pub from_error {ℓ} : {A : Type ℓ} {E : Type 0} → (E → Error) → Outcome E A → Outcome Error A
from_error f (ok a) = ok a
from_error f (err e) = err (f e)
from_error f panic = panic
from_error f timeout = timeout

module _ ⦃fl : FloatOps⦄ ⦃sha : Hasher⦄ where
  -- The parts of a block header that are read, and its id; orphaned headers are their ids and proofs.
  pub record Header : Type 0 where
    pub id : ℕ
    pub parent : ℕ
    pub slot : ℕ
    pub leader_proof : LeaderProof
    pub orphaned_proofs : List (ℕ × LeaderProof)

  pub record Cryptarchia : Type 0 where
    pub ledger : Ledger
    pub consensus : Engine.Cryptarchia

  unfoldable pub new : ℕ → LedgerState → Config → Cryptarchia
  new header_id ledger_state ledger_config = record {
    consensus = start header_id ledger_config.consensus_config;
    ledger = new_ledger header_id ledger_state ledger_config;
  }

  abbrev pub tip : Cryptarchia → ℕ
  tip self = Engine.tip self.consensus

  unfoldable pub tip_state : Cryptarchia → Outcome Error LedgerState
  tip_state self = unwrap (get (tip self) self.ledger.states)

  abbrev pub orphans_of : Header → List (ℕ × OrphanProof)
  orphans_of header = map (λ o. (o.0, to_orphan_proof o.1)) header.orphaned_proofs

  unfoldable pub try_apply_header :
      ⦃cr : Crypto⦄ → (List ℕ → List ℕ) → Cryptarchia → Header → Outcome Error Cryptarchia
  try_apply_header order self header = do
    ledger ← from_error ledger_error (
        try_update self.ledger header.id header.parent header.slot header.leader_proof
          (orphans_of header))
    consensus ←
        from_error consensus_error
          (receive_block order self.consensus header.id header.parent header.slot)
    ok (record { ledger = ledger; consensus = consensus })

  unfoldable pub epoch_state_for_slot : Cryptarchia → ℕ → Outcome Error (Option EpochState)
  epoch_state_for_slot self slot = do
    state ← tip_state self
    requested_epoch ← config_epoch self.ledger.config slot
    ok (
        if state.epoch_state.epoch == requested_epoch
        then some state.epoch_state
        else if requested_epoch == state.next_epoch_state.epoch
        then some state.next_epoch_state
        else none)
