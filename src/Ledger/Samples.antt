-- ===== src/Ledger/Samples.antt =====
-- A ledger of one genesis state, epochs of 40 slots, and the theorems at it.
use nomos_node.Prelude.{
  ◌++◌, ℕ, ◌+◌, ◌≤◌, ◌<◌, ◌≡◌, refl, subst, ◌⊎◌, true, none, some, List, [], ◌∷◌, arith, ltb,
  if◌then◌else◌, nat_eq, length, sat_add64, sat_mul64, Outcome, ok, err, panic,
}
use nomos_node.Prelude.Map.{add, get, contains, contains_key}
use nomos_node.Engine.Time.{base_period_length, epoch_length, epoch, div64, to_epoch}
use nomos_node.Engine.Samples.{percent}
use nomos_node.Merkle.{PathNode, padded_leaves, fill_leaves, path_root}
use nomos_node.Merkle.Leaves.{leaf_or}
use nomos_node.Merkle.Samples.{toy}
use nomos_node.Leadership.{leader_public, phi_coefficients, mul256, div256}
use nomos_node.Ledger.Config.{
  Config, config_epoch_length, nonce_snapshot, stake_distribution_snapshot, config_epoch,
}
use nomos_node.Ledger.NoteTree.{
  NoteTree, note_commitment_leaves, is_valid_root, tree_root, witness, tree_height, from_iter,
}
use nomos_node.Ledger.NoteTree
use nomos_node.Ledger.Snapshots.{IsProper}
use nomos_node.Ledger.Epochs.{FollowsSlot, snapshots_frozen, update_epoch_state_total}
use nomos_node.Ledger.Accepted.{Accepts, try_update_state-Accepts}
use nomos_node.Ledger.Rolling.{block, no_more, stake_rolls}
use nomos_node.Ledger.Trees.{Inserted, insert_total, witness_total}
use nomos_node.Ledger.Notes.{try_apply_proof_outputs_total, LeadersSpendable}
use nomos_node.Ledger.Blocks.{IsSound, Updates, try_update-Updates}
use nomos_node.Ledger.State.{
  LedgerError, invalid_slot, LedgerState, LeaderProof, Crypto, next_epoch, is_nullified,
  update_from_ledger, stay_in_epoch, enter_next_epoch, try_apply_proof_outputs, try_apply_proof,
  apply_orphans, update_nonce, try_apply_leadership, update_epoch_state, try_update_state,
  from_commitments,
}
use nomos_node.Ledger.Store.{Ledger, check_orphans, try_update}

instance abbrev pub crypto : Crypto
crypto = record { nonce_digest = λ a b c. a + b + c; as_bytes = λ x. x }

abbrev pub config : Config
config = record {
  epoch_config = record {
    epoch_stake_distribution_stabilization = 3;
    epoch_period_nonce_buffer = 3;
    epoch_period_nonce_stabilization = 4;
  };
  consensus_config = record { security_param = 2; active_slot_coeff = 50 };
}

config-IsProper : IsProper config 4 40
config-IsProper = record {
  period = refl;
  period_pos = omega arith;
  stabilization_pos = omega arith;
  buffer_pos = omega arith;
  nonce_pos = omega arith;
  len_eq = refl;
  sum_fits = omega arith;
  len_fits = omega arith;
}

-- Two trees that have had the root 7.
abbrev tree : NoteTree
tree = record { commitments = 1 ∷ []; roots = 7 ∷ [] }

abbrev pub state : LedgerState
state = record {
  lead_commitments = tree;
  spend_commitments = tree;
  nullifiers = 3 ∷ [];
  nonce = 0;
  slot = 0;
  next_epoch_state = record { epoch = 1; nonce = 0; commitments = tree; total_stake = 1 };
  epoch_state = record { epoch = 0; nonce = 0; commitments = tree; total_stake = 1 };
}

state-FollowsSlot : FollowsSlot config state
unfolding config_epoch base_period_length epoch epoch_length div64 to_epoch sat_add64 sat_mul64
    next_epoch
state-FollowsSlot = record { current = refl; next = refl }

abbrev pub proof : LeaderProof
proof = record { verify = λ p. true; nullifier = 9; evolved_commitment = 2; merke_root = 7 }

abbrev from_ok {ℓ κ} : {E : Type ℓ} {A : Type κ} → Outcome E A → A → A
from_ok (ok a) d = a
from_ok _ d = d

abbrev state_6 : LedgerState
state_6 = record state { slot = 6 }

update_runs : update_epoch_state state 6 config ≡ ok state_6
unfolding update_epoch_state stay_in_epoch update_from_ledger nonce_snapshot
    stake_distribution_snapshot config_epoch config_epoch_length base_period_length epoch
    epoch_length div64 to_epoch sat_add64 sat_mul64 next_epoch
update_runs = refl

abbrev state_50 : LedgerState
state_50 = record state {
  slot = 50;
  epoch_state = state.next_epoch_state;
  next_epoch_state = record { epoch = 2; nonce = 0; commitments = tree; total_stake = 1 };
}

enter_runs : update_epoch_state state 50 config ≡ ok state_50
unfolding update_epoch_state enter_next_epoch config_epoch base_period_length epoch epoch_length
    div64 to_epoch sat_add64 sat_mul64 next_epoch
enter_runs = refl

abbrev accepted : LedgerState
accepted = from_ok (try_update_state state 6 proof [] config) state

accept_runs : try_update_state state 6 proof [] config ≡ ok accepted
unfolding try_update_state try_apply_leadership update_nonce apply_orphans try_apply_proof
    try_apply_proof_outputs is_nullified is_valid_root NoteTree.insert note_commitment_leaves
    padded_leaves fill_leaves contains leader_public phi_coefficients mul256 div256
    update_epoch_state stay_in_epoch update_from_ledger nonce_snapshot stake_distribution_snapshot
    config_epoch config_epoch_length base_period_length epoch epoch_length div64 to_epoch sat_add64
    sat_mul64 next_epoch
accept_runs = refl

state-LeadersSpendable : LeadersSpendable state
state-LeadersSpendable x i = i

snapshots_frozen_example :
    (state_6.epoch_state ≡ state.epoch_state)
    × (state_6.next_epoch_state.commitments ≡ tree)
    × (at : ℕ) × (nonce_snapshot {E = LedgerError} config 1 ≡ ok at)
    × (state_6.next_epoch_state.nonce
        ≡ (if ltb 0 at then state.nonce else state.next_epoch_state.nonce))
unfolding config_epoch base_period_length epoch epoch_length div64 to_epoch sat_add64 sat_mul64
snapshots_frozen_example =
    snapshots_frozen config-IsProper state state_6 6 state-FollowsSlot update_runs refl
      (omega arith) (omega arith)

update_epoch_state_total_example :
    ((state.slot < 50) × (t : LedgerState) × (update_epoch_state state 50 config ≡ ok t))
    ⊎ ((50 ≤ state.slot) × (update_epoch_state state 50 config ≡ err (invalid_slot state.slot 50)))
update_epoch_state_total_example =
    update_epoch_state_total config-IsProper state 50 state-FollowsSlot (omega arith)

try_update_state-Accepts_example : Accepts config state 6 proof [] accepted
try_update_state-Accepts_example =
    try_update_state-Accepts config state accepted 6 proof [] state-FollowsSlot accept_runs

-- Two blocks of epoch 1 and one of epoch 2 on the state of epoch 0.
abbrev spending : ℕ → LeaderProof
spending nf = record proof { nullifier = nf }

abbrev Taken : LedgerState → ℕ → Type 0
Taken m nf =
    (l p : NoteTree) × (l.commitments ≡ m.lead_commitments.commitments ++ 2 ∷ [])
    × (p.commitments ≡ m.spend_commitments.commitments ++ 2 ∷ [])
    × (try_apply_proof_outputs m 7 nf 2
        ≡ ok (record m {
          lead_commitments = l;
          spend_commitments = p;
          nullifiers = add nf m.nullifiers;
        }))

abbrev after : (m : LedgerState) → (nf : ℕ) → Taken m nf → LedgerState
after m nf taken = record m {
  lead_commitments = taken.0;
  spend_commitments = taken.1;
  nullifiers = add nf m.nullifiers;
  nonce = m.nonce + nf + m.slot;
}

enter_notes : Taken state_50 9
unfolding is_valid_root is_nullified contains add
enter_notes = try_apply_proof_outputs_total state_50 7 9 2 refl refl (omega arith) (omega arith)

abbrev first_block : LedgerState
first_block = after state_50 9 enter_notes

enter_block_runs : try_update_state state 50 (spending 9) [] config ≡ ok first_block
unfolding try_update_state try_apply_leadership update_nonce apply_orphans try_apply_proof
    leader_public phi_coefficients mul256 div256 update_epoch_state enter_next_epoch config_epoch
    base_period_length epoch epoch_length div64 to_epoch sat_add64 sat_mul64 next_epoch
enter_block_runs = rw enter_notes.4

-- The nonce of the snapshot follows the ledger's until slot 64.
abbrev mid_60 : LedgerState
mid_60 = record first_block {
  slot = 60;
  next_epoch_state = record { epoch = 2; nonce = 59; commitments = tree; total_stake = 1 };
}

stay_notes : Taken mid_60 10
unfolding is_valid_root is_nullified contains add
stay_notes =
    try_apply_proof_outputs_total mid_60 7 10 2 refl refl (rw enter_notes.2 (omega arith))
      (rw enter_notes.3 (omega arith))

abbrev second_block : LedgerState
second_block = after mid_60 10 stay_notes

stay_runs : try_update_state first_block 60 (spending 10) [] config ≡ ok second_block
unfolding try_update_state try_apply_leadership update_nonce apply_orphans try_apply_proof
    leader_public phi_coefficients mul256 div256 update_epoch_state stay_in_epoch update_from_ledger
    nonce_snapshot stake_distribution_snapshot config_epoch_length config_epoch base_period_length
    epoch epoch_length div64 to_epoch sat_add64 sat_mul64 next_epoch
stay_runs = rw stay_notes.4

abbrev mid_90 : LedgerState
mid_90 = record second_block {
  slot = 90;
  epoch_state = mid_60.next_epoch_state;
  next_epoch_state = record {
    epoch = 3;
    nonce = 129;
    commitments = second_block.spend_commitments;
    total_stake = 1;
  };
}

again_notes : Taken mid_90 11
unfolding is_valid_root is_nullified contains add
again_notes =
    try_apply_proof_outputs_total mid_90 7 11 2 refl refl
      (rw (stay_notes.2, enter_notes.2) (omega arith))
      (rw (stay_notes.3, enter_notes.3) (omega arith))

abbrev third_block : LedgerState
third_block = after mid_90 11 again_notes

again_runs : try_update_state second_block 90 (spending 11) [] config ≡ ok third_block
unfolding try_update_state try_apply_leadership update_nonce apply_orphans try_apply_proof
    leader_public phi_coefficients mul256 div256 update_epoch_state enter_next_epoch config_epoch
    base_period_length epoch epoch_length div64 to_epoch sat_add64 sat_mul64 next_epoch
again_runs = rw again_notes.4

stake_rolls_example :
    (third_block.epoch_state.epoch ≡ 2)
    × (third_block.epoch_state.commitments ≡ tree)
    × (third_block.next_epoch_state.epoch ≡ 3)
    × (third_block.next_epoch_state.commitments ≡ second_block.spend_commitments)
unfolding config_epoch base_period_length epoch epoch_length div64 to_epoch sat_add64 sat_mul64
stake_rolls_example =
    stake_rolls config-IsProper state first_block second_block third_block 50 90 1 (spending 9)
      (spending 11) [] [] state-FollowsSlot enter_block_runs refl (omega arith)
      (block 60 (spending 10) [] stay_runs refl no_more) again_runs refl (omega arith) (omega arith)

insert_total_example :
    ((1 < 16384)
      × (u : NoteTree) × (NoteTree.insert {E = LedgerError} tree 4 ≡ ok u)
      × Inserted LedgerError tree u 4)
    ⊎ ((16384 ≤ 1) × (NoteTree.insert {E = LedgerError} tree 4 ≡ panic))
insert_total_example = insert_total tree 4

witness_total_example :
    ((0 < 1)
      × (p : List PathNode) × (r : ℕ) × (witness {E = LedgerError} tree 0 ≡ ok (some p))
      × (tree_root {E = LedgerError} tree ≡ ok r)
      × (path_root (leaf_or (1 ∷ []) 0 0) p ≡ r)
      × (length p ≡ tree_height))
    ⊎ ((1 ≤ 0) × (witness {E = LedgerError} tree 0 ≡ ok none))
witness_total_example = witness_total tree 0 (omega arith)

abbrev first : LedgerState
first = from_ok (from_commitments (1 ∷ 2 ∷ []) 100) state

first_runs : from_commitments (1 ∷ 2 ∷ []) 100 ≡ ok first
unfolding from_commitments from_iter note_commitment_leaves padded_leaves fill_leaves
first_runs = refl

abbrev pub ledger : Ledger
ledger = record { states = (0, state) ∷ []; config = config }

pub ledger-IsSound : IsSound ledger
unfolding get
ledger-IsSound = record {
  follows =
      λ i s g. let e : state ≡ s = ground arith in subst (FollowsSlot config) e state-FollowsSlot;
  spendable =
      λ i s g. let e : state ≡ s = ground arith in subst LeadersSpendable e state-LeadersSpendable;
}

abbrev pub updated : Ledger
updated = from_ok (try_update ledger 1 0 6 proof []) ledger

pub update_ledger_runs : try_update ledger 1 0 6 proof [] ≡ ok updated
unfolding try_update check_orphans contains_key get
update_ledger_runs = rw accept_runs

try_update-Updates_example : Updates ledger 1 0 6 proof [] updated
try_update-Updates_example =
    try_update-Updates ledger updated 1 0 6 proof [] ledger-IsSound update_ledger_runs
