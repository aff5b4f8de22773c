-- ===== src/Consensus/Samples.antt =====
-- A chain of genesis alone, and the first block after it.
use nomos_node.Prelude.{ℕ, ◌+◌, ◌<◌, ◌≡◌, refl, none, some, [], arith, nat_eq, u64_size, ok}
use nomos_node.Prelude.Map.{get}
use nomos_node.Merkle.Samples.{toy}
use nomos_node.Engine.Samples.{percent, node, node-IsValid}
use nomos_node.Engine.Branches.{Branch, genesis_branch, from_genesis}
use nomos_node.Engine.Chain.{lookup}
use nomos_node.Engine.Growth.{extended}
use nomos_node.Engine.Cryptarchia.{start}
use nomos_node.Ledger.State.{LedgerState}
use nomos_node.Ledger.Samples.{
  crypto, ledger, ledger-IsSound, updated, proof, update_ledger_runs, state,
}
use nomos_node.Consensus.Chain.{Header, Cryptarchia, tip_state, try_apply_header}
use nomos_node.Consensus.InStep.{InStep, try_apply_header-InStep}

abbrev chain : Cryptarchia
chain = record { ledger = ledger; consensus = node }

abbrev header : Header
header = record { id = 1; parent = 0; slot = 6; leader_proof = proof; orphaned_proofs = [] }

chain-InStep : InStep chain
unfolding start from_genesis get
chain-InStep = record {
  valid = node-IsValid;
  sound = ledger-IsSound;
  with_state = λ i b g. (state, ground arith, ground arith);
  with_block = λ i s g. (genesis_branch 0, ground arith);
}

unknown : lookup node.branches 1 ≡ none
unfolding start from_genesis get
unknown = refl

short : (i : ℕ) (b : Branch) → lookup node.branches i ≡ some b → b.length + 1 < u64_size
unfolding start from_genesis get
short i b g = ground arith

try_apply_header-InStep_example :
    (c' : Cryptarchia) × (p : Branch) × (try_apply_header (λ ids. ids) chain header ≡ ok c')
    × (c'.ledger ≡ updated)
    × (c'.consensus.branches ≡ extended node.branches 1 0 6 p)
    × InStep c'
    × ((s : LedgerState) × (tip_state c' ≡ ok s) × (s.slot ≡ c'.consensus.local_chain.slot))
try_apply_header-InStep_example =
    try_apply_header-InStep (λ ids. ids) (λ ids i. refl) chain header updated chain-InStep unknown
      short update_ledger_runs
