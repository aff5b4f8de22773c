-- ===== src/Cl/Partial.antt =====
-- nomos-core/cl/src/partial_tx.rs and bundle.rs: commitments of partial transactions, and the witnesses of
-- their inputs and outputs. What the code takes as bytes of an input or an output, and the digest
-- that commits to a balance, are the argument `Encoding`.
use nomos_node.Prelude.{ℕ, ◌^◌, List, [], ◌∷◌, map, nat_eq, Outcome, ok, ◌>>=◌, unwrap}
use nomos_node.Prelude.Arrays.{get_elem?}
use nomos_node.Merkle.{Hasher, PathNode, padded_leaves, root, path, path_root}
use nomos_node.Cl.Notes.{
  Input, InputWitness, Output, OutputWitness, Commitments, commit_input, commit_output,
}
use nomos_node.Cl.Balance.{BalanceWitness, PartialTxWitness, ptx_balance}

abbrev pub slots_height : ℕ
slots_height = 3

-- `MAX_INPUTS` and `MAX_OUTPUTS`
abbrev pub max_slots : ℕ
max_slots = 2 ^ slots_height

pub record Encoding ⦃sha : Hasher⦄ : Type 0 where
  pub input_bytes : Input → sha.Data
  pub output_bytes : Output → sha.Data
  pub balance_digest : BalanceWitness → ℕ

pub record PartialTx : Type 0 where
  pub inputs : List Input
  pub outputs : List Output
  pub balance : ℕ

pub record PartialTxInputWitness : Type 0 where
  pub input : InputWitness
  pub path : List PathNode

pub record PartialTxOutputWitness : Type 0 where
  pub output : OutputWitness
  pub path : List PathNode

module _ ⦃sha : Hasher⦄ ⦃enc : Encoding⦄ where
  -- `PartialTx::input_root`
  unfoldable pub input_root {ℓ} : {E : Type ℓ} → PartialTx → Outcome E ℕ
  input_root self = do
    leaves ← padded_leaves max_slots (map enc.input_bytes self.inputs)
    ok (root slots_height leaves)

  -- `PartialTx::output_root`
  unfoldable pub output_root {ℓ} : {E : Type ℓ} → PartialTx → Outcome E ℕ
  output_root self = do
    leaves ← padded_leaves max_slots (map enc.output_bytes self.outputs)
    ok (root slots_height leaves)

  -- `PartialTx::root`
  unfoldable pub ptx_root {ℓ} : {E : Type ℓ} → PartialTx → Outcome E ℕ
  ptx_root self = do i ← input_root self; o ← output_root self; ok (sha.node i o)

  module _ ⦃cm : Commitments⦄ where
    -- `PartialTxWitness::commit`
    unfoldable pub commit_ptx {ℓ} : {E : Type ℓ} → PartialTxWitness → Outcome E PartialTx
    commit_ptx self = do
      b ← ptx_balance self
      ok (record {
        inputs = map commit_input self.inputs;
        outputs = map commit_output self.outputs;
        balance = enc.balance_digest b;
      })

    -- `BundleWitness::commit`
    unfoldable pub commit_bundle {ℓ} :
        {E : Type ℓ} → List PartialTxWitness → Outcome E (List PartialTx)
    commit_bundle [] = ok []
    commit_bundle (p ∷ ps) = do t ← commit_ptx p; ts ← commit_bundle ps; ok (t ∷ ts)

    -- `PartialTxWitness::input_witness`
    unfoldable pub input_witness {ℓ} :
        {E : Type ℓ} → PartialTxWitness → ℕ → Outcome E PartialTxInputWitness
    input_witness self idx = do
      leaves ← padded_leaves max_slots (map (λ i. enc.input_bytes (commit_input i)) self.inputs)
      p ← path slots_height leaves idx
      input ← unwrap (get_elem? self.inputs idx)
      ok (record { input = input; path = p })

    -- `PartialTxWitness::output_witness`
    unfoldable pub output_witness {ℓ} :
        {E : Type ℓ} → PartialTxWitness → ℕ → Outcome E PartialTxOutputWitness
    output_witness self idx = do
      leaves ← padded_leaves max_slots (map (λ o. enc.output_bytes (commit_output o)) self.outputs)
      p ← path slots_height leaves idx
      output ← unwrap (get_elem? self.outputs idx)
      ok (record { output = output; path = p })

    -- `PartialTxInputWitness::input_root`
    unfoldable pub witness_input_root : PartialTxInputWitness → ℕ
    witness_input_root self =
        path_root (sha.leaf (enc.input_bytes (commit_input self.input))) self.path

    -- `PartialTxOutputWitness::output_root`
    unfoldable pub witness_output_root : PartialTxOutputWitness → ℕ
    witness_output_root self =
        path_root (sha.leaf (enc.output_bytes (commit_output self.output))) self.path
