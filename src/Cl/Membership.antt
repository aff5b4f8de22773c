-- ===== src/Cl/Membership.antt =====
-- nomos-core/cl/src/partial_tx.rs: the witness of an input, or an output, leads to the root that the committed
-- transaction has.
use nomos_node.Prelude.{
  ℕ, zero, suc, ◌≤◌, ◌<◌, ◌≡◌, refl, sym, ap, ◌∙◌, ◌⊎◌, inl, inr, some, List, [], ◌∷◌, map, arith,
  lt_or_le, Option-cases, nat_eq, length, ok, panic,
}
use nomos_node.Prelude.Arrays.{get_elem?, lt_of_get_elem?, le_of_get_elem?}
use nomos_node.Merkle.{Hasher, Nodes, PathNode, padded_leaves, root, path, path_root}
use nomos_node.Merkle.Leaves.{leaf_or, padded_leaves_lem}
use nomos_node.Merkle.Membership.{path-path_root}
use nomos_node.Cl.Notes.{Commitments, commit_input, commit_output}
use nomos_node.Cl.Balance.{PartialTxWitness}
use nomos_node.Cl.Partial.{
  slots_height, max_slots, Encoding, PartialTx, PartialTxInputWitness, PartialTxOutputWitness,
  input_root, output_root, commit_ptx, input_witness, output_witness, witness_input_root,
  witness_output_root,
}

map-map {ℓ} :
    {A B C : Type ℓ} (f : A → B) (g : B → C) (xs : List A)
    → map g (map f xs) ≡ map (λ x. g (f x)) xs
map-map f g [] = refl
map-map f g (x ∷ xs) = ap (◌∷◌ (g (f x))) (map-map f g xs)

length-map {ℓ} : {A B : Type ℓ} (f : A → B) (xs : List A) → length (map f xs) ≡ length xs
length-map f [] = refl
length-map f (x ∷ xs) = ap suc (length-map f xs)

module _ ⦃sha : Hasher⦄ where
  leaf_at :
      {A : Type 0} (f : A → sha.Data) (xs : List A) (i : ℕ) (x : A)
      → get_elem? xs i ≡ some x
      → leaf_or (map f xs) i 0 ≡ sha.leaf (f x)
  leaf_at f [] i x h = absurd (cc)
  leaf_at f (y ∷ xs) zero x h = let e : y ≡ x = cc in ap (λ z. sha.leaf (f z)) e
  leaf_at f (y ∷ xs) (suc i) x h = leaf_at f xs i x h

  -- A slot's path leads from its element's leaf to the root of all of them.
  slot_path {ℓ} :
      {E : Type ℓ} {A : Type 0} (f : A → sha.Data) (xs : List A) (i : ℕ) (x : A)
      → length xs ≤ max_slots
      → get_elem? xs i ≡ some x
      → (leaves : Nodes) × (p : List PathNode) × (padded_leaves {E = E} max_slots (map f xs)
          ≡ ok leaves)
        × (path {E = E} slots_height leaves i ≡ ok p)
        × (path_root (sha.leaf (f x)) p ≡ root slots_height leaves)
  slot_path {E} f xs i x fits at =
      let (leaves, run, leaf) =
        (padded_leaves_lem {E = E} max_slots (map f xs)).0 (omega (arith, length-map f xs)) in
      let (p, found, leads, _) =
        (path-path_root {E = E} slots_height leaves i).0
          (omega (arith, lt_of_get_elem? xs i x at)) in
      (leaves, p, run, found, ap (λ l. path_root l p) (sym (leaf i ∙ leaf_at f xs i x at)) ∙ leads)

  -- Without an element at the index, either step may still return.
  slot_any {ℓ} :
      {E : Type ℓ} {A : Type 0} (f : A → sha.Data) (xs : List A) (i : ℕ)
      → length xs ≤ max_slots
      → (leaves : Nodes) × (padded_leaves {E = E} max_slots (map f xs) ≡ ok leaves)
        × (((p : List PathNode) × (path {E = E} slots_height leaves i ≡ ok p))
            ⊎ (path {E = E} slots_height leaves i ≡ panic))
  slot_any {E} f xs i fits =
      let (leaves, run, _) =
        (padded_leaves_lem {E = E} max_slots (map f xs)).0 (omega (arith, length-map f xs)) in
      (
        leaves,
        run,
        elim (lt_or_le i max_slots) [
          | inl lt ↦
              let (p, found, _, _) = (path-path_root {E = E} slots_height leaves i).0 lt in
              inl (p, found)
          | inr ge ↦ inr ((path-path_root {E = E} slots_height leaves i).1 ge)
        ],
      )

  module _ ⦃enc : Encoding⦄ ⦃cm : Commitments⦄ where
    -- A commitment keeps the inputs and the outputs, committed one by one.
    commit_parts {ℓ} :
        {E : Type ℓ} (ptx : PartialTxWitness) (t : PartialTx)
        → commit_ptx {E = E} ptx ≡ ok t
        → (t.inputs ≡ map commit_input ptx.inputs) × (t.outputs ≡ map commit_output ptx.outputs)
    unfolding commit_ptx
    commit_parts ptx t h = ground arith

    -- The witness of an input of a transaction with at most as many inputs as there are slots opens the input root of
    -- the committed transaction, and beyond the inputs there is a panic.
    pub input_witness_total {ℓ} :
        {E : Type ℓ} (ptx : PartialTxWitness) (t : PartialTx) (idx : ℕ)
        → length ptx.inputs ≤ max_slots
        → commit_ptx {E = E} ptx ≡ ok t
        → ((idx < length ptx.inputs)
            × (w : PartialTxInputWitness) × (input_witness {E = E} ptx idx ≡ ok w)
            × (get_elem? ptx.inputs idx ≡ some w.input)
            × (input_root {E = E} t ≡ ok (witness_input_root w)))
          ⊎ ((length ptx.inputs ≤ idx) × (input_witness {E = E} ptx idx ≡ panic))
    unfolding input_witness input_root witness_input_root
    input_witness_total {E} ptx t idx fits h = elim (Option-cases (get_elem? ptx.inputs idx)) [
      | inr (x, at) ↦
          let (leaves, p, run, found, leads) =
            slot_path {E = E} (λ i. enc.input_bytes (commit_input i)) ptx.inputs idx x fits at in
          let bytes =
            ap (map enc.input_bytes) (commit_parts ptx t h).0
            ∙ map-map commit_input enc.input_bytes ptx.inputs in
          inl (
            lt_of_get_elem? ptx.inputs idx x at,
            record { input = x; path = p },
            rw (run, found, at),
            at,
            rw bytes (rw run (ap ok (sym leads))),
          )
      | inl nothing ↦
          let (leaves, run, either) =
            slot_any {E = E} (λ i. enc.input_bytes (commit_input i)) ptx.inputs idx fits in
          inr (
            le_of_get_elem? ptx.inputs idx nothing,
            elim either [ inl (p, found) ↦ rw (run, found, nothing) | inr stop ↦ rw (run, stop) ],
          )
    ]

    -- So it is for the outputs.
    output_witness_total {ℓ} :
        {E : Type ℓ} (ptx : PartialTxWitness) (t : PartialTx) (idx : ℕ)
        → length ptx.outputs ≤ max_slots
        → commit_ptx {E = E} ptx ≡ ok t
        → ((idx < length ptx.outputs)
            × (w : PartialTxOutputWitness) × (output_witness {E = E} ptx idx ≡ ok w)
            × (get_elem? ptx.outputs idx ≡ some w.output)
            × (output_root {E = E} t ≡ ok (witness_output_root w)))
          ⊎ ((length ptx.outputs ≤ idx) × (output_witness {E = E} ptx idx ≡ panic))
    unfolding output_witness output_root witness_output_root
    output_witness_total {E} ptx t idx fits h = elim (Option-cases (get_elem? ptx.outputs idx)) [
      | inr (x, at) ↦
          let (leaves, p, run, found, leads) =
            slot_path {E = E} (λ o. enc.output_bytes (commit_output o)) ptx.outputs idx x fits at in
          let bytes =
            ap (map enc.output_bytes) (commit_parts ptx t h).1
            ∙ map-map commit_output enc.output_bytes ptx.outputs in
          inl (
            lt_of_get_elem? ptx.outputs idx x at,
            record { output = x; path = p },
            rw (run, found, at),
            at,
            rw bytes (rw run (ap ok (sym leads))),
          )
      | inl nothing ↦
          let (leaves, run, either) =
            slot_any {E = E} (λ o. enc.output_bytes (commit_output o)) ptx.outputs idx fits in
          inr (
            le_of_get_elem? ptx.outputs idx nothing,
            elim either [ inl (p, found) ↦ rw (run, found, nothing) | inr stop ↦ rw (run, stop) ],
          )
    ]
