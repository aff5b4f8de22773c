-- ===== src/Ledger/NoteTree.antt =====
-- ledger/nomos-ledger/src/notetree.rs: the commitments in order, and every root that the tree has had.
use nomos_node.Prelude.{
  ℕ, ◌^◌, Bool, Option, none, some, List, [], ◌∷◌, ◌++◌, leb, if◌then◌else◌, nat_eq, length,
  Outcome, ok, ◌>>=◌,
}
use nomos_node.Prelude.Map.{contains, add}
use nomos_node.Merkle.{Hasher, Nodes, PathNode, padded_leaves, root, path}

-- `MAX_NOTE_COMMS` is 2 ^ 14.
abbrev pub tree_height : ℕ
tree_height = 14

abbrev pub max_note_comms : ℕ
max_note_comms = 2 ^ tree_height

module _ ⦃sha : Hasher⦄ where
  pub record NoteTree : Type 0 where
    pub commitments : List sha.Data
    pub roots : List ℕ

  -- `NoteTree::default()`
  abbrev pub empty_tree : NoteTree
  empty_tree = record { commitments = []; roots = [] }

  unfoldable pub note_commitment_leaves {ℓ} : {E : Type ℓ} → List sha.Data → Outcome E Nodes
  note_commitment_leaves commitments = padded_leaves max_note_comms commitments

  unfoldable pub insert {ℓ} : {E : Type ℓ} → NoteTree → sha.Data → Outcome E NoteTree
  insert self note = do
    let commitments = self.commitments ++ note ∷ []
    leaves ← note_commitment_leaves commitments
    ok (record { commitments = commitments; roots = add (root tree_height leaves) self.roots })

  -- `NoteTree::root`
  unfoldable pub tree_root {ℓ} : {E : Type ℓ} → NoteTree → Outcome E ℕ
  tree_root self = do leaves ← note_commitment_leaves self.commitments; ok (root tree_height leaves)

  unfoldable pub is_valid_root : NoteTree → ℕ → Bool
  is_valid_root self r = contains r self.roots

  -- `NoteTree::witness`
  unfoldable pub witness {ℓ} : {E : Type ℓ} → NoteTree → ℕ → Outcome E (Option (List PathNode))
  witness self index =
      let found = (do
        leaves ← note_commitment_leaves self.commitments
        p ← path tree_height leaves index
        ok (some p)) in
      if leb (length self.commitments) index then ok none else found

  -- `FromIterator`
  unfoldable pub from_iter {ℓ} : {E : Type ℓ} → List sha.Data → Outcome E NoteTree
  from_iter commitments = do
    leaves ← note_commitment_leaves commitments
    ok (record { commitments = commitments; roots = root tree_height leaves ∷ [] })
