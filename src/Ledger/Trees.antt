-- ===== src/Ledger/Trees.antt =====
-- ledger/nomos-ledger/src/notetree.rs: the roots that a tree accepts, and the witnesses of its notes.
use nomos_node.Prelude.{
  ℕ, ◌≤◌, ◌<◌, ◌≡◌, refl, sym, ap, subst, ◌∙◌, ◌⊎◌, inl, inr, ◌||◌, none, some, List, [], ◌∷◌, ◌++◌,
  arith, ltb, ◌==◌, ltb→lt, ltb→le, le→leb, lt→leb, lt_or_le, Bool-cases, nat_eq, length,
  length-append, ok, panic,
}
use nomos_node.Prelude.Map.{add, contains-add}
use nomos_node.Merkle.{Hasher, Nodes, PathNode, root, path_root}
use nomos_node.Merkle.Leaves.{leaf_or, padded_leaves_lem}
use nomos_node.Merkle.Membership.{path-path_root}
use nomos_node.Ledger.NoteTree.{
  NoteTree, tree_height, max_note_comms, note_commitment_leaves, insert, tree_root, is_valid_root,
  witness,
}

module _ ⦃sha : Hasher⦄ where
  -- `u` is `t` with one more note: its root and all of the earlier roots are accepted.
  pub record Inserted {ℓ} (E : Type ℓ) (t u : NoteTree) (x : sha.Data) : Type ℓ where
    pub appended : u.commitments ≡ t.commitments ++ x ∷ []
    pub new_root : ℕ
    pub new_root_eq : tree_root {E = E} u ≡ ok new_root
    pub valid : (r : ℕ) → is_valid_root u r ≡ ((new_root == r) || is_valid_root t r)

  module _ {ℓ} {E : Type ℓ} where
    leaves_fit :
        (xs : List sha.Data)
        → length xs ≤ max_note_comms
        → (out : Nodes) × (note_commitment_leaves {E = E} xs ≡ ok out)
          × ((j : ℕ) → out j ≡ leaf_or xs j 0)
    unfolding note_commitment_leaves
    leaves_fit xs h = (padded_leaves_lem max_note_comms xs).0 h

    leaves_full :
        (xs : List sha.Data)
        → max_note_comms < length xs
        → note_commitment_leaves {E = E} xs ≡ panic
    unfolding note_commitment_leaves
    leaves_full xs h = (padded_leaves_lem max_note_comms xs).1 h

    pub insert-Inserted :
        (t : NoteTree) (x : sha.Data)
        → (length t.commitments < max_note_comms
            → (u : NoteTree) × (insert {E = E} t x ≡ ok u) × Inserted E t u x)
          × (max_note_comms ≤ length t.commitments → insert {E = E} t x ≡ panic)
    unfolding insert tree_root is_valid_root
    insert-Inserted t x =
        let len = length-append t.commitments (x ∷ []) in
        (
          λ room.
              let (leaves, run, _) = leaves_fit (t.commitments ++ x ∷ []) (omega (arith, len)) in
              let r = root tree_height leaves in
              (
                record { commitments = t.commitments ++ x ∷ []; roots = add r t.roots },
                rw run,
                record {
                  appended = refl;
                  new_root = r;
                  new_root_eq = rw run;
                  valid = λ q. contains-add r q t.roots;
                },
              ),
          λ full. rw (leaves_full (t.commitments ++ x ∷ []) (omega (arith, len))),
        )

    -- What `insert` returns has taken the note.
    pub insert-ok : (t u : NoteTree) (x : sha.Data) → insert {E = E} t x ≡ ok u → Inserted E t u x
    insert-ok t u x h = elim (Bool-cases (ltb (length t.commitments) max_note_comms)) [
      | inl room ↦
          let (v, run, ins) = (insert-Inserted t x).0 (ltb→lt _ _ room) in
          let same : v ≡ u = cc in subst (λ w. Inserted E t w x) same ins
      | inr full ↦ let stop = (insert-Inserted t x).1 (ltb→le _ _ full) in cc
    ]

    pub witness-root :
        (t : NoteTree) (i : ℕ)
        → length t.commitments ≤ max_note_comms
        → (i < length t.commitments
            → (p : List PathNode) × (r : ℕ) × (witness {E = E} t i ≡ ok (some p))
              × (tree_root {E = E} t ≡ ok r)
              × (path_root (leaf_or t.commitments i 0) p ≡ r)
              × (length p ≡ tree_height))
          × (length t.commitments ≤ i → witness {E = E} t i ≡ ok none)
    unfolding witness tree_root
    witness-root t i fits =
        let (leaves, run, at) = leaves_fit t.commitments fits in
        (
          λ here.
              let (p, found, leads, len) =
                (path-path_root {E = E} tree_height leaves i).0 (omega arith) in
              (
                p,
                root tree_height leaves,
                rw (run, found) (rw (lt→leb i (length t.commitments) here)),
                rw run,
                ap (λ x. path_root x p) (sym (at i)) ∙ leads,
                len,
              ),
          λ beyond. rw (le→leb (length t.commitments) i beyond),
        )

    -- A tree with room takes a note: it is the last one then, and the roots accepted are the new tree's and
    -- those accepted before. A full tree panics.
    pub insert_total :
        (t : NoteTree) (x : sha.Data)
        → ((length t.commitments < max_note_comms)
            × (u : NoteTree) × (insert {E = E} t x ≡ ok u)
            × Inserted E t u x)
          ⊎ ((max_note_comms ≤ length t.commitments) × (insert {E = E} t x ≡ panic))
    insert_total t x = elim (lt_or_le (length t.commitments) max_note_comms) [
      | inl room ↦ let (u, run, ins) = (insert-Inserted t x).0 room in inl (room, u, run, ins)
      | inr full ↦ inr (full, (insert-Inserted t x).1 full)
    ]

    -- In a tree that is not overfull, the witness of a note's index is a path, as long as the tree is high, from
    -- its leaf to the tree's root; an index beyond the notes has none.
    pub witness_total :
        (t : NoteTree) (i : ℕ)
        → length t.commitments ≤ max_note_comms
        → ((i < length t.commitments)
            × (p : List PathNode) × (r : ℕ) × (witness {E = E} t i ≡ ok (some p))
            × (tree_root {E = E} t ≡ ok r)
            × (path_root (leaf_or t.commitments i 0) p ≡ r)
            × (length p ≡ tree_height))
          ⊎ ((length t.commitments ≤ i) × (witness {E = E} t i ≡ ok none))
    witness_total t i fits = elim (lt_or_le i (length t.commitments)) [
      | inl here ↦
          let (p, r, run, root, leads, len) = (witness-root t i fits).0 here in
          inl (here, p, r, run, root, leads, len)
      | inr beyond ↦ inr (beyond, (witness-root t i fits).1 beyond)
    ]
