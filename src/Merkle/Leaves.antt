-- ===== src/Merkle/Leaves.antt =====
-- nomos-core/cl/src/merkle.rs, `padded_leaves`.
use nomos_node.Prelude.{
  ℕ, zero, suc, ◌+◌, ◌≤◌, ◌<◌, ◌≡◌, refl, sym, ap, ◌∙◌, ◌⊎◌, inl, inr, List, [], ◌∷◌, arith, ltb,
  lt→ltb, lt_or_le, Bool-cases, nat_eq, length, ok, panic,
}
use nomos_node.Merkle.{Hasher, Nodes, store, fill_leaves, padded_leaves}

module _ ⦃sha : Hasher⦄ where
  -- The leaf at an index: the element's hash, and zero behind the last element.
  abbrev pub leaf_or : List sha.Data → ℕ → ℕ → ℕ
  leaf_or [] j d = d
  leaf_or (x ∷ xs) zero d = sha.leaf x
  leaf_or (x ∷ xs) (suc j) d = leaf_or xs j d

  leaf_or_below : (xs : List sha.Data) (j d : ℕ) → length xs ≤ j → leaf_or xs j d ≡ d
  leaf_or_below [] j d h = refl
  leaf_or_below (x ∷ xs) zero d h = absurd (omega arith)
  leaf_or_below (x ∷ xs) (suc j) d h = leaf_or_below xs j d (omega arith)

  filled :
      (i : ℕ) (leaves out : Nodes) (x : sha.Data) (xs : List sha.Data)
      → ((j : ℕ) → out (i + 1 + j) ≡ leaf_or xs j (store leaves i (sha.leaf x) (i + 1 + j)))
      → out i ≡ store leaves i (sha.leaf x) i
      → (j : ℕ) → out (i + j) ≡ leaf_or (x ∷ xs) j (leaves (i + j))
  filled i leaves out x xs at here zero =
      let e : i + 0 ≡ i = omega arith in ap out e ∙ here ∙ ground arith
  filled i leaves out x xs at here (suc j) =
      let e : i + suc j ≡ i + 1 + j = omega arith in
      let miss : store leaves i (sha.leaf x) (i + 1 + j) ≡ leaves (i + 1 + j) = ground arith in
      ap out e ∙ at j ∙ ap (leaf_or xs j) (miss ∙ ap leaves (sym e))

  fill_leaves_lem {ℓ} :
      {E : Type ℓ} (size i : ℕ) (leaves : Nodes) (xs : List sha.Data)
      → i + length xs ≤ size
      → (out : Nodes) × (fill_leaves {E = E} size i leaves xs ≡ ok out)
        × ((j : ℕ) → out (i + j) ≡ leaf_or xs j (leaves (i + j)))
        × ((j : ℕ) → j < i → out j ≡ leaves j)
  unfolding fill_leaves
  fill_leaves_lem {E} size i leaves [] h = (leaves, refl, λ j. refl, λ j _. refl)
  fill_leaves_lem {E} size i leaves (x ∷ xs) h =
      let (out, run, at, before) =
        fill_leaves_lem {E = E} size (i + 1) (store leaves i (sha.leaf x)) xs (omega arith) in
      (
        out,
        rw (lt→ltb i size (omega arith)) run,
        filled i leaves out x xs at (before i (omega arith)),
        λ j lt. before j (omega arith) ∙ ground arith,
      )

  fill_leaves_full {ℓ} :
      {E : Type ℓ} (size i : ℕ) (leaves : Nodes) (xs : List sha.Data)
      → i ≤ size
      → size < i + length xs
      → fill_leaves {E = E} size i leaves xs ≡ panic
  unfolding fill_leaves
  fill_leaves_full size i leaves [] h k = absurd (omega arith)
  fill_leaves_full size i leaves (x ∷ xs) h k = elim (Bool-cases (ltb i size)) [
    | inl lt ↦ rw lt (
        fill_leaves_full size (i + 1) (store leaves i (sha.leaf x)) xs (ground arith) (omega arith))
    | inr ge ↦ rw ge
  ]

  -- The leaves are the elements' hashes in order, then zeros; too many elements panic.
  pub padded_leaves_lem {ℓ} :
      {E : Type ℓ} (size : ℕ) (xs : List sha.Data)
      → (length xs ≤ size
          → (out : Nodes) × (padded_leaves {E = E} size xs ≡ ok out)
            × ((j : ℕ) → out j ≡ leaf_or xs j 0))
        × (size < length xs → padded_leaves {E = E} size xs ≡ panic)
  unfolding padded_leaves
  padded_leaves_lem {E} size xs = (
    λ h.
        let (out, run, at, before) = fill_leaves_lem {E = E} size 0 (λ _. 0) xs (omega arith) in
        (out, run, λ j. ap out (omega arith) ∙ at j),
    λ h. fill_leaves_full size 0 (λ _. 0) xs (omega arith) (omega arith),
  )

  -- Elements that fit the tree become the leaves: their hashes in order, then zeros; too many elements panic.
  padded_leaves_total {ℓ} :
      {E : Type ℓ} (size : ℕ) (xs : List sha.Data)
      → ((length xs ≤ size)
          × (out : Nodes) × (padded_leaves {E = E} size xs ≡ ok out)
          × ((j : ℕ) → out j ≡ leaf_or xs j 0))
        ⊎ ((size < length xs) × (padded_leaves {E = E} size xs ≡ panic))
  padded_leaves_total size xs = elim (lt_or_le size (length xs)) [
    | inl many ↦ inr (many, (padded_leaves_lem size xs).1 many)
    | inr fit ↦ let (out, run, at) = (padded_leaves_lem size xs).0 fit in inl (fit, out, run, at)
  ]
