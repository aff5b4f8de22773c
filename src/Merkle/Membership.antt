-- ===== src/Merkle/Membership.antt =====
-- nomos-core/cl/src/merkle.rs, `path` and `path_root`: a path leads from its leaf to the root.
use nomos_node.Prelude.{
  ℕ, zero, suc, ◌+◌, ◌-◌, ◌*◌, ◌/◌, ◌%◌, ◌^◌, ◌≤◌, ◌<◌, ◌≡◌, refl, sym, ap, ap₂, ◌∙◌, ◌≢◌, ◌⊎◌, inl,
  inr, false, ◌&&◌, List, [], ◌∷◌, arith, ◌==◌, lt→ltb, le→ltb, lt_or_le, Bool-cases, nat_eq,
  length, ok, panic,
}
use native.Mathlib.Nat.{pow-suc}
use nomos_node.Merkle.{
  Hasher, Nodes, PathNode, left, right, sibling, sweep, root_loop, root, path, path_loop, path_root,
}
use nomos_node.Merkle.Levels.{level_up, sweep-level_up}

-- The two paths turn the same way at each level.
abbrev pub SameTurns : List PathNode → List PathNode → Type 0
SameTurns [] [] = Unit
SameTurns (left a ∷ p) (left b ∷ q) = SameTurns p q
SameTurns (right a ∷ p) (right b ∷ q) = SameTurns p q
SameTurns _ _ = ⊥

module _ ⦃sha : Hasher⦄ where
  -- One step of the path: the hash with the sibling is the parent node.
  path_root-sibling :
      (nodes : Nodes) (idx : ℕ) (rest : List PathNode)
      → path_root (nodes idx) (sibling nodes idx ∷ rest) ≡ path_root (level_up nodes (idx / 2)) rest
  unfolding path_root
  path_root-sibling nodes idx rest = elim (Bool-cases ((idx % 2) == 0)) [
    | inl even ↦
        let e : idx / 2 * 2 ≡ idx = ground arith in
        rw even
          (ap (λ x. path_root x rest) (sym (ap₂ sha.node (ap nodes e) (ap (λ x. nodes (x + 1)) e))))
    | inr odd ↦
        let e1 : idx / 2 * 2 ≡ idx - 1 = ground arith in
        let e2 : idx / 2 * 2 + 1 ≡ idx = ground arith in
        rw odd (ap (λ x. path_root x rest) (sym (ap₂ sha.node (ap nodes e1) (ap nodes e2))))
  ]

  path_loop_lem :
      (h idx : ℕ) (nodes : Nodes)
      → idx < 2 ^ h
      → path_root (nodes idx) (path_loop h nodes idx) ≡ root_loop h nodes 0
  unfolding root_loop path_loop
  path_loop_lem zero idx nodes k = unfold path_root in ap nodes (omega arith)
  path_loop_lem (suc h) idx nodes k =
      let half : idx / 2 < 2 ^ h = omega (arith, pow-suc 2 h) in
      let next = sweep (2 ^ h) 0 nodes in
      path_root-sibling nodes idx (path_loop h next (idx / 2))
      ∙ ap (λ x. path_root x (path_loop h next (idx / 2)))
          (sym (sweep-level_up (2 ^ h) nodes (idx / 2) half))
      ∙ path_loop_lem h (idx / 2) next half

  length-path_loop : (h idx : ℕ) (nodes : Nodes) → length (path_loop h nodes idx) ≡ h
  unfolding path_loop
  length-path_loop zero idx nodes = refl
  length-path_loop (suc h) idx nodes = ap suc (length-path_loop h (idx / 2) (sweep (2 ^ h) 0 nodes))

  -- Every index of the tree has a path, as long as the tree is high, that leads from its leaf to the
  -- root; an index out of range panics.
  pub path-path_root {ℓ} :
      {E : Type ℓ} (height : ℕ) (leaves : Nodes) (idx : ℕ)
      → (idx < 2 ^ height
          → (p : List PathNode) × (path {E = E} height leaves idx ≡ ok p)
            × (path_root (leaves idx) p ≡ root height leaves)
            × (length p ≡ height))
        × (2 ^ height ≤ idx → path {E = E} height leaves idx ≡ panic)
  unfolding path root
  path-path_root height leaves idx = (
    λ h. (
      path_loop height leaves idx,
      rw (lt→ltb idx (2 ^ height) h),
      path_loop_lem height idx leaves h,
      length-path_loop height idx leaves,
    ),
    λ h. rw (le→ltb idx (2 ^ height) h),
  )

  -- For an index in range `path` returns a path, as long as the tree is high, that leads from the leaf at the index
  -- to the tree's root; for an index out of range it panics.
  pub path_total {ℓ} :
      {E : Type ℓ} (height : ℕ) (leaves : Nodes) (idx : ℕ)
      → ((idx < 2 ^ height)
          × (p : List PathNode) × (path {E = E} height leaves idx ≡ ok p)
          × (path_root (leaves idx) p ≡ root height leaves)
          × (length p ≡ height))
        ⊎ ((2 ^ height ≤ idx) × (path {E = E} height leaves idx ≡ panic))
  path_total height leaves idx = elim (lt_or_le idx (2 ^ height)) [
    | inl lt ↦
        let (p, run, leads, len) = (path-path_root height leaves idx).0 lt in
        inl (lt, p, run, leads, len)
    | inr ge ↦ inr (ge, (path-path_root height leaves idx).1 ge)
  ]

  -- Two different pairs of nodes with one hash.
  pub record Collision : Type 0 where
    pub first : ℕ × ℕ
    pub second : ℕ × ℕ
    pub same_hash : sha.node first.0 first.1 ≡ sha.node second.0 second.1
    pub differ : first ≢ second

  alike : {a x b y : ℕ} → a ≡ b → x ≡ y → ((a == b) && (x == y)) ≡ false → ⊥
  alike p q h = ground arith

  binding_step : (a x b y : ℕ) → sha.node a x ≡ sha.node b y → ((a ≡ b) × (x ≡ y)) ⊎ Collision
  binding_step a x b y h = elim (Bool-cases ((a == b) && (x == y))) [
    | inl same ↦ inl (ground arith)
    | inr other ↦ inr (record {
      first = (a, x);
      second = (b, y);
      same_hash = h;
      differ = λ e. alike (ap (λ v. v.0) e) (ap (λ v. v.1) e) other;
    })
  ]

  -- Two paths with the same turns that lead from two leaves to one root are the same path from the same leaf,
  -- or a collision of the hash is found.
  pub path_root-binding :
      (x y : ℕ) (p q : List PathNode)
      → SameTurns p q
      → path_root x p ≡ path_root y q
      → ((x ≡ y) × (p ≡ q)) ⊎ Collision
  unfolding path_root
  path_root-binding x y [] [] t e = inl (e, refl)
  path_root-binding x y (left a ∷ p) (left b ∷ q) t e =
      elim (path_root-binding (sha.node a x) (sha.node b y) p q t e) [
        | inr c ↦ inr c
        | inl (e', pq) ↦ elim (binding_step a x b y e') [
          | inr c ↦ inr c
          | inl (ab, xy) ↦ inl (xy, ap₂ ◌∷◌ (ap left ab) pq)
        ]
      ]
  path_root-binding x y (right a ∷ p) (right b ∷ q) t e =
      elim (path_root-binding (sha.node x a) (sha.node y b) p q t e) [
        | inr c ↦ inr c
        | inl (e', pq) ↦ elim (binding_step x a y b e') [
          | inr c ↦ inr c
          | inl (xy, ab) ↦ inl (xy, ap₂ ◌∷◌ (ap right ab) pq)
        ]
      ]
  path_root-binding x y _ _ t e = absurd t
