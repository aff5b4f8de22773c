-- ===== src/Merkle/Levels.antt =====
-- nomos-core/cl/src/merkle.rs, the loops of `root` and `padded_leaves`: the sweep over a level in
-- place, and the root as the recursive hash of the tree.
use nomos_node.Prelude.{
  ℕ, zero, suc, ◌+◌, ◌*◌, ◌^◌, ◌≤◌, ◌<◌, ◌≡◌, refl, ap, ap₂, ◌∙◌, inl, inr, arith, ◌==◌, Bool-cases,
  nat_eq,
}
use native.Mathlib.Nat.{pow-suc}
use nomos_node.Merkle.{Hasher, Nodes, store, sweep, root_loop, root}

module _ ⦃sha : Hasher⦄ where
  -- The hash of the subtree of height `h` whose root stands at index `i` of its level.
  unfoldable pub subtree : ℕ → Nodes → ℕ → ℕ
  subtree zero leaves i = leaves i
  subtree (suc h) leaves i = sha.node (subtree h leaves (i * 2)) (subtree h leaves (i * 2 + 1))

  -- One level up: each node is the hash of its two children.
  abbrev pub level_up : Nodes → Nodes
  level_up nodes i = sha.node (nodes (i * 2)) (nodes (i * 2 + 1))

  store_miss : (nodes : Nodes) (i v j : ℕ) → i < j → store nodes i v j ≡ nodes j
  store_miss nodes i v j h = ground arith

  -- The sweep overwrites no node before it has been read.
  pub sweep_lem :
      (n i : ℕ) (nodes : Nodes) (j : ℕ)
      → (i ≤ j → j < i + n → sweep n i nodes j ≡ level_up nodes j)
        × (j < i → sweep n i nodes j ≡ nodes j)
  unfolding sweep
  sweep_lem zero i nodes j = (λ a b. absurd (omega arith), λ _. refl)
  sweep_lem (suc n) i nodes j =
      let v = level_up nodes i in
      let ih = sweep_lem n (i + 1) (store nodes i v) j in
      (
        λ a b. elim (Bool-cases (i == j)) [
          | inl eq ↦
              let e : i ≡ j = ground arith in ih.1 (omega arith) ∙ (rw eq (ap (level_up nodes) e))
          | inr ne ↦
              let lt : i < j = ground arith in
              ih.0 (omega arith) (omega arith)
              ∙ ap₂ sha.node (store_miss nodes i v (j * 2) (omega arith))
                  (store_miss nodes i v (j * 2 + 1) (omega arith))
        ],
        λ a. ih.1 (omega arith) ∙ ground arith,
      )

  pub sweep-level_up :
      (n : ℕ) (nodes : Nodes) (j : ℕ) → j < n → sweep n 0 nodes j ≡ level_up nodes j
  sweep-level_up n nodes j h = (sweep_lem n 0 nodes j).0 (omega arith) (omega arith)

  -- A subtree hangs on its own leaves only.
  subtree_congr :
      (m k i : ℕ) (f g : Nodes)
      → ((j : ℕ) → j < m → f j ≡ g j)
      → (i + 1) * 2 ^ k ≤ m
      → subtree k f i ≡ subtree k g i
  unfolding subtree
  subtree_congr m zero i f g same h = same i (omega arith)
  subtree_congr m (suc k) i f g same h =
      let h' : (i + 1) * (2 ^ k * 2) ≤ m = rw (pow-suc 2 k) at h in
      ap₂ sha.node (subtree_congr m k (i * 2) f g same (omega arith))
        (subtree_congr m k (i * 2 + 1) f g same (omega arith))

  subtree-level_up : (k i : ℕ) (f : Nodes) → subtree k (level_up f) i ≡ subtree (suc k) f i
  unfolding subtree
  subtree-level_up zero i f = refl
  subtree-level_up (suc k) i f =
      ap₂ sha.node (subtree-level_up k (i * 2) f) (subtree-level_up k (i * 2 + 1) f)

  root_loop-subtree : (h : ℕ) (nodes : Nodes) → root_loop h nodes 0 ≡ subtree h nodes 0
  unfolding root_loop
  root_loop-subtree zero nodes = unfold subtree in refl
  root_loop-subtree (suc h) nodes =
      root_loop-subtree h (sweep (2 ^ h) 0 nodes)
      ∙ subtree_congr (2 ^ h) h 0 (sweep (2 ^ h) 0 nodes) (level_up nodes)
          (sweep-level_up (2 ^ h) nodes) (omega arith)
      ∙ subtree-level_up h 0 nodes

  -- The root that the loop computes in place is the recursive hash of the tree over the leaves.
  pub root-subtree : (height : ℕ) (leaves : Nodes) → root height leaves ≡ subtree height leaves 0
  unfolding root
  root-subtree height leaves = root_loop-subtree height leaves
