-- ===== src/Merkle/Samples.antt =====
-- A tree of four leaves under a toy hash, and the theorems at it.
use nomos_node.Prelude.{
  ℕ, ◌+◌, ◌*◌, ◌^◌, ◌≤◌, ◌<◌, ◌≡◌, refl, ◌⊎◌, List, [], ◌∷◌, nat_eq, length, ok, panic,
}
use nomos_node.Merkle.{
  Hasher, Nodes, PathNode, left, right, root, root_loop, sweep, path, path_loop, path_root,
}
use nomos_node.Merkle.Levels.{subtree, root-subtree}
use nomos_node.Merkle.Membership.{path_total, path_root-binding, Collision}

pub pair : ℕ → ℕ → ℕ
pair a b = (a + b) * (a + b) + a

-- A hash that the examples can compute.
instance abbrev pub toy : Hasher
toy = record { Data = ℕ; leaf = λ x. x + 1; node = pair }

abbrev nodes : Nodes
nodes i = i + 5

path_runs : path {E = ℕ} 2 nodes 2 ≡ ok (right 8 ∷ left (5 + 11 * 11) ∷ [])
unfolding path path_loop sweep pair
path_runs = refl

root_runs : path_root 7 (right 8 ∷ left (5 + 11 * 11) ∷ []) ≡ root 2 nodes
unfolding path_root root root_loop sweep pair
root_runs = refl

root-subtree_example : root 2 nodes ≡ subtree 2 nodes 0
root-subtree_example = root-subtree 2 nodes

path_total_example :
    ((2 < 2 ^ 2)
      × (p : List PathNode) × (path {E = ℕ} 2 nodes 2 ≡ ok p)
      × (path_root 7 p ≡ root 2 nodes)
      × (length p ≡ 2))
    ⊎ ((2 ^ 2 ≤ 2) × (path {E = ℕ} 2 nodes 2 ≡ panic))
path_total_example = path_total 2 nodes 2

path_root-binding_example :
    ((◌≡◌ {A = ℕ} 7 7) × (◌≡◌ {A = List PathNode} (right 8 ∷ []) (right 8 ∷ []))) ⊎ Collision
path_root-binding_example = path_root-binding 7 7 (right 8 ∷ []) (right 8 ∷ []) tt refl
