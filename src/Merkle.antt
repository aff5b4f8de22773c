-- ===== src/Merkle.antt =====
-- nomos-core/cl/src/merkle.rs: roots and paths of Merkle trees, computed in place in an array. An
-- array `[[u8; 32]; N]` with N = 2 ^ height is the function of its indices; a digest is a number.
pub mod Levels
pub mod Membership
pub mod Leaves
pub mod Samples
use nomos_node.Prelude.{
  ℕ, zero, suc, ◌+◌, ◌-◌, ◌*◌, ◌/◌, ◌%◌, ◌^◌, ◌≤◌, ◌<◌, ◌≡◌, refl, sym, ap, ap₂, subst, ◌∙◌, ◌≢◌,
  ◌↔◌, ◌⊎◌, inl, inr, Bool, true, false, not, ◌&&◌, ◌||◌, Option, none, some, List, [], ◌∷◌, ◌++◌,
  map, arith, ltb, leb, ◌==◌, if◌then◌else◌, ltb→lt, ltb→le, lt→ltb, leb→le, leb→lt, ==_iff,
  Bool-cases, Option-cases, Eq, nat_eq, length, length-append, All, In, All-In, Never, u64_size,
  u32_size, add64, sub64, sat_add64, sat_mul64, sat_sub, add64-exact, sub64-exact, sat_add64-exact,
  sat_mul64-exact, Outcome, ok, err, panic, timeout, ◌>>=◌, ◌>>◌, ok_or, unwrap, guard, assert,
  >>=-eq-ok,
}

-- SHA-256 with the prefixes of the two kinds of nodes; `Data` is the bytes of a leaf's element.
pub record Hasher : Type 1 where
  pub Data : Type 0
  pub leaf : Data → ℕ
  pub node : ℕ → ℕ → ℕ

abbrev pub Nodes : Type 0
Nodes = ℕ → ℕ

-- `nodes[i] = v`
abbrev pub store : Nodes → ℕ → ℕ → Nodes
store nodes i v j = if i == j then v else nodes j

pub data PathNode : Type 0 where
  left : ℕ → PathNode
  right : ℕ → PathNode

module _ ⦃sha : Hasher⦄ where
  -- `for (i, element) in elements.iter().enumerate() { assert!(i < N); leaves[i] = leaf(element) }`
  unfoldable pub fill_leaves {ℓ} : {E : Type ℓ} → ℕ → ℕ → Nodes → List sha.Data → Outcome E Nodes
  fill_leaves size i leaves [] = ok leaves
  fill_leaves size i leaves (element ∷ elements) =
      let rest = fill_leaves size (i + 1) (store leaves i (sha.leaf element)) elements in
      if ltb i size then rest else panic

  unfoldable pub padded_leaves {ℓ} : {E : Type ℓ} → ℕ → List sha.Data → Outcome E Nodes
  padded_leaves size elements = fill_leaves size 0 (λ _. 0) elements

  -- `for i in 0..n { nodes[i] = node(nodes[i * 2], nodes[i * 2 + 1]) }`: `n` rounds from `i` on
  unfoldable pub sweep : ℕ → ℕ → Nodes → Nodes
  sweep zero i nodes = nodes
  sweep (suc n) i nodes =
      sweep n (i + 1) (store nodes i (sha.node (nodes (i * 2)) (nodes (i * 2 + 1))))

  -- `for h in (1..=height).rev()`
  unfoldable pub root_loop : ℕ → Nodes → Nodes
  root_loop zero nodes = nodes
  root_loop (suc h) nodes = root_loop h (sweep (2 ^ h) 0 nodes)

  unfoldable pub root : ℕ → Nodes → ℕ
  root height elements = root_loop height elements 0

  unfoldable pub path_root : ℕ → List PathNode → ℕ
  path_root computed_hash [] = computed_hash
  path_root computed_hash (left sibling_hash ∷ path) =
      path_root (sha.node sibling_hash computed_hash) path
  path_root computed_hash (right sibling_hash ∷ path) =
      path_root (sha.node computed_hash sibling_hash) path

  -- The sibling of `idx`, on the side on which it stands.
  abbrev pub sibling : Nodes → ℕ → PathNode
  sibling nodes idx = if (idx % 2) == 0 then right (nodes (idx + 1)) else left (nodes (idx - 1))

  unfoldable pub path_loop : ℕ → Nodes → ℕ → List PathNode
  path_loop zero nodes idx = []
  path_loop (suc h) nodes idx = sibling nodes idx ∷ path_loop h (sweep (2 ^ h) 0 nodes) (idx / 2)

  unfoldable pub path {ℓ} : {E : Type ℓ} → ℕ → Nodes → ℕ → Outcome E (List PathNode)
  path height leaves idx = do assert (ltb idx (2 ^ height)); ok (path_loop height leaves idx)
