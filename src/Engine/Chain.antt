-- ===== src/Engine/Chain.antt =====
-- consensus/cryptarchia-engine/src/lib.rs: what makes the map of blocks a tree of chains that all
-- start at genesis, and the relation between a block and the blocks that it builds on.
use nomos_node.Prelude.{
  ℕ, ◌+◌, ◌≤◌, ◌<◌, ◌≡◌, refl, ap, subst, ◌∙◌, true, Option, some, arith, nat_eq, u64_size,
}
use nomos_node.Prelude.Map.{get, contains}
use nomos_node.Engine.Branches.{Branch, Branches, genesis_branch, from_genesis}

abbrev pub lookup : Branches → ℕ → Option Branch
lookup bs i = get i bs.branches

-- A block is genesis, or builds on a block that is one shorter.
pub data Linked (g : ℕ) (bs : Branches) (b : Branch) : Type 0 where
  root : b ≡ genesis_branch g → Linked g bs b
  child : (p : Branch) → lookup bs b.parent ≡ some p → p.length + 1 ≡ b.length → Linked g bs b

pub record IsTree (g : ℕ) (bs : Branches) : Type 0 where
  pub rooted : lookup bs g ≡ some (genesis_branch g)
  pub keyed : (i : ℕ) (b : Branch) → lookup bs i ≡ some b → b.id ≡ i
  pub linked : (i : ℕ) (b : Branch) → lookup bs i ≡ some b → Linked g bs b
  pub in_range : (i : ℕ) (b : Branch) → lookup bs i ≡ some b → b.length < u64_size
  pub tips_known : (i : ℕ) → contains i bs.tips ≡ true → (b : Branch) × (lookup bs i ≡ some b)

-- `b` is in the map, under its own id.
abbrev pub Known : Branches → Branch → Type 0
Known bs b = lookup bs b.id ≡ some b

-- `Ancestor bs a b`: from `b`, following parents leads to `a`.
pub data Ancestor (bs : Branches) (a : Branch) : Branch → Type 0 where
  self : Ancestor bs a a
  above : {b p : Branch} → lookup bs b.parent ≡ some p → Ancestor bs a p → Ancestor bs a b

-- The map after genesis alone.
pub from_genesis-IsTree : (g : ℕ) → IsTree g (from_genesis g)
unfolding from_genesis get contains
from_genesis-IsTree g = record {
  rooted = ground arith;
  keyed = λ i b h. ground arith;
  linked = λ i b h. root (ground arith);
  in_range = λ i b h. ground arith;
  tips_known = λ i h. (genesis_branch g, ground arith);
}

module _ {g : ℕ} {bs : Branches} (w : IsTree g bs) where
  pub parent-Known :
      {b : Branch} → Known bs b → (p : Branch) × (lookup bs b.parent ≡ some p) × Known bs p
  parent-Known {b} k = elim (w.linked b.id b k) [
    | root e ↦ (genesis_branch g, rw e w.rooted, w.rooted)
    | child p e l ↦ (p, e, ap (lookup bs) (w.keyed b.parent p e) ∙ e)
  ]

  -- Above length 0 the parent is one shorter.
  pub length-parent :
      (b p : Branch)
      → Known bs b
      → lookup bs b.parent ≡ some p
      → 0 < b.length
      → p.length + 1 ≡ b.length
  length-parent b p k e h = elim (w.linked b.id b k) [
    | root r ↦ absurd (omega (arith, ap (λ (x : Branch). x.length) r))
    | child q f l ↦ ground arith
  ]

  -- Only genesis has length 0.
  pub eq_genesis : (b : Branch) → Known bs b → b.length ≡ 0 → b ≡ genesis_branch g
  eq_genesis b k h = elim (w.linked b.id b k) [ root r ↦ r | child q f l ↦ absurd (omega arith) ]

  pub Known-parent : (b p : Branch) → lookup bs b.parent ≡ some p → Known bs p
  Known-parent b p e = ap (lookup bs) (w.keyed b.parent p e) ∙ e

  -- The parent of genesis is genesis.
  pub parent_genesis : (b p : Branch) → b ≡ genesis_branch g → lookup bs b.parent ≡ some p → p ≡ b
  parent_genesis b p r e =
      let f : lookup bs g ≡ some p = cc (e, ap (λ (x : Branch). lookup bs x.parent) r) in
      ground (arith, w.rooted)

  length-parent_le : (b p : Branch) → Known bs b → lookup bs b.parent ≡ some p → p.length ≤ b.length
  length-parent_le b p k e = elim (w.linked b.id b k) [
    | root r ↦ omega (arith, ap (λ (x : Branch). x.length) (parent_genesis b p r e))
    | child q f l ↦ ground arith
  ]

  pub length-Ancestor : (a b : Branch) → Known bs b → Ancestor bs a b → a.length ≤ b.length
  length-Ancestor a b k self = omega arith
  length-Ancestor a b k (above {p = p} e r) =
      omega (arith, length-Ancestor a p (Known-parent b p e) r, length-parent_le b p k e)

  -- An ancestor as long as the block is the block.
  pub Ancestor-same_length :
      (a b : Branch) → Known bs b → Ancestor bs a b → b.length ≤ a.length → a ≡ b
  Ancestor-same_length a b k self h = refl
  Ancestor-same_length a b k (above {p = p} e r) h = elim (w.linked b.id b k) [
    | root q ↦
        let same = parent_genesis b p q e in
        Ancestor-same_length a p (Known-parent b p e) r
          (omega (arith, ap (λ (x : Branch). x.length) same))
        ∙ same
    | child q f l ↦ absurd (ground (arith, length-Ancestor a p (Known-parent b p e) r))
  ]

  -- A strictly shorter ancestor is an ancestor of the parent.
  pub Ancestor-parent :
      (a b p : Branch)
      → lookup bs b.parent ≡ some p
      → Ancestor bs a b
      → a.length < b.length
      → Ancestor bs a p
  Ancestor-parent a b p e self h = absurd (omega arith)
  Ancestor-parent a b p e (above {p = q} f r) h =
      let same : q ≡ p = ground arith in subst (Ancestor bs a) same r

  pub Known-Ancestor : (a b : Branch) → Known bs b → Ancestor bs a b → Known bs a
  Known-Ancestor a b k self = k
  Known-Ancestor a b k (above {p = p} e r) = Known-Ancestor a p (Known-parent b p e) r

pub Ancestor-trans :
    {bs : Branches} {a b c : Branch} → Ancestor bs a b → Ancestor bs b c → Ancestor bs a c
Ancestor-trans r self = r
Ancestor-trans r (above e s) = above e (Ancestor-trans r s)
