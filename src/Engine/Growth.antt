-- ===== src/Engine/Growth.antt =====
-- consensus/cryptarchia-engine/src/lib.rs, `Branches::apply_header`: the tree of blocks grows and
-- stays a tree.
use nomos_node.Prelude.{
  ℕ, ◌+◌, ◌<◌, ◌≡◌, refl, sym, ap, subst, ◌∙◌, ◌≢◌, ◌⊎◌, inl, inr, none, some, arith, ◌==◌,
  if◌then◌else◌, ==_iff, Bool-cases, nat_eq, u64_size, add64, add64-exact, ok, ◌>>=◌, ok_or,
}
use nomos_node.Prelude.Map
use nomos_node.Prelude.Map.{get, insert, contains, get-insert, contains-add, contains-delete}
use nomos_node.Engine.Branches.{Branch, Branches, parent_missing, genesis_branch, apply_header}
use nomos_node.Engine.Chain.{lookup, IsTree, Linked, root, child, Ancestor, self, above}

-- The id is new, or names a block of this parent and slot: an id commits to what it names. Genesis
-- is not applied again.
pub data Admits (g : ℕ) (bs : Branches) (header parent slot : ℕ) : Type 0 where
  fresh : header ≢ g → lookup bs header ≡ none → Admits g bs header parent slot
  known :
      (b : Branch)
      → header ≢ g
      → lookup bs header ≡ some b
      → b.parent ≡ parent
      → b.slot ≡ slot
      → Admits g bs header parent slot

-- The block that `apply_header` stores, where the parent is `p`.
abbrev pub block : ℕ → ℕ → ℕ → Branch → Branch
block header parent slot p = record {
  id = header;
  parent = parent;
  slot = slot;
  length = add64 p.length 1;
}

abbrev pub extended : Branches → ℕ → ℕ → ℕ → Branch → Branches
extended bs header parent slot p = record {
  branches = insert header (block header parent slot p) bs.branches;
  tips = Map.add header (Map.delete parent bs.tips);
}

-- A missing parent is reported, and with it the call fails; else the block is stored one longer than
-- its parent.
pub apply_header_lem :
    (bs : Branches) (header parent slot : ℕ)
    → apply_header bs header parent slot ≡ (
        ok_or (lookup bs parent) (parent_missing parent) >>= λ p.
        ok (extended bs header parent slot p))
unfolding apply_header
apply_header_lem bs header parent slot = refl

module _ {g : ℕ} {bs : Branches} (w : IsTree g bs) (header parent slot : ℕ) (p : Branch)
    (a : Admits g bs header parent slot) (e : lookup bs parent ≡ some p)
    (short : p.length + 1 < u64_size) where
  abbrev next : Branches
  next = extended bs header parent slot p

  pub lookup-extended :
      (i : ℕ)
      → lookup next i ≡ (if header == i then some (block header parent slot p) else lookup bs i)
  lookup-extended i = get-insert header i (block header parent slot p) bs.branches

  length-block : (block header parent slot p).length ≡ p.length + 1
  length-block = add64-exact p.length 1 short

  block_known :
      (b : Branch)
      → header ≢ g
      → lookup bs header ≡ some b
      → b.parent ≡ parent
      → b.slot ≡ slot
      → block header parent slot p ≡ b
  block_known b n h same_parent same_slot =
      let key = w.keyed header b h in
      elim (w.linked header b h) [
        | root r ↦ absurd (n (sym key ∙ ap (λ (x : Branch). x.id) r))
        | child q f l ↦ ground (arith, length-block, ap (lookup bs) same_parent)
      ]

  -- What was known stays as it was.
  pub lookup_kept : (i : ℕ) (b : Branch) → lookup bs i ≡ some b → lookup next i ≡ some b
  lookup_kept i b h = elim (Bool-cases (header == i)) [
    | inl hit ↦ elim a [
      | fresh n new ↦ absurd (ground (arith, ap (lookup bs) ((==_iff header i).0 hit)))
      | known c n old same_parent same_slot ↦ ground (
        arith,
        lookup-extended i,
        block_known c n old same_parent same_slot,
        ap (lookup bs) ((==_iff header i).0 hit),
      )
    ]
    | inr miss ↦ ground (arith, lookup-extended i)
  ]

  pub lookup_new : lookup next header ≡ some (block header parent slot p)
  lookup_new = ground (arith, lookup-extended header)

  Linked-extended : (b : Branch) → Linked g bs b → Linked g next b
  Linked-extended b (root r) = root r
  Linked-extended b (child q f l) = child q (lookup_kept b.parent q f) l

  Linked-block : Linked g next (block header parent slot p)
  Linked-block = child p (lookup_kept parent p e) (sym length-block)

  -- A key of the new map is the new block's, or one of the old map's.
  lookup_cases :
      (i : ℕ) (b : Branch)
      → lookup next i ≡ some b
      → ((i ≡ header) × (b ≡ block header parent slot p)) ⊎ (lookup bs i ≡ some b)
  lookup_cases i b h = elim (Bool-cases (header == i)) [
    | inl hit ↦ inl (ground arith, ground (arith, lookup-extended i))
    | inr miss ↦ inr (ground (arith, lookup-extended i))
  ]

  -- The tree of blocks stays a tree.
  pub extended-IsTree : IsTree g next
  extended-IsTree = record {
    rooted = lookup_kept g (genesis_branch g) w.rooted;
    keyed = λ i b h. elim (lookup_cases i b h) [
      | inl (at, is) ↦ ap (λ (x : Branch). x.id) is ∙ sym at
      | inr old ↦ w.keyed i b old
    ];
    linked = λ i b h. elim (lookup_cases i b h) [
      | inl (at, is) ↦ subst (Linked g next) (sym is) Linked-block
      | inr old ↦ Linked-extended b (w.linked i b old)
    ];
    in_range = λ i b h. elim (lookup_cases i b h) [
      | inl (at, is) ↦ omega (arith, ap (λ (x : Branch). x.length) is, length-block)
      | inr old ↦ w.in_range i b old
    ];
    tips_known = λ i h. elim (Bool-cases (header == i)) [
      | inl hit ↦ (block header parent slot p, ground (arith, lookup-extended i))
      | inr miss ↦
          let (b, old) = w.tips_known i (
            ground (
              arith,
              contains-add header i (Map.delete parent bs.tips),
              contains-delete parent i bs.tips,
            )) in
          (b, lookup_kept i b old)
    ];
  }

  -- Chains stay chains.
  pub Ancestor-extended : {x y : Branch} → Ancestor bs x y → Ancestor next x y
  Ancestor-extended self = self
  Ancestor-extended (above {b = y} {p = z} f r) =
      above (lookup_kept y.parent z f) (Ancestor-extended r)
