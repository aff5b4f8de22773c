-- ===== src/Engine/Branches.antt =====
-- consensus/cryptarchia-engine/src/lib.rs, `Branch` and `Branches`. A block's id is a number: the
-- code only compares ids. Indexing `self.branches[..]` at a missing id panics.
use nomos_node.Prelude.{
  ℕ, zero, suc, List, [], ◌∷◌, Outcome, ok, timeout, ◌>>=◌, unwrap, ok_or, ltb, ◌==◌, if◌then◌else◌,
  add64, nat_eq,
}
use nomos_node.Prelude.Map.{Map, get, insert, add, delete}

pub record Branch : Type 0 where
  pub id : ℕ
  pub parent : ℕ
  pub slot : ℕ
  pub length : ℕ

pub record Branches : Type 0 where
  pub branches : Map ℕ Branch
  pub tips : List ℕ

pub data Error : Type 0 where
  parent_missing : ℕ → Error
  orphan_missing : ℕ → Error

abbrev pub genesis_branch : ℕ → Branch
genesis_branch genesis = record { id = genesis; parent = genesis; slot = 0; length = 0 }

unfoldable pub from_genesis : ℕ → Branches
unfolding insert add
from_genesis genesis = record {
  branches = insert genesis (genesis_branch genesis) [];
  tips = genesis ∷ [];
}

unfoldable pub apply_header : Branches → ℕ → ℕ → ℕ → Outcome Error Branches
apply_header self header parent slot = do
  p ← ok_or (get parent self.branches) (parent_missing parent)
  let length = add64 p.length 1
  ok (record {
    branches =
        insert header (record { id = header; parent = parent; slot = slot; length = length })
          self.branches;
    tips = add header (delete parent self.tips);
  })

-- `&self.branches[&id]`
abbrev pub fetch : Branches → ℕ → Outcome Error Branch
fetch self id = unwrap (get id self.branches)

-- The tips' branches, in the order `ids` in which the set of tips is iterated.
unfoldable pub fetch_all : Branches → List ℕ → Outcome Error (List Branch)
fetch_all self [] = ok []
fetch_all self (id ∷ ids) = do b ← fetch self id; bs ← fetch_all self ids; ok (b ∷ bs)

-- `while b.length > length { b = parent of b }`
unfoldable pub climb : ℕ → Branches → Branch → ℕ → Outcome Error Branch
climb zero self b length = if ltb length b.length then timeout else ok b
climb (suc fuel) self b length =
    let rest = (do p ← fetch self b.parent; climb fuel self p length) in
    if ltb length b.length then rest else ok b

-- `while b1.id != b2.id { b1 = parent of b1; b2 = parent of b2 }`
unfoldable pub meet : ℕ → Branches → Branch → Branch → Outcome Error Branch
meet zero self b1 b2 = if b1.id == b2.id then ok b1 else timeout
meet (suc fuel) self b1 b2 =
    let rest = (do p1 ← fetch self b1.parent; p2 ← fetch self b2.parent; meet fuel self p1 p2) in
    if b1.id == b2.id then ok b1 else rest

-- The lowest common ancestor. Each loop takes at most as many steps as its branch is long.
unfoldable pub lca : Branches → Branch → Branch → Outcome Error Branch
lca self b1 b2 = do
  c1 ← climb b1.length self b1 b2.length
  c2 ← climb b2.length self b2 c1.length
  meet c1.length self c1 c2

-- `while current.slot > slot { current = parent of current }`
unfoldable pub walk_back : ℕ → Branches → Branch → ℕ → Outcome Error Branch
walk_back zero self b slot = if ltb slot b.slot then timeout else ok b
walk_back (suc fuel) self b slot =
    let rest = (do p ← fetch self b.parent; walk_back fuel self p slot) in
    if ltb slot b.slot then rest else ok b

unfoldable pub walk_back_before : Branches → Branch → ℕ → Outcome Error Branch
walk_back_before self b slot = walk_back b.length self b slot
