-- ===== src/Engine/Cryptarchia.antt =====
-- consensus/cryptarchia-engine/src/lib.rs, `Cryptarchia`: the fork choice rule. The set of tips is
-- iterated in an order that Rust does not specify, the argument `order`.
use nomos_node.Prelude.{
  ℕ, zero, suc, Option, none, some, List, [], ◌∷◌, Outcome, ok, ◌>>=◌, leb, ltb, ◌==◌,
  if◌then◌else◌, add64, sub64, nat_eq,
}
use nomos_node.Prelude.Map.{get}
use nomos_node.Engine.Time.{FloatOps, Config, s}
use nomos_node.Engine.Branches.{
  Branch, Branches, Error, genesis_branch, from_genesis, apply_header, fetch_all, lca,
  walk_back_before,
}

-- The chain with more blocks up to `s` slots after the fork; `cmax` where they have as many.
unfoldable pub denser : Branches → ℕ → Branch → Branch → Branch → Outcome Error Branch
denser branches s ancestor cmax chain = do
  let density_slot = add64 ancestor.slot s
  ours ← walk_back_before branches cmax density_slot
  theirs ← walk_back_before branches chain density_slot
  ok (if ltb ours.length theirs.length then chain else cmax)

-- One round of the loop of `maxvalid_bg`: `chain` replaces `cmax` or not. `k` is the depth of fork
-- that needs no analysis, `s` the number of slots after the fork in which density counts.
unfoldable pub prefer : Branches → ℕ → ℕ → Branch → Branch → Outcome Error Branch
prefer branches k s cmax chain = do
  ancestor ← lca branches cmax chain
  let m = sub64 cmax.length ancestor.length
  let longer = if ltb cmax.length chain.length then chain else cmax
  if leb m k then ok longer else denser branches s ancestor cmax chain

unfoldable pub maxvalid_bg : Branches → ℕ → ℕ → Branch → List Branch → Outcome Error Branch
maxvalid_bg branches k s cmax [] = ok cmax
maxvalid_bg branches k s cmax (chain ∷ forks) = do
  cmax' ← prefer branches k s cmax chain
  maxvalid_bg branches k s cmax' forks

-- The body of `get_security_block_header_id`, `n` times; `none` ends the fold.
unfoldable pub climb_parents : ℕ → Branches → ℕ → Option ℕ
climb_parents zero self header = some header
climb_parents (suc n) self header = elim (get header self.branches) [
  | none ↦ none
  | some branch ↦ if header == branch.parent then none else climb_parents n self branch.parent
]

module _ ⦃fl : FloatOps⦄ where
  pub record Cryptarchia : Type 0 where
    pub local_chain : Branch
    pub branches : Branches
    pub config : Config
    pub genesis : ℕ

  -- `Cryptarchia::new`
  unfoldable pub start : ℕ → Config → Cryptarchia
  start id config = record {
    local_chain = genesis_branch id;
    branches = from_genesis id;
    config = config;
    genesis = id;
  }

  abbrev pub tip : Cryptarchia → ℕ
  tip self = self.local_chain.id

  module _ (order : List ℕ → List ℕ) where
    unfoldable pub fork_choice : Cryptarchia → Outcome Error Branch
    fork_choice self = do
      window ← s self.config
      forks ← fetch_all self.branches (order self.branches.tips)
      maxvalid_bg self.branches self.config.security_param window self.local_chain forks

    unfoldable pub receive_block : Cryptarchia → ℕ → ℕ → ℕ → Outcome Error Cryptarchia
    receive_block self id parent slot = do
      branches ← apply_header self.branches id parent slot
      let new = record self { branches = branches }
      local_chain ← fork_choice new
      ok (record new { local_chain = local_chain })

  unfoldable pub get_security_block_header_id : Cryptarchia → Option ℕ
  get_security_block_header_id self =
      climb_parents self.config.security_param self.branches (tip self)
