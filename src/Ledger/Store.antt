-- ===== src/Ledger/Store.antt =====
-- ledger/nomos-ledger/src/lib.rs, `Ledger`: the ledger state after each block.
use nomos_node.Prelude.{ℕ, List, [], ◌∷◌, map, nat_eq, Outcome, ok, ◌>>=◌, ◌>>◌, ok_or, guard}
use nomos_node.Prelude.Map
use nomos_node.Prelude.Map.{Map, get, contains_key}
use nomos_node.Engine.Time.{FloatOps}
use nomos_node.Merkle.{Hasher}
use nomos_node.Ledger.Config.{Config}
use nomos_node.Ledger.State.{
  LedgerState, LeaderProof, OrphanProof, Crypto, LedgerError, parent_not_found, orphan_missing,
  try_update_state,
}

module _ ⦃fl : FloatOps⦄ ⦃sha : Hasher⦄ where
  pub record Ledger : Type 0 where
    pub states : Map ℕ LedgerState
    pub config : Config

  -- `Ledger::new`
  unfoldable pub new_ledger : ℕ → LedgerState → Config → Ledger
  new_ledger id state config = record { states = (id, state) ∷ []; config = config }

  -- `for orphan_id in orphan_ids`
  unfoldable pub check_orphans :
      Map ℕ LedgerState → List (ℕ × OrphanProof) → Outcome LedgerError (Unit {0})
  check_orphans states [] = ok tt
  check_orphans states ((orphan_id, _) ∷ orphans) = do
    guard (contains_key orphan_id states) (orphan_missing orphan_id)
    check_orphans states orphans

  module _ ⦃cr : Crypto⦄ where
    -- `Ledger::try_update`
    unfoldable pub try_update :
        Ledger → ℕ → ℕ → ℕ → LeaderProof → List (ℕ × OrphanProof) → Outcome LedgerError Ledger
    try_update self id parent_id slot proof orphans = do
      parent_state ← ok_or (get parent_id self.states) (parent_not_found parent_id)
      check_orphans self.states orphans
      new_state ← try_update_state parent_state slot proof (map (λ o. o.1) orphans) self.config
      ok (record self { states = Map.insert id new_state self.states })
