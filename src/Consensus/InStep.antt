-- ===== src/Consensus/InStep.antt =====
-- nomos-services/cryptarchia-consensus/src/lib.rs, `Cryptarchia::try_apply_header`: the engine and the ledger know the
-- same blocks.
use nomos_node.Prelude.{
  ℕ, ◌+◌, ◌<◌, ◌≡◌, refl, sym, ap, ◌∙◌, ◌≢◌, inl, inr, none, some, List, arith, ◌==◌, Bool-cases,
  nat_eq, u64_size, ok,
}
use nomos_node.Prelude.{then_branch, else_branch}
use nomos_node.Prelude.Map.{get}
use nomos_node.Merkle.{Hasher}
use nomos_node.Engine.Time.{FloatOps}
use nomos_node.Engine.Branches.{Branch}
use nomos_node.Engine.Chain.{lookup}
use nomos_node.Engine.Growth.{fresh, block, extended, lookup-extended}
use nomos_node.Engine.Receive.{IsOrder, IsValid, receive_block-IsValid}
use nomos_node.Ledger.State.{LedgerState, Crypto}
use nomos_node.Ledger.Store.{Ledger, try_update}
use nomos_node.Ledger.Blocks.{IsSound, try_update-Updates}
use nomos_node.Consensus.Chain.{Header, Cryptarchia, tip, tip_state, orphans_of, try_apply_header}

module _ ⦃fl : FloatOps⦄ ⦃sha : Hasher⦄ where
  -- The engine is valid and the ledger sound; a block of the engine has a state of its slot, and a
  -- state belongs to a block of the engine.
  pub record InStep (c : Cryptarchia) : Type 0 where
    pub valid : IsValid c.consensus
    pub sound : IsSound c.ledger
    pub with_state :
        (i : ℕ) (b : Branch)
        → lookup c.consensus.branches i ≡ some b
        → (s : LedgerState) × (get i c.ledger.states ≡ some s) × (s.slot ≡ b.slot)
    pub with_block :
        (i : ℕ) (s : LedgerState)
        → get i c.ledger.states ≡ some s
        → (b : Branch) × (lookup c.consensus.branches i ≡ some b)

  -- The tip of a chain in step has its state.
  tip_state_total :
      (c : Cryptarchia)
      → InStep c
      → (s : LedgerState) × (tip_state c ≡ ok s) × (s.slot ≡ c.consensus.local_chain.slot)
  unfolding tip_state
  tip_state_total c v =
      let (s, at, same) = v.with_state (tip c) c.consensus.local_chain v.valid.local_known in
      (s, rw at refl, same)

  module _ ⦃cr : Crypto⦄ (order : List ℕ → List ℕ) (shuffles : IsOrder order) where
    -- A header with an id that is new to a chain in step, and whose lengths fit 64 bits: when the
    -- ledger takes it in, so does the engine, and the chain that results is in step, has the tree of blocks
    -- extended by the header, and has a ledger state at its tip, of the tip's slot.
    pub try_apply_header-InStep :
        (c : Cryptarchia) (h : Header) (l : Ledger)
        → InStep c
        → lookup c.consensus.branches h.id ≡ none
        → ((i : ℕ) (b : Branch) → lookup c.consensus.branches i ≡ some b → b.length + 1 < u64_size)
        → try_update c.ledger h.id h.parent h.slot h.leader_proof (orphans_of h) ≡ ok l
        → (c' : Cryptarchia) × (p : Branch) × (try_apply_header order c h ≡ ok c')
          × (c'.ledger ≡ l)
          × (c'.consensus.branches ≡ extended c.consensus.branches h.id h.parent h.slot p)
          × InStep c'
          × ((s : LedgerState) × (tip_state c' ≡ ok s) × (s.slot ≡ c'.consensus.local_chain.slot))
    unfolding try_apply_header
    try_apply_header-InStep c h l v unknown short taken =
        let u =
          try_update-Updates c.ledger l h.id h.parent h.slot h.leader_proof (orphans_of h) v.sound
            taken in
        let (p, parent) = v.with_block h.parent u.from u.parent_known in
        let not_genesis : h.id ≢ c.consensus.genesis = λ e.
          let root = v.valid.tree.rooted in ground (arith, ap (lookup c.consensus.branches) e) in
        let admits = fresh not_genesis unknown in
        let (new, run, valid, grown, _) =
          receive_block-IsValid order shuffles c.consensus h.id h.parent h.slot p v.valid admits
            parent (short h.parent p parent) in
        let at = λ (i : ℕ).
          ap (λ t. lookup t i) grown
          ∙ lookup-extended v.valid.tree h.id h.parent h.slot p admits parent
              (short h.parent p parent) i in
        let c' : Cryptarchia = record { ledger = l; consensus = new } in
        let step : InStep c' = record {
          valid = valid;
          sound = u.sound;
          with_state = λ i b g. elim (Bool-cases (h.id == i)) [
            | inl here ↦
                let found : some (block h.id h.parent h.slot p) ≡ some b =
                  sym (at i ∙ then_branch _ _ here) ∙ g in
                let e : block h.id h.parent h.slot p ≡ b = ground arith in
                (
                  u.to,
                  u.states i ∙ then_branch _ _ here,
                  u.accepted.at_slot ∙ ap (λ (x : Branch). x.slot) e,
                )
            | inr other ↦
                let (s, known, same) = v.with_state i b (sym (at i ∙ else_branch _ _ other) ∙ g) in
                (s, u.states i ∙ else_branch _ _ other ∙ known, same)
          ];
          with_block = λ i s g. elim (Bool-cases (h.id == i)) [
            | inl here ↦ (block h.id h.parent h.slot p, at i ∙ then_branch _ _ here)
            | inr other ↦
                let (b, known) = v.with_block i s (sym (u.states i ∙ else_branch _ _ other) ∙ g) in
                (b, at i ∙ else_branch _ _ other ∙ known)
          ];
        } in
        (c', p, rw (taken, run) refl, refl, grown, step, tip_state_total c' step)
