-- ===== src/Engine/Security.antt =====
-- consensus/cryptarchia-engine/src/lib.rs, `get_security_block_header_id`.
use nomos_node.Prelude.{
  ℕ, zero, suc, ◌+◌, ◌≤◌, ◌<◌, ◌≡◌, refl, sym, ap, ◌∙◌, ◌⊎◌, inl, inr, true, none, some, arith,
  ◌==◌, lt_or_le, ==_iff, Bool-cases, nat_eq,
}
use nomos_node.Engine.Time.{FloatOps}
use nomos_node.Engine.Branches.{Branch, Branches}
use nomos_node.Engine.Chain.{
  lookup, IsTree, Known, Ancestor, self, above, root, child, parent-Known, length-parent,
}
use nomos_node.Engine.Receive.{IsValid}
use nomos_node.Engine.Cryptarchia.{Cryptarchia, climb_parents, get_security_block_header_id}

module _ {g : ℕ} {bs : Branches} (w : IsTree g bs) where
  -- Only genesis is its own parent.
  self_parent : (b : Branch) → Known bs b → (b.id == b.parent) ≡ true → b.length ≡ 0
  self_parent b k h = elim (w.linked b.id b k) [
    | root r ↦ ap (λ (x : Branch). x.length) r
    | child p e l ↦ absurd (ground (arith, ap (lookup bs) ((==_iff b.id b.parent).0 h)))
  ]

  genesis_parent : (b : Branch) → Known bs b → b.length ≡ 0 → (b.id == b.parent) ≡ true
  genesis_parent b k h = elim (w.linked b.id b k) [
    | root r ↦ ground (arith, ap (λ (x : Branch). x.id) r, ap (λ (x : Branch). x.parent) r)
    | child p e l ↦ absurd (omega arith)
  ]

  climb_parents_deep :
      (n : ℕ) (b : Branch)
      → Known bs b
      → n ≤ b.length
      → (c : Branch) × (climb_parents n bs b.id ≡ some c.id)
        × Known bs c
        × Ancestor bs c b
        × (c.length + n ≡ b.length)
  unfolding climb_parents
  climb_parents_deep zero b k h = (b, refl, k, self, omega arith)
  climb_parents_deep (suc n) b k h = elim (Bool-cases (b.id == b.parent)) [
    | inl same ↦ absurd (omega (arith, self_parent b k same))
    | inr ne ↦
        let (p, e, kp) = parent-Known w k in
        let l = length-parent w b p k e (omega arith) in
        let (c, run, kc, r, len) = climb_parents_deep n p kp (omega arith) in
        (
          c,
          rw (k, climb_parents)
              (rw ne (ap (climb_parents n bs) (sym (w.keyed b.parent p e)) ∙ run)),
          kc,
          above e r,
          omega arith,
        )
  ]

  climb_parents_shallow :
      (n : ℕ) (b : Branch) → Known bs b → b.length < n → climb_parents n bs b.id ≡ none
  unfolding climb_parents
  climb_parents_shallow zero b k h = absurd (omega arith)
  climb_parents_shallow (suc n) b k h = elim (Bool-cases (b.id == b.parent)) [
    | inl same ↦ rw (k, climb_parents) (rw same)
    | inr ne ↦
        let (p, e, kp) = parent-Known w k in
        let pos : 0 < b.length = ground (arith, genesis_parent b k) in
        let l = length-parent w b p k e pos in
        rw (k, climb_parents)
          (rw ne (
            ap (climb_parents n bs) (sym (w.keyed b.parent p e))
            ∙ climb_parents_shallow n p kp (omega arith)))
  ]

module _ ⦃fl : FloatOps⦄ where
  security_block_lem :
      (state : Cryptarchia)
      → IsValid state
      → (state.config.security_param ≤ state.local_chain.length
          → (c : Branch) × (get_security_block_header_id state ≡ some c.id)
            × Known state.branches c
            × Ancestor state.branches c state.local_chain
            × (c.length + state.config.security_param ≡ state.local_chain.length))
        × (state.local_chain.length < state.config.security_param
            → get_security_block_header_id state ≡ none)
  unfolding get_security_block_header_id
  security_block_lem state v = (
    climb_parents_deep v.tree state.config.security_param state.local_chain v.local_known,
    climb_parents_shallow v.tree state.config.security_param state.local_chain v.local_known,
  )

  -- On a valid node, the security block is the ancestor of the node's tip that lies `security_param` blocks below
  -- it; where the node's chain is shorter than that, there is none.
  pub security_block :
      (state : Cryptarchia)
      → IsValid state
      → ((state.config.security_param ≤ state.local_chain.length)
          × (c : Branch) × (get_security_block_header_id state ≡ some c.id)
          × Known state.branches c
          × Ancestor state.branches c state.local_chain
          × (c.length + state.config.security_param ≡ state.local_chain.length))
        ⊎ ((state.local_chain.length < state.config.security_param)
            × (get_security_block_header_id state ≡ none))
  security_block state v = elim (lt_or_le state.local_chain.length state.config.security_param) [
    | inl short ↦ inr (short, (security_block_lem state v).1 short)
    | inr long ↦
        let (c, found, known, over, depth) = (security_block_lem state v).0 long in
        inl (long, c, found, known, over, depth)
  ]
