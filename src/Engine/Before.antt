-- ===== src/Engine/Before.antt =====
-- consensus/cryptarchia-engine/src/lib.rs, `Branches::walk_back_before`: the loop ends, and finds the
-- ancestor that it is named for.
use nomos_node.Prelude.{
  ℕ, zero, suc, ◌≤◌, ◌<◌, ◌≡◌, inl, inr, true, arith, ltb, ◌==◌, Bool-cases, nat_eq, ok,
}
use nomos_node.Engine.Branches.{Branch, Branches, walk_back, walk_back_before}
use nomos_node.Engine.Chain.{
  IsTree, Known, Ancestor, self, above, parent-Known, length-parent, eq_genesis,
  Ancestor-same_length, Ancestor-parent,
}

-- The nearest ancestor that is not after the slot.
pub record IsBefore (bs : Branches) (b : Branch) (slot : ℕ) (c : Branch) : Type 0 where
  pub on_chain : Ancestor bs c b
  pub in_time : c.slot ≤ slot
  pub nearest : (d : Branch) → Ancestor bs d b → d.slot ≤ slot → Ancestor bs d c

module _ {g : ℕ} {bs : Branches} (w : IsTree g bs) where
  late-pos : (b : Branch) (slot : ℕ) → Known bs b → ltb slot b.slot ≡ true → 0 < b.length
  late-pos b slot k late = elim (Bool-cases (b.length == 0)) [
    | inl level0 ↦ absurd (ground (arith, eq_genesis w b k))
    | inr pos ↦ ground arith
  ]

  late-shorter :
      (b d : Branch) (slot : ℕ)
      → Known bs b
      → ltb slot b.slot ≡ true
      → Ancestor bs d b
      → d.slot ≤ slot
      → d.length < b.length
  late-shorter b d slot k late r early = elim (Bool-cases (ltb d.length b.length)) [
    | inl lt ↦ ground arith
    | inr ge ↦ absurd (ground (arith, Ancestor-same_length w d b k r))
  ]

  walk_back_lem :
      (fuel : ℕ) (b : Branch) (slot : ℕ)
      → Known bs b
      → b.length ≤ fuel
      → (c : Branch) × (walk_back fuel bs b slot ≡ ok c) × IsBefore bs b slot c
  unfolding walk_back
  walk_back_lem zero b slot k h =
      let e = eq_genesis w b k (omega arith) in
      (b, ground arith, record { on_chain = self; in_time = ground arith; nearest = λ d r _. r })
  walk_back_lem (suc f) b slot k h = elim (Bool-cases (ltb slot b.slot)) [
    | inr stop ↦
        (b, rw stop, record { on_chain = self; in_time = ground arith; nearest = λ d r _. r })
    | inl more ↦
        let (p, e, kp) = parent-Known w k in
        let l = length-parent w b p k e (late-pos b slot k more) in
        let (c, runs, got) = walk_back_lem f p slot kp (omega arith) in
        (
          c,
          ground arith,
          record {
            on_chain = above e got.on_chain;
            in_time = got.in_time;
            nearest = λ d r early.
                got.nearest d (Ancestor-parent w d b p e r (late-shorter b d slot k more r early))
                  early;
          },
        )
  ]

  -- In a tree of blocks `walk_back_before` of one of its blocks returns, and what it returns is
  -- the block's nearest ancestor that is not after the slot.
  pub walk_back_before_lem :
      (b : Branch) (slot : ℕ)
      → Known bs b
      → (c : Branch) × (walk_back_before bs b slot ≡ ok c) × IsBefore bs b slot c
  unfolding walk_back_before
  walk_back_before_lem b slot k = walk_back_lem b.length b slot k (omega arith)
