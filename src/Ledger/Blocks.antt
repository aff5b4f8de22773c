-- ===== src/Ledger/Blocks.antt =====
-- ledger/nomos-ledger/src/lib.rs, `Ledger::try_update`: the states of all blocks, over any history.
use nomos_node.Prelude.{
  ℕ, ◌+◌, ◌%◌, ◌≡◌, sym, ap, subst, ◌∙◌, inl, inr, true, none, some, List, [], ◌∷◌, map, arith,
  ◌==◌, if◌then◌else◌, Bool-cases, nat_eq, All, In, u32_size, ok, err, ok_or, >>=-eq-ok,
  ok-injective, ok_or-ok,
}
use nomos_node.Prelude.Map
use nomos_node.Prelude.Map.{Map, get, contains_key, get-insert}
use nomos_node.Engine.Time.{FloatOps}
use nomos_node.Merkle.{Hasher}
use nomos_node.Ledger.Config.{Config, config_epoch}
use nomos_node.Ledger.Snapshots.{IsProper, len_pos, config_epoch_bounds}
use nomos_node.Ledger.Epochs.{FollowsSlot}
use nomos_node.Ledger.Accepted.{Accepts, try_update_state-Accepts}
use nomos_node.Ledger.Notes.{LeadersSpendable, try_update_state-LeadersSpendable}
use nomos_node.Ledger.State.{
  LedgerError, parent_not_found, orphan_missing, LedgerState, LeaderProof, OrphanProof, Crypto,
  try_update_state, from_commitments, next_epoch,
}
use nomos_node.Ledger.Store.{Ledger, new_ledger, check_orphans, try_update}

module _ ⦃fl : FloatOps⦄ ⦃sha : Hasher⦄ where
  -- The state of each block has the epochs of its slot, and leaders among the spendable notes.
  pub record IsSound (l : Ledger) : Type 0 where
    pub follows : (i : ℕ) (s : LedgerState) → get i l.states ≡ some s → FollowsSlot l.config s
    pub spendable : (i : ℕ) (s : LedgerState) → get i l.states ≡ some s → LeadersSpendable s

  from_commitments-same :
      (notes : List sha.Data) (stake : ℕ) (s : LedgerState)
      → from_commitments notes stake ≡ ok s
      → s.lead_commitments ≡ s.spend_commitments
  unfolding from_commitments
  from_commitments-same notes stake s h = ground arith

  from_commitments-FollowsSlot :
      (notes : List sha.Data) (stake : ℕ) (c : Config) (s : LedgerState) {n len : ℕ}
      → IsProper c n len
      → from_commitments notes stake ≡ ok s
      → FollowsSlot c s
  unfolding from_commitments next_epoch
  from_commitments-FollowsSlot notes stake c s {n} {len} v h =
      let first : config_epoch {E = LedgerError} c 0 ≡ ok 0 =
        (config_epoch_bounds v 0 0).1 (omega (arith, len_pos v)) in
      let slot0 : s.slot ≡ 0 = ground arith in
      let epoch0 : s.epoch_state.epoch ≡ 0 = ground arith in
      let epoch1 : s.next_epoch_state.epoch ≡ 1 = ground arith in
      record {
        current = ap (config_epoch c) slot0 ∙ first ∙ ap ok (sym epoch0);
        next = epoch1 ∙ ap (λ e. (e + 1) % u32_size) (sym epoch0);
      }

  only : (id i : ℕ) (s t : LedgerState) → get i ((id, s) ∷ []) ≡ some t → s ≡ t
  unfolding get
  only id i s t g = ground arith

  -- With a proper configuration, a ledger that starts from the state made of the notes of its
  -- genesis is sound.
  new_ledger-IsSound :
      (id : ℕ) (notes : List sha.Data) (stake : ℕ) (c : Config) (s : LedgerState) {n len : ℕ}
      → IsProper c n len
      → from_commitments notes stake ≡ ok s
      → IsSound (new_ledger id s c)
  unfolding new_ledger get from_commitments
  new_ledger-IsSound id notes stake c s v h = record {
    follows = λ i t g. follows_at i t (only id i s t g);
    spendable = λ i t g. spendable_at t (only id i s t g);
  }
    where
      same_trees : s.lead_commitments ≡ s.spend_commitments
      same_trees = from_commitments-same notes stake s h

      follows_at : (i : ℕ) (t : LedgerState) → s ≡ t → FollowsSlot c t
      follows_at i t e = subst (FollowsSlot c) e (from_commitments-FollowsSlot notes stake c s v h)

      spendable_at : (t : LedgerState) → s ≡ t → LeadersSpendable t
      spendable_at t e =
          subst LeadersSpendable e (λ x m. subst (λ y. In x y.commitments) same_trees m)

  check_orphans_lem :
      (states : Map ℕ LedgerState) (orphans : List (ℕ × OrphanProof))
      → check_orphans states orphans ≡ ok tt
      → All (λ o. contains_key o.0 states ≡ true) orphans
  unfolding check_orphans
  check_orphans_lem states [] h = tt
  check_orphans_lem states ((i, o) ∷ orphans) h = elim (Bool-cases (contains_key i states)) [
    | inl has ↦ (has, check_orphans_lem states orphans (rw (has, check_orphans) at h))
    | inr missing ↦ let e : err (orphan_missing i) ≡ ok tt = rw (missing, check_orphans) at h in cc
  ]

  module _ ⦃cr : Crypto⦄ where
    -- What a successful update did: the parent and the orphans' blocks are known, the new state follows from the
    -- parent's, and every other block keeps its state.
    pub record Updates (l : Ledger) (id parent slot : ℕ) (proof : LeaderProof)
        (orphans : List (ℕ × OrphanProof)) (l' : Ledger) : Type 0 where
      pub from : LedgerState
      pub to : LedgerState
      pub parent_known : get parent l.states ≡ some from
      pub orphans_known : All (λ o. contains_key o.0 l.states ≡ true) orphans
      pub accepted : Accepts l.config from slot proof (map (λ o. o.1) orphans) to
      pub states : (i : ℕ) → get i l'.states ≡ (if id == i then some to else get i l.states)
      pub sound : IsSound l'

    abbrev next_ledger : Ledger → ℕ → LedgerState → Ledger
    next_ledger l id t = record l { states = Map.insert id t l.states }

    next_ledger-IsSound :
        (l : Ledger) (id : ℕ) (t : LedgerState)
        → IsSound l
        → FollowsSlot l.config t
        → LeadersSpendable t
        → IsSound (next_ledger l id t)
    next_ledger-IsSound l id t v f n = record {
      follows = λ i s g. elim (Bool-cases (id == i)) [
        | inl hit ↦
            let e : t ≡ s = ground (arith, get-insert id i t l.states) in
            subst (FollowsSlot l.config) e f
        | inr miss ↦ v.follows i s (ground (arith, get-insert id i t l.states))
      ];
      spendable = λ i s g. elim (Bool-cases (id == i)) [
        | inl hit ↦
            let e : t ≡ s = ground (arith, get-insert id i t l.states) in subst LeadersSpendable e n
        | inr miss ↦ v.spendable i s (ground (arith, get-insert id i t l.states))
      ];
    }

    -- A block that a sound ledger takes in has a known parent and orphan proofs of known blocks;
    -- the state stored for it follows from its parent's as `Accepts` says, every other block keeps
    -- its state, and the ledger stays sound.
    pub try_update-Updates :
        (l l' : Ledger) (id parent slot : ℕ) (proof : LeaderProof)
        (orphans : List (ℕ × OrphanProof))
        → IsSound l
        → try_update l id parent slot proof orphans ≡ ok l'
        → Updates l id parent slot proof orphans l'
    unfolding try_update
    try_update-Updates l l' id parent slot proof orphans v h =
        let (s, known, h1) =
          >>=-eq-ok (ok_or (get parent l.states) (parent_not_found parent)) _ h in
        let (_, checked, h2) = >>=-eq-ok (check_orphans l.states orphans) _ h1 in
        let (t, upd, h3) =
          >>=-eq-ok (try_update_state s slot proof (map (λ o. o.1) orphans) l.config) _ h2 in
        let there : get parent l.states ≡ some s =
          ok_or-ok (get parent l.states) (parent_not_found parent) known in
        let accepted =
          try_update_state-Accepts l.config s t slot proof (map (λ o. o.1) orphans)
            (v.follows parent s there) upd in
        let notes =
          try_update_state-LeadersSpendable l.config s t slot proof (map (λ o. o.1) orphans)
            (v.follows parent s there) upd (v.spendable parent s there) in
        let e : next_ledger l id t ≡ l' = ok-injective h3 in
        subst (Updates l id parent slot proof orphans) e (record {
          from = s;
          to = t;
          parent_known = there;
          orphans_known = check_orphans_lem l.states orphans checked;
          accepted = accepted;
          states = λ i. get-insert id i t l.states;
          sound = next_ledger-IsSound l id t v accepted.follows notes;
        })

    -- A block whose parent is not known is refused with the parent's id.
    pub try_update-orphan :
        (l : Ledger) (id parent slot : ℕ) (proof : LeaderProof) (orphans : List (ℕ × OrphanProof))
        → get parent l.states ≡ none
        → try_update l id parent slot proof orphans ≡ err (parent_not_found parent)
    unfolding try_update
    try_update-orphan l id parent slot proof orphans e = rw e
