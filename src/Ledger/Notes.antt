-- ===== src/Ledger/Notes.antt =====
-- ledger/nomos-ledger/src/lib.rs: how the trees of notes grow with proofs, and why commitments that can lead are
-- commitments that can be spent.
use nomos_node.Prelude.{
  ℕ, ◌<◌, false, length, ◌≡◌, refl, sym, ap, ◌∙◌, ◌++◌, map, append_assoc, subst, inl, inr, true,
  not, ◌||◌, List, [], ◌∷◌, arith, ◌==◌, nat_eq, In, In-append_left, In-append_right,
  In-append_cases, ok, guard, assert, >>=-eq-ok, guard-true,
}
use nomos_node.Engine.Time.{FloatOps}
use nomos_node.Merkle.{Hasher}
use nomos_node.Ledger.Config.{Config}
use nomos_node.Ledger.NoteTree.{NoteTree, max_note_comms, insert, is_valid_root}
use nomos_node.Ledger.Spending.{try_apply_proof_outputs-Spends}
use nomos_node.Prelude.Map.{add}
use nomos_node.Ledger.Trees.{Inserted, insert-Inserted, insert-ok}
use nomos_node.Ledger.Epochs.{FollowsSlot, update_epoch_state-FollowsSlot}
use nomos_node.Ledger.State.{
  LedgerError, invalid_root, double_spend, EpochState, LedgerState, LeaderProof, OrphanProof,
  Crypto, is_nullified, try_apply_proof_outputs, try_apply_proof, apply_orphans, update_nonce,
  try_apply_leadership, update_epoch_state, try_update_state,
}
use nomos_node.Ledger.Config.{config_epoch}
use nomos_node.Leadership.{leader_public}

module _ ⦃fl : FloatOps⦄ ⦃sha : Hasher⦄ where
  -- The notes that can lead can be spent.
  abbrev pub LeadersSpendable : LedgerState → Type 0
  LeadersSpendable s =
      (x : sha.Data) → In x s.lead_commitments.commitments → In x s.spend_commitments.commitments

  -- The proof's note is taken into both trees, under a root that one of the two trees for leaders has had.
  pub record Evolves (r : ℕ) (cm : sha.Data) (s t : LedgerState) : Type 0 where
    pub eligible :
        (is_valid_root s.lead_commitments r || is_valid_root s.epoch_state.commitments r) ≡ true
    pub lead : Inserted LedgerError s.lead_commitments t.lead_commitments cm
    pub spend : Inserted LedgerError s.spend_commitments t.spend_commitments cm

  pub try_apply_proof_outputs-Evolves :
      (s t : LedgerState) (r nf : ℕ) (cm : sha.Data)
      → try_apply_proof_outputs s r nf cm ≡ ok t
      → Evolves r cm s t
  unfolding try_apply_proof_outputs
  try_apply_proof_outputs-Evolves s t r nf cm h =
      let (_, g, h1) =
        >>=-eq-ok
          (guard (is_valid_root s.lead_commitments r || is_valid_root s.epoch_state.commitments r)
            invalid_root)
          _ h in
      let (_, _, h2) = >>=-eq-ok (guard (not (is_nullified s nf)) (double_spend nf)) _ h1 in
      let (l, e1, h3) = >>=-eq-ok (insert {E = LedgerError} s.lead_commitments cm) _ h2 in
      let (p, e2, h4) = >>=-eq-ok (insert {E = LedgerError} s.spend_commitments cm) _ h3 in
      let same_l : l ≡ t.lead_commitments = ground arith in
      let same_p : p ≡ t.spend_commitments = ground arith in
      record {
        eligible = guard-true _ _ g;
        lead =
            subst (λ x. Inserted LedgerError s.lead_commitments x cm) same_l
              (insert-ok s.lead_commitments l cm e1);
        spend =
            subst (λ x. Inserted LedgerError s.spend_commitments x cm) same_p
              (insert-ok s.spend_commitments p cm e2);
      }

  -- A new nullifier and a note under a root of the epoch's tree are taken, where both trees have room.
  pub try_apply_proof_outputs_total :
      (s : LedgerState) (r nf : ℕ) (cm : sha.Data)
      → is_valid_root s.epoch_state.commitments r ≡ true
      → is_nullified s nf ≡ false
      → length s.lead_commitments.commitments < max_note_comms
      → length s.spend_commitments.commitments < max_note_comms
      → (l p : NoteTree) × (l.commitments ≡ s.lead_commitments.commitments ++ cm ∷ [])
        × (p.commitments ≡ s.spend_commitments.commitments ++ cm ∷ [])
        × (try_apply_proof_outputs s r nf cm
            ≡ ok (record s {
              lead_commitments = l;
              spend_commitments = p;
              nullifiers = add nf s.nullifiers;
            }))
  unfolding try_apply_proof_outputs
  try_apply_proof_outputs_total s r nf cm root new room room' =
      let (l, run, ins) = (insert-Inserted {E = LedgerError} s.lead_commitments cm).0 room in
      let (p, run', ins') = (insert-Inserted {E = LedgerError} s.spend_commitments cm).0 room' in
      (l, p, ins.appended, ins'.appended, ground (arith, root, new, run, run'))

  -- From `l` to `u` each proof finds its root among those of the tree that leads, or of the epoch's tree `e`, and adds
  -- its note to the one that leads.
  abbrev pub Grows : NoteTree → List (ℕ × sha.Data) → NoteTree → NoteTree → Type 0
  Grows e [] l u = l ≡ u
  Grows e ((r, cm) ∷ proofs) l u =
      ((is_valid_root l r || is_valid_root e r) ≡ true)
      × (m : NoteTree) × Inserted LedgerError l m cm
      × Grows e proofs m u

  -- What a list of proofs does to the two trees.
  pub record Takes (proofs : List (ℕ × sha.Data)) (s t : LedgerState) : Type 0 where
    pub rooted : Grows s.epoch_state.commitments proofs s.lead_commitments t.lead_commitments
    pub spendable :
        t.spend_commitments.commitments
        ≡ s.spend_commitments.commitments ++ map (λ (p : ℕ × sha.Data). p.1) proofs

  Takes-one :
      (s t : LedgerState) (r nf : ℕ) (cm : sha.Data)
      → try_apply_proof_outputs s r nf cm ≡ ok t
      → Takes ((r, cm) ∷ []) s t
  Takes-one s t r nf cm h =
      let e = try_apply_proof_outputs-Evolves s t r nf cm h in
      record {
        rooted = (e.eligible, t.lead_commitments, e.lead, refl);
        spendable = e.spend.appended;
      }

  Takes-cons :
      (s t u : LedgerState) (r nf : ℕ) (cm : sha.Data) (proofs : List (ℕ × sha.Data))
      → try_apply_proof_outputs s r nf cm ≡ ok t
      → Takes proofs t u
      → Takes ((r, cm) ∷ proofs) s u
  Takes-cons s t u r nf cm proofs h rest =
      let e = try_apply_proof_outputs-Evolves s t r nf cm h in
      let same = try_apply_proof_outputs-Spends s t r nf cm h in
      record {
        rooted = (
          e.eligible,
          t.lead_commitments,
          e.lead,
          subst
              (λ (x : EpochState). Grows x.commitments proofs t.lead_commitments u.lead_commitments)
              same.same_epoch rest.rooted,
        );
        spendable =
            rest.spendable
            ∙ ap (λ (x : List sha.Data). x ++ map (λ (p : ℕ × sha.Data). p.1) proofs)
                e.spend.appended
            ∙ append_assoc s.spend_commitments.commitments (cm ∷ [])
                (map (λ (p : ℕ × sha.Data). p.1) proofs);
      }

  abbrev pub proofs_of : List OrphanProof → List (ℕ × sha.Data)
  proofs_of orphans = map (λ (o : OrphanProof). (o.cm_root, o.commitment)) orphans

  Evolves-LeadersSpendable :
      (s t : LedgerState) (r : ℕ) (cm : sha.Data)
      → Evolves r cm s t
      → LeadersSpendable s
      → LeadersSpendable t
  Evolves-LeadersSpendable s t r cm e h x i =
      subst (In x) (sym e.spend.appended)
        (elim (In-append_cases x s.lead_commitments.commitments (cm ∷ [])
          (subst (In x) e.lead.appended i)) [
            | inl old ↦ In-append_left x s.spend_commitments.commitments (cm ∷ []) (h x old)
            | inr new ↦ In-append_right x s.spend_commitments.commitments (cm ∷ []) new
          ])

  module _ ⦃cr : Crypto⦄ where
    -- The orphans' proofs, then the block's own.
    pub all_taken :
        (orphans : List OrphanProof) (s t u : LedgerState) (r nf : ℕ) (cm : sha.Data)
        → apply_orphans s orphans ≡ ok t
        → try_apply_proof_outputs t r nf cm ≡ ok u
        → Takes (proofs_of orphans ++ (r, cm) ∷ []) s u
    unfolding apply_orphans
    all_taken [] s t u r nf cm h last =
        subst (λ x. Takes ((r, cm) ∷ []) x u) (ground arith) (Takes-one t u r nf cm last)
    all_taken (o ∷ orphans) s t u r nf cm h last =
        let (s', first, rest) =
          >>=-eq-ok (try_apply_proof_outputs s o.cm_root o.nullifier o.commitment) _ h in
        Takes-cons s s' u o.cm_root o.nullifier o.commitment _ first
          (all_taken orphans s' t u r nf cm rest last)

    apply_orphans-LeadersSpendable :
        (orphans : List OrphanProof) (s t : LedgerState)
        → apply_orphans s orphans ≡ ok t
        → LeadersSpendable s
        → LeadersSpendable t
    unfolding apply_orphans
    apply_orphans-LeadersSpendable [] s t h l =
        let e : s ≡ t = ground arith in subst LeadersSpendable e l
    apply_orphans-LeadersSpendable (o ∷ orphans) s t h l =
        let (s', first, rest) =
          >>=-eq-ok (try_apply_proof_outputs s o.cm_root o.nullifier o.commitment) _ h in
        apply_orphans-LeadersSpendable orphans s' t rest (
          Evolves-LeadersSpendable s s' o.cm_root o.commitment
            (try_apply_proof_outputs-Evolves s s' o.cm_root o.nullifier o.commitment first) l)

    try_apply_proof-Evolves :
        (c : Config) (s t : LedgerState) (slot : ℕ) (proof : LeaderProof)
        → try_apply_proof s slot proof c ≡ ok t
        → Evolves proof.merke_root proof.evolved_commitment s t
    unfolding try_apply_proof
    try_apply_proof-Evolves c s t slot proof h =
        let (e, _, h1) = >>=-eq-ok (config_epoch c slot) _ h in
        let (_, _, h2) = >>=-eq-ok (assert (e == s.epoch_state.epoch)) _ h1 in
        let (inputs, _, h3) = >>=-eq-ok (leader_public _ _ _ _ _ _ _) _ h2 in
        let (_, _, h4) = >>=-eq-ok (guard (proof.verify inputs) _) _ h3 in
        try_apply_proof_outputs-Evolves s t proof.merke_root proof.nullifier
          proof.evolved_commitment h4

    -- A block that is taken in by a state whose epochs are its slot's and where each note that can
    -- lead is among those that can be spent leaves a state where this is so, too.
    pub try_update_state-LeadersSpendable :
        (c : Config) (s t : LedgerState) (slot : ℕ) (proof : LeaderProof)
        (orphans : List OrphanProof)
        → FollowsSlot c s
        → try_update_state s slot proof orphans c ≡ ok t
        → LeadersSpendable s
        → LeadersSpendable t
    unfolding try_update_state try_apply_leadership update_nonce
    try_update_state-LeadersSpendable c s t slot proof orphans f h l =
        let (s1, upd, h1) = >>=-eq-ok (update_epoch_state s slot c) _ h in
        let (_, _, _, same) = update_epoch_state-FollowsSlot s s1 slot c f upd in
        let (s2, orph, h2) = >>=-eq-ok (apply_orphans s1 orphans) _ h1 in
        let (s3, pr, h3) = >>=-eq-ok (try_apply_proof s2 slot proof c) _ h2 in
        let l1 : LeadersSpendable s1 = λ x i.
          subst (λ t'. In x t'.commitments) (sym same.spend)
            (l x (subst (λ t'. In x t'.commitments) same.lead i)) in
        let l2 = apply_orphans-LeadersSpendable orphans s1 s2 orph l1 in
        let l3 =
          Evolves-LeadersSpendable s2 s3 proof.merke_root proof.evolved_commitment
            (try_apply_proof-Evolves c s2 s3 slot proof pr) l2 in
        let same_l : t.lead_commitments ≡ s3.lead_commitments = ground arith in
        let same_p : t.spend_commitments ≡ s3.spend_commitments = ground arith in
        λ x i.
          subst (λ t'. In x t'.commitments) (sym same_p)
            (l3 x (subst (λ t'. In x t'.commitments) same_l i))
