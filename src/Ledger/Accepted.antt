-- ===== src/Ledger/Accepted.antt =====
-- ledger/nomos-ledger/src/lib.rs, `LedgerState::try_update`: what a block that the ledger takes in has shown.
use nomos_node.Prelude.{
  ℕ, ◌<◌, ◌≡◌, sym, ap, subst, map, ◌∙◌, true, false, ◌||◌, List, [], ◌∷◌, ◌++◌, arith, ◌==◌,
  nat_eq, Outcome, ok, guard, assert, >>=-eq-ok, guard-true,
}
use nomos_node.Prelude.Map.{contains}
use nomos_node.Engine.Time.{FloatOps}
use nomos_node.Merkle.{Hasher}
use nomos_node.Leadership.{LeaderPublic, leader_public}
use nomos_node.Ledger.Config.{Config, config_epoch}
use nomos_node.Ledger.Epochs.{FollowsSlot, update_epoch_state-FollowsSlot}
use nomos_node.Ledger.NoteTree.{NoteTree}
use nomos_node.Ledger.Notes.{Grows, proofs_of, all_taken}
use nomos_node.Ledger.Spending.{NoRepeats, nullifiers_of, all_spent, try_apply_proof_outputs-Spends}
use nomos_node.Ledger.State.{
  LedgerError, EpochState, LedgerState, LeaderProof, OrphanProof, Crypto, next_epoch,
  try_apply_proof_outputs, try_apply_proof, apply_orphans, update_nonce, try_apply_leadership,
  update_epoch_state, try_update_state,
}

module _ ⦃fl : FloatOps⦄ ⦃sha : Hasher⦄ ⦃cr : Crypto⦄ where
  -- The public inputs that the leader proof of a block is checked against.
  abbrev pub inputs_at : EpochState → ℕ → LeaderProof → Config → Outcome LedgerError LeaderPublic
  inputs_at e slot proof c =
      leader_public proof.merke_root e.nonce slot c.consensus_config.active_slot_coeff e.total_stake
        proof.nullifier (cr.as_bytes proof.evolved_commitment)

  abbrev pub inputs_of : LedgerState → ℕ → LeaderProof → Config → Outcome LedgerError LeaderPublic
  inputs_of s slot proof c = inputs_at s.epoch_state slot proof c

  -- The roots and the notes of a block's proofs, in the order in which they are applied.
  abbrev pub taken_by : List OrphanProof → LeaderProof → List (ℕ × sha.Data)
  taken_by orphans proof = proofs_of orphans ++ (proof.merke_root, proof.evolved_commitment) ∷ []

  -- `t` follows from `s` by a block at `slot`: its proof holds for the epoch's nonce and stake, the roots of its proofs
  -- are accepted, all its nullifiers are new, and the slot is later.
  pub record Accepts (c : Config) (s : LedgerState) (slot : ℕ) (proof : LeaderProof)
      (orphans : List OrphanProof) (t : LedgerState) : Type 0 where
    pub follows : FollowsSlot c t
    pub later : s.slot < slot
    pub at_slot : t.slot ≡ slot
    pub inputs : LeaderPublic
    pub inputs_eq : inputs_of t slot proof c ≡ ok inputs
    pub proved : proof.verify inputs ≡ true
    pub no_repeats : NoRepeats (nullifiers_of orphans ++ proof.nullifier ∷ [])
    pub unspent :
        (nf : ℕ)
        → contains nf (nullifiers_of orphans ++ proof.nullifier ∷ []) ≡ true
        → contains nf s.nullifiers ≡ false
    pub rooted :
        Grows t.epoch_state.commitments
          (taken_by orphans proof)
          s.lead_commitments
          t.lead_commitments
    pub spendable :
        t.spend_commitments.commitments
        ≡ s.spend_commitments.commitments
          ++ map (λ (p : ℕ × sha.Data). p.1) (taken_by orphans proof)
    pub nonce : t.nonce ≡ cr.nonce_digest s.nonce proof.nullifier slot
    pub spent :
        (nf : ℕ)
        → contains nf t.nullifiers ≡ (
            contains nf s.nullifiers || contains nf (nullifiers_of orphans ++ proof.nullifier ∷ []))

  pub record Proved (c : Config) (s : LedgerState) (slot : ℕ) (proof : LeaderProof)
      (t : LedgerState) : Type 0 where
    pub outputs :
        try_apply_proof_outputs s proof.merke_root proof.nullifier proof.evolved_commitment ≡ ok t
    inputs : LeaderPublic
    inputs_eq : inputs_of s slot proof c ≡ ok inputs
    proved : proof.verify inputs ≡ true

  pub try_apply_proof-Proved :
      (c : Config) (s t : LedgerState) (slot : ℕ) (proof : LeaderProof)
      → try_apply_proof s slot proof c ≡ ok t
      → Proved c s slot proof t
  unfolding try_apply_proof
  try_apply_proof-Proved c s t slot proof h =
      let (e, _, h1) = >>=-eq-ok (config_epoch c slot) _ h in
      let (_, _, h2) = >>=-eq-ok (assert (e == s.epoch_state.epoch)) _ h1 in
      let (inputs, eq, h3) = >>=-eq-ok (inputs_of s slot proof c) _ h2 in
      let (_, ok', h4) = >>=-eq-ok (guard (proof.verify inputs) _) _ h3 in
      record {
        outputs = h4;
        inputs = inputs;
        inputs_eq = eq;
        proved = guard-true (proof.verify inputs) _ ok';
      }

  -- Whatever `try_update` of a state whose epochs are its slot's takes in has passed all of its
  -- guards: the slot is later than the state's; the leader proof holds for the public inputs of
  -- the slot's epoch; the root of each proof, the orphans' and then the block's, is accepted by the
  -- epoch's tree of notes or by the tree that leads as the earlier proofs have left it; the nullifiers of
  -- the orphans and the block are pairwise different and were not spent before. Afterwards exactly they are
  -- spent besides the earlier ones, the notes of the proofs have joined both trees in that order, the nonce is
  -- the digest of the old one with the block's nullifier and slot, and the epochs of the new state are
  -- its slot's.
  pub try_update_state-Accepts :
      (c : Config) (s t : LedgerState) (slot : ℕ) (proof : LeaderProof) (orphans : List OrphanProof)
      → FollowsSlot c s
      → try_update_state s slot proof orphans c ≡ ok t
      → Accepts c s slot proof orphans t
  unfolding try_update_state try_apply_leadership update_nonce
  try_update_state-Accepts c s t slot proof orphans f h =
      let (s1, upd, h1) = >>=-eq-ok (update_epoch_state s slot c) _ h in
      let (f1, later, at, same) = update_epoch_state-FollowsSlot s s1 slot c f upd in
      let (s2, orph, h2) = >>=-eq-ok (apply_orphans s1 orphans) _ h1 in
      let (s3, pr, h3) = >>=-eq-ok (try_apply_proof s2 slot proof c) _ h2 in
      let proved = try_apply_proof-Proved c s2 s3 slot proof pr in
      let spends =
        try_apply_proof_outputs-Spends s2 s3 proof.merke_root proof.nullifier
          proof.evolved_commitment proved.outputs in
      let taken =
        all_taken orphans s1 s2 s3 proof.merke_root proof.nullifier proof.evolved_commitment orph
          proved.outputs in
      let lead : t.lead_commitments ≡ s3.lead_commitments = ground arith in
      let spend : t.spend_commitments ≡ s3.spend_commitments = ground arith in
      let digest : t.nonce ≡ cr.nonce_digest s3.nonce proof.nullifier slot = ground arith in
      let all = all_spent orphans s1 s2 s3 proof.nullifier orph spends in
      let epoch : t.epoch_state ≡ s3.epoch_state = ground arith in
      let next : t.next_epoch_state ≡ s3.next_epoch_state = ground arith in
      let slot' : t.slot ≡ s3.slot = ground arith in
      let nfs : t.nullifiers ≡ s3.nullifiers = ground arith in
      let epoch1 = epoch ∙ all.same_epoch in
      record {
        follows = record {
          current =
              ap (config_epoch c) (slot' ∙ all.same_slot)
              ∙ f1.current
              ∙ ap (λ (x : EpochState). ok x.epoch) (sym epoch1);
          next =
              ap (λ (x : EpochState). x.epoch) (next ∙ all.same_next)
              ∙ f1.next
              ∙ ap (λ (x : EpochState). next_epoch x.epoch) (sym epoch1);
        };
        later = later;
        at_slot = slot' ∙ all.same_slot ∙ at;
        inputs = proved.inputs;
        inputs_eq =
            ap (λ (x : EpochState). inputs_at x slot proof c) (epoch ∙ spends.same_epoch)
            ∙ proved.inputs_eq;
        proved = proved.proved;
        no_repeats = all.no_repeats;
        unspent = λ nf m. ap (contains nf) (sym same.nullifiers) ∙ all.unspent nf m;
        rooted =
            subst
              (λ (x : EpochState).
                Grows x.commitments (taken_by orphans proof) s.lead_commitments t.lead_commitments)
              (sym epoch1)
              (subst
                (λ x.
                  Grows s1.epoch_state.commitments (taken_by orphans proof) s.lead_commitments x)
                (sym lead)
                (subst
                  (λ x.
                    Grows s1.epoch_state.commitments (taken_by orphans proof) x s3.lead_commitments)
                  same.lead taken.rooted));
        spendable =
            ap (λ (x : NoteTree). x.commitments) spend
            ∙ taken.spendable
            ∙ ap
                (λ (x : NoteTree).
                  x.commitments ++ map (λ (p : ℕ × sha.Data). p.1) (taken_by orphans proof))
                same.spend;
        nonce =
            digest ∙ ap (λ x. cr.nonce_digest x proof.nullifier slot) (all.same_nonce ∙ same.nonce);
        spent = λ nf.
            ap (contains nf) nfs
            ∙ all.spent nf
            ∙ ap (λ x. contains nf x || contains nf (nullifiers_of orphans ++ proof.nullifier ∷ []))
                same.nullifiers;
      }
