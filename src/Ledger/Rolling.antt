-- ===== src/Ledger/Rolling.antt =====
-- ledger/nomos-ledger/src/lib.rs: which notes the state of an epoch has.
use nomos_node.Prelude.{
  ℕ, ◌+◌, ◌*◌, ◌<◌, ◌≡◌, ◌≢◌, refl, sym, ap, ◌∙◌, arith, u64_size, u32_size, ok, List, >>=-eq-ok,
  nat_eq,
}
use nomos_node.Engine.Time.{FloatOps}
use nomos_node.Merkle.{Hasher}
use nomos_node.Ledger.Config.{Config, config_epoch}
use nomos_node.Ledger.Snapshots.{IsProper}
use nomos_node.Ledger.Epochs.{FollowsSlot, snapshots_frozen, epoch_entered}
use nomos_node.Ledger.Spending.{all_spent, try_apply_proof_outputs-Spends}
use nomos_node.Ledger.Accepted.{try_apply_proof-Proved, try_update_state-Accepts}
use nomos_node.Ledger.State.{
  LedgerError, LedgerState, LeaderProof, OrphanProof, Crypto, next_epoch, apply_orphans,
  update_nonce, try_apply_proof, try_apply_leadership, update_epoch_state, try_update_state,
}

module _ ⦃fl : FloatOps⦄ ⦃sha : Hasher⦄ ⦃cr : Crypto⦄ where
  -- Blocks that the ledger takes in one after the other, with slots of epoch `e`.
  pub data Blocks (c : Config) (e : ℕ) : LedgerState → LedgerState → Type 0 where
    no_more : {s : LedgerState} → Blocks c e s s
    block :
        {s t u : LedgerState} (slot : ℕ) (proof : LeaderProof) (orphans : List OrphanProof)
        → try_update_state s slot proof orphans c ≡ ok t
        → config_epoch {E = LedgerError} c slot ≡ ok e
        → Blocks c e t u
        → Blocks c e s u

  -- A block's proofs leave the epoch states as `update_epoch_state` has made them.
  record Moved (c : Config) (s : LedgerState) (slot : ℕ) (t : LedgerState) : Type 0 where
    mid : LedgerState
    moved : update_epoch_state s slot c ≡ ok mid
    same_epoch : t.epoch_state ≡ mid.epoch_state
    same_next : t.next_epoch_state ≡ mid.next_epoch_state

  try_update_state-Moved :
      (c : Config) (s t : LedgerState) (slot : ℕ) (proof : LeaderProof) (orphans : List OrphanProof)
      → try_update_state s slot proof orphans c ≡ ok t
      → Moved c s slot t
  unfolding try_update_state try_apply_leadership update_nonce
  try_update_state-Moved c s t slot proof orphans h =
      let (s1, upd, h1) = >>=-eq-ok (update_epoch_state s slot c) _ h in
      let (s2, orph, h2) = >>=-eq-ok (apply_orphans s1 orphans) _ h1 in
      let (s3, pr, h3) = >>=-eq-ok (try_apply_proof s2 slot proof c) _ h2 in
      let proved = try_apply_proof-Proved c s2 s3 slot proof pr in
      let spends =
        try_apply_proof_outputs-Spends s2 s3 proof.merke_root proof.nullifier
          proof.evolved_commitment proved.outputs in
      let all = all_spent orphans s1 s2 s3 proof.nullifier orph spends in
      let epoch : t.epoch_state ≡ s3.epoch_state = ground arith in
      let next : t.next_epoch_state ≡ s3.next_epoch_state = ground arith in
      record {
        mid = s1;
        moved = upd;
        same_epoch = epoch ∙ all.same_epoch;
        same_next = next ∙ all.same_next;
      }

  -- Where a block of epoch `e` leaves the state.
  in_epoch :
      (c : Config) (s t : LedgerState) (slot e : ℕ) (proof : LeaderProof)
      (orphans : List OrphanProof)
      → FollowsSlot c s
      → try_update_state s slot proof orphans c ≡ ok t
      → config_epoch {E = LedgerError} c slot ≡ ok e
      → FollowsSlot c t × (t.epoch_state.epoch ≡ e)
  in_epoch c s t slot e proof orphans f h there =
      let acc = try_update_state-Accepts c s t slot proof orphans f h in
      (
        acc.follows,
        cc (acc.follows.current, ap (config_epoch {E = LedgerError} c) acc.at_slot, there),
      )

  module _ {c : Config} {n len : ℕ} (v : IsProper c n len) where
    Blocks-keep :
        (e : ℕ) {s u : LedgerState}
        → Blocks c e s u
        → FollowsSlot c s
        → s.epoch_state.epoch ≡ e
        → e + 1 < u32_size
        → (e + 1) * len < u64_size
        → FollowsSlot c u
          × (u.epoch_state ≡ s.epoch_state)
          × (u.next_epoch_state.commitments ≡ s.next_epoch_state.commitments)
    Blocks-keep e no_more f at fits32 fits64 = (f, refl, refl)
    Blocks-keep e {s} (block {t = t} slot proof orphans h there rest) f at fits32 fits64 =
        let m = try_update_state-Moved c s t slot proof orphans h in
        let (follows, now) = in_epoch c s t slot e proof orphans f h there in
        let (same, stake, _, _, _) =
          snapshots_frozen v s m.mid slot f m.moved (there ∙ ap ok (sym at)) (rw at fits32)
            (rw at fits64) in
        let (g, epoch, next) = Blocks-keep e rest follows now fits32 fits64 in
        (g, epoch ∙ m.same_epoch ∙ same, next ∙ ap (λ x. x.commitments) m.same_next ∙ stake)

    -- With a proper configuration and a state `s` whose epochs are its slot's: when a block of a new epoch `e` is
    -- taken in on `s`, then any blocks of that epoch, and then one of epoch `e + 1`, the notes in the state of epoch
    -- `e + 1` are those that could be spent in `s`, before the first block of `e`; and the snapshot for epoch `e + 2`
    -- has the notes that could be spent before the first block of `e + 1`. Epoch `e + 2` fits 32 bits, and the
    -- start of `e + 1` 64.
    pub stake_rolls :
        (s first last t : LedgerState) (slot slot' e : ℕ) (proof proof' : LeaderProof)
        (orphans orphans' : List OrphanProof)
        → FollowsSlot c s
        → try_update_state s slot proof orphans c ≡ ok first
        → config_epoch {E = LedgerError} c slot ≡ ok e
        → e ≢ s.epoch_state.epoch
        → Blocks c e first last
        → try_update_state last slot' proof' orphans' c ≡ ok t
        → config_epoch {E = LedgerError} c slot' ≡ ok (e + 1)
        → e + 2 < u32_size
        → (e + 1) * len < u64_size
        → (t.epoch_state.epoch ≡ e + 1)
          × (t.epoch_state.commitments ≡ s.spend_commitments)
          × (t.next_epoch_state.epoch ≡ e + 2)
          × (t.next_epoch_state.commitments ≡ last.spend_commitments)
    stake_rolls s first last t slot slot' e proof proof' orphans orphans' f h there new run h'
          there' fits32 fits64 =
        let m = try_update_state-Moved c s first slot proof orphans h in
        let (follows, at) = in_epoch c s first slot e proof orphans f h there in
        let (made, _) = epoch_entered v s m.mid slot e f m.moved there new in
        let (g, same, kept) = Blocks-keep e run follows at (omega arith) fits64 in
        let m' = try_update_state-Moved c last t slot' proof' orphans' h' in
        let at' : last.epoch_state.epoch ≡ e = ap (λ x. x.epoch) same ∙ at in
        let (made', now) =
          epoch_entered v last m'.mid slot' (e + 1) g m'.moved there' (λ p. omega arith) in
        let one : next_epoch e ≡ e + 1 = unfold next_epoch in omega arith in
        let two : next_epoch (e + 1) ≡ e + 2 = unfold next_epoch in omega arith in
        let rolled : m'.mid.epoch_state ≡ last.next_epoch_state = ground (arith, now, at', one) in
        (
          (in_epoch c last t slot' (e + 1) proof' orphans' g h' there').1,
          ap (λ x. x.commitments) (m'.same_epoch ∙ rolled)
              ∙ kept
              ∙ ap (λ x. x.commitments) (m.same_next ∙ made),
          ap (λ x. x.epoch) (m'.same_next ∙ made') ∙ two,
          ap (λ x. x.commitments) (m'.same_next ∙ made'),
        )
