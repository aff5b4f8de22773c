-- ===== src/Ledger/Spending.antt =====
-- ledger/nomos-ledger/src/lib.rs, `try_apply_leadership`: no nullifier is spent twice, and the epoch is
-- the one that the proof is checked for.
use nomos_node.Prelude.{
  ℕ, ◌≡◌, refl, ap, subst, ◌∙◌, true, false, ◌||◌, List, [], ◌∷◌, ◌++◌, map, arith, ◌==◌, nat_eq,
  ok, >>=-eq-ok,
}
use nomos_node.Prelude.Map.{contains, add, contains-add}
use nomos_node.Engine.Time.{FloatOps}
use nomos_node.Merkle.{Hasher}
use nomos_node.Ledger.State.{
  LedgerState, OrphanProof, Crypto, is_nullified, try_apply_proof_outputs, apply_orphans,
}

-- No number stands twice in the list.
abbrev pub NoRepeats : List ℕ → Type 0
NoRepeats [] = Unit
NoRepeats (x ∷ xs) = (contains x xs ≡ false) × NoRepeats xs

module _ ⦃fl : FloatOps⦄ ⦃sha : Hasher⦄ where
  -- `t` is `s` after `nf` was spent, where it had not been.
  pub record Spends (nf : ℕ) (s t : LedgerState) : Type 0 where
    pub unspent : contains nf s.nullifiers ≡ false
    pub spent : t.nullifiers ≡ add nf s.nullifiers
    pub same_epoch : t.epoch_state ≡ s.epoch_state
    pub same_next : t.next_epoch_state ≡ s.next_epoch_state
    pub same_slot : t.slot ≡ s.slot
    pub same_nonce : t.nonce ≡ s.nonce

  pub try_apply_proof_outputs-Spends :
      (s t : LedgerState) (r nf : ℕ) (cm : sha.Data)
      → try_apply_proof_outputs s r nf cm ≡ ok t
      → Spends nf s t
  unfolding try_apply_proof_outputs is_nullified
  try_apply_proof_outputs-Spends s t r nf cm h = ground arith

  abbrev pub nullifiers_of : List OrphanProof → List ℕ
  nullifiers_of orphans = map (λ (o : OrphanProof). o.nullifier) orphans

  -- What a block's proofs do to the state of its epoch: each nullifier is new to the ledger and to the block.
  pub record SpendsAll (nfs : List ℕ) (s t : LedgerState) : Type 0 where
    pub no_repeats : NoRepeats nfs
    pub unspent : (nf : ℕ) → contains nf nfs ≡ true → contains nf s.nullifiers ≡ false
    pub spent : (nf : ℕ) → contains nf t.nullifiers ≡ (contains nf s.nullifiers || contains nf nfs)
    pub same_epoch : t.epoch_state ≡ s.epoch_state
    pub same_next : t.next_epoch_state ≡ s.next_epoch_state
    pub same_slot : t.slot ≡ s.slot
    pub same_nonce : t.nonce ≡ s.nonce

  SpendsAll-cons :
      (nf : ℕ) (nfs : List ℕ) (s t u : LedgerState)
      → Spends nf s t
      → SpendsAll nfs t u
      → SpendsAll (nf ∷ nfs) s u
  unfolding contains
  SpendsAll-cons nf nfs s t u one rest = record {
    no_repeats = (ground (arith, grown nf, rest.unspent nf), rest.no_repeats);
    unspent = λ k m. ground (arith, grown k, rest.unspent k, one.unspent);
    spent = λ k. ground (arith, grown k, rest.spent k);
    same_epoch = rest.same_epoch ∙ one.same_epoch;
    same_next = rest.same_next ∙ one.same_next;
    same_slot = rest.same_slot ∙ one.same_slot;
    same_nonce = rest.same_nonce ∙ one.same_nonce;
  }
    where
      grown : (k : ℕ) → contains k t.nullifiers ≡ ((nf == k) || contains k s.nullifiers)
      grown k = ap (contains k) one.spent ∙ contains-add nf k s.nullifiers

  SpendsAll-one : (nf : ℕ) (s t : LedgerState) → Spends nf s t → SpendsAll (nf ∷ []) s t
  unfolding contains
  SpendsAll-one nf s t one = record {
    no_repeats = (refl, tt);
    unspent = λ k m. ground (arith, one.unspent);
    spent = λ k. ap (contains k) one.spent ∙ contains-add nf k s.nullifiers ∙ ground arith;
    same_epoch = one.same_epoch;
    same_next = one.same_next;
    same_slot = one.same_slot;
    same_nonce = one.same_nonce;
  }

  SpendsAll-none : (s : LedgerState) → SpendsAll [] s s
  unfolding contains
  SpendsAll-none s = record {
    no_repeats = tt;
    unspent = λ k m. cc;
    spent = λ k. ground arith;
    same_epoch = refl;
    same_next = refl;
    same_slot = refl;
    same_nonce = refl;
  }

  module _ ⦃cr : Crypto⦄ where
    -- The orphans' proofs, then the block's own.
    pub all_spent :
        (orphans : List OrphanProof) (s t u : LedgerState) (nf : ℕ)
        → apply_orphans s orphans ≡ ok t
        → Spends nf t u
        → SpendsAll (nullifiers_of orphans ++ nf ∷ []) s u
    unfolding apply_orphans
    all_spent [] s t u nf h last =
        SpendsAll-one nf s u (subst (λ x. Spends nf x u) (ground arith) last)
    all_spent (o ∷ orphans) s t u nf h last =
        let (s', first, rest) =
          >>=-eq-ok (try_apply_proof_outputs s o.cm_root o.nullifier o.commitment) _ h in
        SpendsAll-cons o.nullifier _ s s' u
          (try_apply_proof_outputs-Spends s s' o.cm_root o.nullifier o.commitment first)
          (all_spent orphans s' t u nf rest last)
