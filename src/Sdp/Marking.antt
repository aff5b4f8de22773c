-- ===== src/Sdp/Marking.antt =====
-- nomos-sdp/src/ledger.rs: what is held back for a block once the block is marked or discarded.
use nomos_node.Prelude.{
  ℕ, ◌≡◌, refl, sym, ap, subst, ◌∙◌, inl, inr, Bool, true, false, ◌||◌, Bool-cases, none, some,
  List, [], ◌∷◌, arith, ◌==◌, if◌then◌else◌, Option-cases, nat_eq, In, ok,
}
use nomos_node.Prelude.Map
use nomos_node.Prelude.Map.{Map, get, get-remove}
use nomos_node.Sdp.Types.{ProviderInfo}
use nomos_node.Sdp.Interfaces.{External}
use nomos_node.Sdp.Pending.{SdpLedger, or_empty, values, drop_rewards}
use nomos_node.Sdp.Block.{mark_declaration_in_block, mark_all, mark_in_block, discard_block}
use nomos_node.Sdp.Runs.{Run, Run-map}

-- One of them is provider `p`.
abbrev pub held_back : ℕ → List ProviderInfo → Bool
held_back p [] = false
held_back p (i ∷ infos) = (i.provider_id == p) || held_back p infos

get-drop_rewards :
    (infos : List ProviderInfo) (p : ℕ) (m : Map ℕ ℕ)
    → get p (drop_rewards infos m) ≡ (if held_back p infos then none else get p m)
unfolding drop_rewards
get-drop_rewards [] p m = refl
get-drop_rewards (i ∷ infos) p m =
    ground
      (arith, get-drop_rewards infos p (Map.remove i.provider_id m), get-remove i.provider_id p m)

held_back-In :
    (p : ℕ) (infos : List ProviderInfo)
    → held_back p infos ≡ true
    → (i : ProviderInfo) × In i infos × (i.provider_id ≡ p)
held_back-In p [] h = cc
held_back-In p (i ∷ infos) h = elim (Bool-cases (i.provider_id == p)) [
  | inl e ↦ (i, inl refl, ground arith)
  | inr e ↦ let (j, here, same) = held_back-In p infos (ground arith) in (j, inr here, same)
]

In-held_back :
    (i : ProviderInfo) (infos : List ProviderInfo)
    → In i infos
    → held_back i.provider_id infos ≡ true
In-held_back i [] h = elim h [ ]
In-held_back i (j ∷ infos) (inl e) = ground (arith, ap (λ (x : ProviderInfo). x.provider_id) e)
In-held_back i (j ∷ infos) (inr h) = ground (arith, In-held_back i infos h)

held_back-le :
    (p : ℕ) (xs ys : List ProviderInfo)
    → ((i : ProviderInfo) → In i xs → In i ys)
    → held_back p xs ≡ true
    → held_back p ys ≡ true
held_back-le p xs ys f h =
    let (i, here, same) = held_back-In p xs h in
    subst (λ q. held_back q ys ≡ true) same (In-held_back i ys (f i here))

-- The same providers in another order.
held_back-same :
    (p : ℕ) (xs ys : List ProviderInfo)
    → ((i : ProviderInfo) → In i xs → In i ys)
    → ((i : ProviderInfo) → In i ys → In i xs)
    → held_back p xs ≡ held_back p ys
held_back-same p xs ys f g = ground (arith, held_back-le p xs ys f, held_back-le p ys xs g)

module _ {Metadata Proof : Type 0} {ext : External Metadata Proof} where
  -- The rewards, and the providers held back.
  mark_declaration-keeps :
      (n : ℕ) (i : ProviderInfo) (s : SdpLedger ext)
      → ((mark_declaration_in_block ext n i s).1.pending_providers ≡ s.pending_providers)
        × ((mark_declaration_in_block ext n i s).1.pending_rewards ≡ s.pending_rewards)
  unfolding mark_declaration_in_block
  mark_declaration-keeps n i s = ground arith

  mark_all-Run :
      (n : ℕ) (infos : List ProviderInfo) (s : SdpLedger ext)
      → Run
          (λ t. t.pending_providers ≡ s.pending_providers)
          (λ _ t.
            (t.pending_providers ≡ s.pending_providers)
            × (t.pending_rewards ≡ drop_rewards infos s.pending_rewards))
          (mark_all ext n infos s)
  unfolding mark_all drop_rewards
  mark_all-Run n [] s = (refl, refl)
  mark_all-Run n (i ∷ infos) s =
      let start : SdpLedger ext = record s {
        pending_rewards = Map.remove i.provider_id s.pending_rewards;
      } in
      ground (
        arith,
        mark_declaration-keeps n i start,
        mark_all-Run n infos (mark_declaration_in_block ext n i start).1,
      )

  -- The table of held back providers without block `n`.
  abbrev pub Without : ℕ → SdpLedger ext → SdpLedger ext → Type 0
  Without n s t =
      (c : ℕ) → get c t.pending_providers ≡ (if n == c then none else get c s.pending_providers)

  -- The providers held back for block `n`.
  abbrev pub in_block : ℕ → SdpLedger ext → List ProviderInfo
  in_block n s = values (or_empty (get n s.pending_providers))

  -- The rewards held back without those of the providers of block `n`.
  abbrev pub RewardsWithout : ℕ → SdpLedger ext → SdpLedger ext → Type 0
  RewardsWithout n s t =
      (p : ℕ)
      → get p t.pending_rewards
        ≡ (if held_back p (in_block n s) then none else get p s.pending_rewards)

  module _ (order : List ProviderInfo → List ProviderInfo)
      (members : (xs : List ProviderInfo) (x : ProviderInfo) → In x xs → In x (order xs)) where
    mark_in_block-none :
        (n : ℕ) (s : SdpLedger ext)
        → get n s.pending_providers ≡ none
        → mark_in_block ext order n s ≡ (ok tt, s)
    unfolding mark_in_block
    mark_in_block-none n s e = ground (arith, e)

    mark_in_block-some :
        (n : ℕ) (updates : Map ℕ ProviderInfo) (s : SdpLedger ext)
        → get n s.pending_providers ≡ some updates
        → mark_in_block ext order n s
          ≡ mark_all ext n
              (order (values updates))
              (record s { pending_providers = Map.remove n s.pending_providers })
    unfolding mark_in_block
    mark_in_block-some n updates s held = ground (arith, held)

    module _ (from : (xs : List ProviderInfo) (x : ProviderInfo) → In x (order xs) → In x xs) where
      dropped :
          (n p : ℕ) (updates : Map ℕ ProviderInfo) (s : SdpLedger ext)
          → get n s.pending_providers ≡ some updates
          → get p (drop_rewards (order (values updates)) s.pending_rewards)
            ≡ (if held_back p (in_block n s) then none else get p s.pending_rewards)
      dropped n p updates s e = ground (
        arith,
        e,
        get-drop_rewards (order (values updates)) p s.pending_rewards,
        held_back-same p (order (values updates)) (values updates) (from (values updates))
            (members (values updates)),
      )

      -- When block `n` is discarded, the providers and the declarations held back for it are dropped, and those of
      -- every other block are as they were. Of the rewards held back, exactly those of the providers that were held back
      -- for the block are dropped, whichever block they were requested in.
      pub discard_block-Clears :
          (n c p : ℕ) (s : SdpLedger ext)
          → (get c (discard_block ext order n s).pending_providers
              ≡ (if n == c then none else get c s.pending_providers))
            × (get c (discard_block ext order n s).pending_declarations
                ≡ (if n == c then none else get c s.pending_declarations))
            × (get p (discard_block ext order n s).pending_rewards
                ≡ (if held_back p (in_block n s) then none else get p s.pending_rewards))
      unfolding discard_block
      discard_block-Clears n c p s = elim (Option-cases (get n s.pending_providers)) [
        | inl e ↦ ground (arith, e, get-remove n c s.pending_declarations)
        | inr (updates, e) ↦ ground (
          arith,
          e,
          get-remove n c s.pending_providers,
          get-remove n c s.pending_declarations,
          dropped n p updates s e,
        )
      ]

      -- When block `n` is marked, the providers held back for it are taken from the ledger, and those of no other
      -- block, even if a repository panics on the way. When marking succeeds, exactly the rewards of those providers
      -- are no longer held back, whichever block they were requested in.
      pub mark_in_block-Clears :
          (n : ℕ) (s : SdpLedger ext)
          → Run
              (Without n s)
              (λ _ t. Without n s t × RewardsWithout n s t)
              (mark_in_block ext order n s)
      mark_in_block-Clears n s = elim (Option-cases (get n s.pending_providers)) [
        | inl e ↦
            subst (Run (Without n s) (λ _ t. Without n s t × RewardsWithout n s t))
              (sym (mark_in_block-none n s e)) (λ c. ground (arith, e), λ p. ground (arith, e))
        | inr (updates, e) ↦
            let start : SdpLedger ext = record s {
              pending_providers = Map.remove n s.pending_providers;
            } in
            let without =
              λ (t : SdpLedger ext) (same : t.pending_providers ≡ start.pending_providers) (c : ℕ).
                ap (get c) same ∙ get-remove n c s.pending_providers in
            subst (Run (Without n s) (λ _ t. Without n s t × RewardsWithout n s t))
              (sym (mark_in_block-some n updates s e))
              (Run-map
                {q = λ (_ : Unit {0}) t.
                  (t.pending_providers ≡ start.pending_providers)
                  × (t.pending_rewards ≡ drop_rewards (order (values updates)) s.pending_rewards)}
                _ without
                (λ _ t (same, r). (without t same, λ p. ap (get p) r ∙ dropped n p updates s e))
                (mark_all-Run n (order (values updates)) start))
      ]
