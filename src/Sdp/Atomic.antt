-- ===== src/Sdp/Atomic.antt =====
-- nomos-sdp/src/ledger.rs: what a message leaves behind, refused or accepted.
use nomos_node.Prelude.{
  ℕ, ◌≡◌, refl, sym, ap, ◌∙◌, ◌⊎◌, ◌&&◌, Option, some, arith, ◌==◌, if◌then◌else◌, ==_iff, nat_eq,
  Never, Outcome, ok, err, panic, timeout,
}
use nomos_node.Sdp.Action.{Action, continue}
use nomos_node.Prelude.Map
use nomos_node.Prelude.Map.{Map, get, get-insert, get-remove}
use nomos_node.Sdp.Types.{
  ServiceParameters, ProviderInfo, DeclarationUpdate, DeclarationMessage, RewardMessage,
  reward_of_withdraw, WithdrawMessage, SdpMessage, declare_message, reward_message,
  withdraw_message, EventType, Digests, message_provider, message_service, message_declaration,
}
use nomos_node.Sdp.State.{
  ProviderState, info_of, map_result, try_into_active, try_into_withdrawn, ProviderStateError,
  try_from_info, declaration_id,
}
use nomos_node.Sdp.Transitions.{active-Keeps, withdrawn-Keeps}
use nomos_node.Sdp.Interfaces.{External}
use nomos_node.Sdp.Runs.{Run, continue-Run, lift-Run}
use nomos_node.Sdp.Pending.{SdpLedger, SdpLedgerError, get_in, or_empty, insert_in}
use nomos_node.Sdp.Ledger.{
  process_declare, process_reward, process_withdraw, withdraw_with_reward, send_reward,
  process_message, process_sdp_message, current_info,
}

-- `get` of a map of maps after a write to it.
get_in-insert_in {ℓ} :
    {V : Type ℓ} (b k c j : ℕ) (v : V) (m : Map ℕ (Map ℕ V))
    → get_in c j (insert_in b k v m) ≡ (if (b == c) && (k == j) then some v else get_in c j m)
unfolding get_in insert_in
get_in-insert_in b k c j v m = ground (
  arith,
  get-insert b c (Map.insert k v (or_empty (get b m))) m,
  get-insert k j v (or_empty (get b m)),
)

-- A transition that succeeds keeps the declaration.
abbrev Moves : ProviderState → Outcome ProviderStateError ProviderState → Type 0
Moves p (ok q) = (info_of p).declaration_id ≡ (info_of q).declaration_id
Moves p o = Unit {0}

Moves-ok :
    (p : ProviderState) (o : Outcome ProviderStateError ProviderState)
    → ((q : ProviderState) → o ≡ ok q → (info_of p).declaration_id ≡ (info_of q).declaration_id)
    → Moves p o
Moves-ok p (ok q) h = h q refl
Moves-ok p (err e) h = tt
Moves-ok p panic h = tt
Moves-ok p timeout h = tt

active-Moves :
    (params : ServiceParameters) (p : ProviderState) (n : ℕ) (e : EventType)
    → Moves p (try_into_active p n e)
active-Moves params p n e = Moves-ok p _ (λ q h. (active-Keeps params p n e h).0.1)

withdrawn-Moves :
    (params : ServiceParameters) (p : ProviderState) (n : ℕ) (e : EventType)
    → Moves p (try_into_withdrawn p n e params)
withdrawn-Moves params p n e = Moves-ok p _ (λ q h. (withdrawn-Keeps params p n e h).0.1)

-- The world after the message's nonce was checked; a declaration has none.
abbrev pub nonce_checked :
    {Metadata Proof : Type 0} (ext : External Metadata Proof)
    → SdpMessage Metadata Proof
    → ext.World
    → ext.World
nonce_checked ext (declare_message m) w = w
nonce_checked ext (reward_message m) w = (ext.check_nonce m.provider_id m.nonce w).1
nonce_checked ext (withdraw_message m) w = (ext.check_nonce m.provider_id m.nonce w).1

module _ {Metadata Proof : Type 0} {ext : External Metadata Proof} where
  -- What is held back is as it was.
  abbrev pub SamePending : SdpLedger ext → SdpLedger ext → Type 0
  SamePending s t =
      (s.pending_providers ≡ t.pending_providers)
      × (s.pending_declarations ≡ t.pending_declarations)
      × (s.pending_rewards ≡ t.pending_rewards)

  -- Refused: nothing held back has changed. Accepted: the declaration is the one of the state before,
  -- and the providers held back are as they were.
  abbrev Checked :
      ProviderState → SdpLedger ext → Outcome SdpLedgerError ProviderState × SdpLedger ext → Type 0
  Checked p s = Run (SamePending s) (λ q t.
      ((info_of p).declaration_id ≡ (info_of q).declaration_id)
      × (s.pending_providers ≡ t.pending_providers))

  module _ ⦃dg : Digests⦄ where
    declare-Checked :
        (n : ℕ) (p : ProviderState) (m : DeclarationMessage Proof) (params : ServiceParameters)
        (s : SdpLedger ext)
        → Checked p s (process_declare ext n p m s)
    unfolding process_declare
    declare-Checked n p m params s = ground (arith, active-Moves params p n EventType.declaration)

    reward-Checked :
        (n : ℕ) (p : ProviderState) (m : RewardMessage Metadata) (params : ServiceParameters)
        (s : SdpLedger ext)
        → Checked p s (process_reward ext n p m params s)
    unfolding process_reward send_reward
    reward-Checked n p m params s = ground (arith, active-Moves params p n EventType.reward)

    pay-Checked :
        (n : ℕ) (p : ProviderState) (m : Option (RewardMessage Metadata))
        (params : ServiceParameters) (s : SdpLedger ext)
        → Checked p s (withdraw_with_reward ext n p m params s)
    unfolding withdraw_with_reward send_reward
    pay-Checked n p m params s = ground (arith, withdrawn-Moves params p n EventType.reward)

    withdraw-Checked :
        (n : ℕ) (p : ProviderState) (m : WithdrawMessage Metadata) (params : ServiceParameters)
        (s : SdpLedger ext)
        → Checked p s (process_withdraw ext n p m params s)
    unfolding process_withdraw
    withdraw-Checked n p m params s =
        continue-Run (SamePending s)
          (λ q t. ((info_of p).declaration_id ≡ (info_of q).declaration_id) × (t ≡ s)) _
          (map_result (λ s. s) SdpLedgerError.provider_state
            (try_into_withdrawn p n EventType.withdrawal params))
          s _ (ground (arith, withdrawn-Moves params p n EventType.withdrawal))
          (λ q t (same, e).
            let after = record s { world = (ext.check_nonce m.provider_id m.nonce s.world).1 } in
            ground (arith, pay-Checked n q (reward_of_withdraw m) params after))

    message-Checked :
        (n : ℕ) (p : ProviderState) (m : SdpMessage Metadata Proof) (params : ServiceParameters)
        (s : SdpLedger ext)
        → Checked p s (process_message ext n p m params s)
    unfolding process_message
    message-Checked n p (declare_message m) params s = declare-Checked n p m params s
    message-Checked n p (reward_message m) params s = reward-Checked n p m params s
    message-Checked n p (withdraw_message m) params s = withdraw-Checked n p m params s

    -- Held back for the block: one provider's information, of the message's declaration.
    abbrev pub Held : ℕ → SdpMessage Metadata Proof → SdpLedger ext → SdpLedger ext → Type 0
    Held n m s t =
        (info : ProviderInfo) × (info.declaration_id ≡ message_declaration m)
        × (t.pending_providers ≡ insert_in n (message_provider m) info s.pending_providers)

    -- The message's own checks, and the write that follows them.
    abbrev hold :
        ℕ
        → SdpMessage Metadata Proof
        → ServiceParameters
        → ProviderState
        → Action (SdpLedger ext) SdpLedgerError (Unit {0})
    hold n m params p s =
        continue (process_message ext n p m params s).0
          (λ q t. (
            ok tt,
            record t {
              pending_providers = insert_in n (message_provider m) (info_of q) t.pending_providers;
            },
          ))
          (process_message ext n p m params s).1

    hold-Run :
        (n : ℕ) (m : SdpMessage Metadata Proof) (params : ServiceParameters) (p : ProviderState)
        (s : SdpLedger ext)
        → (info_of p).declaration_id ≡ message_declaration m
        → Run (SamePending s) (λ _ t. Held n m s t) (hold n m params p s)
    hold-Run n m params p s named =
        continue-Run (SamePending s)
          (λ q t.
            ((info_of p).declaration_id ≡ (info_of q).declaration_id)
            × (s.pending_providers ≡ t.pending_providers))
          (λ _ t. Held n m s t) (process_message ext n p m params s).0
          (process_message ext n p m params s).1 _ (message-Checked n p m params s)
          (λ q t (same, kept). (
            info_of q,
            sym same ∙ named,
            ap (insert_in n (message_provider m) (info_of q)) (sym kept),
          ))

    -- A message that is refused, by a check or by the outside world, leaves everything that is held back as
    -- it was. A message that is accepted holds back, for its block and its provider, information of the
    -- declaration that the message names, and leaves the other held back providers as they were.
    pub process_sdp_message-Atomic :
        (n : ℕ) (m : SdpMessage Metadata Proof) (s : SdpLedger ext)
        → Run (SamePending s) (λ _ t. Held n m s t) (process_sdp_message ext n m s)
    unfolding process_sdp_message declaration_id
    process_sdp_message-Atomic n m s =
        let same : SamePending s s = (refl, refl, refl) in
        lift-Run (SamePending s) (λ _ t. Held n m s t)
          (map_result (λ x. x) SdpLedgerError.services_repository
            (ext.get_parameters s.world (message_service m)))
          s _ same
          (λ params _.
            lift-Run (SamePending s) (λ _ t. Held n m s t)
              (current_info ext s n (message_provider m) (message_declaration m)) s _ same
              (λ info _.
                lift-Run (SamePending s) (λ _ t. Held n m s t)
                  (map_result (λ x. x) SdpLedgerError.provider_state (try_from_info n info params))
                  s _ same
                  (λ p _. ground (
                    arith,
                    hold-Run n m params p s,
                    ==_iff ((info_of p).declaration_id) (message_declaration m),
                  ))))

    -- A provider that has a declaration held back for a block cannot declare again in that block: the message is
    -- not accepted, and everything that is held back stays as it was.
    pub process_sdp_message-no_duplicate :
        (n : ℕ) (m : DeclarationMessage Proof) (u : DeclarationUpdate) (s : SdpLedger ext)
        → get_in n m.provider_id s.pending_declarations ≡ some u
        → Run (SamePending s) (λ _ t. Never) (process_sdp_message ext n (declare_message m) s)
    unfolding process_sdp_message process_message process_declare message_provider
    process_sdp_message-no_duplicate n m u s held = ground arith

    -- While a reward of the message's provider is held back, no other is requested, whatever the message comes
    -- to: the rewards that are held back stay the same, and the world beyond the ledger is as it was, or as the
    -- check of the message's nonce left it.
    pub process_sdp_message-one_reward :
        (n : ℕ) (m : SdpMessage Metadata Proof) (r : ℕ) (s : SdpLedger ext)
        → get (message_provider m) s.pending_rewards ≡ some r
        → ((process_sdp_message ext n m s).1.pending_rewards ≡ s.pending_rewards)
          × (((process_sdp_message ext n m s).1.world ≡ s.world)
              ⊎ ((process_sdp_message ext n m s).1.world ≡ nonce_checked ext m s.world))
    unfolding process_sdp_message process_message process_declare process_reward process_withdraw
        message_provider
    process_sdp_message-one_reward n (declare_message m) r s held = ground arith
    process_sdp_message-one_reward n (reward_message m) r s held = ground arith
    process_sdp_message-one_reward n (withdraw_message m) r s held = ground arith
