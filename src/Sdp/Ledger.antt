-- ===== src/Sdp/Ledger.antt =====
-- nomos-sdp/src/ledger.rs, `SdpLedger`: messages are checked and their effects held back until their
-- block is marked or discarded. A method is an action on the ledger's state, and what it has written
-- before an error stays written.
use nomos_node.Prelude.{
  ℕ, Bool, true, false, not, Option, none, some, Outcome, ok, err, panic, timeout, nat_eq, ◌==◌,
}
use nomos_node.Sdp.Action.{Action, ◌>>=◌, ◌>>◌, pure, lift, gets, refuse}
use nomos_node.Prelude.Map
use nomos_node.Prelude.Map.{Map, get, contains_key}
use nomos_node.Sdp.Types.{
  ServiceParameters, ServiceType, ProviderInfo, DeclarationMessage, RewardMessage, WithdrawMessage,
  SdpMessage, declare_message, reward_message, withdraw_message, EventType, Digests, new_info,
  has_service_provider, reward_of_withdraw, declared_id, update_of, reward_id, message_provider,
  message_declaration, message_service,
}
use nomos_node.Sdp.State.{
  ProviderState, map_result, info_of, try_from_info, declaration_id, try_into_active,
  try_into_withdrawn,
}
use nomos_node.Sdp.Interfaces.{External, DeclarationsRepositoryError, provider_not_found}
use nomos_node.Sdp.Pending.{
  SdpLedger, SdpLedgerError, provider_state, declarations_repository, rewards_sender,
  services_repository, stakes_verifier, duplicate_service_declaration, service_not_provided,
  duplicate_declaration_in_block, wrong_declaration_id, get_in, insert_in, is_ok_and, is_none, call,
  ask,
}

module _ {Metadata Proof : Type 0} (ext : External Metadata Proof) where
  -- `if let Ok(declaration) = get_declaration(id).await { declaration.has_service_provider(..) }`
  abbrev provides : ℕ → ServiceType → ℕ → Action (SdpLedger ext) SdpLedgerError Bool
  provides declaration service provider self = (
    is_ok_and (ext.get_declaration self.world declaration)
        (λ d. has_service_provider d service provider),
    self,
  )

  abbrev lacks : ℕ → ServiceType → ℕ → Action (SdpLedger ext) SdpLedgerError Bool
  lacks declaration service provider self = (
    is_ok_and (ext.get_declaration self.world declaration)
        (λ d. not (has_service_provider d service provider)),
    self,
  )

  module _ ⦃dg : Digests⦄ where
    unfoldable pub process_declare :
        ℕ
        → ProviderState
        → DeclarationMessage Proof
        → Action (SdpLedger ext) SdpLedgerError ProviderState
    process_declare block_number current_state message = do
      pending_state ← lift (
          map_result (λ s. s) provider_state
            (try_into_active current_state block_number EventType.declaration))
      let provider_id = message.provider_id
      duplicate ← provides (declared_id message) message.service_type provider_id
      refuse duplicate duplicate_service_declaration
      pending ← gets (λ s. not (is_none (get_in block_number provider_id s.pending_declarations)))
      refuse pending duplicate_declaration_in_block
      ask ext stakes_verifier (λ w. ext.verify w provider_id message.proof_of_funds)
      λ s. (
        ok pending_state,
        record s {
          pending_declarations =
              insert_in block_number provider_id (update_of message) s.pending_declarations;
        },
      )

    -- The reward is requested, and then noted as pending.
    unfoldable pub send_reward :
        ServiceParameters
        → RewardMessage Metadata
        → Action (SdpLedger ext) SdpLedgerError (Unit {0})
    send_reward params message = do
      call ext rewards_sender (ext.request_reward params.reward_contract message)
      λ s. (
        ok tt,
        record s {
          pending_rewards = Map.insert message.provider_id (reward_id message) s.pending_rewards;
        },
      )

    -- `if let Entry::Vacant(entry) = self.pending_rewards.entry(provider_id)`
    abbrev vacant : (SdpLedger ext) → ℕ → Bool
    vacant s provider = is_none (get provider s.pending_rewards)

    abbrev when :
        Bool
        → Action (SdpLedger ext) SdpLedgerError (Unit {0})
        → Action (SdpLedger ext) SdpLedgerError (Unit {0})
    when true m = m
    when false m = pure tt

    unfoldable pub process_reward :
        ℕ
        → ProviderState
        → RewardMessage Metadata
        → ServiceParameters
        → Action (SdpLedger ext) SdpLedgerError ProviderState
    process_reward block_number current_state message params = do
      pending_state ← lift (
          map_result (λ s. s) provider_state
            (try_into_active current_state block_number EventType.reward))
      call ext declarations_repository (ext.check_nonce message.provider_id message.nonce)
      other ← lacks message.declaration_id message.service_type message.provider_id
      refuse other (service_not_provided message.service_type)
      free ← gets (λ s. vacant s message.provider_id)
      when free (send_reward params message)
      pure pending_state

    -- The reward that a withdrawal with metadata asks for.
    unfoldable pub withdraw_with_reward :
        ℕ
        → ProviderState
        → Option (RewardMessage Metadata)
        → ServiceParameters
        → Action (SdpLedger ext) SdpLedgerError ProviderState
    withdraw_with_reward block_number pending_state none params = pure pending_state
    withdraw_with_reward block_number pending_state (some message) params = do
      rewarded ← lift (
          map_result (λ s. s) provider_state
            (try_into_withdrawn pending_state block_number EventType.reward params))
      send_reward params message
      pure rewarded

    abbrev reward_if :
        Bool
        → ℕ
        → ProviderState
        → Option (RewardMessage Metadata)
        → ServiceParameters
        → Action (SdpLedger ext) SdpLedgerError ProviderState
    reward_if true block_number pending_state message params =
        withdraw_with_reward block_number pending_state message params
    reward_if false block_number pending_state message params = pure pending_state

    unfoldable pub process_withdraw :
        ℕ
        → ProviderState
        → WithdrawMessage Metadata
        → ServiceParameters
        → Action (SdpLedger ext) SdpLedgerError ProviderState
    process_withdraw block_number current_state message params = do
      pending_state ← lift (
          map_result (λ s. s) provider_state
            (try_into_withdrawn current_state block_number EventType.withdrawal params))
      call ext declarations_repository (ext.check_nonce message.provider_id message.nonce)
      other ← lacks message.declaration_id message.service_type message.provider_id
      refuse other (service_not_provided message.service_type)
      free ← gets (λ s. vacant s message.provider_id)
      reward_if free block_number pending_state (reward_of_withdraw message) params

    -- What is pending in the block, else what the repository has answered, else a new provider's.
    unfoldable pub choose_info :
        Option ProviderInfo
        → Outcome DeclarationsRepositoryError ProviderInfo
        → ProviderInfo
        → Outcome SdpLedgerError ProviderInfo
    choose_info pending panic new = panic
    choose_info pending timeout new = timeout
    choose_info (some info) answer new = ok info
    choose_info none (ok info) new = ok info
    choose_info none (err (provider_not_found p)) new = ok new
    choose_info none (err failure) new = err (declarations_repository failure)

    -- The provider's information. The repository is asked in any case.
    unfoldable pub current_info : (SdpLedger ext) → ℕ → ℕ → ℕ → Outcome SdpLedgerError ProviderInfo
    unfolding choose_info
    current_info self block_number provider_id declaration =
        choose_info (get_in block_number provider_id self.pending_providers)
          (ext.get_provider_info self.world provider_id)
          (new_info block_number provider_id declaration)

    unfoldable pub process_message :
        ℕ
        → ProviderState
        → SdpMessage Metadata Proof
        → ServiceParameters
        → Action (SdpLedger ext) SdpLedgerError ProviderState
    process_message block_number state (declare_message m) params =
        process_declare block_number state m
    process_message block_number state (reward_message m) params =
        process_reward block_number state m params
    process_message block_number state (withdraw_message m) params =
        process_withdraw block_number state m params

    unfoldable pub process_sdp_message :
        ℕ → SdpMessage Metadata Proof → Action (SdpLedger ext) SdpLedgerError (Unit {0})
    process_sdp_message block_number message = do
      let provider_id = message_provider message
      params ← ask ext services_repository (λ w. ext.get_parameters w (message_service message))
      found ← gets (λ s. current_info s block_number provider_id (message_declaration message))
      info ← lift found
      current_state ←
          lift (map_result (λ s. s) provider_state (try_from_info block_number info params))
      refuse (not (declaration_id current_state == message_declaration message))
          wrong_declaration_id
      pending_state ← process_message block_number current_state message params
      λ s. (
        ok tt,
        record s {
          pending_providers =
              insert_in block_number provider_id (info_of pending_state) s.pending_providers;
        },
      )
