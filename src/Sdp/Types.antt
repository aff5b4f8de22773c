-- ===== src/Sdp/Types.antt =====
-- nomos-sdp/src/lib.rs: messages, declarations and parameters. Ids, nonces and addresses are numbers;
-- the Blake2b digests behind ids are the argument `Digests`.
use nomos_node.Prelude.{
  ℕ, ◌≡◌, ◌↔◌, Bool, true, false, Option, none, some, List, [], arith, Eq, nat_eq,
}
use nomos_node.Prelude.Map
use nomos_node.Prelude.Map.{Map, get, contains, add}

pub record ServiceParameters : Type 0 where
  pub lock_period : ℕ
  pub inactivity_period : ℕ
  pub retention_period : ℕ
  pub reward_contract : ℕ
  pub timestamp : ℕ

pub data ServiceType : Type 0 where
  blend_network data_availability executor_network generic_restaking : ServiceType

abbrev pub service_beq : ServiceType → ServiceType → Bool
service_beq blend_network blend_network = true
service_beq data_availability data_availability = true
service_beq executor_network executor_network = true
service_beq generic_restaking generic_restaking = true
service_beq _ _ = false

pub service_beq_iff : (a b : ServiceType) → (service_beq a b ≡ true) ↔ (a ≡ b)
service_beq_iff blend_network b = ground arith
service_beq_iff data_availability b = ground arith
service_beq_iff executor_network b = ground arith
service_beq_iff generic_restaking b = ground arith

instance abbrev pub service_eq : Eq ServiceType
service_eq = record { beq = service_beq; beq_iff = service_beq_iff }

pub record ProviderInfo : Type 0 where
  pub provider_id : ℕ
  pub declaration_id : ℕ
  pub created : ℕ
  pub rewarded : Option ℕ
  pub withdrawn : Option ℕ

-- `ProviderInfo::new`
unfoldable pub new_info : ℕ → ℕ → ℕ → ProviderInfo
new_info block_number provider_id declaration_id = record {
  provider_id = provider_id;
  declaration_id = declaration_id;
  created = block_number;
  rewarded = none;
  withdrawn = none;
}

pub record Declaration : Type 0 where
  pub declaration_id : ℕ
  pub locators : List ℕ
  pub services : Map ServiceType (List ℕ)

unfoldable pub has_service_provider : Declaration → ServiceType → ℕ → Bool
has_service_provider self service_type provider_id = elim (get service_type self.services) [
  | none ↦ false
  | some service ↦ contains provider_id service
]

abbrev or_default {ℓ} : {A : Type ℓ} → Option (List A) → List A
or_default none = []
or_default (some x) = x

unfoldable pub insert_service_provider : Declaration → ℕ → ServiceType → Declaration
insert_service_provider self provider_id service_type = record self {
  services =
      Map.insert service_type (add provider_id (or_default (get service_type self.services)))
        self.services;
}

pub record DeclarationUpdate : Type 0 where
  pub declaration_id : ℕ
  pub provider_id : ℕ
  pub service_type : ServiceType
  pub locators : List ℕ

pub record DeclarationMessage (Proof : Type 0) : Type 0 where
  pub service_type : ServiceType
  pub locators : List ℕ
  pub proof_of_funds : Proof
  pub provider_id : ℕ

pub record WithdrawMessage (Metadata : Type 0) : Type 0 where
  pub declaration_id : ℕ
  pub service_type : ServiceType
  pub provider_id : ℕ
  pub nonce : ℕ
  pub metadata : Option Metadata

pub record RewardMessage (Metadata : Type 0) : Type 0 where
  pub declaration_id : ℕ
  pub service_type : ServiceType
  pub provider_id : ℕ
  pub nonce : ℕ
  pub metadata : Option Metadata

-- Blake2b over the locators, and over a reward's declaration, provider and nonce.
pub record Digests : Type 0 where
  pub of_locators : List ℕ → ℕ
  pub of_reward : ℕ → ℕ → ℕ → ℕ

-- `RewardMessage::try_from`; the error carries nothing.
unfoldable pub reward_of_withdraw :
    {Metadata : Type 0} → WithdrawMessage Metadata → Option (RewardMessage Metadata)
reward_of_withdraw withdraw = elim withdraw.metadata [
  | none ↦ none
  | some m ↦ some (record {
    declaration_id = withdraw.declaration_id;
    service_type = withdraw.service_type;
    provider_id = withdraw.provider_id;
    nonce = withdraw.nonce;
    metadata = withdraw.metadata;
  })
]

pub data EventType : Type 0 where
  declaration reward withdrawal : EventType

pub data SdpMessage (Metadata Proof : Type 0) : Type 0 where
  declare_message : DeclarationMessage Proof → SdpMessage Metadata Proof
  reward_message : RewardMessage Metadata → SdpMessage Metadata Proof
  withdraw_message : WithdrawMessage Metadata → SdpMessage Metadata Proof

module _ ⦃dg : Digests⦄ where
  -- `DeclarationMessage::declaration_id`
  unfoldable pub declared_id : {Proof : Type 0} → DeclarationMessage Proof → ℕ
  declared_id self = dg.of_locators self.locators

  -- `DeclarationUpdate::from`
  unfoldable pub update_of : {Proof : Type 0} → DeclarationMessage Proof → DeclarationUpdate
  update_of message = record {
    declaration_id = declared_id message;
    provider_id = message.provider_id;
    service_type = message.service_type;
    locators = message.locators;
  }

  unfoldable pub reward_id : {Metadata : Type 0} → RewardMessage Metadata → ℕ
  reward_id self = dg.of_reward self.declaration_id self.provider_id self.nonce

  -- `SdpMessage::provider_id`, `declaration_id` and `service_type`
  unfoldable pub message_provider : {Metadata Proof : Type 0} → SdpMessage Metadata Proof → ℕ
  message_provider (declare_message m) = m.provider_id
  message_provider (reward_message m) = m.provider_id
  message_provider (withdraw_message m) = m.provider_id

  unfoldable pub message_declaration : {Metadata Proof : Type 0} → SdpMessage Metadata Proof → ℕ
  message_declaration (declare_message m) = declared_id m
  message_declaration (reward_message m) = m.declaration_id
  message_declaration (withdraw_message m) = m.declaration_id

  unfoldable pub message_service :
      {Metadata Proof : Type 0} → SdpMessage Metadata Proof → ServiceType
  message_service (declare_message m) = m.service_type
  message_service (reward_message m) = m.service_type
  message_service (withdraw_message m) = m.service_type
