-- ===== src/Sdp/Interfaces.antt =====
-- nomos-sdp/src/ledger.rs, the traits `DeclarationsRepository`, `ServicesRepository`,
-- `RewardsRequestSender` and `StakesVerifier`, whose implementations are not in the crate: one record of
-- operations on a `World`, the state behind them.
use nomos_node.Prelude.{ℕ, nat_eq, Outcome}
use nomos_node.Sdp.Types.{
  ServiceParameters, ServiceType, ProviderInfo, Declaration, DeclarationUpdate, RewardMessage,
}

pub data DeclarationsRepositoryError : Type 0 where
  provider_not_found : ℕ → DeclarationsRepositoryError
  declaration_not_found : ℕ → DeclarationsRepositoryError
  duplicate_nonce other : DeclarationsRepositoryError

pub data ServicesRepositoryError : Type 0 where
  not_found : ServiceType → ServicesRepositoryError
  other : ServicesRepositoryError

pub data RewardsSenderError : Type 0 where
  not_found : ℕ → RewardsSenderError
  other : RewardsSenderError

pub data StakesVerifierError : Type 0 where
  no_stake stake_too_low invalid_proof other : StakesVerifierError

pub record External (Metadata Proof : Type 0) : Type 1 where
  pub World : Type 0
  pub get_provider_info : World → ℕ → Outcome DeclarationsRepositoryError ProviderInfo
  pub get_declaration : World → ℕ → Outcome DeclarationsRepositoryError Declaration
  pub update_provider_info :
      ProviderInfo → World → Outcome DeclarationsRepositoryError (Unit {0}) × World
  pub update_declaration :
      DeclarationUpdate → World → Outcome DeclarationsRepositoryError (Unit {0}) × World
  pub check_nonce : ℕ → ℕ → World → Outcome DeclarationsRepositoryError (Unit {0}) × World
  pub get_parameters : World → ServiceType → Outcome ServicesRepositoryError ServiceParameters
  pub request_reward :
      ℕ → RewardMessage Metadata → World → Outcome RewardsSenderError (Unit {0}) × World
  pub verify : World → ℕ → Proof → Outcome StakesVerifierError (Unit {0})
