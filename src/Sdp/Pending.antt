-- ===== src/Sdp/Pending.antt =====
-- nomos-sdp/src/ledger.rs, the state of `SdpLedger`: what is held back, and the world beyond it.
use nomos_node.Prelude.{
  ℕ, Bool, true, false, Option, none, some, List, [], ◌∷◌, map, Outcome, ok, err, panic, timeout,
  nat_eq,
}
use nomos_node.Sdp.Action.{Action}
use nomos_node.Prelude.Map
use nomos_node.Prelude.Map.{Map, get, contains_key}
use nomos_node.Sdp.Types.{ServiceType, ProviderInfo, DeclarationUpdate}
use nomos_node.Sdp.State.{ProviderStateError, map_result}
use nomos_node.Sdp.Interfaces.{
  External, DeclarationsRepositoryError, ServicesRepositoryError, RewardsSenderError,
  StakesVerifierError,
}

pub data SdpLedgerError : Type 0 where
  provider_state : ProviderStateError → SdpLedgerError
  declarations_repository : DeclarationsRepositoryError → SdpLedgerError
  rewards_sender : RewardsSenderError → SdpLedgerError
  services_repository : ServicesRepositoryError → SdpLedgerError
  stakes_verifier : StakesVerifierError → SdpLedgerError
  duplicate_service_declaration : SdpLedgerError
  service_not_provided : ServiceType → SdpLedgerError
  duplicate_declaration_in_block : SdpLedgerError
  wrong_declaration_id : SdpLedgerError

-- A map of maps: `m.get(&block).and_then(|inner| inner.get(&key))`, `m.entry(block).or_default().insert(key, v)`
-- and `m.get_mut(&block).and_then(|inner| inner.remove(&key))`.
abbrev pub or_empty {ℓ} : {A : Type ℓ} → Option (List A) → List A
or_empty none = []
or_empty (some m) = m

unfoldable pub get_in {ℓ} : {V : Type ℓ} → ℕ → ℕ → Map ℕ (Map ℕ V) → Option V
get_in block key m = get key (or_empty (get block m))

unfoldable pub insert_in {ℓ} : {V : Type ℓ} → ℕ → ℕ → V → Map ℕ (Map ℕ V) → Map ℕ (Map ℕ V)
insert_in block key v m = Map.insert block (Map.insert key v (or_empty (get block m))) m

unfoldable pub remove_in {ℓ} : {V : Type ℓ} → ℕ → ℕ → Map ℕ (Map ℕ V) → Map ℕ (Map ℕ V)
remove_in block key m = elim (get block m) [
  | none ↦ m
  | some inner ↦ Map.insert block (Map.remove key inner) m
]

abbrev pub values {ℓ} : {V : Type ℓ} → Map ℕ V → List V
values m = map (λ e. e.1) m

unfoldable pub drop_rewards : List ProviderInfo → Map ℕ ℕ → Map ℕ ℕ
drop_rewards [] rewards = rewards
drop_rewards (info ∷ infos) rewards = drop_rewards infos (Map.remove info.provider_id rewards)

-- `if let Ok(a) = call { test(a) }`: an error is as good as a failed test, a panic is a panic.
abbrev pub is_ok_and {ℓ κ ξ} :
    {E : Type ℓ} {A : Type κ} {F : Type ξ} → Outcome E A → (A → Bool) → Outcome F Bool
is_ok_and (ok a) p = ok (p a)
is_ok_and (err e) p = ok false
is_ok_and panic p = panic
is_ok_and timeout p = timeout

abbrev pub is_none {ℓ} : {A : Type ℓ} → Option A → Bool
is_none none = true
is_none (some a) = false

module _ {Metadata Proof : Type 0} (ext : External Metadata Proof) where
  pub record SdpLedger : Type 0 where
    pub world : ext.World
    pub pending_providers : Map ℕ (Map ℕ ProviderInfo)
    pub pending_declarations : Map ℕ (Map ℕ DeclarationUpdate)
    pub pending_rewards : Map ℕ ℕ

  -- A call of the outside world, its error wrapped by `?`.
  abbrev pub call :
      {F A : Type 0}
      → (F → SdpLedgerError)
      → (ext.World → Outcome F A × ext.World)
      → Action SdpLedger SdpLedgerError A
  call wrap f s = (map_result (λ a. a) wrap (f s.world).0, record s { world = (f s.world).1 })

  -- A query of it.
  abbrev pub ask :
      {F A : Type 0}
      → (F → SdpLedgerError)
      → (ext.World → Outcome F A)
      → Action SdpLedger SdpLedgerError A
  ask wrap f s = (map_result (λ a. a) wrap (f s.world), s)
