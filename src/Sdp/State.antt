-- ===== src/Sdp/State.antt =====
-- nomos-sdp/src/state.rs: the states of a provider and the transitions between them. A block number is
-- a `u64`; `wrapping_add` and `wrapping_sub` wrap.
use nomos_node.Prelude.{
  ℕ, Bool, true, false, Option, none, some, ltb, leb, ◌==◌, if◌then◌else◌, nat_eq, add64, sub64,
  Outcome, ok, err, panic, timeout,
}
use nomos_node.Sdp.Types.{
  ServiceParameters, ProviderInfo, EventType, declaration, reward, withdrawal,
}

pub data ActiveStateError : Type 0 where
  to_active_not_on_created to_active_during_withdrawal to_withdrawal_while_locked : ActiveStateError
  to_withdrawal_invalid_event : EventType → ActiveStateError

pub data InactiveStateError : Type 0 where
  to_active_invalid_event : EventType → InactiveStateError
  to_withdrawal_while_locked : InactiveStateError
  to_withdrawal_invalid_event : EventType → InactiveStateError

pub data WithdrawnStateError : Type 0 where
  to_withdrawn_rewarded_not_same_block : WithdrawnStateError
  to_withdrawn_rewarded_invalid_event : EventType → WithdrawnStateError

pub data ProviderStateError : Type 0 where
  active_error : ActiveStateError → ProviderStateError
  inactive_error : InactiveStateError → ProviderStateError
  withdrawn_error : WithdrawnStateError → ProviderStateError
  withdrawn_to_active block_from_past : ProviderStateError

-- `.map(..).map_err(..)`
abbrev pub map_result {ℓ κ ξ ζ} :
    {E : Type ℓ} {F : Type κ} {A : Type ξ} {B : Type ζ}
    → (A → B)
    → (E → F)
    → Outcome E A
    → Outcome F B
map_result f g (ok a) = ok (f a)
map_result f g (err e) = err (g e)
map_result f g panic = panic
map_result f g timeout = timeout

-- `ActiveState::try_into_updated`
unfoldable pub active_updated : ProviderInfo → ℕ → EventType → Outcome ActiveStateError ProviderInfo
active_updated self block_number declaration =
    if self.created == block_number then ok self else err to_active_not_on_created
active_updated self block_number reward = ok (record self { rewarded = some block_number })
active_updated self block_number withdrawal = err to_active_during_withdrawal

-- `ActiveState::try_into_withdrawn`
unfoldable pub active_withdrawn :
    ProviderInfo → ℕ → EventType → ServiceParameters → Outcome ActiveStateError ProviderInfo
active_withdrawn self block_number withdrawal params =
    if leb block_number (add64 self.created params.lock_period)
    then err ActiveStateError.to_withdrawal_while_locked
    else ok (record self { withdrawn = some block_number })
active_withdrawn self block_number event params =
    err (ActiveStateError.to_withdrawal_invalid_event event)

-- `InactiveState::try_into_active`
unfoldable pub inactive_active :
    ProviderInfo → ℕ → EventType → Outcome InactiveStateError ProviderInfo
inactive_active self block_number reward = ok (record self { rewarded = some block_number })
inactive_active self block_number event = err (to_active_invalid_event event)

-- `InactiveState::try_into_withdrawn`
unfoldable pub inactive_withdrawn :
    ProviderInfo → ℕ → EventType → ServiceParameters → Outcome InactiveStateError ProviderInfo
inactive_withdrawn self block_number withdrawal params =
    if leb block_number (add64 self.created params.lock_period)
    then err InactiveStateError.to_withdrawal_while_locked
    else ok (record self { withdrawn = some block_number })
inactive_withdrawn self block_number event params =
    err (InactiveStateError.to_withdrawal_invalid_event event)

-- `self.0.withdrawn == Some(block_number)`
abbrev pub is_at : Option ℕ → ℕ → Bool
is_at none n = false
is_at (some m) n = m == n

-- `WithdrawnState::try_into_withdrawn_rewarded`
unfoldable pub withdrawn_rewarded :
    ProviderInfo → ℕ → EventType → Outcome WithdrawnStateError ProviderInfo
withdrawn_rewarded self block_number reward =
    if is_at self.withdrawn block_number
    then ok (record self { rewarded = some block_number })
    else err to_withdrawn_rewarded_not_same_block
withdrawn_rewarded self block_number event = err (to_withdrawn_rewarded_invalid_event event)

pub data ProviderState : Type 0 where
  active inactive withdrawn : ProviderInfo → ProviderState

-- `From<ProviderState> for ProviderInfo`
abbrev pub info_of : ProviderState → ProviderInfo
info_of (active i) = i
info_of (inactive i) = i
info_of (withdrawn i) = i

abbrev is_some {ℓ} : {A : Type ℓ} → Option A → Bool
is_some none = false
is_some (some a) = true

-- Whether the last reward was requested within the inactivity period.
abbrev pub recently : Option ℕ → ℕ → ℕ → Bool
recently none block_number period = false
recently (some rewarded) block_number period = leb (sub64 block_number rewarded) period

unfoldable pub try_from_info :
    ℕ → ProviderInfo → ServiceParameters → Outcome ProviderStateError ProviderState
try_from_info block_number info params =
    if ltb block_number info.created
    then err block_from_past
    else if is_some info.withdrawn
    then ok (withdrawn info)
    else if ltb block_number (add64 info.created params.inactivity_period)
    then ok (active info)
    else if recently info.rewarded block_number params.inactivity_period
    then ok (active info)
    else ok (inactive info)

abbrev pub or_else : Option ℕ → ℕ → ℕ
or_else none n = n
or_else (some m) n = m

abbrev pub last_of : ProviderInfo → ℕ
last_of i = or_else i.withdrawn (or_else i.rewarded i.created)

unfoldable pub last_block_number : ProviderState → ℕ
last_block_number self = last_of (info_of self)

unfoldable pub declaration_id : ProviderState → ℕ
declaration_id self = (info_of self).declaration_id

abbrev dispatch_active : ProviderState → ℕ → EventType → Outcome ProviderStateError ProviderState
dispatch_active (active i) block_number event =
    map_result active active_error (active_updated i block_number event)
dispatch_active (inactive i) block_number event =
    map_result active inactive_error (inactive_active i block_number event)
dispatch_active (withdrawn i) block_number event = err withdrawn_to_active

unfoldable pub try_into_active :
    ProviderState → ℕ → EventType → Outcome ProviderStateError ProviderState
try_into_active self block_number event =
    if ltb block_number (last_block_number self)
    then err block_from_past
    else dispatch_active self block_number event

abbrev dispatch_withdrawn :
    ProviderState → ℕ → EventType → ServiceParameters → Outcome ProviderStateError ProviderState
dispatch_withdrawn (active i) block_number event params =
    map_result withdrawn active_error (active_withdrawn i block_number event params)
dispatch_withdrawn (inactive i) block_number event params =
    map_result withdrawn inactive_error (inactive_withdrawn i block_number event params)
dispatch_withdrawn (withdrawn i) block_number event params =
    map_result withdrawn withdrawn_error (withdrawn_rewarded i block_number event)

unfoldable pub try_into_withdrawn :
    ProviderState → ℕ → EventType → ServiceParameters → Outcome ProviderStateError ProviderState
try_into_withdrawn self block_number event params =
    if ltb block_number (last_block_number self)
    then err block_from_past
    else dispatch_withdrawn self block_number event params
