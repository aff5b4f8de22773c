-- ===== src/Sdp/Transitions.antt =====
-- nomos-sdp/src/state.rs: what the transitions of a provider's state keep, and when they are allowed.
use nomos_node.Prelude.{
  ℕ, ◌+◌, ◌≤◌, ◌<◌, ◌≡◌, refl, ◌∙◌, ◌↔◌, ◌⊎◌, inl, inr, none, some, arith, Option-cases, nat_eq,
  Never, u64_size, add64, add64-exact, sub64-exact, ok,
}
use nomos_node.Sdp.Types.{
  ServiceParameters, ProviderInfo, EventType, declaration, reward, withdrawal,
}
use nomos_node.Sdp.State.{
  ProviderState, active, inactive, withdrawn, info_of, last_of, last_block_number, active_updated,
  active_withdrawn, inactive_active, inactive_withdrawn, withdrawn_rewarded, try_into_active,
  try_into_withdrawn, try_from_info,
}

-- The same provider, created in the same block and with the same declaration.
abbrev pub SameProvider : ProviderInfo → ProviderInfo → Type 0
SameProvider i j =
    (i.provider_id ≡ j.provider_id)
    × (i.declaration_id ≡ j.declaration_id)
    × (i.created ≡ j.created)

-- Withdrawn in block `w`.
abbrev pub WithdrawnAt : ℕ → ProviderState → Type 0
WithdrawnAt w (withdrawn i) = i.withdrawn ≡ some w
WithdrawnAt w s = Never

-- A withdrawal recorded in a provider's information came after the lock period.
abbrev Locked : ServiceParameters → ProviderInfo → Type 0
Locked params i = (w : ℕ) → i.withdrawn ≡ some w → add64 i.created params.lock_period < w

-- What one transition keeps.
abbrev Keeps : ServiceParameters → ProviderState → ProviderState → Type 0
Keeps params s t =
    SameProvider (info_of s) (info_of t)
    × (last_block_number s ≤ last_block_number t)
    × ((w : ℕ) → WithdrawnAt w s → WithdrawnAt w t)
    × (Locked params (info_of s) → Locked params (info_of t))

pub active-Keeps :
    (params : ServiceParameters) (s : ProviderState) (n : ℕ) (e : EventType) {t : ProviderState}
    → try_into_active s n e ≡ ok t
    → Keeps params s t
unfolding try_into_active last_block_number active_updated inactive_active
active-Keeps params (active i) n reward p = ground arith
active-Keeps params (active i) n declaration p = ground arith
active-Keeps params (active i) n withdrawal p = ground arith
active-Keeps params (inactive i) n reward p = ground arith
active-Keeps params (inactive i) n declaration p = ground arith
active-Keeps params (inactive i) n withdrawal p = ground arith
active-Keeps params (withdrawn i) n e p = ground arith

pub withdrawn-Keeps :
    (params : ServiceParameters) (s : ProviderState) (n : ℕ) (e : EventType) {t : ProviderState}
    → try_into_withdrawn s n e params ≡ ok t
    → Keeps params s t
unfolding try_into_withdrawn last_block_number active_withdrawn inactive_withdrawn
    withdrawn_rewarded
withdrawn-Keeps params (active i) n reward p = ground arith
withdrawn-Keeps params (active i) n declaration p = ground arith
withdrawn-Keeps params (active i) n withdrawal p = ground arith
withdrawn-Keeps params (inactive i) n reward p = ground arith
withdrawn-Keeps params (inactive i) n declaration p = ground arith
withdrawn-Keeps params (inactive i) n withdrawal p = ground arith
withdrawn-Keeps params (withdrawn i) n reward p = ground arith
withdrawn-Keeps params (withdrawn i) n declaration p = ground arith
withdrawn-Keeps params (withdrawn i) n withdrawal p = ground arith

info-Keeps :
    (params : ServiceParameters) (s : ProviderState) (n : ℕ) {t : ProviderState}
    → try_from_info n (info_of s) params ≡ ok t
    → Keeps params s t
unfolding try_from_info last_block_number
info-Keeps params (active i) n p = ground arith
info-Keeps params (inactive i) n p = ground arith
info-Keeps params (withdrawn i) n p = ground arith

-- A provider's history: its state is changed by the two transitions, and read again from what was
-- stored of it, at any blocks.
pub data Reaches (params : ServiceParameters) (s : ProviderState) : ProviderState → Type 0 where
  start : Reaches params s s
  activated :
      {t u : ProviderState} (n : ℕ) (e : EventType)
      → Reaches params s t
      → try_into_active t n e ≡ ok u
      → Reaches params s u
  withdrew :
      {t u : ProviderState} (n : ℕ) (e : EventType)
      → Reaches params s t
      → try_into_withdrawn t n e params ≡ ok u
      → Reaches params s u
  reread :
      {t u : ProviderState} (n : ℕ)
      → Reaches params s t
      → try_from_info n (info_of t) params ≡ ok u
      → Reaches params s u

Keeps-trans :
    (params : ServiceParameters) (s t u : ProviderState)
    → Keeps params s t
    → Keeps params t u
    → Keeps params s u
Keeps-trans params s t u ((a, b, c), d, e, f) ((a', b', c'), d', e', f') =
    ((a ∙ a', b ∙ b', c ∙ c'), omega arith, (λ w x. e' w (e w x)), (λ x. f' (f x)))

Reaches-Keeps :
    (params : ServiceParameters) (s : ProviderState) {t : ProviderState}
    → Reaches params s t
    → Keeps params s t
Reaches-Keeps params s start = ((refl, refl, refl), omega arith, (λ w x. x), (λ x. x))
Reaches-Keeps params s (activated {t} {u} n e r p) =
    Keeps-trans params s t u (Reaches-Keeps params s r) (active-Keeps params t n e p)
Reaches-Keeps params s (withdrew {t} {u} n e r p) =
    Keeps-trans params s t u (Reaches-Keeps params s r) (withdrawn-Keeps params t n e p)
Reaches-Keeps params s (reread {t} {u} n r p) =
    Keeps-trans params s t u (Reaches-Keeps params s r) (info-Keeps params t n p)

-- A provider that has withdrawn in block `w` is, in all its later history, one that has withdrawn in
-- block `w`.
pub withdrawal_final :
    (params : ServiceParameters) (s t : ProviderState) (w : ℕ)
    → Reaches params s t
    → WithdrawnAt w s
    → WithdrawnAt w t
withdrawal_final params s t w r at = let (_, _, final, _) = Reaches-Keeps params s r in final w at

WithdrawnAt-info : (w : ℕ) (t : ProviderState) → WithdrawnAt w t → (info_of t).withdrawn ≡ some w
WithdrawnAt-info w (withdrawn i) p = p
WithdrawnAt-info w (active i) p = elim p [ ]
WithdrawnAt-info w (inactive i) p = elim p [ ]

-- A provider that has not withdrawn and, later in its history, has withdrawn in block `w` was created
-- more than the lock period before `w`, if the end of that period is a block number of 64 bits.
pub withdrawal_locked :
    (params : ServiceParameters) (s t : ProviderState) (w : ℕ)
    → (info_of s).created + params.lock_period < u64_size
    → (info_of s).withdrawn ≡ none
    → Reaches params s t
    → WithdrawnAt w t
    → (info_of s).created + params.lock_period < w
withdrawal_locked params s t w fits fresh r at =
    let ((id, declared, created), later, final, locked) = Reaches-Keeps params s r in
    let after = locked (λ v q. ground arith) w (WithdrawnAt-info w t at) in
    grind (arith, add64-exact (info_of s).created params.lock_period fits)

-- The information of a provider without a withdrawal, created and last rewarded no later than block `n`,
-- is read as an active provider's exactly when `n` lies within the inactivity period of its creation or
-- of its last reward, if `n` and the end of the first period are block numbers of 64 bits.
pub status_of_info :
    (params : ServiceParameters) (n : ℕ) (i : ProviderInfo)
    → n < u64_size
    → i.created + params.inactivity_period < u64_size
    → last_of i ≤ n
    → i.withdrawn ≡ none
    → i.created ≤ n
    → (try_from_info n i params ≡ ok (active i)) ↔ (
        (n < i.created + params.inactivity_period)
        ⊎ ((r : ℕ) × (i.rewarded ≡ some r) × (n ≤ r + params.inactivity_period)))
unfolding try_from_info
status_of_info params n i small fits past w c = elim (Option-cases i.rewarded) [
  | inl p ↦ ground (arith, add64-exact i.created params.inactivity_period fits)
  | inr (r, p) ↦
      let not_later : r ≤ n = ground arith in
      ground (
        arith,
        add64-exact i.created params.inactivity_period fits,
        sub64-exact n r small not_later,
      )
]
