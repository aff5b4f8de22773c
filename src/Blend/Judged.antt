-- ===== src/Blend/Judged.antt =====
-- nomos-blend/core/src/conn_maintenance.rs: how a connection is judged by the messages of an interval.
use nomos_node.Prelude.{
  ℕ, suc, ◌+◌, ◌*◌, ◌/◌, ◌%◌, ◌≤◌, ◌<◌, ◌≡◌, refl, sym, ap, ap₂, subst, Bool, true, false, some,
  List, [], ◌∷◌, arith, nat_eq, u64_size, mul_mono,
}
use native.Mathlib.Nat.{mod-eq_of_lt}
use nomos_node.Prelude.Fixed.{one, fixed_add, fixed_sub, fixed_mul, fixed_mul-le}
use nomos_node.Blend.Connection.{
  ConnectionMonitorSettings, ConnectionMonitor, healthy, record_message, record_effective_message,
  record_drop_message, reset, is_malicious, is_unhealthy, outcome, poll,
}

-- The messages of an interval: an effective one is `true`, a drop message `false`.
unfoldable pub record_all : List Bool → ConnectionMonitor → ConnectionMonitor
record_all [] self = self
record_all (true ∷ messages) self = record_all messages (record_effective_message self)
record_all (false ∷ messages) self = record_all messages (record_drop_message self)

abbrev pub effective : List Bool → ℕ
effective [] = 0
effective (true ∷ messages) = suc (effective messages)
effective (false ∷ messages) = effective messages

abbrev pub dropped : List Bool → ℕ
dropped [] = 0
dropped (true ∷ messages) = dropped messages
dropped (false ∷ messages) = suc (dropped messages)

record_message-exact : (value : ℕ) → value + one < u64_size → record_message value ≡ value + one
unfolding record_message
record_message-exact value h = ground arith

-- Below the largest value the counts are exact.
record_all_lem :
    (messages : List Bool) (self : ConnectionMonitor)
    → self.effective_messages + effective messages * one < u64_size
    → self.drop_messages + dropped messages * one < u64_size
    → ((record_all messages self).effective_messages
        ≡ self.effective_messages + effective messages * one)
      × ((record_all messages self).drop_messages ≡ self.drop_messages + dropped messages * one)
      × ((record_all messages self).settings ≡ self.settings)
unfolding record_all record_effective_message record_drop_message
record_all_lem [] self fe fd = (omega arith, omega arith, refl)
record_all_lem (true ∷ messages) self fe fd =
    let exact = record_message-exact self.effective_messages (omega arith) in
    let (e, d, s) =
      record_all_lem messages (record_effective_message self) (omega (arith, exact)) fd in
    (omega (arith, e, exact), d, s)
record_all_lem (false ∷ messages) self fe fd =
    let exact = record_message-exact self.drop_messages (omega arith) in
    let (e, d, s) = record_all_lem messages (record_drop_message self) fe (omega (arith, exact)) in
    (e, omega (arith, d, exact), s)

above :
    (e t : ℕ)
    → e * (one + t) / one < u64_size
    → one + t < u64_size
    → e ≤ fixed_mul e (fixed_add one t)
unfolding fixed_mul fixed_add
above e t fits small =
    let sum : (one + t) % u64_size ≡ one + t = mod-eq_of_lt small in
    rw sum (
      let exact = mod-eq_of_lt fits in
      let m = mul_mono e e one (one + t) (omega arith) (omega arith) in omega arith)

below : (e t : ℕ) → t ≤ one → fixed_mul e (fixed_sub one t) ≤ e
unfolding fixed_sub
below e t small = fixed_mul-le e (fixed_sub one t) (omega arith)

-- The settings are such that no product overflows, and no tolerance for too few messages is above one.
pub record Proper (s : ConnectionMonitorSettings) : Type 0 where
  pub effective_fits :
      s.expected_effective_messages * (one + s.effective_message_malicious_tolerance) / one
      < u64_size
  pub effective_small : one + s.effective_message_malicious_tolerance < u64_size
  pub effective_low : s.effective_message_unhealthy_tolerance ≤ one
  pub drop_fits :
      s.expected_drop_messages * (one + s.drop_message_malicious_tolerance) / one < u64_size
  pub drop_small : one + s.drop_message_malicious_tolerance < u64_size
  pub drop_low : s.drop_message_unhealthy_tolerance ≤ one

expected-Healthy :
    (self : ConnectionMonitor)
    → Proper self.settings
    → self.effective_messages ≡ self.settings.expected_effective_messages
    → self.drop_messages ≡ self.settings.expected_drop_messages
    → outcome self ≡ healthy
unfolding is_malicious is_unhealthy
expected-Healthy self proper e d =
    let s = self.settings in
    let ea =
      above s.expected_effective_messages s.effective_message_malicious_tolerance
        proper.effective_fits proper.effective_small in
    let da =
      above s.expected_drop_messages s.drop_message_malicious_tolerance proper.drop_fits
        proper.drop_small in
    let eb =
      below s.expected_effective_messages s.effective_message_unhealthy_tolerance
        proper.effective_low in
    let db = below s.expected_drop_messages s.drop_message_unhealthy_tolerance proper.drop_low in
    ground (arith, ea, da, eb, db)

-- A monitor with proper settings that has just been reset judges a connection healthy at the end of
-- the interval when it got exactly the expected numbers of effective and of drop messages, in any
-- order, and is then as after the reset again.
pub poll-Healthy :
    (self : ConnectionMonitor) (messages : List Bool)
    → Proper self.settings
    → effective messages * one ≡ self.settings.expected_effective_messages
    → dropped messages * one ≡ self.settings.expected_drop_messages
    → self.settings.expected_effective_messages < u64_size
    → self.settings.expected_drop_messages < u64_size
    → poll true (record_all messages (reset self)) ≡ (some healthy, reset self)
unfolding poll reset
poll-Healthy self messages proper e d fe fd =
    let (e', d', s') = record_all_lem messages (reset self) (omega arith) (omega arith) in
    let settings_are = sym s' in
    let judged =
      expected-Healthy (record_all messages (reset self)) (subst Proper settings_are proper)
        (omega (arith, e', ap (λ t. t.expected_effective_messages) s'))
        (omega (arith, d', ap (λ t. t.expected_drop_messages) s')) in
    ap₂ (λ o s. (some o, record { settings = s; effective_messages = 0; drop_messages = 0 })) judged
      s'
