-- ===== src/Blend/Connection.antt =====
-- nomos-blend/core/src/conn_maintenance.rs, `ConnectionMonitor`. Numbers of messages are bits of a `U57F7`; the
-- interval's readiness is an argument.
use nomos_node.Prelude.{
  ℕ, ◌+◌, Bool, true, false, ◌||◌, Option, none, some, ltb, if◌then◌else◌, nat_eq, u64_size,
}
use nomos_node.Prelude.Fixed.{one, fixed_add, fixed_sub, fixed_mul}

pub record ConnectionMonitorSettings : Type 0 where
  pub interval : ℕ
  pub expected_effective_messages : ℕ
  pub effective_message_malicious_tolerance : ℕ
  pub effective_message_unhealthy_tolerance : ℕ
  pub expected_drop_messages : ℕ
  pub drop_message_malicious_tolerance : ℕ
  pub drop_message_unhealthy_tolerance : ℕ

pub record ConnectionMonitor : Type 0 where
  pub settings : ConnectionMonitorSettings
  pub effective_messages : ℕ
  pub drop_messages : ℕ

pub data ConnectionMonitorOutput : Type 0 where
  malicious unhealthy healthy : ConnectionMonitorOutput

unfoldable pub new : ConnectionMonitorSettings → ConnectionMonitor
new settings = record { settings = settings; effective_messages = 0; drop_messages = 0 }

-- `checked_add`: beyond the largest value the message is skipped.
unfoldable pub record_message : ℕ → ℕ
record_message value = if ltb (value + one) u64_size then value + one else value

unfoldable pub record_effective_message : ConnectionMonitor → ConnectionMonitor
record_effective_message self = record self {
  effective_messages = record_message self.effective_messages;
}

unfoldable pub record_drop_message : ConnectionMonitor → ConnectionMonitor
record_drop_message self = record self { drop_messages = record_message self.drop_messages }

unfoldable pub reset : ConnectionMonitor → ConnectionMonitor
reset self = record self { effective_messages = 0; drop_messages = 0 }

unfoldable pub is_malicious : ConnectionMonitor → Bool
is_malicious self =
    let effective_threshold =
      fixed_mul self.settings.expected_effective_messages
        (fixed_add one self.settings.effective_message_malicious_tolerance) in
    let drop_threshold =
      fixed_mul self.settings.expected_drop_messages
        (fixed_add one self.settings.drop_message_malicious_tolerance) in
    ltb effective_threshold self.effective_messages || ltb drop_threshold self.drop_messages

unfoldable pub is_unhealthy : ConnectionMonitor → Bool
is_unhealthy self =
    let effective_threshold =
      fixed_mul self.settings.expected_effective_messages
        (fixed_sub one self.settings.effective_message_unhealthy_tolerance) in
    let drop_threshold =
      fixed_mul self.settings.expected_drop_messages
        (fixed_sub one self.settings.drop_message_unhealthy_tolerance) in
    ltb self.effective_messages effective_threshold || ltb self.drop_messages drop_threshold

abbrev pub outcome : ConnectionMonitor → ConnectionMonitorOutput
outcome self =
    if is_malicious self then malicious else if is_unhealthy self then unhealthy else healthy

-- `none` stands for `Poll::Pending`.
unfoldable pub poll : Bool → ConnectionMonitor → Option ConnectionMonitorOutput × ConnectionMonitor
poll false self = (none, self)
poll true self = (some (outcome self), reset self)
