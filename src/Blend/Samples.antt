-- ===== src/Blend/Samples.antt =====
-- A connection that sends two effective messages and a drop message, and two messages on their way.
use nomos_node.Prelude.{
  ℕ, ◌-◌, ◌≡◌, refl, inl, inr, Bool, true, false, Option, none, some, List, [], ◌∷◌, arith, ◌==◌,
  if◌then◌else◌, nat_eq,
}
use nomos_node.Blend.Connection.{ConnectionMonitorSettings, ConnectionMonitor, healthy, reset, poll}
use nomos_node.Blend.Judged.{record_all, Proper, poll-Healthy}
use nomos_node.Blend.Stream.{Unwrap, MessageBlendStream, outbound}

abbrev settings : ConnectionMonitorSettings
settings = record {
  interval = 1;
  expected_effective_messages = 256;
  effective_message_malicious_tolerance = 64;
  effective_message_unhealthy_tolerance = 12;
  expected_drop_messages = 128;
  drop_message_malicious_tolerance = 0;
  drop_message_unhealthy_tolerance = 0;
}

abbrev monitor : ConnectionMonitor
monitor = record { settings = settings; effective_messages = 0; drop_messages = 0 }

proper : Proper settings
proper = record {
  effective_fits = omega arith;
  effective_small = omega arith;
  effective_low = omega arith;
  drop_fits = omega arith;
  drop_small = omega arith;
  drop_low = omega arith;
}

poll-Healthy_example :
    poll true (record_all (true ∷ false ∷ true ∷ []) (reset monitor))
    ≡ (some healthy, reset monitor)
poll-Healthy_example =
    poll-Healthy monitor (true ∷ false ∷ true ∷ []) proper refl refl (omega arith) (omega arith)

-- A message is a number of layers; none cannot be unwrapped.
abbrev layers : Unwrap
layers = record {
  Bytes = ℕ;
  Error = ℕ;
  unwrap_message = λ n. if n == 0 then inl 0 else inr (n - 1, n == 1);
}

abbrev waiting : MessageBlendStream layers
waiting = record { channel = outbound 6 ∷ []; queue = outbound 5 ∷ [] }

abbrev polls : List (Option ℕ × Bool)
polls = (some 3, true) ∷ (some 0, false) ∷ (none, true) ∷ (some 1, true) ∷ []
