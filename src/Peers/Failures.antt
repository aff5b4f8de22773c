-- ===== src/Peers/Failures.antt =====
-- nomos-da/network/core/src/swarm/common/monitor.rs, `DAConnectionMonitor`, and the health policy of
-- swarm/common/policy.rs. A rate is the bits of a `U57F7`, 128 of them to one, and its operations wrap as a release
-- build's. Instants and durations are nanoseconds, and the instant that the code reads is an argument.
use nomos_node.Prelude.{
  ℕ, ◌-◌, ◌*◌, Bool, ◌||◌, Option, none, some, ltb, leb, if◌then◌else◌, nat_eq,
}
use nomos_node.Prelude.Map
use nomos_node.Prelude.Map.{Map, get, remove}
use nomos_node.Prelude.Fixed.{one, fixed_add, fixed_mul}
use nomos_node.Peers.Balancer.{DaConnectionPolicySettings}
use nomos_node.Peers.Monitor.{
  PeerStatus, malicious, unhealthy, healthy, ConnectionMonitorOutput, Monitor,
}

-- `U57F7::from_num((-elapsed / window).exp())`, for an elapsed time and the window.
pub record Decay : Type 0 where
  pub time_based_decay : ℕ → ℕ → ℕ

pub record PeerStats : Type 0 where
  pub dispersal_failures_rate : ℕ
  pub sampling_failures_rate : ℕ
  pub replication_failures_rate : ℕ
  pub last_dispersal_failure : Option ℕ
  pub last_sampling_failure : Option ℕ
  pub last_replication_failure : Option ℕ

abbrev pub default : PeerStats
default = record {
  dispersal_failures_rate = 0;
  sampling_failures_rate = 0;
  replication_failures_rate = 0;
  last_dispersal_failure = none;
  last_sampling_failure = none;
  last_replication_failure = none;
}

-- The failures, with the peer that the error names.
pub data MonitorEvent : Type 0 where
  executor_dispersal validator_dispersal replication sampling : Option ℕ → MonitorEvent
  noop : MonitorEvent

unfoldable pub peer_id : MonitorEvent → Option ℕ
peer_id (executor_dispersal peer) = peer
peer_id (validator_dispersal peer) = peer
peer_id (replication peer) = peer
peer_id (sampling peer) = peer
peer_id noop = none

pub record DaConnectionMonitorSettings : Type 0 where
  pub failure_time_window : ℕ
  pub time_decay_factor : ℕ

pub record DaConnectionMonitor : Type 0 where
  pub peer_stats : Map ℕ PeerStats
  pub policy : DaConnectionPolicySettings
  pub settings : DaConnectionMonitorSettings

abbrev pub unwrap_or : Option ℕ → ℕ → ℕ
unwrap_or none d = d
unwrap_or (some x) d = x

abbrev pub or_default : Option PeerStats → PeerStats
or_default none = default
or_default (some s) = s

-- A comparison of a fixed-point number with an integer.
abbrev pub at_least : ℕ → ℕ → Bool
at_least rate threshold = leb (threshold * one) rate

-- `DAConnectionPolicy::is_peer_malicious` and `is_peer_unhealthy`
unfoldable pub is_peer_malicious : DaConnectionPolicySettings → PeerStats → Bool
is_peer_malicious settings stats =
    at_least stats.dispersal_failures_rate settings.malicious_threshold
    || (at_least stats.sampling_failures_rate settings.malicious_threshold
        || at_least stats.replication_failures_rate settings.malicious_threshold)

unfoldable pub is_peer_unhealthy : DaConnectionPolicySettings → PeerStats → Bool
is_peer_unhealthy settings stats =
    at_least stats.dispersal_failures_rate settings.max_dispersal_failures
    || (at_least stats.sampling_failures_rate settings.max_sampling_failures
        || at_least stats.replication_failures_rate settings.max_replication_failures)

abbrev pub judge : DaConnectionPolicySettings → PeerStats → PeerStatus
judge policy stats =
    if is_peer_malicious policy stats
    then malicious
    else if is_peer_unhealthy policy stats
    then unhealthy
    else healthy

module _ ⦃exp : Decay⦄ where
  unfoldable pub compute_failure_rate : ℕ → ℕ → ℕ → ℕ → ℕ → ℕ
  compute_failure_rate now last_failure failure_rate failure_time_window decay_factor =
      if ltb 0 (now - last_failure)
      then fixed_mul failure_rate
          (fixed_mul (exp.time_based_decay (now - last_failure) failure_time_window) decay_factor)
      else failure_rate

  unfoldable pub compute_dispersal_failure_rate : PeerStats → ℕ → ℕ → ℕ → ℕ
  compute_dispersal_failure_rate self now window factor =
      compute_failure_rate now (unwrap_or self.last_dispersal_failure now)
        self.dispersal_failures_rate window factor

  unfoldable pub compute_sampling_failure_rate : PeerStats → ℕ → ℕ → ℕ → ℕ
  compute_sampling_failure_rate self now window factor =
      compute_failure_rate now (unwrap_or self.last_sampling_failure now)
        self.sampling_failures_rate window factor

  unfoldable pub compute_replication_failure_rate : PeerStats → ℕ → ℕ → ℕ → ℕ
  compute_replication_failure_rate self now window factor =
      compute_failure_rate now (unwrap_or self.last_replication_failure now)
        self.replication_failures_rate window factor

  unfoldable pub get_updated_stats : PeerStats → ℕ → ℕ → ℕ → PeerStats
  get_updated_stats self now time_window decay_factor = record self {
    dispersal_failures_rate = compute_dispersal_failure_rate self now time_window decay_factor;
    sampling_failures_rate = compute_sampling_failure_rate self now time_window decay_factor;
    replication_failures_rate = compute_replication_failure_rate self now time_window decay_factor;
  }

  unfoldable pub evaluate_peer : DaConnectionMonitor → ℕ → ℕ → PeerStatus
  evaluate_peer self now peer = elim (get peer self.peer_stats) [
    | none ↦ healthy
    | some stats ↦ judge self.policy (
        get_updated_stats stats now self.settings.failure_time_window
          self.settings.time_decay_factor)
  ]

  -- The stats of the event's peer: a new error adds one to the rate of its protocol.
  unfoldable pub count_failure :
      DaConnectionMonitorSettings → ℕ → MonitorEvent → PeerStats → PeerStats
  count_failure settings now (executor_dispersal _) stats = record stats {
    dispersal_failures_rate =
        fixed_add
          (compute_dispersal_failure_rate stats now settings.failure_time_window
            settings.time_decay_factor)
          one;
    last_dispersal_failure = some now;
  }
  count_failure settings now (validator_dispersal _) stats = record stats {
    dispersal_failures_rate =
        fixed_add
          (compute_dispersal_failure_rate stats now settings.failure_time_window
            settings.time_decay_factor)
          one;
    last_dispersal_failure = some now;
  }
  count_failure settings now (replication _) stats = record stats {
    replication_failures_rate =
        fixed_add
          (compute_replication_failure_rate stats now settings.failure_time_window
            settings.time_decay_factor)
          one;
    last_replication_failure = some now;
  }
  count_failure settings now (sampling _) stats = record stats {
    sampling_failures_rate =
        fixed_add
          (compute_sampling_failure_rate stats now settings.failure_time_window
            settings.time_decay_factor)
          one;
    last_sampling_failure = some now;
  }
  count_failure settings now noop stats = stats

  -- `record_event`, in two steps: the stats, and the peer's status.
  unfoldable pub record_failure : DaConnectionMonitor → ℕ → MonitorEvent → DaConnectionMonitor
  record_failure self now event = elim (peer_id event) [
    | none ↦ self
    | some peer ↦ record self {
      peer_stats =
          Map.insert peer
            (count_failure self.settings now event (or_default (get peer self.peer_stats)))
            self.peer_stats;
    }
  ]

  unfoldable pub judge_event :
      DaConnectionMonitor → ℕ → MonitorEvent → Option ConnectionMonitorOutput
  judge_event self now event = elim (peer_id event) [
    | none ↦ none
    | some peer ↦ some (record {
      peer_id = peer;
      peer_status = evaluate_peer (record_failure self now event) now peer;
    })
  ]

  unfoldable pub reset_peer : DaConnectionMonitor → ℕ → DaConnectionMonitor
  reset_peer self peer = record self { peer_stats = remove peer self.peer_stats }

  -- The monitor, for the behaviour that asks it; an event comes with the instant that is read.
  unfoldable pub connection_monitor : Monitor
  connection_monitor = record {
    State = DaConnectionMonitor;
    Event = ℕ × MonitorEvent;
    Stats = Map ℕ PeerStats;
    record_event =
        λ self event. (judge_event self event.0 event.1, record_failure self event.0 event.1);
    reset_peer = reset_peer;
    stats = λ self. self.peer_stats;
  }
