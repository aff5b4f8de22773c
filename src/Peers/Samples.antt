-- ===== src/Peers/Samples.antt =====
-- Two subnetworks of three peers, and a monitor that judges by the event.
use nomos_node.Prelude.{
  ℕ, zero, suc, ◌+◌, ◌≤◌, ◌≡◌, refl, ◌≢◌, ◌⊎◌, inl, inr, some, List, [], ◌∷◌, arith, ltb,
  if◌then◌else◌, Bool-cases, nat_eq, ok, err, panic,
}
use nomos_node.Prelude.Map
use nomos_node.Prelude.Map.{contains, get}
use nomos_node.Prelude.Fixed.{fixed_add, fixed_mul}
use nomos_node.Subnetworks.Handler.{MembershipHandler}
use nomos_node.Subnetworks.Cycle.{Distinct}
use nomos_node.Peers.Balancer.{DaConnectionBalancer, gain, lose, change_stats}
use nomos_node.Peers.Behaviour.{
  ConnectionBalancerBehaviour, dialer, listener, connection_closed,
  handle_established_inbound_connection, handle_established_outbound_connection, on_swarm_event,
}
use nomos_node.Peers.Counts.{counts, on_swarm_event-Leaks}
use nomos_node.Peers.Monitor.{
  unhealthy, healthy, malicious, Monitor, new, block, blocked, temporarily_blocked, punish, enforce,
}
use nomos_node.Peers.Held.{Call, observe, connect, polled, handle_all}
use nomos_node.Peers.Failures.{
  Decay, sampling, DaConnectionMonitorSettings, evaluate_peer, get_updated_stats,
  compute_failure_rate, compute_sampling_failure_rate, compute_dispersal_failure_rate,
  compute_replication_failure_rate, is_peer_malicious, count_failure, record_failure, peer_id,
}
use nomos_node.Peers.Counted.{
  Documented, by_dispersal, by_sampling, by_replication, Observed, seen, failures,
}
use nomos_node.Peers.Bounds.{take_note, monitor_after}
use nomos_node.Peers.Rates.{evaluate_peer-Justified}
use nomos_node.Peers.Denial.{punish-Denies}

-- The peers below three are in both subnetworks.
abbrev both : MembershipHandler ℕ
both = record {
  membership = λ id. if ltb id 3 then 0 ∷ 1 ∷ [] else [];
  is_allowed = λ id. ltb id 3;
  members_of = λ j. if ltb j 2 then ok (0 ∷ 1 ∷ 2 ∷ []) else panic;
  members = 0 ∷ 1 ∷ 2 ∷ [];
  last_subnetwork_id = 1;
  get_address = λ id. some id;
}

abbrev balancer : DaConnectionBalancer ℕ
balancer = record {
  local_peer_id = 0;
  membership = both;
  policy = record {
    settings = record {
      min_dispersal_peers = 1;
      min_replication_peers = 2;
      max_dispersal_failures = 1;
      max_sampling_failures = 1;
      max_replication_failures = 1;
      malicious_threshold = 3;
    };
    membership = both;
    local_peer_id = 0;
  };
  subnetwork_stats = [];
  connected_peers = [];
}

abbrev behaviour : ConnectionBalancerBehaviour ℕ
behaviour = record { membership = both; balancer = balancer; peers_to_dial = [] }

two : Distinct (both.membership 2)
unfolding contains
two = (refl, (refl, tt))

on_swarm_event-Leaks_example :
    (counts
        (on_swarm_event
          (handle_established_outbound_connection behaviour 2)
          (connection_closed 2 dialer)).balancer.subnetwork_stats
        1
      ≡ (if contains 1 (both.membership 2)
          then change_stats lose gain (counts balancer.subnetwork_stats 1)
          else counts balancer.subnetwork_stats 1))
    × (counts
          (on_swarm_event
            (handle_established_inbound_connection behaviour 2)
            (connection_closed 2 listener)).balancer.subnetwork_stats
          1
        ≡ (if contains 1 (both.membership 2)
            then change_stats gain lose (counts balancer.subnetwork_stats 1)
            else counts balancer.subnetwork_stats 1))
on_swarm_event-Leaks_example = on_swarm_event-Leaks behaviour 2 1 two

-- The first elements.
abbrev first : List ℕ → ℕ → List ℕ
first [] n = []
first (x ∷ xs) zero = []
first (x ∷ xs) (suc n) = x ∷ first xs n

-- The event names the peer that it finds unhealthy.
abbrev accusing : Monitor
accusing = record {
  State = ℕ;
  Event = ℕ;
  Stats = ℕ;
  record_event = λ s peer. (some (record { peer_id = peer; peer_status = unhealthy }), s + 1);
  reset_peer = λ s peer. s;
  stats = λ s. s;
}

abbrev calls : List (Call accusing)
calls = observe 101 4 ∷ polled (some (block 5)) ∷ connect 110 4 ∷ []

unwell : unhealthy ≢ healthy
unwell e = cc

punish-Denies_example :
    ((enforce 120
        (handle_all calls
          (punish 100 (handle_all (connect 3 4 ∷ []) (new {mon = accusing} 0 50)) 7 unhealthy))
        7).0
      ≡ err (blocked 7))
    ⊎ ((enforce 120
          (handle_all calls
            (punish 100 (handle_all (connect 3 4 ∷ []) (new {mon = accusing} 0 50)) 7 unhealthy))
          7).0
        ≡ err (temporarily_blocked 7))
punish-Denies_example =
    punish-Denies 50 0 (connect 3 4 ∷ []) 100 7 unhealthy calls 120 unwell
      ((omega arith, omega arith), (tt, ((omega arith, omega arith), tt))) (omega arith)

instance abbrev halving : Decay
halving = record { time_based_decay = λ elapsed window. if ltb 0 elapsed then 64 else 128 }

halving_documented : Documented halving
halving_documented elapsed window = elim (Bool-cases (ltb 0 elapsed)) [
  | inl later ↦ rw later (omega arith)
  | inr before ↦ rw before (omega arith)
]

abbrev window : DaConnectionMonitorSettings
window = record { failure_time_window = 60; time_decay_factor = 100 }

abbrev history : List Observed
history = seen 8 (sampling (some 7)) ∷ seen 8 (sampling (some 7)) ∷ seen 8 (sampling (some 7)) ∷ []

judged_malicious :
    evaluate_peer (monitor_after window balancer.policy.settings history) 8 7 ≡ malicious
unfolding evaluate_peer get_updated_stats compute_failure_rate compute_sampling_failure_rate
    compute_dispersal_failure_rate compute_replication_failure_rate is_peer_malicious fixed_add
    fixed_mul count_failure record_failure peer_id monitor_after take_note get Map.insert
judged_malicious = refl

evaluate_peer-Justified_example :
    (3 ≤ failures by_dispersal 7 history)
    ⊎ ((3 ≤ failures by_sampling 7 history) ⊎ (3 ≤ failures by_replication 7 history))
evaluate_peer-Justified_example =
    evaluate_peer-Justified window balancer.policy.settings history 8 7 halving_documented
      (omega arith) judged_malicious
