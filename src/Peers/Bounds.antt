-- ===== src/Peers/Bounds.antt =====
-- nomos-da/network/core/src/swarm/common/monitor.rs: no rate is above the number of its failures.
use nomos_node.Prelude.{
  ℕ, ◌+◌, ◌≤◌, ◌≡◌, refl, sym, ap, subst, ◌∙◌, inl, inr, none, some, List, [], ◌∷◌, arith, ◌==◌,
  if◌then◌else◌, ==_iff, Bool-cases, Option-cases, nat_eq,
}
use nomos_node.Prelude.Map.{get, get-insert, get-remove}
use nomos_node.Prelude.{then_branch, else_branch}
use nomos_node.Prelude.Fixed.{one, fixed_add-le}
use nomos_node.Peers.Balancer.{DaConnectionPolicySettings}
use nomos_node.Peers.Failures.{
  Decay, PeerStats, MonitorEvent, executor_dispersal, validator_dispersal, replication, sampling,
  noop, peer_id, DaConnectionMonitorSettings, DaConnectionMonitor, unwrap_or, or_default,
  compute_failure_rate, compute_dispersal_failure_rate, compute_sampling_failure_rate,
  compute_replication_failure_rate, count_failure, record_failure, reset_peer,
}
use nomos_node.Peers.Counted.{
  Documented, compute_failure_rate-le, Protocol, counted, Bounded, Observed, seen, forgotten,
  failures, Bounded-cong, failures-forgotten, failures-unnamed, failures-seen,
}

module _ ⦃exp : Decay⦄ where
  count_failure-Bounded :
      (settings : DaConnectionMonitorSettings) (now : ℕ) (event : MonitorEvent) (stats : PeerStats)
      (c : Protocol → ℕ)
      → Documented exp
      → settings.time_decay_factor ≤ one
      → Bounded stats c
      → Bounded (count_failure settings now event stats) (λ k. counted k event + c k)
  unfolding count_failure counted compute_dispersal_failure_rate compute_sampling_failure_rate
      compute_replication_failure_rate
  count_failure-Bounded settings now (executor_dispersal q) stats c doc small (d, s, r) =
      let rate =
        compute_failure_rate now (unwrap_or stats.last_dispersal_failure now)
          stats.dispersal_failures_rate settings.failure_time_window settings.time_decay_factor in
      (
        omega (
          arith,
          fixed_add-le rate one,
          compute_failure_rate-le now (unwrap_or stats.last_dispersal_failure now)
              stats.dispersal_failures_rate settings.failure_time_window settings.time_decay_factor
              doc small,
        ),
        omega arith,
        omega arith,
      )
  count_failure-Bounded settings now (validator_dispersal q) stats c doc small (d, s, r) =
      let rate =
        compute_failure_rate now (unwrap_or stats.last_dispersal_failure now)
          stats.dispersal_failures_rate settings.failure_time_window settings.time_decay_factor in
      (
        omega (
          arith,
          fixed_add-le rate one,
          compute_failure_rate-le now (unwrap_or stats.last_dispersal_failure now)
              stats.dispersal_failures_rate settings.failure_time_window settings.time_decay_factor
              doc small,
        ),
        omega arith,
        omega arith,
      )
  count_failure-Bounded settings now (sampling q) stats c doc small (d, s, r) =
      let rate =
        compute_failure_rate now (unwrap_or stats.last_sampling_failure now)
          stats.sampling_failures_rate settings.failure_time_window settings.time_decay_factor in
      (
        omega arith,
        omega (
          arith,
          fixed_add-le rate one,
          compute_failure_rate-le now (unwrap_or stats.last_sampling_failure now)
              stats.sampling_failures_rate settings.failure_time_window settings.time_decay_factor
              doc small,
        ),
        omega arith,
      )
  count_failure-Bounded settings now (replication q) stats c doc small (d, s, r) =
      let rate =
        compute_failure_rate now (unwrap_or stats.last_replication_failure now)
          stats.replication_failures_rate settings.failure_time_window settings.time_decay_factor in
      (
        omega arith,
        omega arith,
        omega (
          arith,
          fixed_add-le rate one,
          compute_failure_rate-le now (unwrap_or stats.last_replication_failure now)
              stats.replication_failures_rate settings.failure_time_window
              settings.time_decay_factor doc small,
        ),
      )
  count_failure-Bounded settings now noop stats c doc small (d, s, r) =
      (omega arith, omega arith, omega arith)

  unfoldable pub take_note : Observed → DaConnectionMonitor → DaConnectionMonitor
  take_note (seen now event) self = record_failure self now event
  take_note (forgotten peer) self = reset_peer self peer

  -- The monitor after a history.
  unfoldable pub monitor_after :
      DaConnectionMonitorSettings → DaConnectionPolicySettings → List Observed → DaConnectionMonitor
  monitor_after settings policy [] = record {
    peer_stats = [];
    policy = policy;
    settings = settings;
  }
  monitor_after settings policy (o ∷ history) = take_note o (monitor_after settings policy history)

  pub kept_settings :
      (settings : DaConnectionMonitorSettings) (policy : DaConnectionPolicySettings)
      (history : List Observed)
      → ((monitor_after settings policy history).settings ≡ settings)
        × ((monitor_after settings policy history).policy ≡ policy)
  unfolding monitor_after take_note record_failure reset_peer
  kept_settings settings policy [] = (refl, refl)
  kept_settings settings policy (seen now event ∷ history) =
      ground (arith, kept_settings settings policy history)
  kept_settings settings policy (forgotten q ∷ history) = kept_settings settings policy history

  -- What an observation leaves of a peer.
  get-forgotten :
      (self : DaConnectionMonitor) (q p : ℕ)
      → get p (reset_peer self q).peer_stats ≡ (if q == p then none else get p self.peer_stats)
  unfolding reset_peer
  get-forgotten self q p = get-remove q p self.peer_stats

  get-seen :
      (self : DaConnectionMonitor) (now : ℕ) (event : MonitorEvent) (q p : ℕ)
      → peer_id event ≡ some q
      → get p (record_failure self now event).peer_stats ≡ (
          if q == p
          then some (count_failure self.settings now event (or_default (get q self.peer_stats)))
          else get p self.peer_stats)
  unfolding record_failure
  get-seen self now event q p named =
      rw (named, record_failure)
        (get-insert q p (count_failure self.settings now event (or_default (get q self.peer_stats)))
          self.peer_stats)

  get-unnamed :
      (self : DaConnectionMonitor) (now : ℕ) (event : MonitorEvent)
      → peer_id event ≡ none
      → record_failure self now event ≡ self
  unfolding record_failure
  get-unnamed self now event nobody = rw (nobody, record_failure) refl

  pub monitor_after-Bounded :
      (settings : DaConnectionMonitorSettings) (policy : DaConnectionPolicySettings)
      (history : List Observed) (p : ℕ)
      → Documented exp
      → settings.time_decay_factor ≤ one
      → Bounded
          (or_default (get p (monitor_after settings policy history).peer_stats))
          (λ k. failures k p history)
  unfolding monitor_after take_note get
  monitor_after-Bounded settings policy [] p doc small = (omega arith, omega arith, omega arith)
  monitor_after-Bounded settings policy (forgotten q ∷ history) p doc small =
      let self = monitor_after settings policy history in
      elim (Bool-cases (q == p)) [
        | inl same ↦
            Bounded-cong (ap or_default (get-forgotten self q p ∙ then_branch _ _ same))
              (λ k. failures-forgotten k q p history ∙ then_branch _ _ same)
              (omega arith, omega arith, omega arith)
        | inr other ↦
            Bounded-cong (ap or_default (get-forgotten self q p ∙ else_branch _ _ other))
              (λ k. failures-forgotten k q p history ∙ else_branch _ _ other)
              (monitor_after-Bounded settings policy history p doc small)
      ]
  monitor_after-Bounded settings policy (seen now event ∷ history) p doc small =
      let self = monitor_after settings policy history in
      elim (Option-cases (peer_id event)) [
        | inl nobody ↦
            Bounded-cong
              (ap (λ m. or_default (get p m.peer_stats)) (get-unnamed self now event nobody))
              (λ k. failures-unnamed k now event p history nobody)
              (monitor_after-Bounded settings policy history p doc small)
        | inr (q, named) ↦ elim (Bool-cases (q == p)) [
          | inl same ↦
              let here = (==_iff q p).0 same in
              Bounded-cong
                (ap or_default (get-seen self now event q p named ∙ then_branch _ _ same))
                (λ k. failures-seen k now event q p history named ∙ then_branch _ _ same)
                (count_failure-Bounded self.settings now event (or_default (get q self.peer_stats))
                  (λ k. failures k p history) doc
                  (subst (λ t. t.time_decay_factor ≤ one)
                    (sym (kept_settings settings policy history).0) small)
                  (subst
                    (λ i. Bounded (or_default (get i self.peer_stats)) (λ k. failures k p history))
                    (sym here) (monitor_after-Bounded settings policy history p doc small)))
          | inr other ↦
              Bounded-cong
                (ap or_default (get-seen self now event q p named ∙ else_branch _ _ other))
                (λ k. failures-seen k now event q p history named ∙ else_branch _ _ other)
                (monitor_after-Bounded settings policy history p doc small)
        ]
      ]
  -- Whom the policy calls malicious has a rate at the threshold.
