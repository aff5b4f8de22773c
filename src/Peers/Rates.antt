-- ===== src/Peers/Rates.antt =====
-- nomos-da/network/core/src/swarm/common/monitor.rs: a peer's rates against the number of its failures.
use nomos_node.Prelude.{
  ℕ, ◌*◌, ◌≤◌, ◌≡◌, refl, sym, ap, subst, ◌∙◌, ◌≢◌, ◌⊎◌, inl, inr, false, List, arith, leb→le,
  Bool-cases, Option-cases, nat_eq,
}
use nomos_node.Prelude.Map.{get}
use nomos_node.Prelude.Fixed.{one}
use nomos_node.Peers.Balancer.{DaConnectionPolicySettings}
use nomos_node.Peers.Monitor.{malicious, unhealthy, healthy}
use nomos_node.Peers.Failures.{
  Decay, PeerStats, DaConnectionMonitorSettings, unwrap_or, or_default, at_least, is_peer_malicious,
  is_peer_unhealthy, compute_dispersal_failure_rate, compute_sampling_failure_rate,
  compute_replication_failure_rate, get_updated_stats, judge, evaluate_peer,
}
use nomos_node.Peers.Counted.{
  Documented, compute_failure_rate-le, by_dispersal, by_sampling, by_replication, Bounded, Observed,
  failures,
}
use nomos_node.Peers.Bounds.{monitor_after, kept_settings, monitor_after-Bounded}

module _ ⦃exp : Decay⦄ where
  judge-not_malicious :
      (policy : DaConnectionPolicySettings) (stats : PeerStats)
      → is_peer_malicious policy stats ≡ false
      → judge policy stats ≢ malicious
  judge-not_malicious policy stats fine bad = elim (Bool-cases (is_peer_unhealthy policy stats)) [
    | inl ill ↦ let j : judge policy stats ≡ unhealthy = ground arith in cc
    | inr well ↦ let j : judge policy stats ≡ healthy = ground arith in cc
  ]

  judge-Malicious :
      (policy : DaConnectionPolicySettings) (stats : PeerStats)
      → judge policy stats ≡ malicious
      → (policy.malicious_threshold * one ≤ stats.dispersal_failures_rate)
        ⊎ ((policy.malicious_threshold * one ≤ stats.sampling_failures_rate)
            ⊎ (policy.malicious_threshold * one ≤ stats.replication_failures_rate))
  unfolding is_peer_malicious
  judge-Malicious policy stats bad =
      elim (Bool-cases (at_least stats.dispersal_failures_rate policy.malicious_threshold)) [
        | inl d ↦ inl (leb→le (policy.malicious_threshold * one) stats.dispersal_failures_rate d)
        | inr d ↦
            elim (Bool-cases (at_least stats.sampling_failures_rate policy.malicious_threshold)) [
              | inl s ↦
                  inr
                    (inl (leb→le (policy.malicious_threshold * one) stats.sampling_failures_rate s))
              | inr s ↦ inr (
                  inr (
                    leb→le (policy.malicious_threshold * one) stats.replication_failures_rate
                      (elim (Bool-cases
                        (at_least stats.replication_failures_rate policy.malicious_threshold)) [
                          | inl r ↦ r
                          | inr r ↦ absurd (judge-not_malicious policy stats (ground arith) bad)
                        ])))
            ]
      ]

  -- The exponential being documented to be at most one and the decay factor being set to at most one,
  -- a peer that the monitor judges malicious, after any events and resets and at any time, has as many
  -- failures in one of the protocols, since it was last reset, as the threshold asks for.
  pub evaluate_peer-Justified :
      (settings : DaConnectionMonitorSettings) (policy : DaConnectionPolicySettings)
      (history : List Observed) (now p : ℕ)
      → Documented exp
      → settings.time_decay_factor ≤ one
      → evaluate_peer (monitor_after settings policy history) now p ≡ malicious
      → (policy.malicious_threshold ≤ failures by_dispersal p history)
        ⊎ ((policy.malicious_threshold ≤ failures by_sampling p history)
            ⊎ (policy.malicious_threshold ≤ failures by_replication p history))
  unfolding evaluate_peer get_updated_stats compute_dispersal_failure_rate
      compute_sampling_failure_rate compute_replication_failure_rate
  evaluate_peer-Justified settings policy history now p doc small bad =
      let self = monitor_after settings policy history in
      let w = self.settings.failure_time_window in
      let f = self.settings.time_decay_factor in
      let factor : f ≤ one =
        subst (λ t. t.time_decay_factor ≤ one) (sym (kept_settings settings policy history).0)
          small in
      let same : self.policy.malicious_threshold ≡ policy.malicious_threshold =
        ap (λ t. t.malicious_threshold) (kept_settings settings policy history).1 in
      elim (Option-cases (get p self.peer_stats)) [
        | inl unseen ↦
            absurd (
              let fine : evaluate_peer self now p ≡ healthy = rw (unseen, evaluate_peer) refl in cc)
        | inr (stats, known) ↦
            let (d, s, r) =
              subst (λ o. Bounded (or_default o) (λ k. failures k p history)) known
                (monitor_after-Bounded settings policy history p doc small) in
            let judged : evaluate_peer self now p
                ≡ judge self.policy (get_updated_stats stats now w f) =
              rw (known, evaluate_peer) refl in
            elim (judge-Malicious self.policy (get_updated_stats stats now w f)
              (sym judged ∙ bad)) [
                | inl x ↦ inl (
                    omega (
                      arith,
                      compute_failure_rate-le now (unwrap_or stats.last_dispersal_failure now)
                          stats.dispersal_failures_rate w f doc factor,
                    ))
                | inr y ↦ elim y [
                  | inl x ↦ inr (
                      inl (
                        omega (
                          arith,
                          compute_failure_rate-le now (unwrap_or stats.last_sampling_failure now)
                              stats.sampling_failures_rate w f doc factor,
                        )))
                  | inr x ↦ inr (
                      inr (
                        omega (
                          arith,
                          compute_failure_rate-le now (unwrap_or stats.last_replication_failure now)
                              stats.replication_failures_rate w f doc factor,
                        )))
                ]
              ]
      ]
