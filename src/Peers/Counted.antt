-- ===== src/Peers/Counted.antt =====
-- nomos-da/network/core/src/swarm/common/monitor.rs: the failures of a peer, counted over a history.
use nomos_node.Prelude.{
  ℕ, ◌+◌, ◌-◌, ◌*◌, ◌≤◌, ◌≡◌, refl, sym, subst, inl, inr, none, some, List, [], ◌∷◌, arith, ltb,
  ◌==◌, if◌then◌else◌, Bool-cases, nat_eq,
}
use nomos_node.Prelude.Fixed.{one, fixed_mul, fixed_mul-le}
use nomos_node.Peers.Failures.{
  Decay, PeerStats, MonitorEvent, executor_dispersal, validator_dispersal, replication, sampling,
  peer_id, compute_failure_rate,
}

-- What the exponential of no positive number documents: it is at most one.
abbrev pub Documented : Decay → Type 0
Documented exp = (elapsed window : ℕ) → exp.time_based_decay elapsed window ≤ one

module _ ⦃exp : Decay⦄ where
  -- A rate only falls while no failure comes.
  pub compute_failure_rate-le :
      (now last_failure rate window factor : ℕ)
      → Documented exp
      → factor ≤ one
      → compute_failure_rate now last_failure rate window factor ≤ rate
  unfolding compute_failure_rate
  compute_failure_rate-le now last_failure rate window factor doc small =
      elim (Bool-cases (ltb 0 (now - last_failure))) [
        | inl later ↦
            rw (later, compute_failure_rate)
              (fixed_mul-le rate
                (fixed_mul (exp.time_based_decay (now - last_failure) window) factor)
                (omega (
                  arith,
                  fixed_mul-le (exp.time_based_decay (now - last_failure) window) factor small,
                  doc (now - last_failure) window,
                )))
        | inr now_or_before ↦ rw (now_or_before, compute_failure_rate) (omega arith)
      ]

pub data Protocol : Type 0 where
  by_dispersal by_sampling by_replication : Protocol

-- One for a failure of the protocol.
unfoldable pub counted : Protocol → MonitorEvent → ℕ
counted by_dispersal (executor_dispersal _) = 1
counted by_dispersal (validator_dispersal _) = 1
counted by_sampling (sampling _) = 1
counted by_replication (replication _) = 1
counted _ _ = 0

-- No rate is above the number of failures of its protocol.
abbrev pub Bounded : PeerStats → (Protocol → ℕ) → Type 0
Bounded stats c =
    (stats.dispersal_failures_rate ≤ c by_dispersal * one)
    × (stats.sampling_failures_rate ≤ c by_sampling * one)
    × (stats.replication_failures_rate ≤ c by_replication * one)

-- The events that the monitor records and the peers that it resets.
pub data Observed : Type 0 where
  seen : ℕ → MonitorEvent → Observed
  forgotten : ℕ → Observed

-- The failures of a peer in a protocol since it was last reset, in a history with the latest first.
unfoldable pub failures : Protocol → ℕ → List Observed → ℕ
failures k p [] = 0
failures k p (seen now event ∷ history) =
    let rest = failures k p history in
    elim (peer_id event) [ none ↦ rest | some q ↦ if q == p then counted k event + rest else rest ]
failures k p (forgotten q ∷ history) = let rest = failures k p history in if q == p then 0 else rest

pub Bounded-cong :
    {s t : PeerStats} {c d : Protocol → ℕ}
    → s ≡ t
    → ((k : Protocol) → c k ≡ d k)
    → Bounded t d
    → Bounded s c
Bounded-cong {s} {t} {c} {d} e f b =
    let (x, y, z) = subst (λ u. Bounded u d) (sym e) b in
    (
      omega (arith, x, f by_dispersal),
      omega (arith, y, f by_sampling),
      omega (arith, z, f by_replication),
    )

pub failures-forgotten :
    (k : Protocol) (q p : ℕ) (history : List Observed)
    → failures k p (forgotten q ∷ history) ≡ (if q == p then 0 else failures k p history)
unfolding failures
failures-forgotten k q p history = refl

pub failures-unnamed :
    (k : Protocol) (now : ℕ) (event : MonitorEvent) (p : ℕ) (history : List Observed)
    → peer_id event ≡ none
    → failures k p (seen now event ∷ history) ≡ failures k p history
unfolding failures
failures-unnamed k now event p history nobody = rw (nobody, failures) refl

pub failures-seen :
    (k : Protocol) (now : ℕ) (event : MonitorEvent) (q p : ℕ) (history : List Observed)
    → peer_id event ≡ some q
    → failures k p (seen now event ∷ history)
      ≡ (if q == p then counted k event + failures k p history else failures k p history)
unfolding failures
failures-seen k now event q p history named = rw (named, failures) refl
