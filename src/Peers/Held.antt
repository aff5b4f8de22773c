-- ===== src/Peers/Held.antt =====
-- nomos-da/network/core/src/maintenance/monitor.rs: the calls keep a punished peer denied for the cooldown.
use nomos_node.Prelude.{
  ℕ, ◌+◌, ◌≤◌, ◌≡◌, ◌≢◌, ◌⊎◌, inl, inr, true, Option, none, some, List, [], ◌∷◌, arith, ◌==◌,
  ==_iff, Bool-cases, Option-cases, nat_eq, All, err,
}
use nomos_node.Prelude.Map.{
  get, contains, get-insert, get-remove, contains_key-get, contains-add, contains-delete,
}
use nomos_node.Peers.Monitor.{new}
use nomos_node.Peers.Monitor.{
  PeerStatus, Monitor, ConnectionMonitorCommand, block, unblock, blacklisted_peers, stats_command,
  blocked, temporarily_blocked, ConnectionMonitorBehaviour, retain_until, block_peer,
  temporarily_block_peer, unblock_peer, punish, record_event, enforce,
  handle_established_connection, handle_pending_outbound_connection, handle_command, close_next,
  obey, poll,
}
use nomos_node.Peers.Cooldown.{
  Unique, insert-Unique, remove-Unique, get-retain_until, retain_until-Unique,
}

-- The calls of the swarm and of the node.
pub data Call (mon : Monitor) : Type 0 where
  observe : ℕ → mon.Event → Call mon
  connect : ℕ → ℕ → Call mon
  reach : ℕ → Option ℕ → Call mon
  polled : Option ConnectionMonitorCommand → Call mon

unfoldable pub handle :
    {mon : Monitor} → Call mon → ConnectionMonitorBehaviour mon → ConnectionMonitorBehaviour mon
handle (observe now event) self = record_event now self event
handle (connect now peer) self = (handle_established_connection now self peer).1
handle (reach now peer) self = (handle_pending_outbound_connection now self peer).1
handle (polled command) self = (poll self command).2

unfoldable pub handle_all :
    {mon : Monitor}
    → List (Call mon)
    → ConnectionMonitorBehaviour mon
    → ConnectionMonitorBehaviour mon
handle_all [] self = self
handle_all (call ∷ calls) self = handle_all calls (handle call self)

-- A call at a time in the interval, and no command to unblock the peer.
abbrev pub Within : {mon : Monitor} → ℕ → ℕ → ℕ → Call mon → Type 0
Within from until p (observe now event) = (from ≤ now) × (now ≤ until)
Within from until p (connect now peer) = (from ≤ now) × (now ≤ until)
Within from until p (reach now peer) = (from ≤ now) × (now ≤ until)
Within from until p (polled (some (unblock q))) = q ≢ p
Within from until p (polled _) = Unit

-- The peer is malicious, or unhealthy until some time, at the least.
abbrev pub Held : {mon : Monitor} → ℕ → ℕ → ℕ → ConnectionMonitorBehaviour mon → Type 0
Held p until cooldown self =
    Unique self.unhealthy_peers
    × (self.redial_cooldown ≡ cooldown)
    × ((contains p self.malicious_peers ≡ true)
        ⊎ ((u : ℕ) × (get p self.unhealthy_peers ≡ some u) × (until ≤ u)))

module _ {mon : Monitor} (p from cooldown : ℕ) where
  block_peer-Held :
      (self : ConnectionMonitorBehaviour mon) (q : ℕ)
      → Held p (from + cooldown) cooldown self
      → Held p (from + cooldown) cooldown (block_peer self q).1
  unfolding block_peer
  block_peer-Held self q (d, c, i) = elim (Bool-cases (contains q self.malicious_peers)) [
    | inl old ↦ rw old (d, c, i)
    | inr new ↦ rw new (
      d,
      c,
      elim i [
        | inl bad ↦ inl (ground (arith, contains-add q p self.malicious_peers))
        | inr ill ↦ inr ill
      ],
    )
  ]

  temporarily_block_peer-Held :
      (now : ℕ) (self : ConnectionMonitorBehaviour mon) (q : ℕ)
      → from ≤ now
      → Held p (from + cooldown) cooldown self
      → Held p (from + cooldown) cooldown (temporarily_block_peer now self q)
  unfolding temporarily_block_peer
  temporarily_block_peer-Held now self q late (d, c, i) = (
    insert-Unique q (now + self.redial_cooldown) self.unhealthy_peers d,
    c,
    elim i [
      | inl bad ↦ inl bad
      | inr (u, here, long) ↦ elim (Bool-cases (q == p)) [
        | inl same ↦ inr (
          now + self.redial_cooldown,
          ground (arith, get-insert q p (now + self.redial_cooldown) self.unhealthy_peers),
          omega arith,
        )
        | inr other ↦ inr (
          u,
          ground (arith, get-insert q p (now + self.redial_cooldown) self.unhealthy_peers),
          long,
        )
      ]
    ],
  )

  unblock_peer-Held :
      (self : ConnectionMonitorBehaviour mon) (q : ℕ)
      → q ≢ p
      → Held p (from + cooldown) cooldown self
      → Held p (from + cooldown) cooldown (unblock_peer self q).1
  unfolding unblock_peer
  unblock_peer-Held self q ne (d, c, i) = elim (Bool-cases (contains q self.malicious_peers)) [
    | inl old ↦ rw old (
      d,
      c,
      elim i [
        | inl bad ↦ inl (ground (arith, contains-delete q p self.malicious_peers, ==_iff q p))
        | inr ill ↦ inr ill
      ],
    )
    | inr new ↦ rw new (
      remove-Unique q self.unhealthy_peers d,
      c,
      elim i [
        | inl bad ↦ inl bad
        | inr (u, here, long) ↦
            inr (u, ground (arith, get-remove q p self.unhealthy_peers, ==_iff q p), long)
      ],
    )
  ]

  enforce-Held :
      (now : ℕ) (self : ConnectionMonitorBehaviour mon) (q : ℕ)
      → now ≤ from + cooldown
      → Held p (from + cooldown) cooldown self
      → Held p (from + cooldown) cooldown (enforce now self q).1
  unfolding enforce
  enforce-Held now self q early (d, c, i) = (
    retain_until-Unique now self.unhealthy_peers d,
    c,
    elim i [
      | inl bad ↦ inl bad
      | inr (u, here, long) ↦
          inr (u, ground (arith, get-retain_until now p self.unhealthy_peers d), long)
    ],
  )

  punish-Held :
      (now : ℕ) (self : ConnectionMonitorBehaviour mon) (q : ℕ) (status : PeerStatus)
      → from ≤ now
      → Held p (from + cooldown) cooldown self
      → Held p (from + cooldown) cooldown (punish now self q status)
  punish-Held now self q PeerStatus.malicious late h = block_peer-Held self q h
  punish-Held now self q PeerStatus.unhealthy late h = temporarily_block_peer-Held now self q late h
  punish-Held now self q PeerStatus.healthy late h = h

  record_event-Held :
      (now : ℕ) (self : ConnectionMonitorBehaviour mon) (event : mon.Event)
      → from ≤ now
      → Held p (from + cooldown) cooldown self
      → Held p (from + cooldown) cooldown (record_event now self event)
  unfolding record_event
  record_event-Held now self event late h =
      elim (Option-cases (mon.record_event self.monitor event).0) [
        | inl nothing ↦ rw (nothing, record_event) h
        | inr (o, judged) ↦
            rw (judged, record_event)
              (punish-Held now (record self { monitor = (mon.record_event self.monitor event).1 })
                o.peer_id o.peer_status late h)
      ]

  obey-Held :
      (self : ConnectionMonitorBehaviour mon) (command : Option ConnectionMonitorCommand)
      → Within {mon = mon} from (from + cooldown) p (polled command)
      → Held p (from + cooldown) cooldown self
      → Held p (from + cooldown) cooldown (obey self command).1
  unfolding handle_command
  obey-Held self none w h = h
  obey-Held self (some (block q)) w h = block_peer-Held self q h
  obey-Held self (some (unblock q)) w h = unblock_peer-Held self q w h
  obey-Held self (some blacklisted_peers) w h = h
  obey-Held self (some stats_command) w h = h

  close_next-Held :
      (self : ConnectionMonitorBehaviour mon)
      → Held p (from + cooldown) cooldown self
      → Held p (from + cooldown) cooldown (close_next self).1
  unfolding close_next
  close_next-Held self h =
      elim self.close_connections
        as (λ l.
          Held p (from + cooldown) cooldown
            (elim l as (λ x. Option ℕ × ConnectionMonitorBehaviour mon) [
              | [] ↦ (none, self)
              | peer ∷ peers ↦ (some peer, record self { close_connections = peers })
            ]).1) [ [] ↦ h | peer ∷ peers ↦ h ]

  handle-Held :
      (call : Call mon) (self : ConnectionMonitorBehaviour mon)
      → Within from (from + cooldown) p call
      → Held p (from + cooldown) cooldown self
      → Held p (from + cooldown) cooldown (handle call self)
  unfolding handle handle_established_connection handle_pending_outbound_connection poll
  handle-Held (observe now event) self w h = record_event-Held now self event w.0 h
  handle-Held (connect now q) self w h = enforce-Held now self q w.1 h
  handle-Held (reach now none) self w h = h
  handle-Held (reach now (some q)) self w h = enforce-Held now self q w.1 h
  handle-Held (polled command) self w h =
      close_next-Held (obey self command).1 (obey-Held self command w h)

  pub handle_all-Held :
      (calls : List (Call mon)) (self : ConnectionMonitorBehaviour mon)
      → All (Within from (from + cooldown) p) calls
      → Held p (from + cooldown) cooldown self
      → Held p (from + cooldown) cooldown (handle_all calls self)
  unfolding handle_all
  handle_all-Held [] self w h = h
  handle_all-Held (call ∷ calls) self w h =
      handle_all-Held calls (handle call self) w.1 (handle-Held call self w.0 h)

  pub Held-Denied :
      (now : ℕ) (self : ConnectionMonitorBehaviour mon)
      → now ≤ from + cooldown
      → Held p (from + cooldown) cooldown self
      → ((enforce now self p).0 ≡ err (blocked p))
        ⊎ ((enforce now self p).0 ≡ err (temporarily_blocked p))
  unfolding enforce
  Held-Denied now self early (d, c, i) = elim (Bool-cases (contains p self.malicious_peers)) [
    | inl bad ↦ inl (ground arith)
    | inr good ↦ elim i [
      | inl bad ↦ absurd cc
      | inr (u, here, long) ↦ inr (
          ground (
            arith,
            get-retain_until now p self.unhealthy_peers d,
            contains_key-get p (retain_until now self.unhealthy_peers),
          ))
    ]
  ]
