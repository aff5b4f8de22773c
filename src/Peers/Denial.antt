-- ===== src/Peers/Denial.antt =====
-- nomos-da/network/core/src/maintenance/monitor.rs: a peer that was punished is denied.
use nomos_node.Prelude.{
  ℕ, ◌+◌, ◌≤◌, ◌≡◌, refl, ◌≢◌, ◌⊎◌, inl, inr, Option, none, some, List, [], ◌∷◌, arith, ==_iff,
  Bool-cases, Option-cases, nat_eq, All, err,
}
use nomos_node.Prelude.Map.{contains, get-insert, contains-add}
use nomos_node.Peers.Monitor.{new}
use nomos_node.Peers.Monitor.{
  PeerStatus, Monitor, ConnectionMonitorCommand, block, unblock, blacklisted_peers, stats_command,
  blocked, temporarily_blocked, ConnectionMonitorBehaviour, block_peer, temporarily_block_peer,
  unblock_peer, punish, record_event, enforce, handle_established_connection,
  handle_pending_outbound_connection, handle_command, close_next, obey, poll,
}
use nomos_node.Peers.Cooldown.{Unique, insert-Unique, remove-Unique, retain_until-Unique}
use nomos_node.Peers.Held.{
  Call, observe, connect, reach, polled, handle, handle_all, Within, Held, handle_all-Held,
  Held-Denied,
}

-- A state that the calls keep: no peer stands twice among the unhealthy, and the cooldown is as set.
abbrev Kept : {mon : Monitor} → ℕ → ConnectionMonitorBehaviour mon → Type 0
Kept cooldown self = Unique self.unhealthy_peers × (self.redial_cooldown ≡ cooldown)

punish-Denied :
    {mon : Monitor} (from cooldown p : ℕ) (self : ConnectionMonitorBehaviour mon)
    (status : PeerStatus)
    → status ≢ PeerStatus.healthy
    → Kept cooldown self
    → Held p (from + cooldown) cooldown (punish from self p status)
unfolding block_peer temporarily_block_peer
punish-Denied from cooldown p self PeerStatus.malicious ne (d, c) =
    elim (Bool-cases (contains p self.malicious_peers)) [
      | inl old ↦ rw (old, punish, block_peer) (d, c, inl old)
      | inr fresh ↦
          rw (fresh, punish, block_peer)
            (d, c, inl (ground (arith, contains-add p p self.malicious_peers, ==_iff p p)))
    ]
punish-Denied from cooldown p self PeerStatus.unhealthy ne (d, c) = (
  insert-Unique p (from + self.redial_cooldown) self.unhealthy_peers d,
  c,
  inr (
    from + self.redial_cooldown,
    ground (arith, get-insert p p (from + self.redial_cooldown) self.unhealthy_peers, ==_iff p p),
    omega arith,
  ),
)
punish-Denied from cooldown p self PeerStatus.healthy ne k = absurd (ne refl)

module _ {mon : Monitor} (cooldown : ℕ) where
  punish-Kept :
      (now : ℕ) (self : ConnectionMonitorBehaviour mon) (q : ℕ) (status : PeerStatus)
      → Kept cooldown self
      → Kept cooldown (punish now self q status)
  unfolding block_peer temporarily_block_peer
  punish-Kept now self q PeerStatus.malicious h =
      elim (Bool-cases (contains q self.malicious_peers)) [
        | inl old ↦ rw (old, punish, block_peer) h
        | inr fresh ↦ rw (fresh, punish, block_peer) h
      ]
  punish-Kept now self q PeerStatus.unhealthy h =
      (insert-Unique q (now + self.redial_cooldown) self.unhealthy_peers h.0, h.1)
  punish-Kept now self q PeerStatus.healthy h = h

  record_event-Kept :
      (now : ℕ) (self : ConnectionMonitorBehaviour mon) (event : mon.Event)
      → Kept cooldown self
      → Kept cooldown (record_event now self event)
  unfolding record_event
  record_event-Kept now self event h = elim (Option-cases (mon.record_event self.monitor event).0) [
    | inl nothing ↦ rw (nothing, record_event) h
    | inr (o, judged) ↦
        rw (judged, record_event)
          (punish-Kept now (record self { monitor = (mon.record_event self.monitor event).1 })
            o.peer_id o.peer_status h)
  ]

  enforce-Kept :
      (now : ℕ) (self : ConnectionMonitorBehaviour mon) (q : ℕ)
      → Kept cooldown self
      → Kept cooldown (enforce now self q).1
  unfolding enforce
  enforce-Kept now self q h = (retain_until-Unique now self.unhealthy_peers h.0, h.1)

  obey-Kept :
      (self : ConnectionMonitorBehaviour mon) (command : Option ConnectionMonitorCommand)
      → Kept cooldown self
      → Kept cooldown (obey self command).1
  unfolding handle_command unblock_peer
  obey-Kept self none h = h
  obey-Kept self (some (block q)) h = punish-Kept 0 self q PeerStatus.malicious h
  obey-Kept self (some (unblock q)) h = elim (Bool-cases (contains q self.malicious_peers)) [
    | inl old ↦ rw (old, obey, handle_command, unblock_peer) h
    | inr fresh ↦
        rw (fresh, obey, handle_command, unblock_peer)
          (remove-Unique q self.unhealthy_peers h.0, h.1)
  ]
  obey-Kept self (some blacklisted_peers) h = h
  obey-Kept self (some stats_command) h = h

  close_next-Kept :
      (self : ConnectionMonitorBehaviour mon)
      → Kept cooldown self
      → Kept cooldown (close_next self).1
  unfolding close_next
  close_next-Kept self h =
      elim self.close_connections
        as (λ l.
          Kept cooldown
            (elim l as (λ x. Option ℕ × ConnectionMonitorBehaviour mon) [
              | [] ↦ (none, self)
              | peer ∷ peers ↦ (some peer, record self { close_connections = peers })
            ]).1) [ [] ↦ h | peer ∷ peers ↦ h ]

  handle-Kept :
      (call : Call mon) (self : ConnectionMonitorBehaviour mon)
      → Kept cooldown self
      → Kept cooldown (handle call self)
  unfolding handle handle_established_connection handle_pending_outbound_connection poll
  handle-Kept (observe now event) self h = record_event-Kept now self event h
  handle-Kept (connect now q) self h = enforce-Kept now self q h
  handle-Kept (reach now none) self h = h
  handle-Kept (reach now (some q)) self h = enforce-Kept now self q h
  handle-Kept (polled command) self h =
      close_next-Kept (obey self command).1 (obey-Kept self command h)

  handle_all-Kept :
      (calls : List (Call mon)) (self : ConnectionMonitorBehaviour mon)
      → Kept cooldown self
      → Kept cooldown (handle_all calls self)
  unfolding handle_all
  handle_all-Kept [] self h = h
  handle_all-Kept (call ∷ calls) self h =
      handle_all-Kept calls (handle call self) (handle-Kept call self h)

  -- In any reachable state, once a peer is punished, as malicious or as unhealthy, it is denied until
  -- the cooldown is over, whatever calls come meanwhile, as long as none is a command to unblock it.
  pub punish-Denies :
      (monitor : mon.State) (before : List (Call mon)) (from p : ℕ) (status : PeerStatus)
      (calls : List (Call mon)) (now : ℕ)
      → status ≢ PeerStatus.healthy
      → All (Within from (from + cooldown) p) calls
      → now ≤ from + cooldown
      → ((enforce now
            (handle_all calls (punish from (handle_all before (new monitor cooldown)) p status))
            p).0
          ≡ err (blocked p))
        ⊎ ((enforce now
              (handle_all calls (punish from (handle_all before (new monitor cooldown)) p status))
              p).0
            ≡ err (temporarily_blocked p))
  unfolding new
  punish-Denies monitor before from p status calls now ne within early =
      let start = handle_all before (new monitor cooldown) in
      Held-Denied p from cooldown now (handle_all calls (punish from start p status)) early (
        handle_all-Held p from cooldown calls (punish from start p status) within (
          punish-Denied from cooldown p start status ne
            (handle_all-Kept before (new monitor cooldown) (tt, refl))))
