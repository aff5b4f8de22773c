-- ===== src/Peers/Monitor.antt =====
-- nomos-da/network/core/src/maintenance/monitor.rs, `ConnectionMonitorBehaviour`. The monitor that judges the peers is
-- the argument `Monitor`. Instants and durations are milliseconds, and the instant that the code reads is an argument;
-- the waker only has `poll` called again, and is left out.
use nomos_node.Prelude.{
  ℕ, ◌+◌, Bool, true, false, not, Option, none, some, List, [], ◌∷◌, ◌++◌, leb, if◌then◌else◌,
  nat_eq, Outcome, ok, ◌>>◌, guard,
}
use nomos_node.Prelude.Map
use nomos_node.Prelude.Map.{Map, get, remove, contains, contains_key, add, delete}

pub data PeerStatus : Type 0 where
  malicious unhealthy healthy : PeerStatus

pub record ConnectionMonitorOutput : Type 0 where
  pub peer_id : ℕ
  pub peer_status : PeerStatus

-- The trait `ConnectionMonitor`.
pub record Monitor : Type 1 where
  pub State : Type 0
  pub Event : Type 0
  pub Stats : Type 0
  pub record_event : State → Event → Option ConnectionMonitorOutput × State
  pub reset_peer : State → ℕ → State
  pub stats : State → Stats

pub data ConnectionMonitorCommand : Type 0 where
  block unblock : ℕ → ConnectionMonitorCommand
  blacklisted_peers stats_command : ConnectionMonitorCommand

pub data ConnectionDenied : Type 0 where
  blocked temporarily_blocked : ℕ → ConnectionDenied

pub record ConnectionMonitorBehaviour (mon : Monitor) : Type 0 where
  pub monitor : mon.State
  pub malicious_peers : List ℕ
  pub unhealthy_peers : Map ℕ ℕ
  pub close_connections : List ℕ
  pub redial_cooldown : ℕ

-- `retain(|_, until| now <= until)`
unfoldable pub retain_until : ℕ → Map ℕ ℕ → Map ℕ ℕ
retain_until now [] = []
retain_until now ((peer, until) ∷ rest) =
    let kept = retain_until now rest in if leb now until then (peer, until) ∷ kept else kept

-- What a command is answered with.
pub data Response (mon : Monitor) : Type 0 where
  answer : Bool → Response mon
  blacklist : List ℕ → Response mon
  measured : mon.Stats → Response mon

module _ {mon : Monitor} where
  unfoldable pub new : mon.State → ℕ → ConnectionMonitorBehaviour mon
  new monitor redial_cooldown = record {
    monitor = monitor;
    malicious_peers = [];
    unhealthy_peers = [];
    close_connections = [];
    redial_cooldown = redial_cooldown;
  }

  unfoldable pub block_peer :
      ConnectionMonitorBehaviour mon → ℕ → Bool × ConnectionMonitorBehaviour mon
  block_peer self peer = if contains peer self.malicious_peers then (false, self) else (
    true,
    record self {
      malicious_peers = add peer self.malicious_peers;
      close_connections = self.close_connections ++ (peer ∷ []);
    },
  )

  unfoldable pub temporarily_block_peer :
      ℕ → ConnectionMonitorBehaviour mon → ℕ → ConnectionMonitorBehaviour mon
  temporarily_block_peer now self peer = record self {
    unhealthy_peers = Map.insert peer (now + self.redial_cooldown) self.unhealthy_peers;
    close_connections = self.close_connections ++ (peer ∷ []);
  }

  -- `||` does not look among the unhealthy peers when the peer was malicious.
  unfoldable pub unblock_peer :
      ConnectionMonitorBehaviour mon → ℕ → Bool × ConnectionMonitorBehaviour mon
  unblock_peer self peer =
      if contains peer self.malicious_peers
      then (true, record self { malicious_peers = delete peer self.malicious_peers })
      else (
        contains_key peer self.unhealthy_peers,
        record self { unhealthy_peers = remove peer self.unhealthy_peers },
      )

  abbrev pub punish :
      ℕ → ConnectionMonitorBehaviour mon → ℕ → PeerStatus → ConnectionMonitorBehaviour mon
  punish now self peer malicious = (block_peer self peer).1
  punish now self peer unhealthy = temporarily_block_peer now self peer
  punish now self peer healthy = self

  unfoldable pub record_event :
      ℕ → ConnectionMonitorBehaviour mon → mon.Event → ConnectionMonitorBehaviour mon
  record_event now self event =
      let (output, monitor) = mon.record_event self.monitor event in
      let judged : ConnectionMonitorBehaviour mon = record self { monitor = monitor } in
      elim output [ none ↦ judged | some o ↦ punish now judged o.peer_id o.peer_status ]

  unfoldable pub enforce :
      ℕ
      → ConnectionMonitorBehaviour mon
      → ℕ
      → Outcome ConnectionDenied (Unit {0}) × ConnectionMonitorBehaviour mon
  enforce now self peer =
      let kept : ConnectionMonitorBehaviour mon = record self {
        unhealthy_peers = retain_until now self.unhealthy_peers;
      } in
      (
        (guard (not (contains peer kept.malicious_peers)) (blocked peer)
            >> guard (not (contains_key peer kept.unhealthy_peers)) (temporarily_blocked peer)),
        kept,
      )

  -- An inbound or an outbound connection that is established, and an outbound one that is pending.
  unfoldable pub handle_established_connection :
      ℕ
      → ConnectionMonitorBehaviour mon
      → ℕ
      → Outcome ConnectionDenied (Unit {0}) × ConnectionMonitorBehaviour mon
  handle_established_connection now self peer = enforce now self peer

  unfoldable pub handle_pending_outbound_connection :
      ℕ
      → ConnectionMonitorBehaviour mon
      → Option ℕ
      → Outcome ConnectionDenied (Unit {0}) × ConnectionMonitorBehaviour mon
  handle_pending_outbound_connection now self none = (ok tt, self)
  handle_pending_outbound_connection now self (some peer) = enforce now self peer

  unfoldable pub handle_command :
      ConnectionMonitorBehaviour mon
      → ConnectionMonitorCommand
      → Response mon × ConnectionMonitorBehaviour mon
  handle_command self (block peer) =
      let (result, after) = block_peer self peer in (answer result, after)
  handle_command self (unblock peer) =
      let (result, after) = unblock_peer self peer in (answer result, after)
  handle_command self blacklisted_peers = (blacklist self.malicious_peers, self)
  handle_command self stats_command = (measured (mon.stats self.monitor), self)

  -- `close_connections.pop_front()`; `none` stands for `Poll::Pending`.
  unfoldable pub close_next :
      ConnectionMonitorBehaviour mon → Option ℕ × ConnectionMonitorBehaviour mon
  close_next self = elim self.close_connections [
    | [] ↦ (none, self)
    | peer ∷ peers ↦ (some peer, record self { close_connections = peers })
  ]

  abbrev pub obey :
      ConnectionMonitorBehaviour mon
      → Option ConnectionMonitorCommand
      → Option (Response mon) × ConnectionMonitorBehaviour mon
  obey self none = (none, self)
  obey self (some command) =
      let (response, after) = handle_command self command in (some response, after)

  unfoldable pub poll :
      ConnectionMonitorBehaviour mon
      → Option ConnectionMonitorCommand
      → Option (Response mon) × Option ℕ × ConnectionMonitorBehaviour mon
  poll self command =
      let (response, after) = obey self command in
      let (closed, final) = close_next after in (response, closed, final)
