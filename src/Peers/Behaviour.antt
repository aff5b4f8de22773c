-- ===== src/Peers/Behaviour.antt =====
-- nomos-da/network/core/src/maintenance/balancer.rs, `ConnectionBalancerBehaviour`, over the balancer that the node runs.
-- What `poll` finds ready is an argument; the waker only has it polled again, and is left out.
use nomos_node.Prelude.{
  ℕ, Bool, Option, none, some, List, [], ◌∷◌, if◌then◌else◌, nat_eq, Outcome, ok, ◌>>=◌,
}
use nomos_node.Subnetworks.Handler.{MembershipHandler}
use nomos_node.Peers.Balancer.{
  SubnetworkStats, ConnectionEvent, open_inbound, open_outbound, close_inbound, close_outbound,
  DaConnectionBalancer, record_event, poll_balancer,
}
use nomos_node.Prelude.Map.{Map}

pub record ConnectionBalancerBehaviour (Multiaddr : Type 0) : Type 0 where
  pub membership : MembershipHandler Multiaddr
  pub balancer : DaConnectionBalancer Multiaddr
  pub peers_to_dial : List ℕ

-- `ConnectedPoint`: which side of a connection this node is.
pub data ConnectedPoint : Type 0 where
  dialer listener : ConnectedPoint

pub data FromSwarm : Type 0 where
  connection_closed : ℕ → ConnectedPoint → FromSwarm
  other_event : FromSwarm

-- What `poll` asks the swarm for.
pub data ToSwarm (Multiaddr : Type 0) : Type 0 where
  pending : ToSwarm Multiaddr
  dial : ℕ → Multiaddr → ToSwarm Multiaddr

module _ {Multiaddr : Type 0} where
  unfoldable pub record_connection :
      ConnectionBalancerBehaviour Multiaddr
      → ConnectionEvent
      → ConnectionBalancerBehaviour Multiaddr
  record_connection self event = record self { balancer = record_event self.balancer event }

  unfoldable pub handle_established_inbound_connection :
      ConnectionBalancerBehaviour Multiaddr → ℕ → ConnectionBalancerBehaviour Multiaddr
  handle_established_inbound_connection self peer = record_connection self (open_inbound peer)

  unfoldable pub handle_established_outbound_connection :
      ConnectionBalancerBehaviour Multiaddr → ℕ → ConnectionBalancerBehaviour Multiaddr
  handle_established_outbound_connection self peer = record_connection self (open_outbound peer)

  unfoldable pub on_swarm_event :
      ConnectionBalancerBehaviour Multiaddr → FromSwarm → ConnectionBalancerBehaviour Multiaddr
  on_swarm_event self (connection_closed peer_id dialer) =
      record_connection self (close_inbound peer_id)
  on_swarm_event self (connection_closed peer_id listener) =
      record_connection self (close_outbound peer_id)
  on_swarm_event self other_event = self

  -- The peers that the balancer has ready, if there were none to dial.
  unfoldable pub refill :
      (List ℕ → ℕ → List ℕ)
      → Bool
      → ConnectionBalancerBehaviour Multiaddr
      → Outcome (Unit {0}) (ConnectionBalancerBehaviour Multiaddr)
  refill choose tick self = elim self.peers_to_dial [
    | peer ∷ peers ↦ ok self
    | [] ↦ do
      polled ← poll_balancer choose tick self.balancer
      elim polled [ none ↦ ok self | some peers ↦ ok (record self { peers_to_dial = peers }) ]
  ]

  -- The first peer to dial; one without an address is passed over.
  unfoldable pub dial_next :
      ConnectionBalancerBehaviour Multiaddr
      → ToSwarm Multiaddr × ConnectionBalancerBehaviour Multiaddr
  dial_next self = elim self.peers_to_dial [
    | [] ↦ (pending, self)
    | peer ∷ peers ↦ elim (self.membership.get_address peer) [
      | none ↦ (pending, record self { peers_to_dial = peers })
      | some addr ↦ (dial peer addr, record self { peers_to_dial = peers })
    ]
  ]

  -- The stats that a command is answered with, what the swarm is asked for, and the behaviour after.
  unfoldable pub poll :
      (List ℕ → ℕ → List ℕ)
      → Bool
      → Bool
      → ConnectionBalancerBehaviour Multiaddr
      → Outcome (Unit {0}) (
          Option (Map ℕ SubnetworkStats)
          × ToSwarm Multiaddr
          × ConnectionBalancerBehaviour Multiaddr)
  poll choose stats_asked tick self = do
    let answer = if stats_asked then some self.balancer.subnetwork_stats else none
    filled ← refill choose tick self
    let (asked, after) = dial_next filled
    ok (answer, asked, after)
