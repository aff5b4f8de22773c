-- ===== src/Peers/Balancer.antt =====
-- nomos-da/network/core/src: swarm/common/balancer.rs and the connection policy of swarm/common/policy.rs. The interval's readiness is an
-- argument, and so is what `choose_multiple` draws. `isize` and `usize` are not bounded.
use nomos_node.Prelude.{
  ℕ, zero, suc, ◌+◌, ◌-◌, Bool, true, false, not, ◌&&◌, Option, none, some, List, [], ◌∷◌, ◌++◌,
  ltb, ◌==◌, if◌then◌else◌, nat_eq, sat_sub, Outcome, ok, ◌>>=◌,
}
use nomos_node.Prelude.Map
use nomos_node.Prelude.Map.{Map, get, contains, add, delete}
use nomos_node.Subnetworks.Handler.{MembershipHandler, is_member_of}

pub record SubnetworkStats : Type 0 where
  pub inbound : ℕ
  pub outbound : ℕ

pub data ConnectionEvent : Type 0 where
  open_inbound open_outbound close_inbound close_outbound : ℕ → ConnectionEvent

pub record DaConnectionPolicySettings : Type 0 where
  pub min_dispersal_peers : ℕ
  pub min_replication_peers : ℕ
  pub max_dispersal_failures : ℕ
  pub max_sampling_failures : ℕ
  pub max_replication_failures : ℕ
  pub malicious_threshold : ℕ

-- The local peer stands in the policy and in the balancer alike.
pub record DaConnectionPolicy (Multiaddr : Type 0) : Type 0 where
  pub settings : DaConnectionPolicySettings
  pub membership : MembershipHandler Multiaddr
  pub local_peer_id : ℕ

pub record DaConnectionBalancer (Multiaddr : Type 0) : Type 0 where
  pub local_peer_id : ℕ
  pub membership : MembershipHandler Multiaddr
  pub policy : DaConnectionPolicy Multiaddr
  pub subnetwork_stats : Map ℕ SubnetworkStats
  pub connected_peers : List ℕ

abbrev pub no_connections : SubnetworkStats
no_connections = record { inbound = 0; outbound = 0 }

-- `entry(..).or_insert(..)` and `unwrap_or`
abbrev pub stats_or : Option SubnetworkStats → SubnetworkStats
stats_or none = no_connections
stats_or (some s) = s

-- The `isize` that a count changes by; the count does not fall below zero.
pub data Change : Type 0 where
  gain keep lose : Change

abbrev pub changed : ℕ → Change → ℕ
changed n gain = n + 1
changed n keep = n
changed n lose = n - 1

abbrev pub change_stats : Change → Change → SubnetworkStats → SubnetworkStats
change_stats inbound outbound stats = record {
  inbound = changed stats.inbound inbound;
  outbound = changed stats.outbound outbound;
}

-- `update_subnetwork_stats`
unfoldable pub update_subnetwork_stats :
    ℕ → Change → Change → Map ℕ SubnetworkStats → Map ℕ SubnetworkStats
update_subnetwork_stats subnetwork_id inbound outbound m =
    Map.insert subnetwork_id (change_stats inbound outbound (stats_or (get subnetwork_id m))) m

-- `for subnetwork in self.membership.membership(&peer)`
unfoldable pub update_all : List ℕ → Change → Change → Map ℕ SubnetworkStats → Map ℕ SubnetworkStats
update_all [] inbound outbound m = m
update_all (subnetwork ∷ rest) inbound outbound m =
    update_all rest inbound outbound (update_subnetwork_stats subnetwork inbound outbound m)

-- `(0..=last_subnetwork_id)`
unfoldable pub range_to : ℕ → ℕ → List ℕ
range_to start zero = start ∷ []
range_to start (suc more) = start ∷ range_to (start + 1) more

unfoldable pub filter_out : List ℕ → ℕ → List ℕ → List ℕ
filter_out connected local_peer [] = []
filter_out connected local_peer (peer ∷ peers) =
    let rest = filter_out connected local_peer peers in
    if not (contains peer connected) && not (peer == local_peer) then peer ∷ rest else rest

abbrev pub ready : List ℕ → Option (List ℕ)
ready [] = none
ready (peer ∷ peers) = some (peer ∷ peers)

module _ {Multiaddr : Type 0} where
  -- `connection_number_deviation`: the connections that are missing.
  unfoldable pub connection_number_deviation :
      DaConnectionPolicy Multiaddr → ℕ → SubnetworkStats → ℕ
  connection_number_deviation self subnetwork_id stats =
      let required_connections =
        if is_member_of self.membership self.local_peer_id subnetwork_id
        then (if ltb self.settings.min_dispersal_peers self.settings.min_replication_peers
            then self.settings.min_replication_peers
            else self.settings.min_dispersal_peers)
        else self.settings.min_dispersal_peers in
      sat_sub required_connections (stats.inbound + stats.outbound)

  unfoldable pub record_event :
      DaConnectionBalancer Multiaddr → ConnectionEvent → DaConnectionBalancer Multiaddr
  record_event self (open_inbound peer) = record self {
    connected_peers = add peer self.connected_peers;
    subnetwork_stats = update_all (self.membership.membership peer) gain keep self.subnetwork_stats;
  }
  record_event self (open_outbound peer) = record self {
    connected_peers = add peer self.connected_peers;
    subnetwork_stats = update_all (self.membership.membership peer) keep gain self.subnetwork_stats;
  }
  record_event self (close_inbound peer) = record self {
    connected_peers = delete peer self.connected_peers;
    subnetwork_stats = update_all (self.membership.membership peer) lose keep self.subnetwork_stats;
  }
  record_event self (close_outbound peer) = record self {
    connected_peers = delete peer self.connected_peers;
    subnetwork_stats = update_all (self.membership.membership peer) keep lose self.subnetwork_stats;
  }

  unfoldable pub select_missing_peers :
      (List ℕ → ℕ → List ℕ) → DaConnectionBalancer Multiaddr → ℕ → ℕ → Outcome (Unit {0}) (List ℕ)
  select_missing_peers choose self subnetwork_id missing_count = do
    candidates ← self.membership.members_of subnetwork_id
    ok (choose (filter_out self.connected_peers self.local_peer_id candidates) missing_count)

  -- The loop of `poll` over the subnetworks.
  unfoldable pub peers_to_connect :
      (List ℕ → ℕ → List ℕ) → DaConnectionBalancer Multiaddr → List ℕ → Outcome (Unit {0}) (List ℕ)
  peers_to_connect choose self [] = ok []
  peers_to_connect choose self (subnetwork_id ∷ rest) = do
    let stats = stats_or (get subnetwork_id self.subnetwork_stats)
    peers ←
        select_missing_peers choose self subnetwork_id
          (connection_number_deviation self.policy subnetwork_id stats)
    more ← peers_to_connect choose self rest
    ok (peers ++ more)

  -- `poll`; `none` stands for `Poll::Pending`.
  unfoldable pub poll_balancer :
      (List ℕ → ℕ → List ℕ)
      → Bool
      → DaConnectionBalancer Multiaddr
      → Outcome (Unit {0}) (Option (List ℕ))
  poll_balancer choose tick self = elim tick [
    | false ↦ ok none
    | true ↦ do
      peers ← peers_to_connect choose self (range_to 0 self.membership.last_subnetwork_id)
      ok (ready peers)
  ]
