-- ===== src/Peers/Counts.antt =====
-- nomos-da/network/core/src: what a connection leaves in the counts of the subnetworks.
use nomos_node.Prelude.{
  ℕ, ◌+◌, ◌-◌, ◌≡◌, refl, ◌∙◌, Bool, true, false, List, [], ◌∷◌, arith, if◌then◌else◌, ==_iff,
  nat_eq,
}
use nomos_node.Prelude.Map.{Map, get, contains, add, get-insert, contains-delete}
use nomos_node.Subnetworks.Cycle.{Distinct}
use nomos_node.Peers.Balancer.{
  SubnetworkStats, open_inbound, open_outbound, close_inbound, close_outbound, DaConnectionBalancer,
  stats_or, Change, gain, keep, lose, change_stats, update_subnetwork_stats, update_all,
  record_event,
}
use nomos_node.Peers.Behaviour.{
  ConnectionBalancerBehaviour, dialer, listener, connection_closed, record_connection,
  handle_established_inbound_connection, handle_established_outbound_connection, on_swarm_event,
}

-- The counts of one subnetwork.
abbrev pub counts : Map ℕ SubnetworkStats → ℕ → SubnetworkStats
counts m j = stats_or (get j m)

counts-update_all :
    (subnetworks : List ℕ) (i o : Change) (m : Map ℕ SubnetworkStats) (j : ℕ)
    → Distinct subnetworks
    → counts (update_all subnetworks i o m) j
      ≡ (if contains j subnetworks then change_stats i o (counts m j) else counts m j)
unfolding update_all update_subnetwork_stats contains
counts-update_all [] i o m j d = refl
counts-update_all (k ∷ subnetworks) i o m j d = ground (
  arith,
  counts-update_all subnetworks i o (update_subnetwork_stats k i o m) j d.1,
  get-insert k j (change_stats i o (counts m k)) m,
  d.0,
  ==_iff k j,
)

restored :
    (b : Bool) (s : SubnetworkStats)
    → ((if b then change_stats lose keep (change_stats gain keep s) else s) ≡ s)
      × ((if b then change_stats keep lose (change_stats keep gain s) else s) ≡ s)
restored true s =
    let l : s.inbound + 1 - 1 ≡ s.inbound = omega arith in
    let m : s.outbound + 1 - 1 ≡ s.outbound = omega arith in (rw l refl, rw m refl)
restored false s = (refl, refl)

module _ {Multiaddr : Type 0} where
  -- The counts after a connection, whichever side opened it and whichever close was recorded.
  pair-Counts :
      (self : DaConnectionBalancer Multiaddr) (peer : ℕ) (i o i' o' : Change) (j : ℕ)
      → Distinct (self.membership.membership peer)
      → counts
          (update_all
            (self.membership.membership peer)
            i'
            o'
            (update_all (self.membership.membership peer) i o self.subnetwork_stats))
          j
        ≡ (if contains j (self.membership.membership peer)
            then change_stats i' o' (change_stats i o (counts self.subnetwork_stats j))
            else counts self.subnetwork_stats j)
  pair-Counts self peer i o i' o' j d =
      let js = self.membership.membership peer in
      ground (
        arith,
        counts-update_all js i' o' (update_all js i o self.subnetwork_stats) j d,
        counts-update_all js i o self.subnetwork_stats j d,
      )

  -- The balancer's counts of a subnetwork are restored when a connection that was opened in one
  -- direction is closed in the same, where the peer's subnetworks are distinct, and the peer is no
  -- longer connected.
  record_event-Restores :
      (self : DaConnectionBalancer Multiaddr) (peer j : ℕ)
      → Distinct (self.membership.membership peer)
      → (counts
            (record_event
              (record_event self (open_inbound peer))
              (close_inbound peer)).subnetwork_stats
            j
          ≡ counts self.subnetwork_stats j)
        × (counts
              (record_event
                (record_event self (open_outbound peer))
                (close_outbound peer)).subnetwork_stats
              j
            ≡ counts self.subnetwork_stats j)
        × (contains peer
              (record_event
                (record_event self (open_inbound peer))
                (close_inbound peer)).connected_peers
            ≡ false)
        × (contains peer
              (record_event
                (record_event self (open_outbound peer))
                (close_outbound peer)).connected_peers
            ≡ false)
  unfolding record_event
  record_event-Restores self peer j d = (
    pair-Counts self peer gain keep lose keep j d ∙ (restored _ _).0,
    pair-Counts self peer keep gain keep lose j d ∙ (restored _ _).1,
    ground (arith, contains-delete peer peer (add peer self.connected_peers), ==_iff peer peer),
    ground (arith, contains-delete peer peer (add peer self.connected_peers), ==_iff peer peer),
  )

  -- In the node's behaviour it is otherwise, where the peer's subnetworks are distinct: a connection
  -- that this node dialled leaves, once closed, an outbound connection more and an inbound one less,
  -- unless there was none, in each of the peer's subnetworks, and a connection that it accepted leaves
  -- an inbound one more and an outbound one less. The other subnetworks keep their counts.
  pub on_swarm_event-Leaks :
      (self : ConnectionBalancerBehaviour Multiaddr) (peer j : ℕ)
      → Distinct (self.balancer.membership.membership peer)
      → (counts
            (on_swarm_event
              (handle_established_outbound_connection self peer)
              (connection_closed peer dialer)).balancer.subnetwork_stats
            j
          ≡ (if contains j (self.balancer.membership.membership peer)
              then change_stats lose gain (counts self.balancer.subnetwork_stats j)
              else counts self.balancer.subnetwork_stats j))
        × (counts
              (on_swarm_event
                (handle_established_inbound_connection self peer)
                (connection_closed peer listener)).balancer.subnetwork_stats
              j
            ≡ (if contains j (self.balancer.membership.membership peer)
                then change_stats gain lose (counts self.balancer.subnetwork_stats j)
                else counts self.balancer.subnetwork_stats j))
  unfolding record_event on_swarm_event handle_established_outbound_connection
      handle_established_inbound_connection record_connection
  on_swarm_event-Leaks self peer j d = (
    pair-Counts self.balancer peer keep gain lose keep j d,
    pair-Counts self.balancer peer gain keep keep lose j d,
  )
