-- ===== src/Peers/Dialing.antt =====
-- nomos-da/network/core/src/swarm/common/balancer.rs, `poll`: whom the balancer has dialled.
use nomos_node.Prelude.{
  ℕ, ◌<◌, ◌≡◌, ◌≢◌, false, Option, none, some, List, [], nat_eq, length, All, In, ok,
}
use Prim.Native.Nat.{min}
use nomos_node.Prelude.Map.{get, contains}
use nomos_node.Peers.Balancer.{DaConnectionBalancer, stats_or, connection_number_deviation}

-- What `choose_multiple` documents: elements of the list, as many as asked for where there are so many.
abbrev pub Draws : (List ℕ → ℕ → List ℕ) → Type 0
Draws choose =
    (candidates : List ℕ) (amount : ℕ)
    → All (λ p. In p candidates) (choose candidates amount)
      × (length (choose candidates amount) ≡ min amount (length candidates))

abbrev pub dialled : Option (List ℕ) → List ℕ
dialled none = []
dialled (some peers) = peers

module _ {Multiaddr : Type 0} where
  -- A peer worth dialling: neither this node nor connected, and a member of a subnetwork that misses
  -- connections.
  abbrev pub Missing : DaConnectionBalancer Multiaddr → ℕ → Type 0
  Missing self p =
      (contains p self.connected_peers ≡ false)
      × (p ≢ self.local_peer_id)
      × ((j : ℕ) × (members : List ℕ) × (self.membership.members_of j ≡ ok members)
          × In p members
          × (0
              < connection_number_deviation self.policy j (stats_or (get j self.subnetwork_stats))))
