-- ===== src/Subnetworks/Handler.antt =====
-- nomos-da/network/subnetworks-assignations/src/lib.rs, `MembershipHandler`, with the answers that both versions give
-- to it from their assignations. A subnetwork's number is a `u16`.
use nomos_node.Prelude.{
  ℕ, ◌+◌, ◌-◌, ◌%◌, ◌^◌, Bool, false, ◌||◌, Option, List, [], ◌∷◌, if◌then◌else◌, nat_eq, Outcome,
  unwrap,
}
use nomos_node.Prelude.Map.{contains, add, get}
use nomos_node.Prelude.Arrays.{get_elem?}
use nomos_node.Subnetworks.Assign.{FillFromNodeList, FillWithOriginalReplication}

abbrev pub u16_size : ℕ
u16_size = 2 ^ 16

pub record MembershipHandler (Multiaddr : Type 0) : Type 0 where
  pub membership : ℕ → List ℕ
  pub is_allowed : ℕ → Bool
  pub members_of : ℕ → Outcome (Unit {0}) (List ℕ)
  pub members : List ℕ
  pub last_subnetwork_id : ℕ
  pub get_address : ℕ → Option Multiaddr

-- `is_member_of`, which the trait provides.
unfoldable pub is_member_of : {Multiaddr : Type 0} → MembershipHandler Multiaddr → ℕ → ℕ → Bool
is_member_of self id network_id = contains network_id (self.membership id)

-- `enumerate().filter_map(..)` from a number on.
unfoldable pub membership_from : ℕ → List (List ℕ) → ℕ → List ℕ
membership_from network_id [] id = []
membership_from network_id (subnetwork ∷ rest) id =
    let later = membership_from (network_id + 1) rest id in
    if contains id subnetwork then add (network_id % u16_size) later else later

unfoldable pub allowed_in : List (List ℕ) → ℕ → Bool
allowed_in [] id = false
allowed_in (subnetwork ∷ rest) id = contains id subnetwork || allowed_in rest id

-- `assignations.iter().flatten().copied().collect()`, into a set.
unfoldable pub add_all : List ℕ → List ℕ → List ℕ
add_all [] s = s
add_all (x ∷ xs) s = add x (add_all xs s)

unfoldable pub flatten : List (List ℕ) → List ℕ
flatten [] = []
flatten (subnetwork ∷ rest) = add_all subnetwork (flatten rest)

module _ {Multiaddr : Type 0} where
  unfoldable pub node_list_handler : FillFromNodeList Multiaddr → MembershipHandler Multiaddr
  node_list_handler self = record {
    membership = membership_from 0 self.assignations;
    is_allowed = allowed_in self.assignations;
    members_of = λ network_id. unwrap (get_elem? self.assignations network_id);
    members = flatten self.assignations;
    last_subnetwork_id = (self.subnetwork_size - 1) % u16_size;
    get_address = λ peer_id. get peer_id self.addressbook;
  }

  unfoldable pub replicated_handler :
      FillWithOriginalReplication Multiaddr → MembershipHandler Multiaddr
  replicated_handler self = record {
    membership = membership_from 0 self.assignations;
    is_allowed = allowed_in self.assignations;
    members_of = λ network_id. unwrap (get_elem? self.assignations network_id);
    members = flatten self.assignations;
    last_subnetwork_id = (self.subnetwork_size - 1) % u16_size;
    get_address = λ peer_id. get peer_id self.addressbook;
  }
