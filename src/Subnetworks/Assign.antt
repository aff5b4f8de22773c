-- ===== src/Subnetworks/Assign.antt =====
-- nomos-da/network/subnetworks-assignations/src/versions/v1.rs and v2.rs, `fill` and the records. Peers are numbers,
-- and a set of peers is a list without order; `usize` is not bounded.
use nomos_node.Prelude.{
  ℕ, zero, suc, ◌+◌, ◌%◌, Bool, true, false, not, List, [], ◌∷◌, ltb, leb, if◌then◌else◌, nat_eq,
  length, Outcome, ok, ◌>>=◌, ◌>>◌, unwrap, assert,
}
use nomos_node.Prelude.Map.{Map, add}
use nomos_node.Prelude.Arrays.{get_elem?}

pub record FillFromNodeList (Multiaddr : Type 0) : Type 0 where
  pub assignations : List (List ℕ)
  pub subnetwork_size : ℕ
  pub dispersal_factor : ℕ
  pub addressbook : Map ℕ Multiaddr

pub record FillWithOriginalReplication (Multiaddr : Type 0) : Type 0 where
  pub assignations : List (List ℕ)
  pub addressbook : Map ℕ Multiaddr
  pub subnetwork_size : ℕ
  pub dispersal_factor : ℕ
  pub original_replication : ℕ
  pub pivot : ℕ

-- `sort_unstable`
unfoldable pub insert_sorted : ℕ → List ℕ → List ℕ
insert_sorted x [] = x ∷ []
insert_sorted x (y ∷ ys) = let rest = insert_sorted x ys in if leb x y then x ∷ y ∷ ys else y ∷ rest

unfoldable pub sort : List ℕ → List ℕ
sort [] = []
sort (x ∷ xs) = insert_sorted x (sort xs)

-- `cycle.next().unwrap()`, for an iterator that has given so many elements.
unfoldable pub next {ℓ} : {E : Type ℓ} → List ℕ → ℕ → Outcome E ℕ
next peers given = unwrap (get_elem? peers (given % length peers))

-- `(0..factor).map(|_| cycle.next().unwrap()).collect()`, into a set.
unfoldable pub collect {ℓ} : {E : Type ℓ} → List ℕ → ℕ → ℕ → Outcome E (List ℕ)
collect peers given zero = ok []
collect peers given (suc factor) = do
  peer ← next peers given
  rest ← collect peers (given + 1) factor
  ok (add peer rest)

-- The subnetworks from the given one on, so many of them; the factor may depend on the subnetwork.
unfoldable pub subnetworks {ℓ} :
    {E : Type ℓ} → List ℕ → (ℕ → ℕ) → ℕ → ℕ → ℕ → Outcome E (List (List ℕ))
subnetworks peers factor subnetwork given zero = ok []
subnetworks peers factor subnetwork given (suc left) = do
  members ← collect peers given (factor subnetwork)
  rest ← subnetworks peers factor (subnetwork + 1) (given + factor subnetwork) left
  ok (members ∷ rest)

abbrev pub is_empty : List ℕ → Bool
is_empty [] = true
is_empty (x ∷ xs) = false

-- `FillFromNodeList::fill`
unfoldable pub fill {ℓ} : {E : Type ℓ} → List ℕ → ℕ → ℕ → Outcome E (List (List ℕ))
fill peers subnetwork_size replication_factor = do
  assert (not (is_empty peers))
  subnetworks (sort peers) (λ _. replication_factor) 0 0 subnetwork_size

-- `FillWithOriginalReplication::fill`
unfoldable pub fill_replicated {ℓ} :
    {E : Type ℓ} → List ℕ → ℕ → ℕ → ℕ → ℕ → Outcome E (List (List ℕ))
fill_replicated peers subnetwork_size dispersal_factor original_replication pivot = do
  assert (not (is_empty peers))
  subnetworks (sort peers)
      (λ subnetwork. if ltb subnetwork pivot then original_replication else dispersal_factor) 0 0
      subnetwork_size

module _ {Multiaddr : Type 0} where
  unfoldable pub new {ℓ} :
      {E : Type ℓ} → List ℕ → Map ℕ Multiaddr → ℕ → ℕ → Outcome E (FillFromNodeList Multiaddr)
  new peers addressbook subnetwork_size dispersal_factor = do
    assignations ← fill peers subnetwork_size dispersal_factor
    ok (record {
      assignations = assignations;
      subnetwork_size = subnetwork_size;
      dispersal_factor = dispersal_factor;
      addressbook = addressbook;
    })

  unfoldable pub clone_with_different_addressbook :
      FillFromNodeList Multiaddr → Map ℕ Multiaddr → FillFromNodeList Multiaddr
  clone_with_different_addressbook self addressbook = record self { addressbook = addressbook }

  unfoldable pub new_replicated {ℓ} :
      {E : Type ℓ}
      → List ℕ
      → Map ℕ Multiaddr
      → ℕ
      → ℕ
      → ℕ
      → ℕ
      → Outcome E (FillWithOriginalReplication Multiaddr)
  new_replicated peers addressbook subnetwork_size dispersal_factor original_replication pivot = do
    assignations ← fill_replicated peers subnetwork_size dispersal_factor original_replication pivot
    ok (record {
      assignations = assignations;
      addressbook = addressbook;
      subnetwork_size = subnetwork_size;
      dispersal_factor = dispersal_factor;
      original_replication = original_replication;
      pivot = pivot;
    })
