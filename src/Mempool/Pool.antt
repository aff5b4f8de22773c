-- ===== src/Mempool/Pool.antt =====
-- nomos-services/mempool/src/backend/mockpool/mod.rs, `MockPool`, and its result types. The time that
-- `add_item` reads from the clock, in milliseconds, is an argument.
use nomos_node.Prelude.{
  ℕ, ◌||◌, Option, none, some, List, [], ◌∷◌, ◌++◌, map, if◌then◌else◌, Eq, nat_eq, length, Outcome,
  ok, err,
}
use nomos_node.Prelude.Map
use nomos_node.Prelude.Map.{Map, get, remove, contains_key}

-- `Status` of backend/mod.rs; the mock pool never rejects.
pub data Status (BlockId : Type 0) : Type 0 where
  unknown pending rejected : Status BlockId
  in_block : BlockId → Status BlockId

-- `MempoolError`; the boxed error is a number, and the mock pool never raises it.
pub data MempoolError : Type 0 where
  existing_item : MempoolError
  dynamic_pool_error : ℕ → MempoolError

-- The pending items stand in the order of their arrival.
pub record MockPool (Key Item BlockId : Type 0) : Type 0 where
  pub pending_items : Map Key Item
  pub in_block_items : Map BlockId (List Item)
  pub in_block_items_by_id : Map Key BlockId
  pub last_item_timestamp : ℕ

abbrev or_default {ℓ} : {A : Type ℓ} → Option (List A) → List A
or_default none = []
or_default (some x) = x

module _ {Key Val : Type 0} ⦃ek : Eq Key⦄ where
  -- The loop of `mark_in_block`: the pending items and those that the block takes.
  unfoldable pub take_items : List Key → Map Key Val → List Val → Map Key Val × List Val
  take_items [] pending_items items_in_block = (pending_items, items_in_block)
  take_items (key ∷ keys) pending_items items_in_block = elim (get key pending_items) [
    | none ↦ take_items keys pending_items items_in_block
    | some item ↦ take_items keys (remove key pending_items) (items_in_block ++ (item ∷ []))
  ]

  -- `in_block_items_by_id.extend(keys.iter().cloned().map(|key| (key, block)))`
  unfoldable pub extend : List Key → Val → Map Key Val → Map Key Val
  extend [] block by_id = by_id
  extend (key ∷ keys) block by_id = extend keys block (Map.insert key block by_id)

  unfoldable pub remove_all : List Key → Map Key Val → Map Key Val
  remove_all [] m = m
  remove_all (key ∷ keys) m = remove_all keys (remove key m)

module _ {Key Item BlockId : Type 0} where
  unfoldable pub new : MockPool Key Item BlockId
  new = record {
    pending_items = [];
    in_block_items = [];
    in_block_items_by_id = [];
    last_item_timestamp = 0;
  }

  -- The hint is not used.
  unfoldable pub view : MockPool Key Item BlockId → BlockId → List Item
  view self ancestor_hint = map (λ e. e.1) self.pending_items

  unfoldable pub pending_item_count : MockPool Key Item BlockId → ℕ
  pending_item_count self = length self.pending_items

  module _ ⦃ek : Eq Key⦄ where
    unfoldable pub add_item :
        ℕ
        → MockPool Key Item BlockId
        → Key
        → Item
        → Outcome MempoolError (Unit {0}) × MockPool Key Item BlockId
    add_item now self key item =
        if contains_key key self.pending_items || contains_key key self.in_block_items_by_id
        then (err existing_item, self)
        else (
          ok tt,
          record self {
            pending_items = Map.insert key item self.pending_items;
            last_item_timestamp = now;
          },
        )

    unfoldable pub mark_in_block :
        ⦃eb : Eq BlockId⦄
        → MockPool Key Item BlockId
        → List Key
        → BlockId
        → MockPool Key Item BlockId
    mark_in_block self keys block =
        let taken = take_items keys self.pending_items [] in
        record self {
          pending_items = taken.0;
          in_block_items =
              Map.insert block (or_default (get block self.in_block_items) ++ taken.1)
                self.in_block_items;
          in_block_items_by_id = extend keys block self.in_block_items_by_id;
        }

    unfoldable pub prune : MockPool Key Item BlockId → List Key → MockPool Key Item BlockId
    prune self keys = record self { pending_items = remove_all keys self.pending_items }

    unfoldable pub status_of : MockPool Key Item BlockId → Key → Status BlockId
    status_of self key =
        if contains_key key self.pending_items
        then pending
        else (elim (get key self.in_block_items_by_id) [
          | some block ↦ in_block block
          | none ↦ unknown
        ])

    unfoldable pub status : MockPool Key Item BlockId → List Key → List (Status BlockId)
    status self items = map (status_of self) items
