-- ===== src/Mempool/Service.antt =====
-- nomos-services/mempool/src/tx/service.rs and da/service.rs, with the messages of lib.rs. A handler returns the pool
-- and what it does to the outside, in order; the reply channels, the broadcast, the stored state and the sampling
-- service's relay are such effects.
use nomos_node.Prelude.{ℕ, List, [], ◌∷◌, ◌++◌, Eq, nat_eq, Outcome, ok}
use nomos_node.Mempool.Pool.{
  Status, MempoolError, MockPool, view, pending_item_count, add_item, mark_in_block, prune, status,
}

pub data MempoolMsg (Key Item BlockId : Type 0) : Type 0 where
  add : Item → Key → MempoolMsg Key Item BlockId
  view_items : BlockId → MempoolMsg Key Item BlockId
  prune_items : List Key → MempoolMsg Key Item BlockId
  mark : List Key → BlockId → MempoolMsg Key Item BlockId
  metrics : MempoolMsg Key Item BlockId
  query : List Key → MempoolMsg Key Item BlockId

pub record MempoolMetrics : Type 0 where
  pub pending_items : ℕ
  pub last_item_timestamp : ℕ

pub data Effect (Key Item BlockId : Type 0) : Type 0 where
  saved : MockPool Key Item BlockId → Effect Key Item BlockId
  broadcast : Item → Effect Key Item BlockId
  trigger_sampling : Key → Effect Key Item BlockId
  added : Outcome MempoolError (Unit {0}) → Effect Key Item BlockId
  viewed : List Item → Effect Key Item BlockId
  measured : MempoolMetrics → Effect Key Item BlockId
  queried : List (Status BlockId) → Effect Key Item BlockId

module _ {Key Item BlockId : Type 0} where
  -- `MempoolMsg::Add`: an accepted item is saved, broadcast and answered.
  abbrev pub answer_add_item :
      Outcome MempoolError (Unit {0})
      → MockPool Key Item BlockId
      → Item
      → MockPool Key Item BlockId × List (Effect Key Item BlockId)
  answer_add_item (ok _) after item = (after, saved after ∷ broadcast item ∷ added (ok tt) ∷ [])
  answer_add_item failure after item = (after, added failure ∷ [])

module _ {Key Item BlockId : Type 0} ⦃ek : Eq Key⦄ where
  unfoldable pub handle_add :
      ℕ
      → MockPool Key Item BlockId
      → Item
      → Key
      → MockPool Key Item BlockId × List (Effect Key Item BlockId)
  handle_add now pool item key =
      let (result, after) = add_item now pool key item in answer_add_item result after item

  unfoldable pub handle_mempool_message :
      ⦃eb : Eq BlockId⦄
      → ℕ
      → MockPool Key Item BlockId
      → MempoolMsg Key Item BlockId
      → MockPool Key Item BlockId × List (Effect Key Item BlockId)
  handle_mempool_message now pool (add item key) = handle_add now pool item key
  handle_mempool_message now pool (view_items ancestor_hint) =
      (pool, viewed (view pool ancestor_hint) ∷ [])
  handle_mempool_message now pool (mark ids block) = (mark_in_block pool ids block, [])
  handle_mempool_message now pool (prune_items ids) = (prune pool ids, [])
  handle_mempool_message now pool metrics = (
    pool,
    measured (record {
      pending_items = pending_item_count pool;
      last_item_timestamp = pool.last_item_timestamp;
    })
        ∷ [],
  )
  handle_mempool_message now pool (query items) = (pool, queried (status pool items) ∷ [])

  -- The network arm of the transactions' `run`: a refused item is only logged, and the pool is saved all the same.
  unfoldable pub handle_network_item :
      ℕ
      → MockPool Key Item BlockId
      → Key
      → Item
      → MockPool Key Item BlockId × List (Effect Key Item BlockId)
  handle_network_item now pool key item =
      let after = (add_item now pool key item).1 in (after, saved after ∷ [])

  -- The network arm of the blobs' `run`, which has the blob sampled first. Where the trigger cannot be sent the
  -- code panics before the pool changes: such a run ends with the events before that item.
  unfoldable pub handle_da_network_item :
      ℕ
      → MockPool Key Item BlockId
      → Key
      → Item
      → MockPool Key Item BlockId × List (Effect Key Item BlockId)
  handle_da_network_item now pool key item =
      let after = (add_item now pool key item).1 in (after, trigger_sampling key ∷ saved after ∷ [])

-- What `select!` of either service delivers, with the clock's time.
pub data Event (Key Item BlockId : Type 0) : Type 0 where
  relay_msg : MempoolMsg Key Item BlockId → Event Key Item BlockId
  network_item da_network_item : Key → Item → Event Key Item BlockId

module _ {Key Item BlockId : Type 0} ⦃ek : Eq Key⦄ ⦃eb : Eq BlockId⦄ where
  unfoldable pub handle :
      ℕ
      → MockPool Key Item BlockId
      → Event Key Item BlockId
      → MockPool Key Item BlockId × List (Effect Key Item BlockId)
  handle now pool (relay_msg message) = handle_mempool_message now pool message
  handle now pool (network_item key item) = handle_network_item now pool key item
  handle now pool (da_network_item key item) = handle_da_network_item now pool key item

  -- `loop { select! { .. } }` over the events until the service stops.
  unfoldable pub run :
      MockPool Key Item BlockId
      → List (ℕ × Event Key Item BlockId)
      → MockPool Key Item BlockId × List (Effect Key Item BlockId)
  run pool [] = (pool, [])
  run pool ((now, event) ∷ events) =
      let (after, effects) = handle now pool event in
      let (final, later) = run after events in (final, effects ++ later)
