-- ===== src/Mempool/Statuses.antt =====
-- nomos-services/mempool/src/backend/mod.rs, the `MemPool` trait, as a status for each key: what each event does to
-- it, and the answers to an addition and to a question for statuses.
use nomos_node.Prelude.{ℕ, List, [], ◌∷◌, ◌++◌, map, if◌then◌else◌, Eq, nat_eq, Outcome, ok, err}
use nomos_node.Prelude.Map.{contains}
use nomos_node.Mempool.Pool.{Status, unknown, pending, in_block, MempoolError, existing_item}
use nomos_node.Mempool.Service.{
  MempoolMsg, add, view_items, prune_items, mark, metrics, query, Effect, added, queried, Event,
  relay_msg, network_item, da_network_item,
}

pub data Answer (BlockId : Type 0) : Type 0 where
  answer_add : Outcome MempoolError (Unit {0}) → Answer BlockId
  answer_status : List (Status BlockId) → Answer BlockId

abbrev pub answers :
    {Key Item BlockId : Type 0} → List (Effect Key Item BlockId) → List (Answer BlockId)
answers [] = []
answers (added r ∷ es) = answer_add r ∷ answers es
answers (queried s ∷ es) = answer_status s ∷ answers es
answers (_ ∷ es) = answers es

abbrev pub Statuses : Type 0 → Type 0 → Type 0
Statuses Key BlockId = Key → Status BlockId

-- An unknown key becomes pending; any other is refused.
unfoldable pub admit : {BlockId : Type 0} → Status BlockId → Status BlockId
admit unknown = pending
admit s = s

unfoldable pub admission : {BlockId : Type 0} → Status BlockId → Outcome MempoolError (Unit {0})
admission unknown = ok tt
admission s = err existing_item

unfoldable pub forget : {BlockId : Type 0} → Status BlockId → Status BlockId
forget pending = unknown
forget s = s

module _ {Key Item BlockId : Type 0} ⦃ek : Eq Key⦄ where
  unfoldable pub spec_message :
      MempoolMsg Key Item BlockId
      → Statuses Key BlockId
      → Statuses Key BlockId × List (Answer BlockId)
  spec_message (add item key) s =
      (λ k. if ek.beq key k then admit (s k) else s k, answer_add (admission (s key)) ∷ [])
  spec_message (mark ids block) s = (λ k. if contains k ids then in_block block else s k, [])
  spec_message (prune_items ids) s = (λ k. if contains k ids then forget (s k) else s k, [])
  spec_message (query items) s = (s, answer_status (map s items) ∷ [])
  spec_message (view_items _) s = (s, [])
  spec_message metrics s = (s, [])

  unfoldable pub spec_step :
      Event Key Item BlockId → Statuses Key BlockId → Statuses Key BlockId × List (Answer BlockId)
  spec_step (relay_msg message) s = spec_message message s
  spec_step (network_item key item) s = (λ k. if ek.beq key k then admit (s k) else s k, [])
  spec_step (da_network_item key item) s = (λ k. if ek.beq key k then admit (s k) else s k, [])

  unfoldable pub spec_run :
      Statuses Key BlockId
      → List (ℕ × Event Key Item BlockId)
      → Statuses Key BlockId × List (Answer BlockId)
  spec_run s [] = (s, [])
  spec_run s ((now, event) ∷ events) =
      let (after, first) = spec_step event s in
      let (final, later) = spec_run after events in (final, first ++ later)
