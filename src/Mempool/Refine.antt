-- ===== src/Mempool/Refine.antt =====
-- nomos-services/mempool/src: the services' pool implements the statuses.
use nomos_node.Prelude.{
  ℕ, ◌≡◌, refl, sym, ap, ap₂, subst, ◌∙◌, inl, List, [], ◌∷◌, ◌++◌, map, if◌then◌else◌, Eq, nat_eq,
  Outcome, ok, err, panic, timeout,
}
use nomos_node.Prelude.Map.{get, contains_key}
use nomos_node.Mempool.Pool.{unknown, MempoolError, MockPool, new, add_item, status_of, status}
use nomos_node.Mempool.Service
use nomos_node.Mempool.Service.{
  MempoolMsg, add, view_items, prune_items, mark, metrics, query, Event, relay_msg, network_item,
  da_network_item, Effect, answer_add_item, handle_add, handle_mempool_message, handle_network_item,
  handle_da_network_item, handle, run,
}
use nomos_node.Mempool.Statuses.{
  answer_add, answer_status, answers, Statuses, admit, admission, spec_message, spec_step, spec_run,
}
use nomos_node.Mempool.Keys.{Implements, add_item-Implements, prune-Implements, mark-Implements}

answers-append :
    {Key Item BlockId : Type 0} (xs ys : List (Effect Key Item BlockId))
    → answers (xs ++ ys) ≡ answers xs ++ answers ys
answers-append [] ys = refl
answers-append (Service.added r ∷ xs) ys = ap (◌∷◌ (answer_add r)) (answers-append xs ys)
answers-append (Service.queried r ∷ xs) ys = ap (◌∷◌ (answer_status r)) (answers-append xs ys)
answers-append (Service.saved r ∷ xs) ys = answers-append xs ys
answers-append (Service.broadcast r ∷ xs) ys = answers-append xs ys
answers-append (Service.trigger_sampling r ∷ xs) ys = answers-append xs ys
answers-append (Service.viewed r ∷ xs) ys = answers-append xs ys
answers-append (Service.measured r ∷ xs) ys = answers-append xs ys

answer_add_item_lem :
    {Key Item BlockId : Type 0} (result : Outcome MempoolError (Unit {0}))
    (after : MockPool Key Item BlockId) (item : Item)
    → ((answer_add_item result after item).0 ≡ after)
      × (answers (answer_add_item result after item).1 ≡ answer_add result ∷ [])
answer_add_item_lem (ok tt) after item = (refl, refl)
answer_add_item_lem (err e) after item = (refl, refl)
answer_add_item_lem panic after item = (refl, refl)
answer_add_item_lem timeout after item = (refl, refl)

map-ext {ℓ} :
    {A B : Type ℓ} (f g : A → B) → ((a : A) → f a ≡ g a) → (xs : List A) → map f xs ≡ map g xs
map-ext f g h [] = refl
map-ext f g h (x ∷ xs) = ap₂ (λ a rest. a ∷ rest) (h x) (map-ext f g h xs)

module _ {Key Item BlockId : Type 0} ⦃ek : Eq Key⦄ ⦃eb : Eq BlockId⦄ where
  handle_add-Implements :
      (now : ℕ) (pool : MockPool Key Item BlockId) (key : Key) (item : Item)
      (s : Statuses Key BlockId)
      → Implements pool s
      → Implements (handle_add now pool item key).0 (λ k. if ek.beq key k then admit (s k) else s k)
        × (answers (handle_add now pool item key).1 ≡ answer_add (admission (s key)) ∷ [])
  unfolding handle_add
  handle_add-Implements now pool key item s h =
      let (result, kept) = add_item-Implements now pool key item s h in
      let (pool_is, answered) =
        answer_add_item_lem (add_item now pool key item).0 (add_item now pool key item).1 item in
      (
        subst (λ p. Implements p (λ k. if ek.beq key k then admit (s k) else s k)) (sym pool_is)
            kept,
        answered ∙ ap (λ r. answer_add r ∷ []) result,
      )

  message-Implements :
      (now : ℕ) (pool : MockPool Key Item BlockId) (message : MempoolMsg Key Item BlockId)
      (s : Statuses Key BlockId)
      → Implements pool s
      → Implements (handle_mempool_message now pool message).0 (spec_message message s).0
        × (answers (handle_mempool_message now pool message).1 ≡ (spec_message message s).1)
  unfolding handle_mempool_message spec_message status
  message-Implements now pool (add item key) s h = handle_add-Implements now pool key item s h
  message-Implements now pool (view_items _) s h = (h, refl)
  message-Implements now pool (prune_items keys) s h = (prune-Implements pool keys s h, refl)
  message-Implements now pool (mark keys block) s h = (mark-Implements pool keys block s h, refl)
  message-Implements now pool metrics s h = (h, refl)
  message-Implements now pool (query keys) s h =
      (h, ap (λ l. answer_status l ∷ []) (map-ext (status_of pool) s (λ k. (h k).0) keys))

  handle-Implements :
      (now : ℕ) (pool : MockPool Key Item BlockId) (event : Event Key Item BlockId)
      (s : Statuses Key BlockId)
      → Implements pool s
      → Implements (handle now pool event).0 (spec_step event s).0
        × (answers (handle now pool event).1 ≡ (spec_step event s).1)
  unfolding handle spec_step handle_network_item handle_da_network_item
  handle-Implements now pool (relay_msg message) s h = message-Implements now pool message s h
  handle-Implements now pool (network_item key item) s h =
      ((add_item-Implements now pool key item s h).1, refl)
  handle-Implements now pool (da_network_item key item) s h =
      ((add_item-Implements now pool key item s h).1, refl)

  run-Implements :
      (events : List (ℕ × Event Key Item BlockId)) (pool : MockPool Key Item BlockId)
      (s : Statuses Key BlockId)
      → Implements pool s
      → Implements (run pool events).0 (spec_run s events).0
        × (answers (run pool events).1 ≡ (spec_run s events).1)
  unfolding run spec_run
  run-Implements [] pool s h = (h, refl)
  run-Implements ((now, event) ∷ events) pool s h =
      let (kept, same) = handle-Implements now pool event s h in
      let (rest, later) =
        run-Implements events (handle now pool event).0 (spec_step event s).0 kept in
      (
        rest,
        answers-append (handle now pool event).1 (run (handle now pool event).0 events).1
            ∙ ap₂ (λ a b. a ++ b) same later,
      )

  -- A service that starts with an empty pool implements the statuses, all keys unknown, on any
  -- sequence of events: at the end each key has the status that the specification gives, no pending
  -- key is in a block, and the additions and the questions for statuses got the specification's answers.
  pub run-Refines :
      (events : List (ℕ × Event Key Item BlockId))
      → Implements (run new events).0 (spec_run (λ _. unknown) events).0
        × (answers (run new events).1 ≡ (spec_run (λ _. unknown) events).1)
  unfolding new status_of contains_key get
  run-Refines events = run-Implements events new (λ _. unknown) (λ k. (refl, inl refl))
