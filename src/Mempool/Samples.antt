-- ===== src/Mempool/Samples.antt =====
-- A pool that takes in two items, has one of them marked and the other pruned.
use nomos_node.Prelude.{ℕ, ◌≡◌, List, [], ◌∷◌, nat_eq}
use nomos_node.Mempool.Pool.{unknown, new}
use nomos_node.Mempool.Service.{Event, relay_msg, network_item, add, mark, prune_items, query, run}
use nomos_node.Mempool.Statuses.{answers, spec_run}
use nomos_node.Mempool.Keys.{Implements}
use nomos_node.Mempool.Refine.{run-Refines}

abbrev events : List (ℕ × Event ℕ ℕ ℕ)
events =
    (1, relay_msg (add 70 7))
    ∷ (2, network_item 8 80)
    ∷ (3, relay_msg (add 71 7))
    ∷ (4, relay_msg (mark (7 ∷ []) 100))
    ∷ (5, relay_msg (prune_items (8 ∷ [])))
    ∷ (6, relay_msg (query (7 ∷ 8 ∷ [])))
    ∷ []

run-Refines_example :
    Implements (run new events).0 (spec_run (λ _. unknown) events).0
    × (answers (run new events).1 ≡ (spec_run (λ _. unknown) events).1)
run-Refines_example = run-Refines events
