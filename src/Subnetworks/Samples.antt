-- ===== src/Subnetworks/Samples.antt =====
-- Three peers in two subnetworks.
use nomos_node.Prelude.{ℕ, ◌≡◌, refl, List, [], ◌∷◌, arith, nat_eq, length, ok}
use nomos_node.Prelude.Map.{contains}
use nomos_node.Subnetworks.Assign.{fill}
use nomos_node.Subnetworks.Handler.{allowed_in}
use nomos_node.Subnetworks.Cycle.{Distinct}
use nomos_node.Subnetworks.Cover.{Sized, fill-Covers}

abbrev peers : List ℕ
peers = 9 ∷ 4 ∷ 6 ∷ []

distinct : Distinct peers
unfolding contains
distinct = (refl, (refl, (refl, tt)))

fill-Covers_example :
    (a : List (List ℕ)) × (fill {E = ℕ} peers 2 2 ≡ ok a)
    × (length a ≡ 2)
    × Sized (λ _. 2) 3 0 a
    × ((p : ℕ) → allowed_in a p ≡ contains p peers)
fill-Covers_example = fill-Covers peers 2 2 (omega arith) distinct (omega arith)
