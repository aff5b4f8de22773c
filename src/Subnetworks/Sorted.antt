-- ===== src/Subnetworks/Sorted.antt =====
-- nomos-da/network/subnetworks-assignations/src/versions/v1.rs: sorting keeps the peers.
use nomos_node.Prelude.{
  ℕ, suc, ◌≡◌, refl, ap, ◌∙◌, inl, inr, false, ◌||◌, List, [], ◌∷◌, arith, leb, ◌==◌, ==_iff,
  Bool-cases, nat_eq, length,
}
use nomos_node.Prelude.Map.{contains}
use nomos_node.Subnetworks.Assign.{insert_sorted, sort}
use nomos_node.Subnetworks.Cycle.{Distinct}

length-insert_sorted : (x : ℕ) (ys : List ℕ) → length (insert_sorted x ys) ≡ suc (length ys)
unfolding insert_sorted
length-insert_sorted x [] = refl
length-insert_sorted x (y ∷ ys) = ground (arith, length-insert_sorted x ys)

contains-insert_sorted :
    (p x : ℕ) (ys : List ℕ) → contains p (insert_sorted x ys) ≡ ((x == p) || contains p ys)
unfolding insert_sorted contains
contains-insert_sorted p x [] = refl
contains-insert_sorted p x (y ∷ ys) = ground (arith, contains-insert_sorted p x ys)

Distinct-insert_sorted :
    (x : ℕ) (ys : List ℕ) → contains x ys ≡ false → Distinct ys → Distinct (insert_sorted x ys)
unfolding insert_sorted contains
Distinct-insert_sorted x [] new d = (refl, tt)
Distinct-insert_sorted x (y ∷ ys) new d = elim (Bool-cases (leb x y)) [
  | inl first ↦ rw (first, insert_sorted) (new, d)
  | inr later ↦
      rw (later, insert_sorted)
        (
          ground (arith, contains-insert_sorted y x ys, ==_iff x y, ==_iff y x, d),
          Distinct-insert_sorted x ys (ground arith) d.1,
        )
]

pub length-sort : (xs : List ℕ) → length (sort xs) ≡ length xs
unfolding sort
length-sort [] = refl
length-sort (x ∷ xs) = length-insert_sorted x (sort xs) ∙ ap suc (length-sort xs)

pub contains-sort : (p : ℕ) (xs : List ℕ) → contains p (sort xs) ≡ contains p xs
unfolding sort contains
contains-sort p [] = refl
contains-sort p (x ∷ xs) =
    contains-insert_sorted p x (sort xs) ∙ ap (λ b. (x == p) || b) (contains-sort p xs)

pub Distinct-sort : (xs : List ℕ) → Distinct xs → Distinct (sort xs)
unfolding sort
Distinct-sort [] d = tt
Distinct-sort (x ∷ xs) d =
    Distinct-insert_sorted x (sort xs) (contains-sort x xs ∙ d.0) (Distinct-sort xs d.1)
