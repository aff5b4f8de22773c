-- ===== src/Subnetworks/Cover.antt =====
-- nomos-da/network/subnetworks-assignations/src/versions/v1.rs and v2.rs: how many members a subnetwork has, and that
-- the subnetworks have all peers.
use nomos_node.Prelude.{
  ℕ, zero, suc, ◌+◌, ◌-◌, ◌*◌, ◌%◌, ◌≤◌, ◌<◌, ◌≡◌, refl, sym, ap, subst, ◌∙◌, ◌↔◌, ◌⊎◌, inl, inr,
  Bool, true, not, some, List, [], ◌∷◌, arith, ltb, if◌then◌else◌, lt_or_le, Bool-cases, nat_eq,
  length, ok,
}
use Prim.Native.Nat.{min}
use native.Mathlib.Nat.{mod-eq_of_lt}
use nomos_node.Prelude.Map.{contains}
use nomos_node.Prelude.Arrays.{get_elem?, lt_of_get_elem?}
use nomos_node.Subnetworks.Assign.{is_empty, sort, subnetworks, fill, fill_replicated}
use nomos_node.Subnetworks.Handler.{allowed_in}
use nomos_node.Subnetworks.Cycle.{
  Distinct, contains-get_elem?, get_elem?-contains, Given, collect_lem,
}
use nomos_node.Subnetworks.Sorted.{length-sort, contains-sort, Distinct-sort}

-- The members that the subnetworks from one on ask for.
unfoldable pub total : (ℕ → ℕ) → ℕ → ℕ → ℕ
total factor subnetwork zero = 0
total factor subnetwork (suc left) = factor subnetwork + total factor (subnetwork + 1) left

-- Each subnetwork, from one on, has as many members as its factor where there are so many peers.
abbrev pub Sized : (ℕ → ℕ) → ℕ → ℕ → List (List ℕ) → Type 0
Sized factor peers subnetwork [] = Unit
Sized factor peers subnetwork (s ∷ rest) =
    (length s ≡ min (factor subnetwork) peers) × Sized factor peers (subnetwork + 1) rest

Given-append :
    (peers : List ℕ) (given m k p : ℕ)
    → (Given peers given (m + k) p) ↔ (Given peers given m p ⊎ Given peers (given + m) k p)
Given-append peers given m k p = (
  λ (r, lt, h). elim (lt_or_le r m) [
    | inl early ↦ inl (r, early, h)
    | inr late ↦ inr (
      r - m,
      omega arith,
      subst (λ g. get_elem? peers (g % length peers) ≡ some p)
          (let z : given + r ≡ given + m + (r - m) = omega arith in z) h,
    )
  ],
  λ i. elim i [
    | inl (r, lt, h) ↦ (r, omega arith, h)
    | inr (r, lt, h) ↦ (
      m + r,
      omega arith,
      subst (λ g. get_elem? peers (g % length peers) ≡ some p)
          (let z : given + m + r ≡ given + (m + r) = omega arith in z) h,
    )
  ],
)

subnetworks_lem {ℓ} :
    {E : Type ℓ} (peers : List ℕ) (factor : ℕ → ℕ) (subnetwork given left : ℕ)
    → 0 < length peers
    → Distinct peers
    → (a : List (List ℕ)) × (subnetworks {E = E} peers factor subnetwork given left ≡ ok a)
      × (length a ≡ left)
      × Sized factor (length peers) subnetwork a
      × ((p : ℕ) → (allowed_in a p ≡ true) ↔ Given peers given (total factor subnetwork left) p)
unfolding subnetworks allowed_in total
subnetworks_lem peers factor subnetwork given zero some_peer d =
    ([], refl, refl, tt, λ p. (λ h. absurd cc, λ (r, lt, h). absurd (omega arith)))
subnetworks_lem {E} peers factor subnetwork given (suc left) some_peer d =
    let (s, run, members, size) = collect_lem {E = E} peers given (factor subnetwork) some_peer in
    let (a, rest, many, sized, allowed) =
      subnetworks_lem {E = E} peers factor (subnetwork + 1) (given + factor subnetwork) left
        some_peer d in
    (
      s ∷ a,
      rw (run, rest) refl,
      ap suc many,
      (size d, sized),
      λ p.
          let parts =
            Given-append peers given (factor subnetwork) (total factor (subnetwork + 1) left) p in
          (
            λ h. parts.1 (elim (Bool-cases (contains p s)) [
              | inl here ↦ inl ((members p).0 here)
              | inr other ↦ inr ((allowed p).0 (ground arith))
            ]),
            λ g. elim (parts.0 g) [
              | inl here ↦ let l = (members p).1 here in ground arith
              | inr later ↦ let l = (allowed p).1 later in ground arith
            ],
          ),
    )

-- So many elements of the cycle are all of the peers.
Given-all :
    (peers : List ℕ) (factor p : ℕ)
    → length peers ≤ factor
    → (Given peers 0 factor p) ↔ (contains p peers ≡ true)
Given-all peers factor p enough = (
  λ (r, lt, h). contains-get_elem? peers _ p h,
  λ h.
      let (i, at) = get_elem?-contains peers p h in
      let lt = lt_of_get_elem? peers i p at in
      (
        i,
        omega arith,
        subst (λ g. get_elem? peers g ≡ some p)
            (sym (mod-eq_of_lt lt)
              ∙ ap (λ g. g % length peers) (let z : i ≡ 0 + i = omega arith in z))
            at,
      ),
)

Bool-iff : (a b : Bool) → (a ≡ true) ↔ (b ≡ true) → a ≡ b
Bool-iff a b h = ground arith

total-constant : (factor subnetwork left : ℕ) → total (λ _. factor) subnetwork left ≡ left * factor
unfolding total
total-constant factor subnetwork zero = omega arith
total-constant factor subnetwork (suc left) =
    let l = total-constant factor (subnetwork + 1) left in grind arith

nonempty : (peers : List ℕ) → 0 < length peers → not (is_empty peers) ≡ true
nonempty [] h = absurd (omega arith)
nonempty (x ∷ peers) h = refl

-- Either version, by its factors.
assigned {ℓ} :
    {E : Type ℓ} (peers : List ℕ) (factor : ℕ → ℕ) (subnetwork_size : ℕ)
    → 0 < length peers
    → Distinct peers
    → length peers ≤ total factor 0 subnetwork_size
    → (a : List (List ℕ)) × (subnetworks {E = E} (sort peers) factor 0 0 subnetwork_size ≡ ok a)
      × (length a ≡ subnetwork_size)
      × Sized factor (length peers) 0 a
      × ((p : ℕ) → allowed_in a p ≡ contains p peers)
assigned {E} peers factor subnetwork_size some_peer d enough =
    let many = length-sort peers in
    let (a, run, all, sized, allowed) =
      subnetworks_lem {E = E} (sort peers) factor 0 0 subnetwork_size (omega (arith, many))
        (Distinct-sort peers d) in
    (
      a,
      run,
      all,
      subst (λ n. Sized factor n 0 a) many sized,
      λ p.
          let given =
            Given-all (sort peers) (total factor 0 subnetwork_size) p (omega (arith, many)) in
          Bool-iff (allowed_in a p) (contains p peers) (
            λ h. sym (contains-sort p peers) ∙ given.0 ((allowed p).0 h),
            λ h. (allowed p).1 (given.1 (contains-sort p peers ∙ h)),
          ),
    )

-- With distinct peers, at least one of them, and at most as many as the members that all subnetworks
-- together ask for, the first version assigns without a panic: there is each subnetwork, each has as
-- many distinct members as its factor where there are so many peers, and just the peers are allowed.
pub fill-Covers {ℓ} :
    {E : Type ℓ} (peers : List ℕ) (subnetwork_size replication_factor : ℕ)
    → 0 < length peers
    → Distinct peers
    → length peers ≤ subnetwork_size * replication_factor
    → (a : List (List ℕ)) × (fill {E = E} peers subnetwork_size replication_factor ≡ ok a)
      × (length a ≡ subnetwork_size)
      × Sized (λ _. replication_factor) (length peers) 0 a
      × ((p : ℕ) → allowed_in a p ≡ contains p peers)
unfolding fill
fill-Covers {E} peers subnetwork_size replication_factor some_peer d enough =
    let (a, run, all, sized, allowed) =
      assigned {E = E} peers (λ _. replication_factor) subnetwork_size some_peer d
        (omega (arith, total-constant replication_factor 0 subnetwork_size)) in
    (a, rw (nonempty peers some_peer) run, all, sized, allowed)

-- So does the second version, where the subnetworks below the pivot have the original replication as
-- their factor and the others the dispersal factor.
fill_replicated-Covers {ℓ} :
    {E : Type ℓ} (peers : List ℕ) (subnetwork_size dispersal_factor original_replication pivot : ℕ)
    → 0 < length peers
    → Distinct peers
    → length peers
      ≤ total
          (λ subnetwork. if ltb subnetwork pivot then original_replication else dispersal_factor)
          0
          subnetwork_size
    → (a : List (List ℕ)) × (fill_replicated {E = E} peers subnetwork_size dispersal_factor
          original_replication pivot
        ≡ ok a)
      × (length a ≡ subnetwork_size)
      × Sized
          (λ subnetwork. if ltb subnetwork pivot then original_replication else dispersal_factor)
          (length peers)
          0
          a
      × ((p : ℕ) → allowed_in a p ≡ contains p peers)
unfolding fill_replicated
fill_replicated-Covers {E} peers subnetwork_size dispersal_factor original_replication pivot
      some_peer d enough =
    let (a, run, all, sized, allowed) =
      assigned {E = E} peers
        (λ subnetwork. if ltb subnetwork pivot then original_replication else dispersal_factor)
        subnetwork_size some_peer d enough in
    (a, rw (nonempty peers some_peer) run, all, sized, allowed)
