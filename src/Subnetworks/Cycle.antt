-- ===== src/Subnetworks/Cycle.antt =====
-- nomos-da/network/subnetworks-assignations/src/versions/v1.rs and v2.rs: what the cycle over the peers collects.
use nomos_node.Prelude.{
  ℕ, zero, suc, ◌+◌, ◌-◌, ◌*◌, ◌/◌, ◌%◌, ◌≤◌, ◌<◌, ◌≡◌, refl, sym, ap, subst, ◌∙◌, ◌≢◌, ◌↔◌, ◌⊎◌,
  inl, inr, true, false, some, List, [], ◌∷◌, arith, ◌==◌, lt_or_le, ==_iff, Bool-cases, nat_eq,
  length, mul_mono, ok,
}
use Prim.Native.Nat.{min}
use native.Mathlib.Nat.{mod-lt, mod-add-div', add-mod_right}
use nomos_node.Prelude.Map.{contains, add, contains-add}
use nomos_node.Prelude.Arrays.{get_elem?, get_elem?-lt}
use nomos_node.Subnetworks.Assign.{next, collect}

mod_apart : (a d n : ℕ) → 0 < d → d < n → a % n ≢ (a + d) % n
mod_apart a d n pos small e = elim (lt_or_le (a / n) ((a + d) / n)) [
  | inl up ↦
      let m = mul_mono (a / n + 1) ((a + d) / n) n n (omega arith) (omega arith) in
      let l : (a / n + 1) * n ≡ a / n * n + n = grind arith in
      omega (arith, mod-add-div' a n, mod-add-div' (a + d) n)
  | inr down ↦
      let m = mul_mono ((a + d) / n) (a / n) n n down (omega arith) in
      omega (arith, mod-add-div' a n, mod-add-div' (a + d) n)
]

-- No peer twice.
abbrev pub Distinct : List ℕ → Type 0
Distinct [] = Unit
Distinct (x ∷ xs) = (contains x xs ≡ false) × Distinct xs

pub contains-get_elem? : (xs : List ℕ) (i x : ℕ) → get_elem? xs i ≡ some x → contains x xs ≡ true
unfolding contains
contains-get_elem? [] i x h = absurd cc
contains-get_elem? (y ∷ xs) zero x h = ground (arith, ==_iff y x)
contains-get_elem? (y ∷ xs) (suc i) x h = ground (arith, contains-get_elem? xs i x h)

pub get_elem?-contains :
    (xs : List ℕ) (x : ℕ) → contains x xs ≡ true → (i : ℕ) × (get_elem? xs i ≡ some x)
unfolding contains
get_elem?-contains [] x h = absurd cc
get_elem?-contains (y ∷ xs) x h = elim (Bool-cases (y == x)) [
  | inl here ↦ (0, ap some ((==_iff y x).0 here))
  | inr other ↦ let (i, at) = get_elem?-contains xs x (ground arith) in (suc i, at)
]

Distinct-index :
    (xs : List ℕ) (i j x : ℕ)
    → Distinct xs
    → get_elem? xs i ≡ some x
    → get_elem? xs j ≡ some x
    → i ≡ j
Distinct-index [] i j x d h k = absurd cc
Distinct-index (y ∷ xs) zero zero x d h k = refl
Distinct-index (y ∷ xs) zero (suc j) x d h k =
    absurd (let l = contains-get_elem? xs j x k in let e : y ≡ x = ground arith in ground arith)
Distinct-index (y ∷ xs) (suc i) zero x d h k =
    absurd (let l = contains-get_elem? xs i x h in let e : y ≡ x = ground arith in ground arith)
Distinct-index (y ∷ xs) (suc i) (suc j) x d h k = ap suc (Distinct-index xs i j x d.1 h k)

-- A peer is among the elements that the cycle gives from a position on, so many of them.
abbrev pub Given : List ℕ → ℕ → ℕ → ℕ → Type 0
Given peers given factor p =
    (r : ℕ) × (r < factor) × (get_elem? peers ((given + r) % length peers) ≡ some p)

Given-suc :
    (peers : List ℕ) (given factor p q : ℕ)
    → get_elem? peers (given % length peers) ≡ some q
    → (Given peers given (suc factor) p) ↔ ((q ≡ p) ⊎ Given peers (given + 1) factor p)
Given-suc peers given factor p q at = (
  λ (r, lt, h). elim (lt_or_le 1 (r + 1)) [
    | inl later ↦ inr (
      r - 1,
      omega arith,
      subst (λ g. get_elem? peers (g % length peers) ≡ some p)
          (let z : given + r ≡ given + 1 + (r - 1) = omega arith in z) h,
    )
    | inr first ↦ inl (
        let z : given + r ≡ given = omega arith in
        let here = subst (λ g. get_elem? peers (g % length peers) ≡ some p) z h in ground arith)
  ],
  λ i. elim i [
    | inl same ↦ (
      0,
      omega arith,
      subst (λ g. get_elem? peers (g % length peers) ≡ some p)
          (let z : given ≡ given + 0 = omega arith in z) (at ∙ ap some same),
    )
    | inr (r, lt, h) ↦ (
      r + 1,
      omega arith,
      subst (λ g. get_elem? peers (g % length peers) ≡ some p)
          (let z : given + 1 + r ≡ given + (r + 1) = omega arith in z) h,
    )
  ],
)

next_lem {ℓ} :
    {E : Type ℓ} (peers : List ℕ) (given : ℕ)
    → 0 < length peers
    → (q : ℕ) × (get_elem? peers (given % length peers) ≡ some q)
      × (next {E = E} peers given ≡ ok q)
unfolding next
next_lem peers given some_peer =
    let (q, at) = get_elem?-lt peers (given % length peers) (mod-lt given some_peer) in
    (q, at, rw at refl)

-- A peer comes again when all the others have come, and not before.
Given-again :
    (peers : List ℕ) (given factor q : ℕ)
    → 0 < length peers
    → Distinct peers
    → get_elem? peers (given % length peers) ≡ some q
    → (Given peers (given + 1) factor q) ↔ (length peers ≤ factor)
Given-again peers given factor q some_peer d at = (
  λ (r, lt, h). elim (lt_or_le factor (length peers)) [
    | inl small ↦ absurd (
        mod_apart given (1 + r) (length peers) (omega arith) (omega arith) (
          Distinct-index peers _ _ q d at (
            subst (λ g. get_elem? peers (g % length peers) ≡ some q)
              (let z : given + 1 + r ≡ given + (1 + r) = omega arith in z) h)))
    | inr le ↦ le
  ],
  λ le. (
    length peers - 1,
    omega arith,
    subst (λ g. get_elem? peers g ≡ some q)
        (sym (add-mod_right given (length peers))
          ∙ ap (λ g. g % length peers)
              (let z : given + length peers ≡ given + 1 + (length peers - 1) = omega arith in z))
        at,
  ),
)

-- The set that a subnetwork gets: just the peers given, and as many as the factor where there are so
-- many.
pub collect_lem {ℓ} :
    {E : Type ℓ} (peers : List ℕ) (given factor : ℕ)
    → 0 < length peers
    → (s : List ℕ) × (collect {E = E} peers given factor ≡ ok s)
      × ((p : ℕ) → (contains p s ≡ true) ↔ Given peers given factor p)
      × (Distinct peers → length s ≡ min factor (length peers))
unfolding collect add contains
collect_lem peers given zero some_peer =
    ([], refl, λ p. (λ h. absurd cc, λ (r, lt, h). absurd (omega arith)), λ d. omega arith)
collect_lem {E} peers given (suc factor) some_peer =
    let (q, at, run) = next_lem {E = E} peers given some_peer in
    let (s, rest, members, size) = collect_lem {E = E} peers (given + 1) factor some_peer in
    (
      add q s,
      rw (run, rest) refl,
      λ p.
          let steps = Given-suc peers given factor p q at in
          (
            λ h. steps.1 (elim (Bool-cases (q == p)) [
              | inl same ↦ inl ((==_iff q p).0 same)
              | inr other ↦ inr ((members p).0 (ground (arith, contains-add q p s)))
            ]),
            λ g. elim (steps.0 g) [
              | inl same ↦ ground (arith, contains-add q p s, ==_iff q p)
              | inr later ↦ let old = (members p).1 later in ground (arith, contains-add q p s)
            ],
          ),
      λ d.
          let again = Given-again peers given factor q some_peer d at in
          elim (Bool-cases (contains q s)) [
            | inl old ↦
                let full = again.0 ((members q).0 old) in rw (old, add) (omega (arith, size d))
            | inr new ↦
                rw (new, add)
                  (elim (lt_or_le factor (length peers)) [
                    | inl short ↦ omega (arith, size d)
                    | inr full ↦ absurd (let here = (members q).1 (again.1 full) in cc)
                  ])
          ],
    )
