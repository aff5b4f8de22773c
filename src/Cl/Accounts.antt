-- ===== src/Cl/Accounts.antt =====
-- nomos-core/cl/src/balance.rs: a vector of unit balances as an account of what came in and went out.
use nomos_node.Prelude.{
  ℕ, zero, suc, ◌+◌, ◌≤◌, ◌<◌, ◌≡◌, sym, ap, subst, ◌∙◌, inl, inr, true, false, ◌&&◌, some, List,
  [], ◌∷◌, arith, ◌==◌, if◌then◌else◌, le→leb, Bool-cases, Option-cases, nat_eq, length, u64_size,
  add64-exact, ok,
}
use nomos_node.Prelude.Arrays.{
  get_elem?, swap_remove, sum_of, le_of_get_elem?, lt_of_get_elem?, sum_of-swap_remove,
  length-swap_remove, get_elem?-swap_remove,
}
use nomos_node.Cl.Balance.{
  UnitBalance, unit_is_zero, insert_positive, insert_negative, clear_loop, clear_zeros,
}

-- The entries of a unit: their positive and negative parts, and their number.
abbrev pub only : ℕ → (UnitBalance → ℕ) → UnitBalance → ℕ
only u f b = if b.unit == u then f b else 0

abbrev pub pos_of : ℕ → List UnitBalance → ℕ
pos_of u = sum_of (only u (λ b. b.pos))

abbrev pub neg_of : ℕ → List UnitBalance → ℕ
neg_of u = sum_of (only u (λ b. b.neg))

abbrev pub count : ℕ → List UnitBalance → ℕ
count u = sum_of (only u (λ b. 1))

abbrev pub at_unit : ℕ → ℕ → ℕ → ℕ
at_unit u v w = if u == w then v else 0

pub pos_of-insert_positive :
    (u v w : ℕ) (bs : List UnitBalance)
    → pos_of u bs + v < u64_size
    → pos_of w (insert_positive u v bs) ≡ pos_of w bs + at_unit u v w
unfolding insert_positive
pos_of-insert_positive u v w [] h = ground arith
pos_of-insert_positive u v w (b ∷ bs) h =
    ground (arith, add64-exact b.pos v, pos_of-insert_positive u v w bs)

pub neg_of-insert_positive :
    (u v w : ℕ) (bs : List UnitBalance) → neg_of w (insert_positive u v bs) ≡ neg_of w bs
unfolding insert_positive
neg_of-insert_positive u v w [] = ground arith
neg_of-insert_positive u v w (b ∷ bs) = ground (arith, neg_of-insert_positive u v w bs)

pub neg_of-insert_negative :
    (u v w : ℕ) (bs : List UnitBalance)
    → neg_of u bs + v < u64_size
    → neg_of w (insert_negative u v bs) ≡ neg_of w bs + at_unit u v w
unfolding insert_negative
neg_of-insert_negative u v w [] h = ground arith
neg_of-insert_negative u v w (b ∷ bs) h =
    ground (arith, add64-exact b.neg v, neg_of-insert_negative u v w bs)

pub pos_of-insert_negative :
    (u v w : ℕ) (bs : List UnitBalance) → pos_of w (insert_negative u v bs) ≡ pos_of w bs
unfolding insert_negative
pos_of-insert_negative u v w [] = ground arith
pos_of-insert_negative u v w (b ∷ bs) = ground (arith, pos_of-insert_negative u v w bs)

abbrev more : ℕ → ℕ → List UnitBalance → ℕ
more u w bs = if (u == w) && (count u bs == 0) then 1 else count w bs

pub count-insert_positive :
    (u v w : ℕ) (bs : List UnitBalance) → count w (insert_positive u v bs) ≡ more u w bs
unfolding insert_positive
count-insert_positive u v w [] = ground arith
count-insert_positive u v w (b ∷ bs) = ground (arith, count-insert_positive u v w bs)

pub count-insert_negative :
    (u v w : ℕ) (bs : List UnitBalance) → count w (insert_negative u v bs) ≡ more u w bs
unfolding insert_negative
count-insert_negative u v w [] = ground arith
count-insert_negative u v w (b ∷ bs) = ground (arith, count-insert_negative u v w bs)

-- The entries before place `i` are not zero.
abbrev pub NonzeroBelow : ℕ → List UnitBalance → Type 0
NonzeroBelow i bs =
    (j : ℕ) (b : UnitBalance) → j < i → get_elem? bs j ≡ some b → unit_is_zero b ≡ false

-- `cs` is `bs` without its entries that are zero: of each unit the same went from both sides.
pub record Cleared (bs cs : List UnitBalance) : Type 0 where
  pub gone : ℕ → ℕ
  pub pos_eq : (u : ℕ) → pos_of u cs + gone u ≡ pos_of u bs
  pub neg_eq : (u : ℕ) → neg_of u cs + gone u ≡ neg_of u bs
  pub fewer : (u : ℕ) → count u cs ≤ count u bs
  pub nonzero : NonzeroBelow (length cs) cs

all-Cleared : (i : ℕ) (bs : List UnitBalance) → length bs ≤ i → NonzeroBelow i bs → Cleared bs bs
all-Cleared i bs le h = record {
  gone = λ u. 0;
  pos_eq = λ u. omega arith;
  neg_eq = λ u. omega arith;
  fewer = λ u. omega arith;
  nonzero = λ j b lt e. h j b (omega arith) e;
}

module _ (bs : List UnitBalance) (i : ℕ) (b : UnitBalance) (at : get_elem? bs i ≡ some b) where
  kept_below : unit_is_zero b ≡ false → NonzeroBelow i bs → NonzeroBelow (i + 1) bs
  kept_below nz h j c lt e = elim (Bool-cases (j == i)) [
    | inl same ↦
        let q : j ≡ i = ground arith in
        let r : b ≡ c = ground (arith, sym at ∙ (ap (get_elem? bs) (sym q) ∙ e)) in
        subst (λ x. unit_is_zero x ≡ false) r nz
    | inr before ↦ h j c (ground arith) e
  ]

  removed_below : NonzeroBelow i bs → NonzeroBelow i (swap_remove bs i)
  removed_below h j c lt e =
      h j c lt (sym (get_elem?-swap_remove bs i j lt (lt_of_get_elem? bs i b at)) ∙ e)

  removed-Cleared :
      {cs : List UnitBalance}
      → unit_is_zero b ≡ true
      → Cleared (swap_remove bs i) cs
      → Cleared bs cs
  removed-Cleared {cs} z c = record {
    gone = λ u. c.gone u + only u (λ x. x.pos) b;
    pos_eq = λ u. omega (arith, c.pos_eq u, sum_of-swap_remove (only u (λ x. x.pos)) bs i b at);
    neg_eq = λ u.
        let same : only u (λ x. x.pos) b ≡ only u (λ x. x.neg) b = ground arith in
        omega (arith, c.neg_eq u, same, sum_of-swap_remove (only u (λ x. x.neg)) bs i b at);
    fewer = λ u. omega (arith, c.fewer u, sum_of-swap_remove (only u (λ x. 1)) bs i b at);
    nonzero = c.nonzero;
  }

pub clear_loop-Cleared {ℓ} :
    {E : Type ℓ} (fuel i : ℕ) (bs : List UnitBalance)
    → i ≤ length bs
    → length bs ≤ i + fuel
    → NonzeroBelow i bs
    → (cs : List UnitBalance) × (clear_loop {E = E} fuel i bs ≡ ok cs) × Cleared bs cs
unfolding clear_loop
clear_loop-Cleared zero i bs lo hi h =
    (bs, rw (le→leb (length bs) i (omega arith)), all-Cleared i bs (omega arith) h)
clear_loop-Cleared {E} (suc fuel) i bs lo hi h = elim (Option-cases (get_elem? bs i)) [
  | inl over ↦ (bs, rw (over, clear_loop), all-Cleared i bs (le_of_get_elem? bs i over) h)
  | inr (b, at) ↦
      let lt = lt_of_get_elem? bs i b at in
      elim (Bool-cases (unit_is_zero b)) [
        | inl zeros ↦
            let len = length-swap_remove bs i (omega arith) in
            let (cs, run, c) =
              clear_loop-Cleared {E = E} fuel i (swap_remove bs i) (omega arith) (omega arith)
                (removed_below bs i b at h) in
            (cs, rw (at, clear_loop) (rw zeros run), removed-Cleared bs i b at zeros c)
        | inr nz ↦
            let (cs, run, c) =
              clear_loop-Cleared {E = E} fuel (i + 1) bs (omega arith) (omega arith)
                (kept_below bs i b at nz h) in
            (cs, rw (at, clear_loop) (rw nz run), c)
      ]
]

pub clear_zeros-Cleared {ℓ} :
    {E : Type ℓ} (bs : List UnitBalance)
    → (cs : List UnitBalance) × (clear_zeros {E = E} bs ≡ ok cs) × Cleared bs cs
unfolding clear_zeros
clear_zeros-Cleared bs =
    clear_loop-Cleared (length bs) 0 bs (omega arith) (omega arith)
      (λ j b lt e. absurd (omega arith))
