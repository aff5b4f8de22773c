-- ===== src/Cl/Bundles.antt =====
-- nomos-core/cl/src/bundle.rs: a bundle balances exactly when its partial transactions together do.
use nomos_node.Prelude.{
  ℕ, ◌+◌, ◌-◌, ◌≤◌, ◌<◌, ◌≡◌, refl, ◌↔◌, inl, inr, true, List, [], ◌∷◌, arith, ltb, Bool-cases,
  nat_eq, length, u64_size, ok,
}
use nomos_node.Prelude.Arrays.{sum_of}
use nomos_node.Cl.Balance.{
  UnitBalance, BalanceWitness, PartialTxWitness, insert_positive, insert_negative, combine_units,
  combine_all, combine, balance_is_zero, ptx_balance, ptx_balances, bundle_balance,
}
use nomos_node.Cl.Accounts.{
  pos_of, neg_of, count, NonzeroBelow, pos_of-insert_positive, neg_of-insert_positive,
  pos_of-insert_negative, neg_of-insert_negative, clear_zeros-Cleared,
}
use nomos_node.Cl.Settled.{
  total_in, total_out, surplus, deficit, Single, Accounts, insert_positive-Single,
  insert_negative-Single, Cleared-Accounts, from_ptx-Accounts,
}

surplus_lem :
    (u : ℕ) (bs : List UnitBalance) → surplus u bs + neg_of u bs ≡ deficit u bs + pos_of u bs
surplus_lem u [] = omega arith
surplus_lem u (b ∷ bs) = ground (arith, surplus_lem u bs)

surplus-le : (u : ℕ) (bs : List UnitBalance) → surplus u bs ≤ pos_of u bs
surplus-le u [] = omega arith
surplus-le u (b ∷ bs) = ground (arith, surplus-le u bs)

deficit-le : (u : ℕ) (bs : List UnitBalance) → deficit u bs ≤ neg_of u bs
deficit-le u [] = omega arith
deficit-le u (b ∷ bs) = ground (arith, deficit-le u bs)

-- `c` with the surpluses of `s` and the deficits of `d` put in.
record Grown (c : List UnitBalance) (s d : ℕ → ℕ) (c' : List UnitBalance) : Type 0 where
  pub pos_eq : (u : ℕ) → pos_of u c' ≡ pos_of u c + s u
  pub neg_eq : (u : ℕ) → neg_of u c' ≡ neg_of u c + d u
  pub single : Single c'

combine_units-Grown :
    (bs c : List UnitBalance)
    → ((u : ℕ) → pos_of u c + surplus u bs < u64_size)
    → ((u : ℕ) → neg_of u c + deficit u bs < u64_size)
    → Single c
    → Grown c (λ u. surplus u bs) (λ u. deficit u bs) (combine_units bs c)
unfolding combine_units
combine_units-Grown [] c fp fn s = record {
  pos_eq = λ u. omega arith;
  neg_eq = λ u. omega arith;
  single = s;
}
combine_units-Grown (b ∷ bs) c fp fn s = elim (Bool-cases (ltb b.neg b.pos)) [
  | inl more ↦
      let v = b.pos - b.neg in
      let pos = λ (w : ℕ). pos_of-insert_positive b.unit v w c (ground (arith, fp b.unit)) in
      let neg = λ (w : ℕ). neg_of-insert_positive b.unit v w c in
      let g =
        combine_units-Grown bs (insert_positive b.unit v c) (λ u. ground (arith, fp u, pos u))
          (λ u. ground (arith, fn u, neg u)) (insert_positive-Single b.unit v c s) in
      rw more (record {
        pos_eq = λ u. ground (arith, g.pos_eq u, pos u);
        neg_eq = λ u. ground (arith, g.neg_eq u, neg u);
        single = g.single;
      })
  | inr less ↦
      let v = b.neg - b.pos in
      let neg = λ (w : ℕ). neg_of-insert_negative b.unit v w c (ground (arith, fn b.unit)) in
      let pos = λ (w : ℕ). pos_of-insert_negative b.unit v w c in
      let g =
        combine_units-Grown bs (insert_negative b.unit v c) (λ u. ground (arith, fp u, pos u))
          (λ u. ground (arith, fn u, neg u)) (insert_negative-Single b.unit v c s) in
      rw less (record {
        pos_eq = λ u. ground (arith, g.pos_eq u, pos u);
        neg_eq = λ u. ground (arith, g.neg_eq u, neg u);
        single = g.single;
      })
]

abbrev surpluses : ℕ → List BalanceWitness → ℕ
surpluses u = sum_of (λ b. surplus u b.balances)

abbrev deficits : ℕ → List BalanceWitness → ℕ
deficits u = sum_of (λ b. deficit u b.balances)

combine_all-Grown :
    (bs : List BalanceWitness) (c : List UnitBalance)
    → ((u : ℕ) → pos_of u c + surpluses u bs < u64_size)
    → ((u : ℕ) → neg_of u c + deficits u bs < u64_size)
    → Single c
    → Grown c (λ u. surpluses u bs) (λ u. deficits u bs) (combine_all bs c)
unfolding combine_all
combine_all-Grown [] c fp fn s = record {
  pos_eq = λ u. omega arith;
  neg_eq = λ u. omega arith;
  single = s;
}
combine_all-Grown (b ∷ bs) c fp fn s =
    let one =
      combine_units-Grown b.balances c (λ u. omega (arith, fp u)) (λ u. omega (arith, fn u)) s in
    let g =
      combine_all-Grown bs (combine_units b.balances c) (λ u. omega (arith, fp u, one.pos_eq u))
        (λ u. omega (arith, fn u, one.neg_eq u)) one.single in
    record {
      pos_eq = λ u. omega (arith, g.pos_eq u, one.pos_eq u);
      neg_eq = λ u. omega (arith, g.neg_eq u, one.neg_eq u);
      single = g.single;
    }

-- The balances of the partial transactions, together.
record Summed (ps : List PartialTxWitness) (bs : List BalanceWitness) : Type 0 where
  balanced : (u : ℕ) → surpluses u bs + total_in u ps ≡ deficits u bs + total_out u ps
  surplus_le : (u : ℕ) → surpluses u bs ≤ total_out u ps
  deficit_le : (u : ℕ) → deficits u bs ≤ total_in u ps

ptx_balances-Summed {ℓ} :
    {E : Type ℓ} (ps : List PartialTxWitness)
    → ((u : ℕ) → total_in u ps < u64_size)
    → ((u : ℕ) → total_out u ps < u64_size)
    → (bs : List BalanceWitness) × (ptx_balances {E = E} ps ≡ ok bs) × Summed ps bs
unfolding ptx_balances ptx_balance
ptx_balances-Summed [] fi fo = (
  [],
  refl,
  record {
    balanced = λ u. omega arith;
    surplus_le = λ u. omega arith;
    deficit_le = λ u. omega arith;
  },
)
ptx_balances-Summed {E} (p ∷ ps) fi fo =
    let (b, run, a) =
      from_ptx-Accounts {E = E} p p.balance_blinding (λ u. omega (arith, fi u))
        (λ u. omega (arith, fo u)) in
    let (bs, runs, t) =
      ptx_balances-Summed {E = E} ps (λ u. omega (arith, fi u)) (λ u. omega (arith, fo u)) in
    (
      b ∷ bs,
      rw run (rw runs),
      record {
        balanced = λ u. omega (arith, t.balanced u, a.balanced u, surplus_lem u b.balances);
        surplus_le = λ u. omega (arith, t.surplus_le u, a.pos_le u, surplus-le u b.balances);
        deficit_le = λ u. omega (arith, t.deficit_le u, a.neg_le u, deficit-le u b.balances);
      },
    )

count_none :
    (u : ℕ) (bs : List UnitBalance) → count u bs ≡ 0 → (pos_of u bs ≡ 0) × (neg_of u bs ≡ 0)
count_none u [] h = (refl, refl)
count_none u (b ∷ bs) h = ground (arith, count_none u bs)

-- In an account without zero entries there is an entry exactly where something does not balance.
empty_iff :
    (bs : List UnitBalance) (inn out : ℕ → ℕ)
    → Accounts bs inn out
    → NonzeroBelow (length bs) bs
    → (balance_is_zero (record { balances = bs; blinding = 0 }) ≡ true) ↔ ((u : ℕ) → inn u ≡ out u)
empty_iff [] inn out a nz = ((λ _ u. omega (arith, a.balanced u)), (λ _. refl))
empty_iff (b ∷ bs) inn out a nz = ((λ h. absurd (cc)), (λ h. absurd (unbalanced h)))
  where
    unbalanced : ((u : ℕ) → inn u ≡ out u) → ⊥
    unbalanced h =
        let none_else = count_none b.unit bs (ground (arith, a.single b.unit)) in
        ground (arith, none_else, a.balanced b.unit, h b.unit, nz 0 b (omega arith) refl)

-- If the values of each unit fit 64 bits on either side, the balance of a bundle is computed, and is an
-- account of all notes of its partial transactions; and it is zero exactly when of each unit as
-- much goes out as comes in.
pub bundle_balance-Accounts {ℓ} :
    {E : Type ℓ} (ps : List PartialTxWitness)
    → ((u : ℕ) → total_in u ps < u64_size)
    → ((u : ℕ) → total_out u ps < u64_size)
    → (b : BalanceWitness) × (bundle_balance {E = E} ps ≡ ok b)
      × Accounts b.balances (λ u. total_in u ps) (λ u. total_out u ps)
      × ((balance_is_zero b ≡ true) ↔ ((u : ℕ) → total_in u ps ≡ total_out u ps))
unfolding bundle_balance combine
bundle_balance-Accounts {E} ps fi fo =
    let (bs, run, t) = ptx_balances-Summed {E = E} ps fi fo in
    let g =
      combine_all-Grown bs [] (λ u. omega (arith, fo u, t.surplus_le u))
        (λ u. omega (arith, fi u, t.deficit_le u)) (λ u. omega arith) in
    let all = combine_all bs [] in
    let (cs, clear, c) = clear_zeros-Cleared {E = E} all in
    let a : Accounts all (λ u. total_in u ps) (λ u. total_out u ps) = record {
      balanced = λ u. omega (arith, t.balanced u, g.pos_eq u, g.neg_eq u);
      pos_le = λ u. omega (arith, t.surplus_le u, g.pos_eq u);
      neg_le = λ u. omega (arith, t.deficit_le u, g.neg_eq u);
      single = g.single;
    } in
    let done = Cleared-Accounts all cs _ _ a c in
    let b : BalanceWitness = record { balances = cs; blinding = 0 } in
    (b, rw run (rw clear), done, empty_iff cs _ _ done c.nonzero)
