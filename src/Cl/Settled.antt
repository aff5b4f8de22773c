-- ===== src/Cl/Settled.antt =====
-- nomos-core/cl/src/balance.rs and bundle.rs: the balance of a partial transaction, and of a bundle, is what
-- comes in and goes out of each unit.
use nomos_node.Prelude.{
  ℕ, ◌+◌, ◌-◌, ◌≤◌, ◌<◌, ◌≡◌, refl, ◌∙◌, List, [], ◌∷◌, arith, ◌==◌, if◌then◌else◌, nat_eq,
  u64_size, ok,
}
use nomos_node.Prelude.Arrays.{sum_of}
use nomos_node.Cl.Notes.{InputWitness, OutputWitness}
use nomos_node.Cl.Balance.{
  UnitBalance, BalanceWitness, PartialTxWitness, insert_positive, insert_negative, insert_inputs,
  insert_outputs, from_ptx,
}
use nomos_node.Cl.Accounts.{
  only, pos_of, neg_of, count, Cleared, pos_of-insert_positive, neg_of-insert_positive,
  pos_of-insert_negative, neg_of-insert_negative, count-insert_positive, count-insert_negative,
  clear_zeros-Cleared,
}

-- The value of a unit that inputs, or outputs, hold.
abbrev pub value_in : ℕ → List InputWitness → ℕ
value_in u = sum_of (λ i. if i.note.unit == u then i.note.value else 0)

abbrev pub value_out : ℕ → List OutputWitness → ℕ
value_out u = sum_of (λ o. if o.note.unit == u then o.note.value else 0)

abbrev pub total_in : ℕ → List PartialTxWitness → ℕ
total_in u = sum_of (λ p. value_in u p.inputs)

abbrev pub total_out : ℕ → List PartialTxWitness → ℕ
total_out u = sum_of (λ p. value_out u p.outputs)

-- What one side of the entries of a unit has more than the other.
abbrev pub surplus : ℕ → List UnitBalance → ℕ
surplus u = sum_of (only u (λ b. b.pos - b.neg))

abbrev pub deficit : ℕ → List UnitBalance → ℕ
deficit u = sum_of (only u (λ b. b.neg - b.pos))

abbrev pub Single : List UnitBalance → Type 0
Single bs = (u : ℕ) → count u bs ≤ 1

-- `bs` is an account of `inn` and `out`, with one entry at most for each unit.
pub record Accounts (bs : List UnitBalance) (inn out : ℕ → ℕ) : Type 0 where
  pub balanced : (u : ℕ) → pos_of u bs + inn u ≡ neg_of u bs + out u
  pub pos_le : (u : ℕ) → pos_of u bs ≤ out u
  pub neg_le : (u : ℕ) → neg_of u bs ≤ inn u
  pub single : Single bs

pub insert_positive-Single :
    (u v : ℕ) (bs : List UnitBalance) → Single bs → Single (insert_positive u v bs)
insert_positive-Single u v bs s w = ground (arith, count-insert_positive u v w bs, s w, s u)

pub insert_negative-Single :
    (u v : ℕ) (bs : List UnitBalance) → Single bs → Single (insert_negative u v bs)
insert_negative-Single u v bs s w = ground (arith, count-insert_negative u v w bs, s w, s u)

insert_inputs_lem :
    (ins : List InputWitness) (bs : List UnitBalance)
    → ((u : ℕ) → neg_of u bs + value_in u ins < u64_size)
    → Single bs
    → ((u : ℕ) → pos_of u (insert_inputs ins bs) ≡ pos_of u bs)
      × ((u : ℕ) → neg_of u (insert_inputs ins bs) ≡ neg_of u bs + value_in u ins)
      × Single (insert_inputs ins bs)
unfolding insert_inputs
insert_inputs_lem [] bs fit s = ((λ u. refl), (λ u. omega arith), s)
insert_inputs_lem (i ∷ ins) bs fit s =
    let neg = λ (w : ℕ).
      neg_of-insert_negative i.note.unit i.note.value w bs (ground (arith, fit i.note.unit)) in
    let (p, n, t) =
      insert_inputs_lem ins (insert_negative i.note.unit i.note.value bs)
        (λ u. ground (arith, fit u, neg u))
        (insert_negative-Single i.note.unit i.note.value bs s) in
    (
      (λ u. p u ∙ pos_of-insert_negative i.note.unit i.note.value u bs),
      (λ u. ground (arith, n u, neg u)),
      t,
    )

insert_outputs_lem :
    (outs : List OutputWitness) (bs : List UnitBalance)
    → ((u : ℕ) → pos_of u bs + value_out u outs < u64_size)
    → Single bs
    → ((u : ℕ) → pos_of u (insert_outputs outs bs) ≡ pos_of u bs + value_out u outs)
      × ((u : ℕ) → neg_of u (insert_outputs outs bs) ≡ neg_of u bs)
      × Single (insert_outputs outs bs)
unfolding insert_outputs
insert_outputs_lem [] bs fit s = ((λ u. omega arith), (λ u. refl), s)
insert_outputs_lem (o ∷ outs) bs fit s =
    let pos = λ (w : ℕ).
      pos_of-insert_positive o.note.unit o.note.value w bs (ground (arith, fit o.note.unit)) in
    let (p, n, t) =
      insert_outputs_lem outs (insert_positive o.note.unit o.note.value bs)
        (λ u. ground (arith, fit u, pos u))
        (insert_positive-Single o.note.unit o.note.value bs s) in
    (
      (λ u. ground (arith, p u, pos u)),
      (λ u. n u ∙ neg_of-insert_positive o.note.unit o.note.value u bs),
      t,
    )

pub Cleared-Accounts :
    (bs cs : List UnitBalance) (inn out : ℕ → ℕ)
    → Accounts bs inn out
    → Cleared bs cs
    → Accounts cs inn out
Cleared-Accounts bs cs inn out a c = record {
  balanced = λ u. omega (arith, a.balanced u, c.pos_eq u, c.neg_eq u);
  pos_le = λ u. omega (arith, a.pos_le u, c.pos_eq u);
  neg_le = λ u. omega (arith, a.neg_le u, c.neg_eq u);
  single = λ u. omega (arith, a.single u, c.fewer u);
}

-- The balance of a partial transaction is an account of its notes, if the notes' values of each
-- unit fit 64 bits on either side.
pub from_ptx-Accounts {ℓ} :
    {E : Type ℓ} (ptx : PartialTxWitness) (blinding : ℕ)
    → ((u : ℕ) → value_in u ptx.inputs < u64_size)
    → ((u : ℕ) → value_out u ptx.outputs < u64_size)
    → (b : BalanceWitness) × (from_ptx {E = E} ptx blinding ≡ ok b)
      × Accounts b.balances (λ u. value_in u ptx.inputs) (λ u. value_out u ptx.outputs)
unfolding from_ptx
from_ptx-Accounts {E} ptx blinding fit_in fit_out =
    let none_yet : Single [] = λ u. omega arith in
    let (p1, n1, s1) = insert_inputs_lem ptx.inputs [] (λ u. omega (arith, fit_in u)) none_yet in
    let (p2, n2, s2) =
      insert_outputs_lem ptx.outputs (insert_inputs ptx.inputs [])
        (λ u. omega (arith, p1 u, fit_out u)) s1 in
    let all = insert_outputs ptx.outputs (insert_inputs ptx.inputs []) in
    let (cs, run, c) = clear_zeros-Cleared {E = E} all in
    let a : Accounts all (λ u. value_in u ptx.inputs) (λ u. value_out u ptx.outputs) = record {
      balanced = λ u. omega (arith, p1 u, n1 u, p2 u, n2 u);
      pos_le = λ u. omega (arith, p1 u, p2 u);
      neg_le = λ u. omega (arith, n1 u, n2 u);
      single = s2;
    } in
    (record { balances = cs; blinding = blinding }, rw run, Cleared-Accounts all cs _ _ a c)
