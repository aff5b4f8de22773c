-- ===== src/Cl/Balance.antt =====
-- nomos-core/cl/src/balance.rs, partial_tx.rs and bundle.rs: the balance of units. `+=` wraps at 64 bits.
use nomos_node.Prelude.{
  ℕ, zero, suc, ◌+◌, ◌-◌, Bool, true, false, none, some, List, [], ◌∷◌, ltb, leb, ◌==◌,
  if◌then◌else◌, nat_eq, length, add64, Outcome, ok, timeout, ◌>>=◌,
}
use nomos_node.Prelude.Arrays.{get_elem?, swap_remove}
use nomos_node.Cl.Notes.{InputWitness, OutputWitness}

pub record UnitBalance : Type 0 where
  pub unit : ℕ
  pub pos : ℕ
  pub neg : ℕ

-- `UnitBalance::is_zero`
abbrev pub unit_is_zero : UnitBalance → Bool
unit_is_zero self = self.pos == self.neg

pub record BalanceWitness : Type 0 where
  pub balances : List UnitBalance
  pub blinding : ℕ

pub record PartialTxWitness : Type 0 where
  pub inputs : List InputWitness
  pub outputs : List OutputWitness
  pub balance_blinding : ℕ

-- `BalanceWitness::insert_positive`
unfoldable pub insert_positive : ℕ → ℕ → List UnitBalance → List UnitBalance
insert_positive unit value [] = (record { unit = unit; pos = value; neg = 0 }) ∷ []
insert_positive unit value (b ∷ bs) =
    if b.unit == unit
    then (record b { pos = add64 b.pos value }) ∷ bs
    else b ∷ insert_positive unit value bs

-- `BalanceWitness::insert_negative`
unfoldable pub insert_negative : ℕ → ℕ → List UnitBalance → List UnitBalance
insert_negative unit value [] = (record { unit = unit; pos = 0; neg = value }) ∷ []
insert_negative unit value (b ∷ bs) =
    if b.unit == unit
    then (record b { neg = add64 b.neg value }) ∷ bs
    else b ∷ insert_negative unit value bs

-- The loop of `BalanceWitness::clear_zeros`; each round shortens what is left, the vector from `i` on.
unfoldable pub clear_loop {ℓ} :
    {E : Type ℓ} → ℕ → ℕ → List UnitBalance → Outcome E (List UnitBalance)
clear_loop zero i bs = if leb (length bs) i then ok bs else timeout
clear_loop (suc fuel) i bs = elim (get_elem? bs i) [
  | none ↦ ok bs
  | some b ↦ elim (unit_is_zero b) [
    | true ↦ clear_loop fuel i (swap_remove bs i)
    | false ↦ clear_loop fuel (i + 1) bs
  ]
]

unfoldable pub clear_zeros {ℓ} : {E : Type ℓ} → List UnitBalance → Outcome E (List UnitBalance)
clear_zeros bs = clear_loop (length bs) 0 bs

-- The loops of `BalanceWitness::from_ptx`
unfoldable pub insert_inputs : List InputWitness → List UnitBalance → List UnitBalance
insert_inputs [] bs = bs
insert_inputs (input ∷ inputs) bs =
    insert_inputs inputs (insert_negative input.note.unit input.note.value bs)

unfoldable pub insert_outputs : List OutputWitness → List UnitBalance → List UnitBalance
insert_outputs [] bs = bs
insert_outputs (output ∷ outputs) bs =
    insert_outputs outputs (insert_positive output.note.unit output.note.value bs)

unfoldable pub from_ptx {ℓ} : {E : Type ℓ} → PartialTxWitness → ℕ → Outcome E BalanceWitness
from_ptx ptx blinding = do
  balances ← clear_zeros (insert_outputs ptx.outputs (insert_inputs ptx.inputs []))
  ok (record { balances = balances; blinding = blinding })

-- The loops of `BalanceWitness::combine`
unfoldable pub combine_units : List UnitBalance → List UnitBalance → List UnitBalance
combine_units [] combined = combined
combine_units (b ∷ bs) combined = combine_units bs (
    if ltb b.neg b.pos
    then insert_positive b.unit (b.pos - b.neg) combined
    else insert_negative b.unit (b.neg - b.pos) combined)

unfoldable pub combine_all : List BalanceWitness → List UnitBalance → List UnitBalance
combine_all [] combined = combined
combine_all (b ∷ bs) combined = combine_all bs (combine_units b.balances combined)

unfoldable pub combine {ℓ} : {E : Type ℓ} → List BalanceWitness → ℕ → Outcome E BalanceWitness
combine bs blinding = do
  balances ← clear_zeros (combine_all bs [])
  ok (record { balances = balances; blinding = blinding })

-- `BalanceWitness::is_zero`
abbrev pub balance_is_zero : BalanceWitness → Bool
balance_is_zero self = elim self.balances [ [] ↦ true | _ ∷ _ ↦ false ]

-- `PartialTxWitness::balance`
unfoldable pub ptx_balance {ℓ} : {E : Type ℓ} → PartialTxWitness → Outcome E BalanceWitness
ptx_balance self = from_ptx self self.balance_blinding

unfoldable pub ptx_balances {ℓ} :
    {E : Type ℓ} → List PartialTxWitness → Outcome E (List BalanceWitness)
ptx_balances [] = ok []
ptx_balances (p ∷ ps) = do b ← ptx_balance p; bs ← ptx_balances ps; ok (b ∷ bs)

-- `BundleWitness::balance`, of a bundle that is its partial transactions.
unfoldable pub bundle_balance {ℓ} : {E : Type ℓ} → List PartialTxWitness → Outcome E BalanceWitness
bundle_balance partials = do bs ← ptx_balances partials; combine bs 0
