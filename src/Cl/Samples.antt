-- ===== src/Cl/Samples.antt =====
-- A transaction that pays out what it takes in, and the theorems at it.
use nomos_node.Prelude.{
  ℕ, ◌+◌, ◌≤◌, ◌<◌, ◌≡◌, refl, ◌↔◌, ◌⊎◌, true, some, [], ◌∷◌, arith, nat_eq, u64_size, add64, ok,
  panic,
}
use nomos_node.Merkle.Samples.{toy}
use nomos_node.Prelude.Arrays.{get_elem?, swap_remove}
use nomos_node.Cl.Notes.{
  NoteWitness, Commitments, commit_input, commit_output, nullifier_of, note_commit, note_commitment,
}
use nomos_node.Cl.Balance.{
  BalanceWitness, PartialTxWitness, ptx_balance, from_ptx, clear_zeros, clear_loop, insert_outputs,
  insert_positive, insert_inputs, insert_negative, bundle_balance, balance_is_zero,
}
use nomos_node.Cl.Settled.{Accounts, total_in, total_out}
use nomos_node.Cl.Bundles.{bundle_balance-Accounts}
use nomos_node.Cl.Partial.{
  Encoding, PartialTx, PartialTxInputWitness, commit_ptx, input_witness, input_root,
  witness_input_root,
}
use nomos_node.Cl.Membership.{input_witness_total}

instance abbrev sums : Commitments
sums = record {
  nullifier_commitment = λ sk. sk + 1;
  note_digest = λ v u s c n p. v + u + s + c + n + p;
  nullifier_digest = λ sk c. sk + c;
  nonce_digest = λ d sk c. d + sk + c;
}

instance abbrev sums_bytes : Encoding
sums_bytes = record {
  input_bytes = λ i. i.nullifier + i.covenant;
  output_bytes = λ o. o.note_comm;
  balance_digest = λ b. b.blinding;
}

abbrev note : NoteWitness
note = record { value = 5; unit = 1; covenant = 2; state = 0; nonce = 9 }

abbrev payment : PartialTxWitness
payment = record {
  inputs = (record { note = note; nf_sk = 3; cm_path = [] }) ∷ [];
  outputs = (record { note = note; nf_pk = 8 }) ∷ [];
  balance_blinding = 0;
}

small : (u : ℕ) → (total_in u (payment ∷ []) < u64_size) × (total_out u (payment ∷ []) < u64_size)
small u = (ground arith, ground arith)

bundle_balance-Accounts_example :
    (b : BalanceWitness) × (bundle_balance {E = ℕ} (payment ∷ []) ≡ ok b)
    × Accounts b.balances (λ u. total_in u (payment ∷ [])) (λ u. total_out u (payment ∷ []))
    × ((balance_is_zero b ≡ true)
        ↔ ((u : ℕ) → total_in u (payment ∷ []) ≡ total_out u (payment ∷ [])))
bundle_balance-Accounts_example =
    bundle_balance-Accounts (payment ∷ []) (λ u. (small u).0) (λ u. (small u).1)

abbrev committed : PartialTx
committed = record {
  inputs = (record { nullifier = 3 + (5 + 1 + 0 + 2 + 9 + (3 + 1)); covenant = 2 }) ∷ [];
  outputs = (record { note_comm = 5 + 1 + 0 + 2 + 9 + 8 }) ∷ [];
  balance = 0;
}

committed_runs : commit_ptx {E = ℕ} payment ≡ ok committed
unfolding commit_ptx ptx_balance from_ptx clear_zeros clear_loop insert_outputs insert_positive
    insert_inputs insert_negative add64 swap_remove commit_input commit_output nullifier_of
    note_commit note_commitment
committed_runs = refl

input_witness_total_example :
    ((0 < 1)
      × (w : PartialTxInputWitness) × (input_witness {E = ℕ} payment 0 ≡ ok w)
      × (get_elem? payment.inputs 0 ≡ some w.input)
      × (input_root {E = ℕ} committed ≡ ok (witness_input_root w)))
    ⊎ ((1 ≤ 0) × (input_witness {E = ℕ} payment 0 ≡ panic))
input_witness_total_example = input_witness_total payment committed 0 (omega arith) committed_runs
