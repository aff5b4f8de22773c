-- ===== src/Cl/Notes.antt =====
-- nomos-core/cl/src/note.rs, nullifier.rs, input.rs and output.rs. Units, nonces, secrets, covenants and
-- digests are numbers. The SHA-256 digests of the crate are the argument `Commitments`.
use nomos_node.Prelude.{ℕ, List, ◌==◌, nat_eq, Outcome, ok, ◌>>◌, assert}
use nomos_node.Merkle.{PathNode}

pub record NoteWitness : Type 0 where
  pub value : ℕ
  pub unit : ℕ
  pub covenant : ℕ
  pub state : ℕ
  pub nonce : ℕ

pub record Commitments : Type 0 where
  -- `NullifierSecret::commit`
  pub nullifier_commitment : ℕ → ℕ
  -- `NoteWitness::commit`: value, unit, state, covenant, nonce and the nullifier's commitment.
  pub note_digest : ℕ → ℕ → ℕ → ℕ → ℕ → ℕ → ℕ
  -- `Nullifier::new`: the secret and the note's commitment.
  pub nullifier_digest : ℕ → ℕ → ℕ
  -- `NoteWitness::evolved_nonce`: the domain, the secret and the note's commitment.
  pub nonce_digest : ℕ → ℕ → ℕ → ℕ

pub record Input : Type 0 where
  pub nullifier : ℕ
  pub covenant : ℕ

pub record InputWitness : Type 0 where
  pub note : NoteWitness
  pub nf_sk : ℕ
  pub cm_path : List PathNode

pub record Output : Type 0 where
  pub note_comm : ℕ

pub record OutputWitness : Type 0 where
  pub note : NoteWitness
  pub nf_pk : ℕ

module _ ⦃cm : Commitments⦄ where
  -- `NoteWitness::commit`
  unfoldable pub note_commit : NoteWitness → ℕ → ℕ
  note_commit self nf_pk =
      cm.note_digest self.value self.unit self.state self.covenant self.nonce nf_pk

  -- `InputWitness::note_commitment`
  unfoldable pub note_commitment : InputWitness → ℕ
  note_commitment self = note_commit self.note (cm.nullifier_commitment self.nf_sk)

  -- `InputWitness::nullifier`
  unfoldable pub nullifier_of : InputWitness → ℕ
  nullifier_of self = cm.nullifier_digest self.nf_sk (note_commitment self)

  -- `InputWitness::commit`
  unfoldable pub commit_input : InputWitness → Input
  commit_input self = record { nullifier = nullifier_of self; covenant = self.note.covenant }

  -- `OutputWitness::commit`
  unfoldable pub commit_output : OutputWitness → Output
  commit_output self = record { note_comm = note_commit self.note self.nf_pk }

  -- `InputWitness::from_output`, whose assertion panics
  unfoldable pub from_output {ℓ} :
      {E : Type ℓ} → OutputWitness → ℕ → List PathNode → Outcome E InputWitness
  from_output output nf_sk cm_path = do
    assert (cm.nullifier_commitment nf_sk == output.nf_pk)
    ok (record { note = output.note; nf_sk = nf_sk; cm_path = cm_path })

  -- `InputWitness::public`, `NullifierSecret::zero`
  unfoldable pub public_input {ℓ} :
      {E : Type ℓ} → OutputWitness → List PathNode → Outcome E InputWitness
  public_input output cm_path = from_output output 0 cm_path

  -- `OutputWitness::public`
  unfoldable pub public_output : NoteWitness → OutputWitness
  public_output note = record { note = note; nf_pk = cm.nullifier_commitment 0 }

  unfoldable pub evolved_nonce : InputWitness → ℕ → ℕ
  evolved_nonce self domain =
      cm.nonce_digest domain self.nf_sk (note_commit self.note (cm.nullifier_commitment self.nf_sk))

  unfoldable pub evolve_output : InputWitness → ℕ → OutputWitness
  evolve_output self domain = record {
    note = record self.note { nonce = evolved_nonce self domain };
    nf_pk = cm.nullifier_commitment self.nf_sk;
  }
