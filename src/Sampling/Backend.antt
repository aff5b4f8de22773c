-- ===== src/Sampling/Backend.antt =====
-- nomos-services/data-availability/sampling/src/backend/kzgrs.rs, `KzgrsSamplingBackend`, and backend/mod.rs,
-- `SamplingState`. Instants and durations are milliseconds, and the instant that the code reads is an argument. `rand`'s
-- `choose_multiple` on the range of the subnets is the argument `Choose`.
use nomos_node.Prelude.{
  ℕ, ◌-◌, Option, none, some, List, [], ◌∷◌, ltb, ◌==◌, if◌then◌else◌, nat_eq, length,
}
use nomos_node.Prelude.Map
use nomos_node.Prelude.Map.{Map, get, remove, contains_key, contains, delete}

pub data SamplingState : Type 0 where
  waiting_commitments tracking terminated : SamplingState
  init : List ℕ → SamplingState

pub record SamplingContext (Commitments : Type 0) : Type 0 where
  pub subnets : List ℕ
  pub started : ℕ
  pub commitment : Option Commitments

pub record KzgrsSamplingBackendSettings : Type 0 where
  pub num_samples : ℕ
  pub num_subnets : ℕ
  pub old_blobs_check_interval : ℕ
  pub blobs_validity_duration : ℕ

-- `(0..num_subnets).choose_multiple(&mut rng, num_samples)`: the numbers chosen, and the generator after.
pub record Choose : Type 1 where
  pub Rng : Type 0
  pub choose_multiple : Rng → ℕ → ℕ → List ℕ × Rng

pub record KzgrsSamplingBackend (rand : Choose) (Commitments : Type 0) : Type 0 where
  pub settings : KzgrsSamplingBackendSettings
  pub validated_blobs : List ℕ
  pub pending_sampling_blobs : Map ℕ (SamplingContext Commitments)
  pub rng : rand.Rng

module _ {Commitments : Type 0} where
  -- `retain` on the pending blobs; `elapsed` is zero for an instant that has not come yet.
  unfoldable pub retain_recent :
      ℕ → ℕ → Map ℕ (SamplingContext Commitments) → Map ℕ (SamplingContext Commitments)
  retain_recent now validity [] = []
  retain_recent now validity ((blob_id, context) ∷ rest) =
      let kept = retain_recent now validity rest in
      if ltb (now - context.started) validity then (blob_id, context) ∷ kept else kept

  -- The context after a sampled column.
  unfoldable pub sampled_context : ℕ → SamplingContext Commitments → SamplingContext Commitments
  sampled_context column_idx ctx = record ctx { subnets = Map.add column_idx ctx.subnets }

module _ {rand : Choose} {Commitments : Type 0} where
  unfoldable pub new :
      KzgrsSamplingBackendSettings → rand.Rng → KzgrsSamplingBackend rand Commitments
  new settings rng = record {
    settings = settings;
    validated_blobs = [];
    pending_sampling_blobs = [];
    rng = rng;
  }

  unfoldable pub prune_by_time :
      ℕ → KzgrsSamplingBackend rand Commitments → KzgrsSamplingBackend rand Commitments
  prune_by_time now self = record self {
    pending_sampling_blobs =
        retain_recent now self.settings.blobs_validity_duration self.pending_sampling_blobs;
  }

  unfoldable pub prune :
      ℕ → KzgrsSamplingBackend rand Commitments → KzgrsSamplingBackend rand Commitments
  prune now self = prune_by_time now self

  unfoldable pub mark_completed :
      List ℕ → KzgrsSamplingBackend rand Commitments → KzgrsSamplingBackend rand Commitments
  mark_completed [] self = self
  mark_completed (id ∷ ids) self = mark_completed ids (record self {
    pending_sampling_blobs = remove id self.pending_sampling_blobs;
    validated_blobs = delete id self.validated_blobs;
  })

  -- A blob with all its samples is validated and no longer pending.
  unfoldable pub credit :
      ℕ
      → SamplingContext Commitments
      → KzgrsSamplingBackend rand Commitments
      → KzgrsSamplingBackend rand Commitments
  credit blob_id ctx self =
      if length ctx.subnets == self.settings.num_samples
      then record self {
        validated_blobs = Map.add blob_id self.validated_blobs;
        pending_sampling_blobs = remove blob_id self.pending_sampling_blobs;
      }
      else record self {
        pending_sampling_blobs = Map.insert blob_id ctx self.pending_sampling_blobs;
      }

  unfoldable pub handle_sampling_success :
      ℕ → ℕ → KzgrsSamplingBackend rand Commitments → KzgrsSamplingBackend rand Commitments
  handle_sampling_success blob_id column_idx self = elim (get blob_id self.pending_sampling_blobs) [
    | none ↦ self
    | some ctx ↦ credit blob_id (sampled_context column_idx ctx) self
  ]

  unfoldable pub handle_sampling_error :
      ℕ → KzgrsSamplingBackend rand Commitments → KzgrsSamplingBackend rand Commitments
  handle_sampling_error blob_id self = elim (get blob_id self.pending_sampling_blobs) [
    | none ↦ self
    | some ctx ↦ record self {
      pending_sampling_blobs = remove blob_id self.pending_sampling_blobs;
      validated_blobs = delete blob_id self.validated_blobs;
    }
  ]

  -- `init_sampling` of a blob that is neither tracked nor validated.
  unfoldable pub start_sampling :
      ℕ
      → ℕ
      → KzgrsSamplingBackend rand Commitments
      → SamplingState × KzgrsSamplingBackend rand Commitments
  start_sampling now blob_id self =
      let (subnets, rng) =
        rand.choose_multiple self.rng self.settings.num_subnets self.settings.num_samples in
      (
        init subnets,
        record self {
          rng = rng;
          pending_sampling_blobs =
              Map.insert blob_id (record { subnets = []; started = now; commitment = none })
                self.pending_sampling_blobs;
        },
      )

  unfoldable pub init_sampling :
      ℕ
      → ℕ
      → KzgrsSamplingBackend rand Commitments
      → SamplingState × KzgrsSamplingBackend rand Commitments
  init_sampling now blob_id self =
      if contains_key blob_id self.pending_sampling_blobs
      then (tracking, self)
      else if contains blob_id self.validated_blobs
      then (terminated, self)
      else start_sampling now blob_id self

  unfoldable pub get_commitments : ℕ → KzgrsSamplingBackend rand Commitments → Option Commitments
  get_commitments blob_id self = elim (get blob_id self.pending_sampling_blobs) [
    | none ↦ none
    | some ctx ↦ ctx.commitment
  ]

  unfoldable pub add_commitments :
      ℕ
      → Commitments
      → KzgrsSamplingBackend rand Commitments
      → KzgrsSamplingBackend rand Commitments
  add_commitments blob_id commitments self = elim (get blob_id self.pending_sampling_blobs) [
    | none ↦ self
    | some ctx ↦ record self {
      pending_sampling_blobs =
          Map.insert blob_id (record ctx { commitment = some commitments })
            self.pending_sampling_blobs;
    }
  ]

-- The calls that change the backend.
pub data Call (Commitments : Type 0) : Type 0 where
  initiate : ℕ → ℕ → Call Commitments
  succeed : ℕ → ℕ → Call Commitments
  fail : ℕ → Call Commitments
  complete : List ℕ → Call Commitments
  prune_old : ℕ → Call Commitments
  commit : ℕ → Commitments → Call Commitments

module _ {rand : Choose} {Commitments : Type 0} where
  unfoldable pub handle :
      Call Commitments
      → KzgrsSamplingBackend rand Commitments
      → KzgrsSamplingBackend rand Commitments
  handle (initiate now blob_id) self = (init_sampling now blob_id self).1
  handle (succeed blob_id column_idx) self = handle_sampling_success blob_id column_idx self
  handle (fail blob_id) self = handle_sampling_error blob_id self
  handle (complete ids) self = mark_completed ids self
  handle (prune_old now) self = prune now self
  handle (commit blob_id commitments) self = add_commitments blob_id commitments self

  -- The backend after a history of calls, the latest first.
  unfoldable pub after :
      KzgrsSamplingBackendSettings
      → rand.Rng
      → List (Call Commitments)
      → KzgrsSamplingBackend rand Commitments
  after settings rng [] = new settings rng
  after settings rng (call ∷ calls) = handle call (after settings rng calls)
