-- ===== src/Sampling/Progress.antt =====
-- nomos-services/data-availability/sampling/src/backend/kzgrs.rs: sampling ends when the columns that
-- `init_sampling` asked for are reported.
use nomos_node.Prelude.{
  ℕ, suc, ◌+◌, ◌≤◌, ◌<◌, ◌≡◌, refl, ap, ◌≢◌, ◌⊎◌, inl, inr, true, false, none, some, List, [], ◌∷◌,
  arith, ◌==◌, ==_iff, Bool-cases, nat_eq, length, All,
}
use nomos_node.Prelude.Map
use nomos_node.Prelude.Map.{
  get, remove, contains_key, contains, contains-add, get-insert, contains_key-get,
}
use nomos_node.Sampling.Backend.{
  Choose, init, SamplingContext, KzgrsSamplingBackend, sampled_context, credit,
  handle_sampling_success, start_sampling, init_sampling,
}
use nomos_node.Sampling.Tracked.{Distinct}

-- No column is among the subnets.
abbrev Absent : List ℕ → List ℕ → Type 0
Absent columns subnets = All (λ c. contains c subnets ≡ false) columns

Absent-cons :
    (column : ℕ) (columns subnets : List ℕ)
    → contains column columns ≡ false
    → Absent columns subnets
    → Absent columns (column ∷ subnets)
unfolding contains
Absent-cons column [] subnets h a = tt
Absent-cons column (c ∷ columns) subnets h a = (
  ground (arith, ==_iff column c, ==_iff c column, a),
  Absent-cons column columns subnets (ground arith) a.1,
)

Absent-empty : (columns : List ℕ) → Absent columns []
unfolding contains
Absent-empty [] = tt
Absent-empty (c ∷ columns) = (refl, Absent-empty columns)

-- What `choose_multiple` documents: distinct numbers, as many as asked for where there are so many.
abbrev pub Documented : Choose → Type 0
Documented rand =
    (rng : rand.Rng) (n amount : ℕ)
    → amount ≤ n
    → Distinct (rand.choose_multiple rng n amount).0
      × (length (rand.choose_multiple rng n amount).0 ≡ amount)

module _ {rand : Choose} {C : Type 0} where
  -- The reports for all of the columns, one after the other.
  unfoldable pub succeed_all :
      ℕ → List ℕ → KzgrsSamplingBackend rand C → KzgrsSamplingBackend rand C
  succeed_all blob_id [] self = self
  succeed_all blob_id (column ∷ columns) self =
      succeed_all blob_id columns (handle_sampling_success blob_id column self)

  -- The report of a new column.
  success-new :
      (b column : ℕ) (ctx : SamplingContext C) (self : KzgrsSamplingBackend rand C)
      → get b self.pending_sampling_blobs ≡ some ctx
      → contains column ctx.subnets ≡ false
      → ((length ctx.subnets + 1 ≡ self.settings.num_samples)
          × (contains b (handle_sampling_success b column self).validated_blobs ≡ true))
        ⊎ ((length ctx.subnets + 1 ≢ self.settings.num_samples)
            × ((handle_sampling_success b column self).settings ≡ self.settings)
            × (get b (handle_sampling_success b column self).pending_sampling_blobs
                ≡ some (record ctx { subnets = column ∷ ctx.subnets })))
  unfolding handle_sampling_success credit sampled_context Map.add
  success-new b column ctx self here new =
      elim (Bool-cases (suc (length ctx.subnets) == self.settings.num_samples)) [
        | inl full ↦
            inl (grind arith, ground (arith, contains-add b b self.validated_blobs, ==_iff b b))
        | inr short ↦ inr (
          grind arith,
          ground arith,
          ground (
            arith,
            get-insert b b (record ctx { subnets = column ∷ ctx.subnets })
                self.pending_sampling_blobs,
            ==_iff b b,
          ),
        )
      ]

  succeed_all-Validates :
      (b : ℕ) (columns : List ℕ) (ctx : SamplingContext C) (self : KzgrsSamplingBackend rand C)
      → get b self.pending_sampling_blobs ≡ some ctx
      → Distinct columns
      → Absent columns ctx.subnets
      → length ctx.subnets + length columns ≡ self.settings.num_samples
      → 0 < length columns
      → contains b (succeed_all b columns self).validated_blobs ≡ true
  unfolding succeed_all
  succeed_all-Validates b [] ctx self here d a full some_left = absurd (omega arith)
  succeed_all-Validates b (c ∷ []) ctx self here d a full some_left =
      elim (success-new b c ctx self here a.0) [
        | inl (last, done) ↦ done
        | inr (short, settings, now) ↦ absurd (short (omega arith))
      ]
  succeed_all-Validates b (c ∷ d ∷ columns) ctx self here ds a full some_left =
      elim (success-new b c ctx self here a.0) [
        | inl (last, done) ↦ absurd (omega arith)
        | inr (short, settings, now) ↦
            succeed_all-Validates b (d ∷ columns) (record ctx { subnets = c ∷ ctx.subnets })
              (handle_sampling_success b c self) now ds.1
              (Absent-cons c (d ∷ columns) ctx.subnets ds.0 a.1)
              (omega (arith, full, ap (λ k. k.num_samples) settings)) (omega arith)
      ]

  init_sampling-starts :
      (now b : ℕ) (self : KzgrsSamplingBackend rand C)
      → get b self.pending_sampling_blobs ≡ none
      → contains b self.validated_blobs ≡ false
      → init_sampling now b self ≡ start_sampling now b self
  unfolding init_sampling
  init_sampling-starts now b self untracked new =
      ground (arith, contains_key-get b self.pending_sampling_blobs)

  start_sampling-tracks :
      (now b : ℕ) (self : KzgrsSamplingBackend rand C)
      → get b (start_sampling now b self).1.pending_sampling_blobs
        ≡ some (record { subnets = []; started = now; commitment = none })
  unfolding start_sampling
  start_sampling-tracks now b self = ground (
    arith,
    get-insert b b (record { subnets = []; started = now; commitment = none })
        self.pending_sampling_blobs,
    ==_iff b b,
  )

  -- With a choice as documented, at least one sample asked for and enough subnets, a blob that is
  -- neither tracked nor validated gets from `init_sampling` the subnets to sample, and once these are
  -- reported, one after the other, it is validated.
  pub init_sampling-Validates :
      Documented rand
      → (now b : ℕ) (self : KzgrsSamplingBackend rand C) → 0 < self.settings.num_samples
      → self.settings.num_samples ≤ self.settings.num_subnets
      → get b self.pending_sampling_blobs ≡ none
      → contains b self.validated_blobs ≡ false
      → (subnets : List ℕ) × ((init_sampling now b self).0 ≡ init subnets)
        × (contains b (succeed_all b subnets (init_sampling now b self).1).validated_blobs ≡ true)
  unfolding start_sampling
  init_sampling-Validates doc now b self positive enough untracked new =
      let (distinct, many) =
        doc self.rng self.settings.num_subnets self.settings.num_samples enough in
      let subnets =
        (rand.choose_multiple self.rng self.settings.num_subnets self.settings.num_samples).0 in
      let ctx : SamplingContext C = record { subnets = []; started = now; commitment = none } in
      let started = init_sampling-starts now b self untracked new in
      rw started (
        subnets,
        refl,
        succeed_all-Validates b subnets ctx (start_sampling now b self).1
            (start_sampling-tracks now b self) distinct (Absent-empty subnets) (omega (arith, many))
            (omega (arith, many)),
      )
