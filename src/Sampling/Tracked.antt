-- ===== src/Sampling/Tracked.antt =====
-- nomos-services/data-availability/sampling/src/backend/kzgrs.rs: what each call keeps of the tracked and of the
-- validated blobs.
use nomos_node.Prelude.{
  ℕ, ◌-◌, ◌≡◌, refl, subst, ◌≢◌, inl, inr, true, false, none, some, List, [], ◌∷◌, arith, ltb, ◌==◌,
  if◌then◌else◌, ==_iff, Bool-cases, Option-cases, nat_eq, length, In,
}
use nomos_node.Prelude.Map
use nomos_node.Prelude.Map.{
  Map, get, remove, contains_key, contains, delete, contains-add, contains-delete, contains_key-get,
}
use nomos_node.Prelude.Entries.{In-get, In-insert, In-remove}
use nomos_node.Sampling.Backend.{
  Choose, SamplingContext, KzgrsSamplingBackend, new, retain_recent, prune_by_time, prune,
  mark_completed, sampled_context, credit, handle_sampling_success, handle_sampling_error,
  start_sampling, init_sampling, add_commitments,
}

-- No number twice.
abbrev pub Distinct : List ℕ → Type 0
Distinct [] = Unit
Distinct (x ∷ xs) = (contains x xs ≡ false) × Distinct xs

-- A predicate on a blob and its sampled columns, of the tracked blobs and, with all samples, of the
-- validated; no blob is both.
abbrev pub Holds :
    {rand : Choose} {C : Type 0} → (ℕ → List ℕ → Type 0) → KzgrsSamplingBackend rand C → Type 0
Holds P self =
    ((blob_id : ℕ) (ctx : SamplingContext _)
      → In (blob_id, ctx) self.pending_sampling_blobs
      → P blob_id ctx.subnets × (contains blob_id self.validated_blobs ≡ false))
    × ((blob_id : ℕ)
        → contains blob_id self.validated_blobs ≡ true
        → (columns : List ℕ) × P blob_id columns × (length columns ≡ self.settings.num_samples))

module _ {C : Type 0} where
  In-retain_recent :
      (now validity b : ℕ) (ctx : SamplingContext C) (m : Map ℕ (SamplingContext C))
      → In (b, ctx) (retain_recent now validity m)
      → In (b, ctx) m
  unfolding retain_recent
  In-retain_recent now validity b ctx [] h = h
  In-retain_recent now validity b ctx ((j, w) ∷ m) h =
      elim (Bool-cases (ltb (now - w.started) validity)) [
        | inl recent ↦
            elim (subst
              (λ t.
                In (b, ctx)
                  (if t
                    then (j, w) ∷ retain_recent now validity m
                    else retain_recent now validity m))
              recent h) [
                | inl this ↦ inl this
                | inr rest ↦ inr (In-retain_recent now validity b ctx m rest)
              ]
        | inr old ↦ inr (
            In-retain_recent now validity b ctx m (
              subst
                (λ t.
                  In (b, ctx)
                    (if t
                      then (j, w) ∷ retain_recent now validity m
                      else retain_recent now validity m))
                old h))
      ]

module _ {rand : Choose} {C : Type 0} where
  pub Holds-map :
      {P Q : ℕ → List ℕ → Type 0} (self : KzgrsSamplingBackend rand C)
      → ((b : ℕ) (s : List ℕ) → P b s → Q b s)
      → Holds P self
      → Holds Q self
  Holds-map self f (p, v) = (
    λ b ctx i. (f b ctx.subnets (p b ctx i).0, (p b ctx i).1),
    λ b h. let (s, x, e) = v b h in (s, f b s x, e),
  )

  pub prune-Holds :
      {P : ℕ → List ℕ → Type 0} (now : ℕ) (self : KzgrsSamplingBackend rand C)
      → Holds P self
      → Holds P (prune now self)
  unfolding prune prune_by_time
  prune-Holds now self (p, v) = (
    λ b ctx i. p b ctx (
        In-retain_recent now self.settings.blobs_validity_duration b ctx self.pending_sampling_blobs
          i),
    v,
  )

  -- A blob taken out of both.
  abbrev dropped : ℕ → KzgrsSamplingBackend rand C → KzgrsSamplingBackend rand C
  dropped id self = record self {
    pending_sampling_blobs = remove id self.pending_sampling_blobs;
    validated_blobs = delete id self.validated_blobs;
  }

  drop-Holds :
      {P : ℕ → List ℕ → Type 0} (id : ℕ) (self : KzgrsSamplingBackend rand C)
      → Holds P self
      → Holds (λ b s. P b s × (id ≢ b)) (dropped id self)
  drop-Holds id self (p, v) = (
    λ b ctx i.
        let (ne, old) = In-remove id b ctx self.pending_sampling_blobs i in
        (
          ((p b ctx old).0, ne),
          ground (arith, contains-delete id b self.validated_blobs, p b ctx old),
        ),
    λ b h.
        let was : contains b self.validated_blobs ≡ true =
          ground (arith, contains-delete id b self.validated_blobs) in
        let (s, x, e) = v b was in
        (s, (x, ground (arith, contains-delete id b self.validated_blobs, ==_iff id b)), e),
  )

  -- A tracked blob's context replaced.
  replace-Holds :
      {P : ℕ → List ℕ → Type 0} (id : ℕ) (ctx : SamplingContext C)
      (self : KzgrsSamplingBackend rand C)
      → P id ctx.subnets
      → contains id self.validated_blobs ≡ false
      → Holds P self
      → Holds P
          (record self { pending_sampling_blobs = Map.insert id ctx self.pending_sampling_blobs })
  replace-Holds {P} id ctx self x free (p, v) = (
    λ b c i. elim (In-insert id b ctx c self.pending_sampling_blobs i) [
      | inl (same, this) ↦ (
        subst (λ c. P b c.subnets) this (subst (λ b. P b ctx.subnets) same x),
        subst (λ b. contains b self.validated_blobs ≡ false) same free,
      )
      | inr old ↦ p b c old
    ],
    v,
  )

  pub settings-mark_completed :
      (ids : List ℕ) (self : KzgrsSamplingBackend rand C)
      → (mark_completed ids self).settings ≡ self.settings
  unfolding mark_completed
  settings-mark_completed [] self = refl
  settings-mark_completed (id ∷ ids) self = settings-mark_completed ids _

  pub complete-Holds :
      (ids : List ℕ) (self : KzgrsSamplingBackend rand C) {P : ℕ → List ℕ → Type 0}
      → Holds P self
      → Holds (λ b s. P b s × (contains b ids ≡ false)) (mark_completed ids self)
  unfolding mark_completed contains
  complete-Holds [] self h = Holds-map self (λ b s x. (x, refl)) h
  complete-Holds (id ∷ ids) self h =
      Holds-map (mark_completed ids (dropped id self))
        (λ b s x. (x.0.0, ground (arith, x, ==_iff id b)))
        (complete-Holds ids (dropped id self) (drop-Holds id self h))

  pub fail-Holds :
      {P : ℕ → List ℕ → Type 0} (id : ℕ) (self : KzgrsSamplingBackend rand C)
      → Holds P self
      → Holds P (handle_sampling_error id self)
  unfolding handle_sampling_error
  fail-Holds {P} id self h =
      elim (get id self.pending_sampling_blobs)
        as (λ o. Holds P (elim o [ none ↦ self | some ctx ↦ dropped id self ])) [
          | none ↦ h
          | some ctx ↦ Holds-map (dropped id self) (λ b s x. x.0) (drop-Holds id self h)
        ]

  pub init-Holds :
      {P : ℕ → List ℕ → Type 0} (now id : ℕ) (self : KzgrsSamplingBackend rand C)
      → P id []
      → Holds P self
      → Holds P (init_sampling now id self).1
  unfolding init_sampling start_sampling
  init-Holds {P} now id self x h = elim (Bool-cases (contains_key id self.pending_sampling_blobs)) [
    | inl tracked ↦ rw tracked h
    | inr free ↦ rw free (elim (Bool-cases (contains id self.validated_blobs)) [
      | inl done ↦ rw done h
      | inr new ↦ rw new (
          replace-Holds {P = P} id (record { subnets = []; started = now; commitment = none }) self
            x new h)
    ])
  ]

  pub commit-Holds :
      {P : ℕ → List ℕ → Type 0} (id : ℕ) (c : C) (self : KzgrsSamplingBackend rand C)
      → Holds P self
      → Holds P (add_commitments id c self)
  unfolding add_commitments
  commit-Holds {P} id c self h = elim (Option-cases (get id self.pending_sampling_blobs)) [
    | inl nothing ↦ rw (nothing, add_commitments) h
    | inr (ctx, here) ↦
        let (x, free) = h.0 id ctx (In-get id ctx self.pending_sampling_blobs here) in
        rw (here, add_commitments)
          (replace-Holds {P = P} id (record ctx { commitment = some c }) self x free h)
  ]

  -- A blob with all its samples, and one that still waits.
  validate-Holds :
      {P : ℕ → List ℕ → Type 0} (id : ℕ) (columns : List ℕ) (self : KzgrsSamplingBackend rand C)
      → P id columns
      → length columns ≡ self.settings.num_samples
      → Holds P self
      → Holds P (record self {
        validated_blobs = Map.add id self.validated_blobs;
        pending_sampling_blobs = remove id self.pending_sampling_blobs;
      })
  validate-Holds {P} id columns self x full (p, v) = (
    λ b c i.
        let (ne, old) = In-remove id b c self.pending_sampling_blobs i in
        (
          (p b c old).0,
          ground (arith, contains-add id b self.validated_blobs, p b c old, ==_iff id b),
        ),
    λ b h. elim (Bool-cases (id == b)) [
      | inl same ↦ (columns, subst (λ b. P b columns) ((==_iff id b).0 same) x, full)
      | inr other ↦ v b (ground (arith, contains-add id b self.validated_blobs))
    ],
  )

  pub succeed-Holds :
      {P : ℕ → List ℕ → Type 0} (id column : ℕ) (self : KzgrsSamplingBackend rand C)
      → ((s : List ℕ) → P id s → P id (Map.add column s))
      → Holds P self
      → Holds P (handle_sampling_success id column self)
  unfolding handle_sampling_success credit sampled_context
  succeed-Holds {P} id column self f h = elim (Option-cases (get id self.pending_sampling_blobs)) [
    | inl nothing ↦ rw (nothing, handle_sampling_success) h
    | inr (ctx, here) ↦
        let (x, free) = h.0 id ctx (In-get id ctx self.pending_sampling_blobs here) in
        let columns = Map.add column ctx.subnets in
        rw (here, handle_sampling_success)
          (elim (Bool-cases (length columns == self.settings.num_samples)) [
            | inl full ↦
                rw full
                  (validate-Holds {P = P} id columns self (f ctx.subnets x) ((==_iff _ _).0 full) h)
            | inr short ↦ rw short (
                replace-Holds {P = P} id (record ctx { subnets = columns }) self (f ctx.subnets x)
                  free h)
          ])
  ]
