-- ===== src/Sampling/Reports.antt =====
-- nomos-services/data-availability/sampling/src/backend/kzgrs.rs: what the calls of `KzgrsSamplingBackend` keep of its
-- tracked and its validated blobs, and what a validated blob has behind it.
use nomos_node.Prelude.{
  ℕ, ◌≡◌, refl, sym, ap, subst, ◌∙◌, inl, inr, true, false, none, List, [], ◌∷◌, arith, ◌==◌,
  if◌then◌else◌, ==_iff, Bool-cases, Option-cases, nat_eq, length, All, In,
}
use nomos_node.Prelude.Map
use nomos_node.Prelude.Map.{
  Map, get, remove, contains_key, contains, delete, contains-add, contains-delete, contains_key-get,
}
use nomos_node.Prelude.Entries.{In-get}
use nomos_node.Sampling.Backend.{
  Choose, KzgrsSamplingBackendSettings, KzgrsSamplingBackend, new, prune_by_time, prune,
  mark_completed, credit, handle_sampling_success, handle_sampling_error, start_sampling,
  init_sampling, add_commitments, Call, initiate, succeed, fail, complete, prune_old, commit,
  handle, after,
}
use nomos_node.Sampling.Tracked.{
  Distinct, Holds, Holds-map, prune-Holds, settings-mark_completed, complete-Holds, fail-Holds,
  init-Holds, commit-Holds, succeed-Holds,
}

module _ {rand : Choose} {C : Type 0} where
  settings-handle :
      (call : Call C) (self : KzgrsSamplingBackend rand C)
      → (handle call self).settings ≡ self.settings
  unfolding handle init_sampling start_sampling handle_sampling_success credit handle_sampling_error
      prune prune_by_time add_commitments
  settings-handle (initiate now id) self = ground arith
  settings-handle (succeed id column) self = ground arith
  settings-handle (fail id) self = ground arith
  settings-handle (complete ids) self = settings-mark_completed ids self
  settings-handle (prune_old now) self = refl
  settings-handle (commit id c) self = ground arith

settings-after :
    (rand : Choose) {C : Type 0} (settings : KzgrsSamplingBackendSettings) (rng : rand.Rng)
    (calls : List (Call C))
    → (after {rand = rand} settings rng calls).settings ≡ settings
unfolding after new
settings-after rand settings rng [] = refl
settings-after rand settings rng (call ∷ calls) =
    settings-handle call (after settings rng calls) ∙ settings-after rand settings rng calls

-- The columns whose sampling was reported for a blob since it was last completed, in a history with
-- the latest call first.
unfoldable pub reports : {C : Type 0} → ℕ → List (Call C) → List ℕ
reports b [] = []
reports b (succeed id column ∷ calls) =
    let rest = reports b calls in if id == b then column ∷ rest else rest
reports b (complete ids ∷ calls) = let rest = reports b calls in if contains b ids then [] else rest
reports b (_ ∷ calls) = reports b calls

-- Distinct columns, all reported.
abbrev Backed : {C : Type 0} → List (Call C) → ℕ → List ℕ → Type 0
Backed calls b columns = Distinct columns × All (λ c. In c (reports b calls)) columns

Distinct-add : (k : ℕ) (s : List ℕ) → Distinct s → Distinct (Map.add k s)
unfolding Map.add
Distinct-add k s d = elim (Bool-cases (contains k s)) [
  | inl here ↦ rw (here, Map.add) d
  | inr absent ↦ rw (absent, Map.add) (absent, d)
]

All-map {ℓ κ} :
    {A : Type ℓ} {P Q : A → Type κ} → ((a : A) → P a → Q a) → (xs : List A) → All P xs → All Q xs
All-map f [] h = tt
All-map f (x ∷ xs) h = (f x h.0, All-map f xs h.1)

All-add {κ} : (P : ℕ → Type κ) (k : ℕ) (s : List ℕ) → P k → All P s → All P (Map.add k s)
unfolding Map.add
All-add P k s x h = elim (Bool-cases (contains k s)) [
  | inl here ↦ rw (here, Map.add) h
  | inr absent ↦ rw (absent, Map.add) (x, h)
]

reports-complete :
    {C : Type 0} (b : ℕ) (ids : List ℕ) (calls : List (Call C))
    → contains b ids ≡ false
    → reports b (complete ids ∷ calls) ≡ reports b calls
unfolding reports
reports-complete b ids calls h = rw h refl

In-reports_later :
    {C : Type 0} (b id column c : ℕ) (calls : List (Call C))
    → In c (reports b calls)
    → In c (reports b (succeed id column ∷ calls))
unfolding reports
In-reports_later b id column c calls h = elim (Bool-cases (id == b)) [
  | inl same ↦ rw (same, reports) (inr h)
  | inr other ↦ rw (other, reports) h
]

In-reports_now :
    {C : Type 0} (id column : ℕ) (calls : List (Call C))
    → In column (reports id (succeed id column ∷ calls))
unfolding reports
In-reports_now id column calls =
    let same : (id == id) ≡ true = (==_iff id id).1 refl in rw (same, reports) (inl refl)

after-Holds :
    (rand : Choose) {C : Type 0} (settings : KzgrsSamplingBackendSettings) (rng : rand.Rng)
    (calls : List (Call C))
    → Holds (Backed calls) (after {rand = rand} settings rng calls)
unfolding after new handle reports contains
after-Holds rand settings rng [] = (λ b ctx i. elim i [ ], λ b h. absurd cc)
after-Holds rand settings rng (initiate now id ∷ calls) =
    init-Holds now id (after settings rng calls) (tt, tt) (after-Holds rand settings rng calls)
after-Holds rand settings rng (fail id ∷ calls) =
    fail-Holds id (after settings rng calls) (after-Holds rand settings rng calls)
after-Holds rand settings rng (prune_old now ∷ calls) =
    prune-Holds now (after settings rng calls) (after-Holds rand settings rng calls)
after-Holds rand settings rng (commit id c ∷ calls) =
    commit-Holds id c (after settings rng calls) (after-Holds rand settings rng calls)
after-Holds rand settings rng (complete ids ∷ calls) =
    Holds-map (mark_completed ids (after {rand = rand} settings rng calls))
      (λ b s x.
        (x.0.0, subst (λ l. All (λ c. In c l) s) (sym (reports-complete b ids calls x.1)) x.0.1))
      (complete-Holds ids (after settings rng calls) (after-Holds rand settings rng calls))
after-Holds rand settings rng (succeed id column ∷ calls) =
    succeed-Holds {P = Backed (succeed id column ∷ calls)} id column (after settings rng calls)
      (λ s x. (
        Distinct-add column s x.0,
        All-add (λ c. In c (reports id (succeed id column ∷ calls))) column s
            (In-reports_now id column calls) x.1,
      ))
      (Holds-map (after settings rng calls)
        (λ b s x. (x.0, All-map (λ c. In-reports_later b id column c calls) s x.1))
        (after-Holds rand settings rng calls))

-- After any calls on a new backend, a validated blob has as many distinct columns as the settings
-- ask for, each reported as sampled since the blob was last completed, and is not pending any more.
pub validated-Backed :
    (rand : Choose) {C : Type 0} (settings : KzgrsSamplingBackendSettings) (rng : rand.Rng)
    (calls : List (Call C)) (blob_id : ℕ)
    → contains blob_id (after {rand = rand} settings rng calls).validated_blobs ≡ true
    → ((columns : List ℕ) × Distinct columns
        × (length columns ≡ settings.num_samples)
        × All (λ c. In c (reports blob_id calls)) columns)
      × (get blob_id (after {rand = rand} settings rng calls).pending_sampling_blobs ≡ none)
validated-Backed rand settings rng calls blob_id h =
    let (tracked, validated) = after-Holds rand settings rng calls in
    let (columns, (distinct, reported), full) = validated blob_id h in
    (
      (
        columns,
        distinct,
        full ∙ ap (λ s. s.num_samples) (settings-after rand settings rng calls),
        reported,
      ),
      elim (Option-cases
          (get blob_id (after {rand = rand} settings rng calls).pending_sampling_blobs)) [
            | inl nothing ↦ nothing
            | inr (ctx, here) ↦
                absurd (let both = (tracked blob_id ctx (In-get blob_id ctx _ here)).1 in cc)
          ],
    )
