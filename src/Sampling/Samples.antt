-- ===== src/Sampling/Samples.antt =====
-- A blob that is sampled in two columns.
use nomos_node.Prelude.{
  ℕ, zero, suc, ◌≤◌, ◌≡◌, refl, ap, true, false, none, List, [], ◌∷◌, arith, ==_iff, nat_eq, length,
  All, In,
}
use nomos_node.Prelude.Map
use nomos_node.Prelude.Map.{get, contains}
use nomos_node.Sampling.Backend.{
  Choose, init, KzgrsSamplingBackendSettings, KzgrsSamplingBackend, new, Call, initiate, succeed,
  handle, after, init_sampling, start_sampling, handle_sampling_success, credit, sampled_context,
}
use nomos_node.Sampling.Tracked.{Distinct}
use nomos_node.Sampling.Reports.{reports, validated-Backed}
use nomos_node.Sampling.Progress.{Documented, succeed_all, init_sampling-Validates}

-- The numbers below the amount, highest first.
abbrev down_from : ℕ → List ℕ
down_from zero = []
down_from (suc n) = n ∷ down_from n

abbrev highest : Choose
highest = record { Rng = Unit {0}; choose_multiple = λ rng n amount. (down_from amount, rng) }

absent_above : (k n : ℕ) → n ≤ k → contains k (down_from n) ≡ false
unfolding contains
absent_above k zero h = refl
absent_above k (suc n) h = ground (arith, absent_above k n, ==_iff n k)

documented : Documented highest
documented rng n amount h = (distinct amount, counted amount)
  where
    distinct : (m : ℕ) → Distinct (down_from m)
    distinct zero = tt
    distinct (suc m) = (absent_above m m (omega arith), distinct m)

    counted : (m : ℕ) → length (down_from m) ≡ m
    counted zero = refl
    counted (suc m) = ap suc (counted m)

abbrev settings : KzgrsSamplingBackendSettings
settings = record {
  num_samples = 2;
  num_subnets = 4;
  old_blobs_check_interval = 10;
  blobs_validity_duration = 100;
}

abbrev calls : List (Call ℕ)
calls = succeed 5 3 ∷ succeed 5 1 ∷ succeed 5 1 ∷ initiate 0 5 ∷ []

validated_runs : contains 5 (after {rand = highest} settings tt calls).validated_blobs ≡ true
unfolding contains after new handle init_sampling start_sampling handle_sampling_success credit
    sampled_context get Map.insert Map.remove Map.add Map.contains_key
validated_runs = refl

validated-Backed_example :
    ((columns : List ℕ) × Distinct columns
      × (length columns ≡ 2)
      × All (λ c. In c (reports 5 calls)) columns)
    × (get 5 (after {rand = highest} settings tt calls).pending_sampling_blobs ≡ none)
validated-Backed_example = validated-Backed highest settings tt calls 5 validated_runs

abbrev fresh : KzgrsSamplingBackend highest ℕ
fresh = record { settings = settings; validated_blobs = []; pending_sampling_blobs = []; rng = tt }

untracked : get 5 fresh.pending_sampling_blobs ≡ none
unfolding get
untracked = refl

not_validated : contains 5 fresh.validated_blobs ≡ false
unfolding contains
not_validated = refl

init_sampling-Validates_example :
    (subnets : List ℕ) × ((init_sampling 0 5 fresh).0 ≡ init subnets)
    × (contains 5 (succeed_all 5 subnets (init_sampling 0 5 fresh).1).validated_blobs ≡ true)
init_sampling-Validates_example =
    init_sampling-Validates documented 0 5 fresh (omega arith) (omega arith) untracked not_validated
