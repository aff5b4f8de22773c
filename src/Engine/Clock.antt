-- ===== src/Engine/Clock.antt =====
-- consensus/cryptarchia-engine/src/time.rs: the clock's slot, and the start of the next one.
use nomos_node.Prelude.{
  ℕ, ◌+◌, ◌*◌, ◌/◌, ◌%◌, ◌≤◌, ◌<◌, ◌≡◌, ap, ◌∙◌, ◌⊎◌, false, arith, ltb, leb, ◌==◌, if◌then◌else◌,
  lt_or_le, inl, inr, nat_eq, u32_size, u64_size, add64, add64-exact, div_bounds, div_unique, ok,
  panic,
}
use nomos_node.Engine.Time.{
  SinceStart, nanos, div64, from_offset_and_config, times_duration, next_slot_start,
}

-- A moment that many whole seconds after the chain's start.
abbrev pub after : ℕ → SinceStart
after secs = record { is_negative = false; whole_seconds = secs }

whole_secs : (d : ℕ) → d * nanos / nanos ≡ d
whole_secs d = div_unique (d * nanos) nanos d (omega arith) (omega arith) (omega arith)

-- With slots of `d` whole seconds, at a moment after the chain's start whose next slot's number fits 32 bits, the
-- current slot is the one that has started and not ended. The next slot is said to start at its end, where the
-- seconds of that moment fit 64 bits and it is no later than the latest date; else there is a panic.
pub next_slot_start_lem {ℓ} :
    {E : Type ℓ} (secs d latest : ℕ)
    → 0 < d
    → secs / d + 1 < u32_size
    → (n : ℕ) × (from_offset_and_config {E = E} (after secs) (d * nanos) ≡ ok n)
      × (n * d ≤ secs)
      × (secs < (n + 1) * d)
      × ((((n + 1) * d < u64_size)
            × ((n + 1) * d * nanos ≤ latest)
            × (next_slot_start {E = E} latest (after secs) (d * nanos) ≡ ok ((n + 1) * d * nanos)))
          ⊎ (((u64_size ≤ (n + 1) * d) ⊎ (latest < (n + 1) * d * nanos))
              × (next_slot_start {E = E} latest (after secs) (d * nanos) ≡ panic)))
unfolding from_offset_and_config next_slot_start times_duration div64
next_slot_start_lem {E} secs d latest pos fits =
    let b = div_bounds secs d pos in
    let mod_small : (secs / d + 1) % u32_size ≡ secs / d + 1 = omega arith in
    let exact : add64 (secs / d) 1 % u32_size ≡ secs / d + 1 =
      ap (λ x. x % u32_size) (add64-exact (secs / d) 1 (omega arith)) ∙ mod_small in
    let nonzero : (d == 0) ≡ false = ground arith in
    let turned : d * nanos * (secs / d + 1) ≡ (secs / d + 1) * d * nanos = grind arith in
    let e = (secs / d + 1) * d in
    let start : next_slot_start {E = E} latest (after secs) (d * nanos) ≡ (
        if ltb e u64_size
        then (if leb (e * nanos) latest then ok (e * nanos) else panic)
        else panic) =
      rw (whole_secs d) (rw nonzero (rw exact (rw turned (rw (whole_secs e) (ground arith))))) in
    (
      secs / d,
      rw (whole_secs d) (rw nonzero),
      b.0,
      b.1,
      elim (lt_or_le e u64_size) [
        | inr wide ↦ inr (inl wide, ground (arith, start))
        | inl short ↦ elim (lt_or_le latest (e * nanos)) [
          | inl late ↦ inr (inr late, ground (arith, start))
          | inr early ↦ inl (short, early, ground (arith, start))
        ]
      ],
    )
