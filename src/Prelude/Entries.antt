-- ===== src/Prelude/Entries.antt =====
-- Association lists by their entries.
use mathlib.Core.Path.{◌≡◌, subst}
use mathlib.Core.Logic.{◌⊎◌, inl, inr, ◌≢◌}
use mathlib.Core.Option.{some}
use mathlib.Core.List.{[], ◌∷◌}
use native.Mathlib.Omega.{arith}
use nomos_node.Prelude.Tests.{Eq, if◌then◌else◌, Bool-cases}
use nomos_node.Prelude.Lists.{In}
use nomos_node.Prelude.Map.{Map, get, insert, remove}

module _ {ℓ κ} {K : Type ℓ} {V : Type κ} ⦃e : Eq K⦄ where
  pub In-get : (k : K) (v : V) (m : Map K V) → get k m ≡ some v → In (k, v) m
  unfolding get
  In-get k v [] h = absurd cc
  In-get k v ((j, w) ∷ m) h = elim (Bool-cases (e.beq j k)) [
    | inl here ↦ inl (ground (arith, e.beq_iff j k))
    | inr other ↦ inr (In-get k v m (ground arith))
  ]

  pub In-insert :
      (k j : K) (v w : V) (m : Map K V)
      → In (j, w) (insert k v m)
      → ((k ≡ j) × (v ≡ w)) ⊎ In (j, w) m
  unfolding insert
  In-insert k j v w [] (inl h) = inl (ground arith, ground arith)
  In-insert k j v w [] (inr h) = elim h [ ]
  In-insert k j v w ((i, x) ∷ m) h = elim (Bool-cases (e.beq i k)) [
    | inl here ↦
        elim (subst (λ b. In (j, w) (if b then (k, v) ∷ m else (i, x) ∷ insert k v m)) here h) [
          | inl this ↦ inl (ground arith, ground arith)
          | inr rest ↦ inr (inr rest)
        ]
    | inr other ↦
        elim (subst (λ b. In (j, w) (if b then (k, v) ∷ m else (i, x) ∷ insert k v m)) other h) [
          | inl this ↦ inr (inl this)
          | inr rest ↦ elim (In-insert k j v w m rest) [
            | inl new ↦ inl new
            | inr old ↦ inr (inr old)
          ]
        ]
  ]

  pub In-remove : (k j : K) (w : V) (m : Map K V) → In (j, w) (remove k m) → (k ≢ j) × In (j, w) m
  unfolding remove
  In-remove k j w [] h = elim h [ ]
  In-remove k j w ((i, x) ∷ m) h = elim (Bool-cases (e.beq i k)) [
    | inl here ↦
        let (ne, rest) =
          In-remove k j w m
            (subst (λ b. In (j, w) (if b then remove k m else (i, x) ∷ remove k m)) here h) in
        (ne, inr rest)
    | inr other ↦
        elim (subst (λ b. In (j, w) (if b then remove k m else (i, x) ∷ remove k m)) other h) [
          | inl this ↦ (λ q. ground (arith, e.beq_iff i k), inl this)
          | inr rest ↦ let (ne, old) = In-remove k j w m rest in (ne, inr old)
        ]
  ]
