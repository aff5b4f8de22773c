-- ===== src/Prelude/Map.antt =====
-- `HashMap` and `HashSet`: association lists and lists, read by their laws. The order of a Rust
-- table's iteration is not specified; where the code iterates, the order is an argument.
use mathlib.Core.Path.{◌≡◌, refl}
use mathlib.Core.Bool.{Bool, true, false, ◌||◌}
use mathlib.Core.Option.{Option, none, some}
use mathlib.Core.List.{List, [], ◌∷◌}
use native.Mathlib.Omega.{arith}
use nomos_node.Prelude.Tests.{Eq, if◌then◌else◌}

abbrev pub Map {ℓ κ} : Type ℓ → Type κ → Type (ℓ ⊔ κ)
Map K V = List (K × V)

module _ {ℓ κ} {K : Type ℓ} {V : Type κ} ⦃e : Eq K⦄ where
  unfoldable pub get : K → Map K V → Option V
  get k [] = none
  get k ((j, v) ∷ m) = if e.beq j k then some v else get k m

  unfoldable pub insert : K → V → Map K V → Map K V
  insert k v [] = (k, v) ∷ []
  insert k v ((j, w) ∷ m) = if e.beq j k then (k, v) ∷ m else (j, w) ∷ insert k v m

  unfoldable pub remove : K → Map K V → Map K V
  remove k [] = []
  remove k ((j, w) ∷ m) = let rest = remove k m in if e.beq j k then rest else (j, w) ∷ rest

  unfoldable pub contains_key : K → Map K V → Bool
  contains_key k [] = false
  contains_key k ((j, w) ∷ m) = e.beq j k || contains_key k m

  pub get-insert :
      (k j : K) (v : V) (m : Map K V)
      → get j (insert k v m) ≡ (if e.beq k j then some v else get j m)
  unfolding get insert
  get-insert k j v [] = refl
  get-insert k j v ((i, w) ∷ m) =
      ground (arith, e.beq_iff k j, e.beq_iff i k, e.beq_iff i j, get-insert k j v m)

  pub get-remove :
      (k j : K) (m : Map K V) → get j (remove k m) ≡ (if e.beq k j then none else get j m)
  unfolding get remove
  get-remove k j [] = ground arith
  get-remove k j ((i, w) ∷ m) =
      ground (arith, e.beq_iff k j, e.beq_iff i k, e.beq_iff i j, get-remove k j m)

  pub contains_key-get :
      (k : K) (m : Map K V) → contains_key k m ≡ (elim (get k m) [ none ↦ false | some _ ↦ true ])
  unfolding get contains_key
  contains_key-get k [] = refl
  contains_key-get k ((j, w) ∷ m) = ground (arith, contains_key-get k m)

module _ {ℓ} {K : Type ℓ} ⦃e : Eq K⦄ where
  unfoldable pub contains : K → List K → Bool
  contains k [] = false
  contains k (j ∷ s) = e.beq j k || contains k s

  unfoldable pub add : K → List K → List K
  unfolding contains
  add k s = if contains k s then s else k ∷ s

  unfoldable pub delete : K → List K → List K
  delete k [] = []
  delete k (j ∷ s) = let rest = delete k s in if e.beq j k then rest else j ∷ rest

  pub contains-add : (k j : K) (s : List K) → contains j (add k s) ≡ (e.beq k j || contains j s)
  unfolding add
  contains-add k j s = ground (arith, e.beq_iff k j)

  pub contains-delete :
      (k j : K) (s : List K) → contains j (delete k s) ≡ (if e.beq k j then false else contains j s)
  unfolding contains delete
  contains-delete k j [] = ground arith
  contains-delete k j (i ∷ s) =
      ground (arith, e.beq_iff k j, e.beq_iff i k, e.beq_iff i j, contains-delete k j s)
