-- ===== src/Prelude/Arrays.antt =====
-- `Vec`: reads and writes by index, the end of a vector, and sums over its elements.
use Prim.Native.Nat.{ℕ, zero, suc, ◌+◌, ◌≤◌, ◌<◌}
use mathlib.Core.Path.{◌≡◌, refl, ap, ◌∙◌}
use mathlib.Core.Option.{Option, none, some}
use mathlib.Core.List.{List, [], ◌∷◌, ◌++◌}
use native.Mathlib.Omega.{arith}
use nomos_node.Prelude.Lists.{length}

module _ {ℓ} {A : Type ℓ} where
  abbrev pub get_elem? : List A → ℕ → Option A
  get_elem? [] i = none
  get_elem? (x ∷ xs) zero = some x
  get_elem? (x ∷ xs) (suc i) = get_elem? xs i

  abbrev pub set : List A → ℕ → A → List A
  set [] i v = []
  set (x ∷ xs) zero v = v ∷ xs
  set (x ∷ xs) (suc i) v = x ∷ set xs i v

  -- The last element, after a first one.
  abbrev pub last : A → List A → A
  last x [] = x
  last x (y ∷ xs) = last y xs

  -- All but the last element.
  abbrev pub init : List A → List A
  init [] = []
  init (x ∷ []) = []
  init (x ∷ y ∷ xs) = x ∷ init (y ∷ xs)

  -- `Vec::swap_remove`, in range: the last element takes the place of the one removed.
  unfoldable pub swap_remove : List A → ℕ → List A
  swap_remove [] i = []
  swap_remove (x ∷ xs) i = init (set (x ∷ xs) i (last x xs))

  abbrev pub sum_of : (A → ℕ) → List A → ℕ
  sum_of f [] = 0
  sum_of f (x ∷ xs) = f x + sum_of f xs

  pub sum_of-append : (f : A → ℕ) (xs ys : List A) → sum_of f (xs ++ ys) ≡ sum_of f xs + sum_of f ys
  sum_of-append f [] ys = omega arith
  sum_of-append f (x ∷ xs) ys = omega (arith, sum_of-append f xs ys)

  pub get_elem?-lt : (xs : List A) (i : ℕ) → i < length xs → (x : A) × (get_elem? xs i ≡ some x)
  get_elem?-lt [] i h = absurd (omega arith)
  get_elem?-lt (x ∷ xs) zero h = (x, refl)
  get_elem?-lt (x ∷ xs) (suc i) h = get_elem?-lt xs i (omega arith)

  sum_of-set :
      (f : A → ℕ) (xs : List A) (i : ℕ) (x v : A)
      → get_elem? xs i ≡ some x
      → sum_of f (set xs i v) + f x ≡ sum_of f xs + f v
  sum_of-set f [] i x v h = absurd (cc)
  sum_of-set f (y ∷ xs) zero x v h = ground arith
  sum_of-set f (y ∷ xs) (suc i) x v h = omega (arith, sum_of-set f xs i x v h)

  sum_of-init :
      (f : A → ℕ) (x : A) (xs : List A)
      → sum_of f (init (x ∷ xs)) + f (last x xs) ≡ sum_of f (x ∷ xs)
  sum_of-init f x [] = omega arith
  sum_of-init f x (y ∷ xs) = omega (arith, sum_of-init f y xs)

  -- The last element stays when any place is given a copy of it.
  last-set : (x : A) (xs : List A) (i : ℕ) → last x (set xs i (last x xs)) ≡ last x xs
  last-set x [] i = refl
  last-set x (y ∷ []) zero = refl
  last-set x (y ∷ []) (suc i) = refl
  last-set x (y ∷ z ∷ xs) zero = refl
  last-set x (y ∷ z ∷ xs) (suc i) = last-set y (z ∷ xs) i

  pub sum_of-swap_remove :
      (f : A → ℕ) (xs : List A) (i : ℕ) (x : A)
      → get_elem? xs i ≡ some x
      → sum_of f (swap_remove xs i) + f x ≡ sum_of f xs
  unfolding swap_remove
  sum_of-swap_remove f [] i x h = absurd (cc)
  sum_of-swap_remove f (y ∷ []) zero x h = ground arith
  sum_of-swap_remove f (y ∷ z ∷ xs) zero x h =
      omega (arith, sum_of-init f (last z xs) (z ∷ xs), sum_of-set f (y ∷ z ∷ xs) 0 x (last z xs) h)
  sum_of-swap_remove f (y ∷ xs) (suc i) x h = omega (
    arith,
    sum_of-init f y (set xs i (last y xs)),
    ap f (last-set y xs i),
    sum_of-set f xs i x (last y xs) h,
  )

  length-set : (xs : List A) (i : ℕ) (v : A) → length (set xs i v) ≡ length xs
  length-set [] i v = refl
  length-set (x ∷ xs) zero v = refl
  length-set (x ∷ xs) (suc i) v = ap suc (length-set xs i v)

  length-init : (xs : List A) → 0 < length xs → length (init xs) + 1 ≡ length xs
  length-init [] h = absurd (omega arith)
  length-init (x ∷ []) h = omega arith
  length-init (x ∷ y ∷ xs) h = omega (arith, length-init (y ∷ xs))

  pub length-swap_remove :
      (xs : List A) (i : ℕ) → 0 < length xs → length (swap_remove xs i) + 1 ≡ length xs
  unfolding swap_remove
  length-swap_remove [] i h = absurd (omega arith)
  length-swap_remove (x ∷ xs) i h =
      omega (arith, length-init (set (x ∷ xs) i (last x xs)), length-set (x ∷ xs) i (last x xs))

  get_elem?-init :
      (xs : List A) (j : ℕ) → j + 1 < length xs → get_elem? (init xs) j ≡ get_elem? xs j
  get_elem?-init [] j h = refl
  get_elem?-init (x ∷ []) j h = absurd (omega arith)
  get_elem?-init (x ∷ y ∷ xs) zero h = refl
  get_elem?-init (x ∷ y ∷ xs) (suc j) h = get_elem?-init (y ∷ xs) j (omega arith)

  get_elem?-set_lt :
      (xs : List A) (i j : ℕ) (v : A) → j < i → get_elem? (set xs i v) j ≡ get_elem? xs j
  get_elem?-set_lt [] i j v h = refl
  get_elem?-set_lt (x ∷ xs) zero j v h = absurd (omega arith)
  get_elem?-set_lt (x ∷ xs) (suc i) zero v h = refl
  get_elem?-set_lt (x ∷ xs) (suc i) (suc j) v h = get_elem?-set_lt xs i j v (omega arith)

  -- What stands before the place is not moved.
  pub get_elem?-swap_remove :
      (xs : List A) (i j : ℕ)
      → j < i
      → i < length xs
      → get_elem? (swap_remove xs i) j ≡ get_elem? xs j
  unfolding swap_remove
  get_elem?-swap_remove [] i j h k = refl
  get_elem?-swap_remove (x ∷ xs) i j h k =
      get_elem?-init (set (x ∷ xs) i (last x xs)) j
        (omega (arith, length-set (x ∷ xs) i (last x xs)))
      ∙ get_elem?-set_lt (x ∷ xs) i j (last x xs) h

  pub lt_of_get_elem? : (xs : List A) (i : ℕ) (x : A) → get_elem? xs i ≡ some x → i < length xs
  lt_of_get_elem? [] i x h = absurd (cc)
  lt_of_get_elem? (y ∷ xs) zero x h = omega arith
  lt_of_get_elem? (y ∷ xs) (suc i) x h = omega (arith, lt_of_get_elem? xs i x h)

  pub le_of_get_elem? : (xs : List A) (i : ℕ) → get_elem? xs i ≡ none → length xs ≤ i
  le_of_get_elem? [] i h = omega arith
  le_of_get_elem? (y ∷ xs) zero h = absurd (cc)
  le_of_get_elem? (y ∷ xs) (suc i) h = omega (arith, le_of_get_elem? xs i h)
