-- ===== src/Prelude/Outcomes.antt =====
-- What a call comes to: Rust's `Result`, and beside it a panic. `timeout` is no behaviour of the
-- code: a loop's fuel ran out, and a theorem about the loop shows when it does not.
use mathlib.Core.Path.{◌≡◌, refl, ap}
use native.Mathlib.Omega.{arith}
use mathlib.Core.Option.{Option, none, some}
use mathlib.Core.Bool.{Bool, true, false}

pub data Outcome {ℓ κ} (E : Type ℓ) (A : Type κ) : Type (ℓ ⊔ κ) where
  ok : A → Outcome E A
  err : E → Outcome E A
  panic : Outcome E A
  timeout : Outcome E A

infixl 5 ◌>>=◌ ◌>>◌
abbrev pub ◌>>=◌ {ℓ κ ξ} :
    {E : Type ℓ} {A : Type κ} {B : Type ξ} → Outcome E A → (A → Outcome E B) → Outcome E B
ok a >>= f = f a
err e >>= f = err e
panic >>= f = panic
timeout >>= f = timeout

abbrev pub ◌>>◌ {ℓ κ ξ} :
    {E : Type ℓ} {A : Type κ} {B : Type ξ} → Outcome E A → Outcome E B → Outcome E B
m >> k = m >>= λ _. k

-- `opt.ok_or(e)?`
abbrev pub ok_or {ℓ κ} : {E : Type ℓ} {A : Type κ} → Option A → E → Outcome E A
ok_or none e = err e
ok_or (some a) e = ok a

-- `opt.unwrap()`, `opt.expect(..)` and `map[&key]`
abbrev pub unwrap {ℓ κ} : {E : Type ℓ} {A : Type κ} → Option A → Outcome E A
unwrap none = panic
unwrap (some a) = ok a

-- `if !test { return Err(e) }`
abbrev pub guard {ℓ} : {E : Type ℓ} → Bool → E → Outcome E (Unit {0})
guard true e = ok tt
guard false e = err e

-- `assert!(test)`
abbrev pub assert {ℓ} : {E : Type ℓ} → Bool → Outcome E (Unit {0})
assert true = ok tt
assert false = panic

-- A call that succeeded has a first part that did.
pub >>=-eq-ok {ℓ κ ξ} :
    {E : Type ℓ} {A : Type κ} {B : Type ξ} (call : Outcome E A) (rest : A → Outcome E B) {v : B}
    → (call >>= rest) ≡ ok v
    → (u : A) × (call ≡ ok u) × (rest u ≡ ok v)
>>=-eq-ok panic rest run = cc
>>=-eq-ok timeout rest run = cc
>>=-eq-ok (err failure) rest run = cc
>>=-eq-ok (ok u) rest run = (u, refl, run)

pub guard-true {ℓ} : {E : Type ℓ} (b : Bool) (e : E) {u : Unit {0}} → guard b e ≡ ok u → b ≡ true
guard-true true e h = refl
guard-true false e h = cc

pub assert-true {ℓ} : {E : Type ℓ} (b : Bool) {u : Unit {0}} → assert {E = E} b ≡ ok u → b ≡ true
assert-true true h = refl
assert-true false h = cc

pub ok-injective {ℓ κ} :
    {E : Type ℓ} {A : Type κ} {a b : A} → ◌≡◌ {A = Outcome E A} (ok a) (ok b) → a ≡ b
ok-injective h = ground arith

pub ok_or-ok {ℓ κ} :
    {E : Type ℓ} {A : Type κ} (o : Option A) (e : E) {a : A} → ok_or o e ≡ ok a → o ≡ some a
ok_or-ok none e h = cc
ok_or-ok (some x) e h = ap some (ok-injective h)
