-- ===== src/Sdp/Action.antt =====
-- Methods that change an object and may fail: the object comes back beside an error too.
use nomos_node.Prelude.{Outcome, ok, err, panic, timeout, Bool, true, false}

abbrev pub Action {ℓ} : Type ℓ → Type ℓ → Type ℓ → Type ℓ
Action S E A = S → Outcome E A × S

module _ {ℓ} {S E A B : Type ℓ} where
  abbrev pub continue : Outcome E A → (A → Action S E B) → Action S E B
  continue (ok a) f s = f a s
  continue (err e) f s = (err e, s)
  continue panic f s = (panic, s)
  continue timeout f s = (timeout, s)

  infixl 5 ◌>>=◌ ◌>>◌
  abbrev pub ◌>>=◌ : Action S E A → (A → Action S E B) → Action S E B
  ◌>>=◌ m f s = continue (m s).0 f (m s).1

  abbrev pub ◌>>◌ : Action S E A → Action S E B → Action S E B
  m >> k = m >>= λ _. k

module _ {ℓ} {S E A : Type ℓ} where
  abbrev pub pure : A → Action S E A
  pure a s = (ok a, s)

  abbrev pub fail : E → Action S E A
  fail e s = (err e, s)

  abbrev pub lift : Outcome E A → Action S E A
  lift o s = (o, s)

  abbrev pub gets : (S → A) → Action S E A
  gets f s = (ok (f s), s)

-- `if test { return Err(e) }`
abbrev pub refuse : {S E : Type 0} → Bool → E → Action S E (Unit {0})
refuse true e s = (err e, s)
refuse false e s = (ok tt, s)
