-- ===== src/Sdp/Runs.antt =====
-- What an action comes to and the state that it leaves.
use nomos_node.Prelude.{◌≡◌, refl, Outcome, ok, err, panic, timeout}
use nomos_node.Sdp.Action.{Action, continue}

-- A run ends well with `Q`, or fails in a state that is `Safe`.
abbrev pub Run {ℓ} : {S E A : Type ℓ} → (S → Type 0) → (A → S → Type 0) → Outcome E A × S → Type 0
Run safe q (ok a, t) = q a t
Run safe q (_, t) = safe t

pub continue-Run {ℓ} :
    {S E A B : Type ℓ} (safe : S → Type 0) (q : A → S → Type 0) (r : B → S → Type 0)
    (x : Outcome E A) (t : S) (k : A → Action S E B)
    → Run safe q (x, t)
    → ((a : A) (u : S) → q a u → Run safe r (k a u))
    → Run safe r (continue x k t)
continue-Run safe q r (ok a) t k h f = f a t h
continue-Run safe q r (err e) t k h f = h
continue-Run safe q r panic t k h f = h
continue-Run safe q r timeout t k h f = h

pub lift-Run {ℓ} :
    {S E A B : Type ℓ} (safe : S → Type 0) (r : B → S → Type 0) (x : Outcome E A) (t : S)
    (k : A → Action S E B)
    → safe t
    → ((a : A) → x ≡ ok a → Run safe r (k a t))
    → Run safe r (continue x k t)
lift-Run safe r (ok a) t k h f = f a refl
lift-Run safe r (err e) t k h f = h
lift-Run safe r panic t k h f = h
lift-Run safe r timeout t k h f = h

pub Run-map {ℓ} :
    {S E A : Type ℓ} {safe safe' : S → Type 0} {q q' : A → S → Type 0} (x : Outcome E A × S)
    → ((t : S) → safe t → safe' t)
    → ((a : A) (t : S) → q a t → q' a t)
    → Run safe q x
    → Run safe' q' x
Run-map (ok a, t) f g h = g a t h
Run-map (err e, t) f g h = f t h
Run-map (panic, t) f g h = f t h
Run-map (timeout, t) f g h = f t h
