-- ===== src/Peers/Cooldown.antt =====
-- nomos-da/network/core/src/maintenance/monitor.rs: the table of unhealthy peers has each peer once.
use nomos_node.Prelude.{
  ℕ, ◌≡◌, refl, subst, inl, inr, none, some, [], ◌∷◌, arith, leb, ◌==◌, if◌then◌else◌, ==_iff,
  Bool-cases, nat_eq,
}
use nomos_node.Prelude.Map
use nomos_node.Prelude.Map.{
  Map, get, remove, contains, contains_key, add, delete, get-insert, get-remove, contains_key-get,
  contains-add, contains-delete,
}
use nomos_node.Peers.Monitor.{retain_until}

-- No key twice.
abbrev pub Unique : Map ℕ ℕ → Type 0
Unique [] = Unit
Unique ((k, v) ∷ m) = (get k m ≡ none) × Unique m

pub insert-Unique : (k v : ℕ) (m : Map ℕ ℕ) → Unique m → Unique (Map.insert k v m)
unfolding Map.insert get
insert-Unique k v [] d = (refl, tt)
insert-Unique k v ((j, w) ∷ m) d = elim (Bool-cases (j == k)) [
  | inl same ↦ rw (same, Map.insert) (subst (λ i. get i m ≡ none) ((==_iff j k).0 same) d.0, d.1)
  | inr other ↦
      rw (other, Map.insert)
        (ground (arith, get-insert k j v m, ==_iff k j, ==_iff j k, d), insert-Unique k v m d.1)
]

pub remove-Unique : (k : ℕ) (m : Map ℕ ℕ) → Unique m → Unique (remove k m)
unfolding remove
remove-Unique k [] d = tt
remove-Unique k ((j, w) ∷ m) d = elim (Bool-cases (j == k)) [
  | inl same ↦ rw (same, remove) (remove-Unique k m d.1)
  | inr other ↦ rw (other, remove) (ground (arith, get-remove k j m, d), remove-Unique k m d.1)
]

pub get-retain_until :
    (now p : ℕ) (m : Map ℕ ℕ)
    → Unique m
    → get p (retain_until now m)
      ≡ (elim (get p m) [ none ↦ none | some until ↦ if leb now until then some until else none ])
unfolding retain_until get
get-retain_until now p [] d = refl
get-retain_until now p ((j, w) ∷ m) d =
    ground (arith, get-retain_until now p m d.1, d.0, ==_iff j p)

pub retain_until-Unique : (now : ℕ) (m : Map ℕ ℕ) → Unique m → Unique (retain_until now m)
unfolding retain_until
retain_until-Unique now [] d = tt
retain_until-Unique now ((j, w) ∷ m) d = elim (Bool-cases (leb now w)) [
  | inl kept ↦
      rw (kept, retain_until)
        (ground (arith, get-retain_until now j m d.1, d), retain_until-Unique now m d.1)
  | inr gone ↦ rw (gone, retain_until) (retain_until-Unique now m d.1)
]
