-- ===== src/Mempool/Keys.antt =====
-- nomos-services/mempool/src/backend/mockpool/mod.rs: what the loops over keys leave of each key, and the pool
-- after each operation as a status for each key.
use nomos_node.Prelude.{
  ℕ, ◌≡◌, refl, ◌⊎◌, inl, inr, Bool, true, false, Option, none, some, List, [], ◌∷◌, ◌++◌, arith,
  if◌then◌else◌, Option-cases, Eq, nat_eq,
}
use nomos_node.Prelude.Map
use nomos_node.Prelude.Map.{
  Map, get, remove, contains, contains_key, get-insert, get-remove, contains_key-get,
}
use nomos_node.Mempool.Pool.{
  in_block, MockPool, add_item, take_items, extend, mark_in_block, remove_all, prune, status_of,
}
use nomos_node.Mempool.Statuses.{Statuses, admit, admission, forget}

abbrev is_some {ℓ} : {A : Type ℓ} → Option A → Bool
is_some none = false
is_some (some a) = true

module _ {Key Val : Type 0} ⦃ek : Eq Key⦄ where
  get-remove_all :
      (keys : List Key) (m : Map Key Val) (k : Key)
      → get k (remove_all keys m) ≡ (if contains k keys then none else get k m)
  unfolding remove_all contains
  get-remove_all [] m k = refl
  get-remove_all (j ∷ keys) m k =
      ground (arith, get-remove_all keys (remove j m) k, get-remove j k m)

  -- What the loop leaves pending.
  get-take_items :
      (keys : List Key) (m : Map Key Val) (items : List Val) (k : Key)
      → get k (take_items keys m items).0 ≡ (if contains k keys then none else get k m)
  unfolding take_items contains
  get-take_items [] m items k = refl
  get-take_items (j ∷ keys) m items k = elim (Option-cases (get j m)) [
    | inl nothing ↦
        rw (nothing, take_items) (ground (arith, get-take_items keys m items k, ek.beq_iff j k))
    | inr (item, here) ↦
        rw (here, take_items)
          (ground
            (arith, get-take_items keys (remove j m) (items ++ (item ∷ [])) k, get-remove j k m))
  ]

  get-extend :
      (keys : List Key) (v : Val) (m : Map Key Val) (k : Key)
      → get k (extend keys v m) ≡ (if contains k keys then some v else get k m)
  unfolding extend contains
  get-extend [] v m k = refl
  get-extend (j ∷ keys) v m k =
      ground (arith, get-extend keys v (Map.insert j v m) k, get-insert j k v m)

-- A pool has the statuses, and no pending key in a block.
abbrev pub Implements :
    {Key Item BlockId : Type 0} ⦃ek : Eq Key⦄
    → MockPool Key Item BlockId
    → Statuses Key BlockId
    → Type 0
Implements pool s =
    (k : _)
    → (status_of pool k ≡ s k)
      × ((get k pool.pending_items ≡ none) ⊎ (get k pool.in_block_items_by_id ≡ none))

module _ {Key Item BlockId : Type 0} ⦃ek : Eq Key⦄ where
  pub add_item-Implements :
      (now : ℕ) (pool : MockPool Key Item BlockId) (key : Key) (item : Item)
      (s : Statuses Key BlockId)
      → Implements pool s
      → ((add_item now pool key item).0 ≡ admission (s key))
        × Implements (add_item now pool key item).1 (λ k. if ek.beq key k then admit (s k) else s k)
  unfolding add_item status_of admission admit
  add_item-Implements now pool key item s h = (
    ground (
      arith,
      h key,
      contains_key-get key pool.pending_items,
      contains_key-get key pool.in_block_items_by_id,
    ),
    λ k. (
      ground (
        arith,
        h key,
        h k,
        ek.beq_iff key k,
        contains_key-get key pool.pending_items,
        contains_key-get key pool.in_block_items_by_id,
        contains_key-get k pool.pending_items,
        contains_key-get k (Map.insert key item pool.pending_items),
        get-insert key k item pool.pending_items,
      ),
      ground (
        arith,
        h key,
        h k,
        ek.beq_iff key k,
        contains_key-get key pool.pending_items,
        contains_key-get key pool.in_block_items_by_id,
        get-insert key k item pool.pending_items,
      ),
    ),
  )

  pub prune-Implements :
      (pool : MockPool Key Item BlockId) (keys : List Key) (s : Statuses Key BlockId)
      → Implements pool s
      → Implements (prune pool keys) (λ k. if contains k keys then forget (s k) else s k)
  unfolding prune status_of forget
  prune-Implements pool keys s h k = (
    ground (
      arith,
      h k,
      contains_key-get k pool.pending_items,
      contains_key-get k (remove_all keys pool.pending_items),
      get-remove_all keys pool.pending_items k,
    ),
    ground (arith, h k, get-remove_all keys pool.pending_items k),
  )

  pub mark-Implements :
      ⦃eb : Eq BlockId⦄ (pool : MockPool Key Item BlockId) (keys : List Key) (block : BlockId)
      (s : Statuses Key BlockId)
      → Implements pool s
      → Implements
          (mark_in_block pool keys block)
          (λ k. if contains k keys then in_block block else s k)
  unfolding mark_in_block status_of
  mark-Implements pool keys block s h k =
      let left = (take_items keys pool.pending_items []).0 in
      (
        ground (
          arith,
          h k,
          contains_key-get k pool.pending_items,
          contains_key-get k left,
          get-take_items keys pool.pending_items [] k,
          get-extend keys block pool.in_block_items_by_id k,
        ),
        ground (
          arith,
          h k,
          get-take_items keys pool.pending_items [] k,
          get-extend keys block pool.in_block_items_by_id k,
        ),
      )
