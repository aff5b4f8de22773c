-- ===== src/Engine/Receive.antt =====
-- consensus/cryptarchia-engine/src/lib.rs, `Cryptarchia::receive_block`: blocks that arrive in any
-- order keep the node's view a tree, and the chain that it is on a chain of that tree.
use nomos_node.Prelude.{
  ℕ, ◌+◌, ◌<◌, ◌≡◌, refl, sym, ap, ap₂, subst, ◌∙◌, ◌⊎◌, inl, inr, true, none, some, List, [], ◌∷◌,
  map, arith, ==_iff, nat_eq, All, In, All-In, u64_size, ok, err,
}
use nomos_node.Prelude.Map.{contains}
use nomos_node.Engine.Time.{FloatOps, Config, s}
use nomos_node.Engine.Branches.{Branch, Branches, Error, parent_missing, fetch_all}
use nomos_node.Engine.Chain.{lookup, IsTree, Known, from_genesis-IsTree}
use nomos_node.Engine.Growth.{Admits, extended, apply_header_lem, extended-IsTree, lookup_kept}
use nomos_node.Engine.Choice.{maxvalid_bg_one_of}
use nomos_node.Engine.Cryptarchia.{Cryptarchia, start, fork_choice, receive_block}

-- The order in which a set is iterated yields the set's elements.
abbrev pub IsOrder : (List ℕ → List ℕ) → Type 0
IsOrder order = (ids : List ℕ) (i : ℕ) → contains i (order ids) ≡ contains i ids

contains-ids :
    (b : Branch) (bs : List Branch) → In b bs → contains b.id (map (λ (x : Branch). x.id) bs) ≡ true
unfolding contains
contains-ids b [] i = elim i [ ]
contains-ids b (x ∷ bs) (inl e) = ground (arith, ap (λ (y : Branch). y.id) e)
contains-ids b (x ∷ bs) (inr i) = ground (arith, contains-ids b bs i)

-- Every id of the list names a block, and the blocks come back in the list's order.
pub fetch_all-Known :
    (bs : Branches) {g : ℕ}
    → IsTree g bs
    → (ids : List ℕ) → ((i : ℕ) → contains i ids ≡ true → (b : Branch) × (lookup bs i ≡ some b))
    → (forks : List Branch) × (fetch_all bs ids ≡ ok forks)
      × All (Known bs) forks
      × (map (λ (b : Branch). b.id) forks ≡ ids)
unfolding fetch_all
fetch_all-Known bs w [] h = ([], refl, tt, refl)
fetch_all-Known bs w (i ∷ ids) h =
    let (b, e) = h i (unfold contains in ground (arith, ==_iff i i)) in
    let (forks, run, known, ids') =
      fetch_all-Known bs w ids (λ j m. h j (unfold contains in ground arith)) in
    let key = w.keyed i b e in
    (b ∷ forks, rw (e, run), (ap (lookup bs) key ∙ e, known), ap₂ ◌∷◌ key ids')

module _ ⦃fl : FloatOps⦄ where
  pub record IsValid (self : Cryptarchia) : Type 0 where
    pub tree : IsTree self.genesis self.branches
    pub local_known : Known self.branches self.local_chain
    pub window : (n : ℕ) × (s {E = Error} self.config ≡ ok n)

  pub start-IsValid : (id : ℕ) (c : Config) (n : ℕ) → s {E = Error} c ≡ ok n → IsValid (start id c)
  unfolding start
  start-IsValid id c n h = record {
    tree = from_genesis-IsTree id;
    local_known = (from_genesis-IsTree id).rooted;
    window = (n, h);
  }

  module _ (order : List ℕ → List ℕ) (shuffles : IsOrder order) where
    -- In a valid state the fork choice returns the chain that the node is on, or a tip's.
    pub fork_choice_total :
        (self : Cryptarchia)
        → IsValid self
        → (r : Branch) × (fork_choice order self ≡ ok r)
          × Known self.branches r
          × ((r ≡ self.local_chain) ⊎ (contains r.id self.branches.tips ≡ true))
    unfolding fork_choice
    fork_choice_total self v =
        let bs = self.branches in
        let (n, e) = v.window in
        let (forks, run, known, ids) =
          fetch_all-Known bs v.tree (order bs.tips)
            (λ i m. v.tree.tips_known i (sym (shuffles bs.tips i) ∙ m)) in
        let (r, run', one) =
          maxvalid_bg_one_of v.tree self.config.security_param n forks self.local_chain
            v.local_known known in
        let known_r : Known bs r = elim one [
          | inl is ↦ subst (Known bs) (sym is) v.local_known
          | inr i ↦ All-In (Known bs) forks known i
        ] in
        (
          r,
          rw (e, run) run',
          known_r,
          elim one [
            | inl is ↦ inl is
            | inr i ↦ inr (
                sym (shuffles bs.tips r.id) ∙ ap (contains r.id) (sym ids) ∙ contains-ids r forks i)
          ],
        )

    -- A valid node receives every block that its tree admits and whose parent `p` it knows, while
    -- lengths fit 64 bits, in whatever order the tips are iterated: the node's state stays valid,
    -- its tree is extended by the block and by nothing else, and the node's chain stays the same
    -- or ends in a tip of the tree.
    pub receive_block-IsValid :
        (self : Cryptarchia) (id parent slot : ℕ) (p : Branch)
        → IsValid self
        → Admits self.genesis self.branches id parent slot
        → lookup self.branches parent ≡ some p
        → p.length + 1 < u64_size
        → (new : Cryptarchia) × (receive_block order self id parent slot ≡ ok new)
          × IsValid new
          × (new.branches ≡ extended self.branches id parent slot p)
          × ((new.local_chain ≡ self.local_chain)
              ⊎ (contains new.local_chain.id new.branches.tips ≡ true))
    unfolding receive_block
    receive_block-IsValid self id parent slot p v a e short =
        let bs = extended self.branches id parent slot p in
        let tree = extended-IsTree v.tree id parent slot p a e short in
        let local =
          lookup_kept v.tree id parent slot p a e short self.local_chain.id self.local_chain
            v.local_known in
        let (r, run, known, one) =
          fork_choice_total (record self { branches = bs })
            (record { tree = tree; local_known = local; window = v.window }) in
        (
          record self { branches = bs; local_chain = r },
          rw (apply_header_lem self.branches id parent slot, e, run),
          record { tree = tree; local_known = known; window = v.window },
          refl,
          one,
        )

    -- A block whose parent is not known is refused with that parent's id.
    pub receive_block-orphan :
        (self : Cryptarchia) (id parent slot : ℕ)
        → lookup self.branches parent ≡ none
        → receive_block order self id parent slot ≡ err (parent_missing parent)
    unfolding receive_block
    receive_block-orphan self id parent slot e =
        rw (apply_header_lem self.branches id parent slot, e)
