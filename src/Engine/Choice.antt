-- ===== src/Engine/Choice.antt =====
-- consensus/cryptarchia-engine/src/lib.rs, `maxvalid_bg`: what the fork choice rule chooses.
use nomos_node.Prelude.{
  ℕ, ◌+◌, ◌-◌, ◌≤◌, ◌<◌, ◌≡◌, refl, sym, ap, subst, ◌∙◌, ◌⊎◌, inl, inr, List, [], ◌∷◌, arith, ltb,
  leb, if◌then◌else◌, Bool-cases, nat_eq, All, In, add64, sub64-exact, ok,
}
use nomos_node.Engine.Branches.{Branch, Branches}
use nomos_node.Engine.Chain.{IsTree, Known, length-Ancestor}
use nomos_node.Engine.Lowest.{IsLowest, lca-IsLowest}
use nomos_node.Engine.Before.{IsBefore, walk_back_before_lem}
use nomos_node.Engine.Cryptarchia.{denser, prefer, maxvalid_bg}

-- The rule for two chains whose lowest common ancestor is `c`, on the two sides of the depth `k`.
abbrev pub Classic : ℕ → Branch → Branch → Branch → Branch → Type 0
Classic k cmax chain c r =
    (cmax.length ≤ c.length + k) × (r ≡ (if ltb cmax.length chain.length then chain else cmax))

pub record Dense (bs : Branches) (k s : ℕ) (cmax chain c r : Branch) : Type 0 where
  pub deep : c.length + k < cmax.length
  pub ours : Branch
  pub theirs : Branch
  pub ours_before : IsBefore bs cmax (add64 c.slot s) ours
  pub theirs_before : IsBefore bs chain (add64 c.slot s) theirs
  pub chosen : r ≡ (if ltb ours.length theirs.length then chain else cmax)

module _ {g : ℕ} {bs : Branches} (w : IsTree g bs) (k s : ℕ) where
  denser_lem :
      (c cmax chain : Branch)
      → Known bs cmax
      → Known bs chain
      → c.length + k < cmax.length
      → (r : Branch) × (denser bs s c cmax chain ≡ ok r) × Dense bs k s cmax chain c r
  unfolding denser
  denser_lem c cmax chain kc kf deep =
      let (ours, run1, b1) = walk_back_before_lem w cmax (add64 c.slot s) kc in
      let (theirs, run2, b2) = walk_back_before_lem w chain (add64 c.slot s) kf in
      (
        if ltb ours.length theirs.length then chain else cmax,
        rw (run1, run2),
        record {
          deep = deep;
          ours = ours;
          theirs = theirs;
          ours_before = b1;
          theirs_before = b2;
          chosen = refl;
        },
      )

  -- The rule decides between two blocks of a tree by their lowest common ancestor, and always
  -- returns: up to a depth of `k` blocks the longer chain wins, beyond it the chain with more
  -- blocks in the first `s` slots after the ancestor (the end of that window is a 64-bit sum that wraps, as in the
  -- code), and in a draw the chain that the node is on.
  pub prefer_rule :
      (cmax chain : Branch)
      → Known bs cmax
      → Known bs chain
      → (r : Branch) × (c : Branch) × (prefer bs k s cmax chain ≡ ok r)
        × IsLowest bs cmax chain c
        × (Classic k cmax chain c r ⊎ Dense bs k s cmax chain c r)
  unfolding prefer
  prefer_rule cmax chain kc kf =
      let (c, run, low) = lca-IsLowest w cmax chain kc kf in
      let le = length-Ancestor w c cmax kc low.below_left in
      let m = sub64-exact cmax.length c.length (w.in_range cmax.id cmax kc) le in
      elim (Bool-cases (leb (cmax.length - c.length) k)) [
        | inl shallow ↦ (
          if ltb cmax.length chain.length then chain else cmax,
          c,
          rw (run, m, shallow),
          low,
          inl (ground arith, refl),
        )
        | inr far ↦
            let (r, run', dense) = denser_lem c cmax chain kc kf (ground arith) in
            (r, c, rw (run, m, far) run', low, inr dense)
      ]

  prefer_one_of :
      (cmax chain : Branch)
      → Known bs cmax
      → Known bs chain
      → (r : Branch) × (prefer bs k s cmax chain ≡ ok r) × ((r ≡ cmax) ⊎ (r ≡ chain))
  prefer_one_of cmax chain kc kf =
      let (r, c, run, low, rule) = prefer_rule cmax chain kc kf in
      (
        r,
        run,
        elim rule [ inl (near, is) ↦ ground arith | inr dense ↦ ground (arith, dense.chosen) ],
      )

  -- Among chains of the tree the rule always chooses: the chain the node is on, or one of the forks.
  pub maxvalid_bg_one_of :
      (forks : List Branch) (cmax : Branch)
      → Known bs cmax
      → All (Known bs) forks
      → (r : Branch) × (maxvalid_bg bs k s cmax forks ≡ ok r) × ((r ≡ cmax) ⊎ In r forks)
  unfolding maxvalid_bg
  maxvalid_bg_one_of [] cmax kc kf = (cmax, refl, inl refl)
  maxvalid_bg_one_of (chain ∷ forks) cmax kc kf =
      let (x, run, one) = prefer_one_of cmax chain kc kf.0 in
      let kx : Known bs x = elim one [
        | inl e ↦ subst (Known bs) (sym e) kc
        | inr e ↦ subst (Known bs) (sym e) kf.0
      ] in
      let (r, run', which) = maxvalid_bg_one_of forks x kx kf.1 in
      (
        r,
        rw run run',
        elim which [
          | inl e ↦ elim one [ inl e' ↦ inl (e ∙ e') | inr e' ↦ inr (inl (e ∙ e')) ]
          | inr i ↦ inr (inr i)
        ],
      )

  prefer_longest :
      (cmax chain : Branch)
      → Known bs cmax
      → Known bs chain
      → cmax.length ≤ k
      → (r : Branch) × (prefer bs k s cmax chain ≡ ok r)
        × ((r ≡ cmax) ⊎ (r ≡ chain))
        × (cmax.length ≤ r.length)
        × (chain.length ≤ r.length)
  prefer_longest cmax chain kc kf near =
      let (r, c, run, low, rule) = prefer_rule cmax chain kc kf in
      elim rule [
        | inl (shallow, is) ↦ (r, run, ground arith, ground arith, ground arith)
        | inr dense ↦ absurd (omega (arith, dense.deep))
      ]

  -- While no chain of a tree, the node's own or a fork, is longer than `k`, the rule chooses a
  -- longest chain among them.
  pub maxvalid_bg_longest :
      (forks : List Branch) (cmax : Branch)
      → Known bs cmax
      → All (Known bs) forks
      → cmax.length ≤ k
      → All (λ b. b.length ≤ k) forks
      → (r : Branch) × (maxvalid_bg bs k s cmax forks ≡ ok r)
        × (cmax.length ≤ r.length)
        × All (λ b. b.length ≤ r.length) forks
  unfolding maxvalid_bg
  maxvalid_bg_longest [] cmax kc kf near all_near = (cmax, refl, omega arith, tt)
  maxvalid_bg_longest (chain ∷ forks) cmax kc kf near all_near =
      let (x, run, one, l1, l2) = prefer_longest cmax chain kc kf.0 near in
      let kx : Known bs x = elim one [
        | inl e ↦ subst (Known bs) (sym e) kc
        | inr e ↦ subst (Known bs) (sym e) kf.0
      ] in
      let nx : x.length ≤ k = elim one [
        | inl e ↦ omega (arith, ap (λ (y : Branch). y.length) e)
        | inr e ↦ omega (arith, ap (λ (y : Branch). y.length) e, all_near.0)
      ] in
      let (r, run', le, all) = maxvalid_bg_longest forks x kx kf.1 nx all_near.1 in
      (r, rw run run', omega arith, (omega arith, all))
