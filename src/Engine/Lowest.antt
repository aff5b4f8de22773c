-- ===== src/Engine/Lowest.antt =====
-- consensus/cryptarchia-engine/src/lib.rs, `Branches::lca`: its loops end, and find the
-- lowest common ancestor.
use nomos_node.Prelude.{
  ℕ, zero, suc, ◌+◌, ◌≤◌, ◌<◌, ◌≡◌, refl, sym, ap, subst, ◌∙◌, ◌⊎◌, inl, inr, false, arith, ltb,
  ◌==◌, Bool-cases, nat_eq, ok,
}
use nomos_node.Engine.Branches.{Branch, Branches, climb, meet, lca}
use nomos_node.Engine.Chain.{
  IsTree, Known, Ancestor, self, above, parent-Known, length-parent, eq_genesis, length-Ancestor,
  Ancestor-same_length, Ancestor-parent, Ancestor-trans, Known-Ancestor,
}

-- `c` is the lowest common ancestor: every common ancestor is one of `c`.
pub record IsLowest (bs : Branches) (b1 b2 c : Branch) : Type 0 where
  pub below_left : Ancestor bs c b1
  pub below_right : Ancestor bs c b2
  pub lowest : (d : Branch) → Ancestor bs d b1 → Ancestor bs d b2 → Ancestor bs d c

-- What `climb` returns: the ancestor at the length asked for, or the block itself.
record Climbed (bs : Branches) (b : Branch) (n : ℕ) (c : Branch) : Type 0 where
  above_it : Ancestor bs c b
  short : c.length ≤ n
  full : (c.length ≡ n) ⊎ (c ≡ b)
  nearest : (d : Branch) → Ancestor bs d b → d.length ≤ n → Ancestor bs d c

module _ {g : ℕ} {bs : Branches} (w : IsTree g bs) where
  climb_lem :
      (fuel : ℕ) (b : Branch) (n : ℕ)
      → Known bs b
      → b.length ≤ fuel + n
      → (c : Branch) × (climb fuel bs b n ≡ ok c) × Climbed bs b n c
  unfolding climb
  climb_lem zero b n k h = (
    b,
    ground arith,
    record { above_it = self; short = omega arith; full = inr refl; nearest = λ d r _. r },
  )
  climb_lem (suc f) b n k h = elim (Bool-cases (ltb n b.length)) [
    | inr stop ↦ (
      b,
      rw stop,
      record { above_it = self; short = ground arith; full = inr refl; nearest = λ d r _. r },
    )
    | inl more ↦
        let (p, e, kp) = parent-Known w k in
        let longer = length-parent w b p k e (ground arith) in
        let (c, runs, got) = climb_lem f p n kp (omega arith) in
        (
          c,
          ground arith,
          record {
            above_it = above e got.above_it;
            short = got.short;
            full = elim got.full [ inl x ↦ inl x | inr x ↦ inl (ground arith) ];
            nearest = λ d r l. got.nearest d (Ancestor-parent w d b p e r (ground arith)) l;
          },
        )
  ]

  -- Two blocks of one length with different ids are not genesis.
  apart-pos :
      (b1 b2 : Branch)
      → Known bs b1
      → Known bs b2
      → b1.length ≡ b2.length
      → (b1.id == b2.id) ≡ false
      → 0 < b1.length
  apart-pos b1 b2 k1 k2 same ne = elim (Bool-cases (b1.length == 0)) [
    | inl level0 ↦ absurd (ground (arith, eq_genesis w b1 k1, eq_genesis w b2 k2))
    | inr pos ↦ ground arith
  ]

  -- A common ancestor of such blocks is shorter than they are.
  apart-shorter :
      (b1 b2 d : Branch)
      → Known bs b1
      → Known bs b2
      → b1.length ≡ b2.length
      → (b1.id == b2.id) ≡ false
      → Ancestor bs d b1
      → Ancestor bs d b2
      → d.length < b1.length
  apart-shorter b1 b2 d k1 k2 same ne r1 r2 = elim (Bool-cases (ltb d.length b1.length)) [
    | inl lt ↦ ground arith
    | inr ge ↦
        absurd
          (ground (arith, Ancestor-same_length w d b1 k1 r1, Ancestor-same_length w d b2 k2 r2))
  ]

  meet_lem :
      (fuel : ℕ) (b1 b2 : Branch)
      → Known bs b1
      → Known bs b2
      → b1.length ≡ b2.length
      → b1.length ≤ fuel
      → (c : Branch) × (meet fuel bs b1 b2 ≡ ok c) × IsLowest bs b1 b2 c
  unfolding meet
  meet_lem zero b1 b2 k1 k2 same h =
      let e1 = eq_genesis w b1 k1 (omega arith) in
      let e2 = eq_genesis w b2 k2 (omega arith) in
      (
        b1,
        ground arith,
        record {
          below_left = self;
          below_right = subst (Ancestor bs b1) (e1 ∙ sym e2) self;
          lowest = λ d r _. r;
        },
      )
  meet_lem (suc f) b1 b2 k1 k2 same h = elim (Bool-cases (b1.id == b2.id)) [
    | inl eq ↦
        let e : b1 ≡ b2 = ground arith in
        (
          b1,
          rw eq,
          record {
            below_left = self;
            below_right = subst (Ancestor bs b1) e self;
            lowest = λ d r _. r;
          },
        )
    | inr ne ↦
        let pos = apart-pos b1 b2 k1 k2 same ne in
        let (p1, e1, kp1) = parent-Known w k1 in
        let (p2, e2, kp2) = parent-Known w k2 in
        let l1 = length-parent w b1 p1 k1 e1 pos in
        let l2 = length-parent w b2 p2 k2 e2 (omega arith) in
        let (c, runs, low) = meet_lem f p1 p2 kp1 kp2 (omega arith) (omega arith) in
        (
          c,
          ground arith,
          record {
            below_left = above e1 low.below_left;
            below_right = above e2 low.below_right;
            lowest = λ d r1 r2.
                let shorter = apart-shorter b1 b2 d k1 k2 same ne r1 r2 in
                low.lowest d (Ancestor-parent w d b1 p1 e1 r1 shorter)
                  (Ancestor-parent w d b2 p2 e2 r2 (omega arith));
          },
        )
  ]

  levels :
      (b1 b2 c1 c2 : Branch)
      → Climbed bs b1 b2.length c1
      → Climbed bs b2 c1.length c2
      → c1.length ≡ c2.length
  levels b1 b2 c1 c2 got1 got2 = elim got2.full [
    | inl e ↦ sym e
    | inr e ↦ omega (arith, got1.short, got2.short, ap (λ (x : Branch). x.length) e)
  ]

  -- In a tree of blocks `lca` of two of its blocks returns, and what it returns is their lowest
  -- common ancestor.
  pub lca-IsLowest :
      (b1 b2 : Branch)
      → Known bs b1
      → Known bs b2
      → (c : Branch) × (lca bs b1 b2 ≡ ok c) × IsLowest bs b1 b2 c
  unfolding lca
  lca-IsLowest b1 b2 k1 k2 =
      let (c1, run1, got1) = climb_lem b1.length b1 b2.length k1 (omega arith) in
      let (c2, run2, got2) = climb_lem b2.length b2 c1.length k2 (omega arith) in
      let kc1 = Known-Ancestor w c1 b1 k1 got1.above_it in
      let kc2 = Known-Ancestor w c2 b2 k2 got2.above_it in
      let same : c1.length ≡ c2.length = levels b1 b2 c1 c2 got1 got2 in
      let (c, run, low) = meet_lem c1.length c1 c2 kc1 kc2 same (omega arith) in
      (
        c,
        rw (run1, run2) run,
        record {
          below_left = Ancestor-trans low.below_left got1.above_it;
          below_right = Ancestor-trans low.below_right got2.above_it;
          lowest = λ d r1 r2.
              let down = got1.nearest d r1 (length-Ancestor w d b2 k2 r2) in
              low.lowest d down (got2.nearest d r2 (length-Ancestor w d c1 kc1 down));
        },
      )
