-- ===== src/Engine/Samples.antt =====
-- A small tree with a fork, and the engine's theorems at it.
use nomos_node.Prelude.{
  ℕ, panic, ◌+◌, ◌*◌, ◌/◌, ◌^◌, ◌≤◌, ◌<◌, ◌≡◌, refl, ◌⊎◌, true, none, some, [], ◌∷◌, arith, nat_eq,
  All, add64, sub64, sat_mul64, ok, ◌>>=◌,
}
use nomos_node.Prelude.Map.{contains, get, insert, add, delete}
use nomos_node.Engine.Time.{
  nanos, from_offset_and_config, times_duration, next_slot_start, div64, FloatOps, Config, s,
  base_period_length,
}
use nomos_node.Engine.Branches.{
  Branch, Branches, genesis_branch, from_genesis, apply_header, lca, climb, meet, walk_back_before,
  fetch_all,
}
use nomos_node.Engine.Chain.{IsTree, Known, Ancestor, from_genesis-IsTree}
use nomos_node.Engine.Growth.{fresh, block, extended, extended-IsTree}
use nomos_node.Engine.Clock.{after, next_slot_start_lem}
use nomos_node.Engine.Lowest.{IsLowest, lca-IsLowest}
use nomos_node.Engine.Before.{IsBefore, walk_back_before_lem}
use nomos_node.Engine.Choice.{Classic, Dense, prefer_rule, maxvalid_bg_longest}
use nomos_node.Engine.Receive.{IsValid, start-IsValid, receive_block-IsValid}
use nomos_node.Engine.Security.{security_block}
use nomos_node.Engine.Cryptarchia.{
  Cryptarchia, start, prefer, maxvalid_bg, receive_block, get_security_block_header_id,
  climb_parents, fork_choice,
}

-- Coefficients in percent.
instance abbrev pub percent : FloatOps
percent = record { Float = ℕ; floor_div = λ k f. k * 100 / f; neg_ln_scaled = λ f. f * 2 ^ 50 }

abbrev config : Config
config = record { security_param = 2; active_slot_coeff = 50 }

abbrev pub node : Cryptarchia
node = start 0 config

abbrev genesis : Branch
genesis = genesis_branch 0

abbrev one : Branches
one = extended (from_genesis 0) 1 0 3 genesis

abbrev fork : Branches
fork = extended one 2 0 5 genesis

abbrev left : Branch
left = block 1 0 3 genesis

abbrev right : Branch
right = block 2 0 5 genesis

one-IsTree : IsTree 0 one
unfolding get insert from_genesis
one-IsTree =
    extended-IsTree (from_genesis-IsTree 0) 1 0 3 genesis (fresh (omega arith) refl) refl
      (omega arith)

fork-IsTree : IsTree 0 fork
unfolding get insert from_genesis
fork-IsTree = extended-IsTree one-IsTree 2 0 5 genesis (fresh (omega arith) refl) refl (omega arith)

left-Known : Known fork left
unfolding get insert from_genesis
left-Known = refl

right-Known : Known fork right
unfolding get insert from_genesis
right-Known = refl

lca_runs : lca fork left right ≡ ok genesis
unfolding lca climb meet get insert from_genesis add64
lca_runs = refl

-- The blocks 1, 2 and 3, each on the one before it.
chain_runs :
    (do
      a ← receive_block (λ ids. ids) node 1 0 3
      b ← receive_block (λ ids. ids) a 2 1 4
      c ← receive_block (λ ids. ids) b 3 2 6
      ok (get_security_block_header_id c))
    ≡ ok (some 1)
unfolding receive_block fork_choice s base_period_length start apply_header from_genesis get insert
    add delete contains lca climb meet add64 sub64 prefer maxvalid_bg get_security_block_header_id
    climb_parents sat_mul64 fetch_all
chain_runs = refl

pub node-IsValid : IsValid node
unfolding s base_period_length sat_mul64
node-IsValid = start-IsValid 0 config 12 refl

receive_block_example :
    (new : Cryptarchia) × (receive_block (λ ids. ids) node 1 0 3 ≡ ok new)
    × IsValid new
    × (new.branches ≡ extended node.branches 1 0 3 genesis)
    × ((new.local_chain ≡ node.local_chain)
        ⊎ (contains new.local_chain.id new.branches.tips ≡ true))
unfolding start get insert from_genesis
receive_block_example =
    receive_block-IsValid (λ ids. ids) (λ ids i. refl) node 1 0 3 genesis node-IsValid
      (fresh (omega arith) refl) refl (omega arith)

lca-IsLowest_example : (c : Branch) × (lca fork left right ≡ ok c) × IsLowest fork left right c
lca-IsLowest_example = lca-IsLowest fork-IsTree left right left-Known right-Known

walk_back_before_example :
    (c : Branch) × (walk_back_before fork right 4 ≡ ok c) × IsBefore fork right 4 c
walk_back_before_example = walk_back_before_lem fork-IsTree right 4 right-Known

prefer_rule_example :
    (r : Branch) × (c : Branch) × (prefer fork 0 9 left right ≡ ok r)
    × IsLowest fork left right c
    × (Classic 0 left right c r ⊎ Dense fork 0 9 left right c r)
prefer_rule_example = prefer_rule fork-IsTree 0 9 left right left-Known right-Known

maxvalid_bg_longest_example :
    (r : Branch) × (maxvalid_bg fork 2 9 genesis (left ∷ right ∷ []) ≡ ok r)
    × (0 ≤ r.length)
    × All (λ b. b.length ≤ r.length) (left ∷ right ∷ [])
unfolding get insert from_genesis add64
maxvalid_bg_longest_example =
    maxvalid_bg_longest fork-IsTree 2 9 (left ∷ right ∷ []) genesis refl
      (left-Known, (right-Known, tt)) (omega arith) (omega arith, (omega arith, tt))

security_block_example :
    ((config.security_param ≤ node.local_chain.length)
      × (c : Branch) × (get_security_block_header_id node ≡ some c.id)
      × Known node.branches c
      × Ancestor node.branches c node.local_chain
      × (c.length + config.security_param ≡ node.local_chain.length))
    ⊎ ((node.local_chain.length < config.security_param)
        × (get_security_block_header_id node ≡ none))
unfolding start
security_block_example = security_block node node-IsValid

-- In the year 9999 at the latest.
abbrev last_moment : ℕ
last_moment = 250_000_000_000 * nanos

next_slot_start_example :
    (n : ℕ) × (from_offset_and_config {E = ℕ} (after 7) (2 * nanos) ≡ ok n)
    × (n * 2 ≤ 7)
    × (7 < (n + 1) * 2)
    × ((((n + 1) * 2 < 18_446_744_073_709_551_616)
          × ((n + 1) * 2 * nanos ≤ last_moment)
          × (next_slot_start {E = ℕ} last_moment (after 7) (2 * nanos) ≡ ok ((n + 1) * 2 * nanos)))
        ⊎ (((18_446_744_073_709_551_616 ≤ (n + 1) * 2) ⊎ (last_moment < (n + 1) * 2 * nanos))
            × (next_slot_start {E = ℕ} last_moment (after 7) (2 * nanos) ≡ panic)))
next_slot_start_example = next_slot_start_lem 7 2 last_moment (omega arith) (omega arith)

-- Slots of a second and a half: after 100 seconds the next slot is said to start after 151.5 seconds.
fraction_runs : next_slot_start {E = ℕ} last_moment (after 100) (1_500_000_000) ≡ ok 151_500_000_000
unfolding next_slot_start times_duration from_offset_and_config div64 add64
fraction_runs = refl
