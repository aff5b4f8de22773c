-- ===== src/Sdp/Samples.antt =====
-- Concrete providers, messages and repositories for the theorems on nomos-sdp.
use nomos_node.Prelude.{
  ℕ, ◌+◌, ◌≤◌, ◌<◌, ◌≡◌, refl, ◌↔◌, ◌⊎◌, none, some, List, [], ◌∷◌, arith, nat_eq, length, Never,
  add64, ok, err, ok_or,
}
use nomos_node.Prelude.Map.{Map, get, insert, remove}
use nomos_node.Sdp.Types.{
  ServiceParameters, blend_network, ProviderInfo, DeclarationMessage, RewardMessage,
  declare_message, reward_message, EventType, Digests, update_of, message_provider, message_service,
  message_declaration, declared_id, has_service_provider, new_info,
}
use nomos_node.Sdp.State.{
  active, withdrawn, last_block_number, declaration_id, try_into_active, try_into_withdrawn,
  active_updated, active_withdrawn, withdrawn_rewarded, try_from_info,
}
use nomos_node.Sdp.Transitions.{
  WithdrawnAt, Reaches, start, activated, withdrew, withdrawal_final, withdrawal_locked,
  status_of_info,
}
use nomos_node.Sdp.Interfaces.{External, provider_not_found, declaration_not_found}
use nomos_node.Sdp.Pending.{SdpLedger, get_in, insert_in, drop_rewards}
use nomos_node.Sdp.Ledger.{
  process_sdp_message, current_info, choose_info, process_message, process_declare, process_reward,
}
use nomos_node.Sdp.Block.{mark_in_block, discard_block}
use nomos_node.Sdp.Runs.{Run}
use nomos_node.Sdp.Atomic.{
  SamePending, Held, process_sdp_message-Atomic, process_sdp_message-no_duplicate,
  process_sdp_message-one_reward,
}
use nomos_node.Sdp.Marking.{Without, RewardsWithout, discard_block-Clears, mark_in_block-Clears}

abbrev short_lock : ServiceParameters
short_lock = record {
  lock_period = 10;
  inactivity_period = 20;
  retention_period = 100;
  reward_contract = 1;
  timestamp = 0;
}

abbrev joined : ProviderInfo
joined = record {
  provider_id = 4;
  declaration_id = 6;
  created = 5;
  rewarded = none;
  withdrawn = none;
}

abbrev rewarded_once : ProviderInfo
rewarded_once = record joined { rewarded = some 12 }

abbrev left : ProviderInfo
left = record rewarded_once { withdrawn = some 30 }

-- Declared in block 5, rewarded in block 12, withdrawn in block 30.
history : Reaches short_lock (active joined) (withdrawn left)
unfolding try_into_active try_into_withdrawn active_updated active_withdrawn last_block_number add64
history = withdrew 30 EventType.withdrawal (activated 12 EventType.reward start refl) refl

-- The reward that a withdrawal in block 30 asks for.
paid : Reaches short_lock (withdrawn left) (withdrawn (record left { rewarded = some 30 }))
unfolding try_into_withdrawn withdrawn_rewarded last_block_number
paid = withdrew 30 EventType.reward start refl

withdrawal_final_example : WithdrawnAt 30 (withdrawn (record left { rewarded = some 30 }))
withdrawal_final_example =
    withdrawal_final short_lock (withdrawn left) (withdrawn (record left { rewarded = some 30 })) 30
      paid refl

withdrawal_locked_example : joined.created + 10 < 30
withdrawal_locked_example =
    withdrawal_locked short_lock (active joined) (withdrawn left) 30 (omega arith) refl history refl

status_of_info_example :
    (try_from_info 31 rewarded_once short_lock ≡ ok (active rewarded_once))
    ↔ ((31 < 25) ⊎ ((r : ℕ) × (some 12 ≡ some r) × (31 ≤ r + 20)))
status_of_info_example =
    status_of_info short_lock 31 rewarded_once (omega arith) (omega arith) (omega arith) refl
      (omega arith)

instance abbrev sums : Digests
sums = record { of_locators = λ ls. length ls; of_reward = λ d p n. d + p + n }

-- Repositories that know provider 4, never refuse, and keep what they are told.
abbrev mock : External (Unit {0}) (Unit {0})
mock = record {
  World = Map ℕ ProviderInfo;
  get_provider_info = λ w p. ok_or (get p w) (provider_not_found p);
  get_declaration = λ w d. ok (record { declaration_id = d; locators = []; services = [] });
  update_provider_info = λ i w. (ok tt, (i.provider_id, i) ∷ w);
  update_declaration = λ u w. (ok tt, w);
  check_nonce = λ p n w. (ok tt, w);
  get_parameters = λ w s. ok short_lock;
  request_reward = λ c m w. (ok tt, w);
  verify = λ w p f. ok tt;
}

abbrev declare : DeclarationMessage (Unit {0})
declare = record {
  service_type = blend_network;
  locators = 1 ∷ 2 ∷ [];
  proof_of_funds = tt;
  provider_id = 9;
}

abbrev newcomer : ProviderInfo
newcomer = record {
  provider_id = 9;
  declaration_id = 2;
  created = 40;
  rewarded = none;
  withdrawn = none;
}

abbrev idle : SdpLedger mock
idle = record {
  world = (4, joined) ∷ [];
  pending_providers = [];
  pending_declarations = [];
  pending_rewards = [];
}

-- Provider 9 has declared in block 40, and a reward of it is held back.
abbrev busy : SdpLedger mock
busy = record idle {
  pending_providers = (40, (9, newcomer) ∷ []) ∷ [];
  pending_declarations = (40, (9, update_of declare) ∷ []) ∷ [];
  pending_rewards = (9, 77) ∷ [];
}

declaration_held : get_in 40 9 busy.pending_declarations ≡ some (update_of declare)
unfolding get_in get
declaration_held = refl

declare_runs :
    process_sdp_message mock 40 (declare_message declare) idle
    ≡ (ok tt, record busy { pending_rewards = [] })
unfolding process_sdp_message current_info choose_info get_in get message_provider message_service
    message_declaration try_from_info new_info add64 declaration_id declared_id process_message
    process_declare try_into_active active_updated last_block_number has_service_provider insert_in
    insert update_of
declare_runs = refl

process_sdp_message-Atomic_example :
    Run
      (SamePending idle)
      (λ _ t. Held 40 (declare_message declare) idle t)
      (process_sdp_message mock 40 (declare_message declare) idle)
process_sdp_message-Atomic_example = process_sdp_message-Atomic 40 (declare_message declare) idle

process_sdp_message-no_duplicate_example :
    Run
      (SamePending busy)
      (λ _ t. Never)
      (process_sdp_message mock 40 (declare_message declare) busy)
process_sdp_message-no_duplicate_example =
    process_sdp_message-no_duplicate 40 declare (update_of declare) busy declaration_held

-- Repositories that count the nonces checked and the rewards requested.
abbrev counting : External (Unit {0}) (Unit {0})
counting = record mock {
  World = ℕ × ℕ;
  get_provider_info = λ w p. err (provider_not_found p);
  get_declaration = λ w d. err (declaration_not_found d);
  update_provider_info = λ i w. (ok tt, w);
  update_declaration = λ u w. (ok tt, w);
  check_nonce = λ p n w. (ok tt, (w.0 + 1, w.1));
  get_parameters = λ w s. ok short_lock;
  request_reward = λ c m w. (ok tt, (w.0, w.1 + 1));
  verify = λ w p f. ok tt;
}

-- Provider 9 has been rewarded in block 40, and its reward is held back.
abbrev rewarded : SdpLedger counting
rewarded = record {
  world = (1, 1);
  pending_providers = (40, (9, record newcomer { rewarded = some 40 }) ∷ []) ∷ [];
  pending_declarations = [];
  pending_rewards = (9, 77) ∷ [];
}

abbrev again : RewardMessage (Unit {0})
again = record {
  declaration_id = 2;
  service_type = blend_network;
  provider_id = 9;
  nonce = 5;
  metadata = none;
}

second_reward_held :
    get (message_provider {Proof = Unit {0}} (reward_message again)) rewarded.pending_rewards
    ≡ some 77
unfolding get message_provider
second_reward_held = refl

-- The second reward message is accepted: its nonce is checked, and no reward is requested.
reward_runs :
    process_sdp_message counting 40 (reward_message again) rewarded
    ≡ (ok tt, record rewarded { world = (2, 1) })
unfolding process_sdp_message current_info choose_info get_in get message_provider message_service
    message_declaration try_from_info new_info add64 declaration_id process_message process_reward
    try_into_active active_updated last_block_number insert_in insert
reward_runs = refl

process_sdp_message-one_reward_example :
    ((process_sdp_message counting 40 (reward_message again) rewarded).1.pending_rewards
      ≡ (9, 77) ∷ [])
    × (((process_sdp_message counting 40 (reward_message again) rewarded).1.world ≡ rewarded.world)
        ⊎ ((process_sdp_message counting 40 (reward_message again) rewarded).1.world ≡ (2, 1)))
process_sdp_message-one_reward_example =
    process_sdp_message-one_reward 40 (reward_message again) 77 rewarded second_reward_held

abbrev as_stored : List ProviderInfo → List ProviderInfo
as_stored xs = xs

-- Provider 3 has a reward held back, for another block.
abbrev two_rewards : SdpLedger mock
two_rewards = record busy { pending_rewards = (9, 77) ∷ (3, 5) ∷ [] }

discard_runs :
    discard_block mock as_stored 40 two_rewards ≡ record idle { pending_rewards = (3, 5) ∷ [] }
unfolding discard_block get remove drop_rewards
discard_runs = refl

discard_block-Clears_example :
    (get 41 (discard_block mock as_stored 40 two_rewards).pending_providers
      ≡ get 41 two_rewards.pending_providers)
    × (get 41 (discard_block mock as_stored 40 two_rewards).pending_declarations
        ≡ get 41 two_rewards.pending_declarations)
    × (get 3 (discard_block mock as_stored 40 two_rewards).pending_rewards
        ≡ get 3 two_rewards.pending_rewards)
unfolding get
discard_block-Clears_example =
    discard_block-Clears as_stored (λ xs x i. i) (λ xs x i. i) 40 41 3 two_rewards

mark_in_block-Clears_example :
    Run
      (Without 40 two_rewards)
      (λ _ t. Without 40 two_rewards t × RewardsWithout 40 two_rewards t)
      (mark_in_block mock as_stored 40 two_rewards)
mark_in_block-Clears_example =
    mark_in_block-Clears as_stored (λ xs x i. i) (λ xs x i. i) 40 two_rewards
