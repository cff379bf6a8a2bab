-- ===== src/Worker/Actions/Kinds.antt =====
-- The rewards of quests, lootboxes and the experience on the chain, and the choice of an action by
-- its type.
use dynamic_nft_krnl.Base.{Option, none, some, String, if◌then◌else◌}
use dynamic_nft_krnl.Base.Int.{ℤ, pos}
use dynamic_nft_krnl.Base.Text.{is_empty}
use dynamic_nft_krnl.Js.{
  Runtime, str, num, whole, int, get, fields_of, or_value, nullish, text_of, number_of,
}
use dynamic_nft_krnl.Store.{Store, Brand, RunType}
use dynamic_nft_krnl.Zealy.Reward.{int_column}
use dynamic_nft_krnl.Worker.Queue.{
  ActionItem, mint_base_nft, apply_quest_result, update_xp, open_lootbox,
}
use dynamic_nft_krnl.Worker.Actions.{
  ActionEnv, quest_reward_cost, lootbox_cost, Ending, run_paid, resolve_token_id, with_credits,
  run_mint_action, thrown,
}

-- `String(payload.zealyQuestId || "")`.
unfoldable pub quest_of : Runtime → ActionItem → String
unfolding text_of or_value get fields_of
quest_of rt item = text_of rt (or_value (get "zealyQuestId" (fields_of item.payload)) (str ""))

-- A quest's result, once the credits are found to be enough.
unfoldable pub pay_for_quest : ActionEnv → ActionItem → String → Brand → Store → Ending × Store
unfolding run_paid
pay_for_quest env item quest brand s = elim (s.zealy_quests item.brand_id quest) [
  | none ↦ (thrown "Synced quest not found", s)
  | some q ↦ elim (s.quest_reward_rules item.brand_id quest) [
    | none ↦ (thrown "Reward rule not configured", s)
    | some rule ↦ elim env.core_loot_keys [
      | none ↦ (thrown "call exception", s)
      | some keys ↦ run_paid env item RunType.quest_reward brand quest_reward_cost s
    ]
  ]
]

-- A quest's result, once the token and the quest are known.
unfoldable pub reward_on_chain : ActionEnv → ActionItem → String → Store → Ending × Store
unfolding pay_for_quest
reward_on_chain env item quest s = elim (s.brands item.brand_id) [
  | none ↦ (thrown "Brand not found", s)
  | some brand ↦ elim (s.nft_configs item.brand_id) [
    | none ↦ (thrown "NFT config not found", s)
    | some c ↦ with_credits brand quest_reward_cost (λ _. pay_for_quest env item quest brand s) s
  ]
]

unfoldable pub run_quest_reward_action : ActionEnv → ActionItem → Store → Ending × Store
unfolding resolve_token_id reward_on_chain quest_of
run_quest_reward_action env item s = elim (resolve_token_id item s) [
  | none ↦ (thrown "Token not minted yet", s)
  | some token ↦
      let quest = quest_of env.runtime item in
      if is_empty quest
      then (thrown "Missing zealyQuestId", s)
      else reward_on_chain env item quest s
]

unfoldable pub run_lootbox_action : ActionEnv → ActionItem → Store → Ending × Store
unfolding resolve_token_id run_paid
run_lootbox_action env item s = elim (resolve_token_id item s) [
  | none ↦ (thrown "Token not minted yet", s)
  | some token ↦ elim (s.brands item.brand_id) [
    | none ↦ (thrown "Brand not found", s)
    | some brand ↦
        with_credits brand lootbox_cost
          (λ _. run_paid env item RunType.open_lootbox brand lootbox_cost s) s
  ]
]

-- `Number(payload.lootKeyDelta ?? 0)`, as `BigInt` takes it.
unfoldable pub delta_of : Runtime → ActionItem → Option ℤ
unfolding number_of nullish get fields_of
delta_of rt item = int_column (
    number_of rt
      (nullish (get "lootKeyDelta" (fields_of item.payload)) (num (whole (int (pos 0))))))

unfoldable pub run_update_xp_action : ActionEnv → ActionItem → Store → Ending × Store
unfolding resolve_token_id run_paid delta_of
run_update_xp_action env item s = elim (resolve_token_id item s) [
  | none ↦ (thrown "Token not minted yet", s)
  | some token ↦ elim (s.brands item.brand_id) [
    | none ↦ (thrown "Brand not found", s)
    | some brand ↦ elim (s.nft_configs item.brand_id) [
      | none ↦ (thrown "NFT config not found", s)
      | some c ↦ elim env.core_loot_keys [
        | none ↦ (thrown "call exception", s)
        | some keys ↦ elim (delta_of env.runtime item) [
          | none ↦ (thrown "cannot be converted to a BigInt", s)
          | some delta ↦ run_paid env item RunType.quest_reward brand quest_reward_cost s
        ]
      ]
    ]
  ]
]

unfoldable pub execute_action : ActionEnv → ActionItem → Store → Ending × Store
unfolding run_mint_action run_quest_reward_action run_lootbox_action run_update_xp_action
execute_action env item s = elim item.action_type [
  | mint_base_nft ↦ run_mint_action env item s
  | apply_quest_result ↦ run_quest_reward_action env item s
  | open_lootbox ↦ run_lootbox_action env item s
  | update_xp ↦ run_update_xp_action env item s
]
