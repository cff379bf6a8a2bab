-- ===== src/Worker/Priced.antt =====
-- What each action charges.
use dynamic_nft_krnl.Base.{
  ◌≡◌, refl, sym, inl, inr, Bool, true, false, Option, none, some, String, Option-cases, Bool-cases,
  is_some,
}
use dynamic_nft_krnl.Base.Int.{◌-ℤ◌, ◌≤ℤ◌}
use dynamic_nft_krnl.Base.Text.{is_empty}
use dynamic_nft_krnl.Store.{Store, Brand, RunType}
use dynamic_nft_krnl.Worker.Queue.{
  ActionType, ActionItem, mint_base_nft, apply_quest_result, update_xp, open_lootbox,
}
use dynamic_nft_krnl.Worker.Actions.{
  ActionEnv, Ending, done, mint_cost, quest_reward_cost, submit_and_wait, with_credits, mint_waited,
  resolve_token_id, run_mint_action,
}
use dynamic_nft_krnl.Worker.Actions.Kinds.{
  run_quest_reward_action, pay_for_quest, reward_on_chain, run_update_xp_action, delta_of, quest_of,
  execute_action,
}
use dynamic_nft_krnl.Worker.Charged.{
  credits_of, cost_of, Charged, false-ne-true, thrown_Charged, paid_Charged, mint_waited-Charged,
  Covered, thrown_Covered, checked_Covered, lootbox_Covered, again_Covered,
}

mint_Covered :
    (env : ActionEnv) (item : ActionItem) (s : Store) (b : Brand)
    → s.memberships item.brand_id item.wallet ≡ none
    → s.brands item.brand_id ≡ some b
    → Covered item.brand_id b mint_cost (run_mint_action env item s)
unfolding run_mint_action
mint_Covered env item s b fresh there =
    let wait : Unit {0} → Ending × Store =
      λ _. mint_waited env item b (submit_and_wait env item RunType.mint_base_nft s) in
    elim (Option-cases (s.nft_configs item.brand_id)) [
      | inl gone ↦
          rw (fresh, there, gone, run_mint_action) (thrown_Covered item.brand_id b mint_cost _ s)
      | inr (c, set) ↦
          rw (fresh, there, set, run_mint_action)
            (again_Covered item.brand_id b mint_cost quest_reward_cost
              (λ _. with_credits b mint_cost wait s) s
              (checked_Covered item.brand_id b mint_cost wait s (
                mint_waited-Charged env item b (submit_and_wait env item RunType.mint_base_nft s))))
    ]

quest_Charged :
    (env : ActionEnv) (item : ActionItem) (quest : String) (b : Brand) (s : Store)
    → Charged item.brand_id b quest_reward_cost (pay_for_quest env item quest b s)
unfolding pay_for_quest
quest_Charged env item quest b s = elim (Option-cases (s.zealy_quests item.brand_id quest)) [
  | inl gone ↦ rw (gone, pay_for_quest) (thrown_Charged item.brand_id b quest_reward_cost _ s)
  | inr (q, synced) ↦ elim (Option-cases (s.quest_reward_rules item.brand_id quest)) [
    | inl gone ↦
        rw (synced, gone, pay_for_quest) (thrown_Charged item.brand_id b quest_reward_cost _ s)
    | inr (rule, set) ↦ elim (Option-cases env.core_loot_keys) [
      | inl gone ↦
          rw (synced, set, gone, pay_for_quest)
            (thrown_Charged item.brand_id b quest_reward_cost _ s)
      | inr (keys, read) ↦
          rw (synced, set, read, pay_for_quest)
            (paid_Charged env item RunType.quest_reward b quest_reward_cost s)
    ]
  ]
]

reward_Covered :
    (env : ActionEnv) (item : ActionItem) (quest : String) (s : Store) (b : Brand)
    → s.brands item.brand_id ≡ some b
    → Covered item.brand_id b quest_reward_cost (reward_on_chain env item quest s)
unfolding reward_on_chain
reward_Covered env item quest s b there = elim (Option-cases (s.nft_configs item.brand_id)) [
  | inl gone ↦
      rw (there, gone, reward_on_chain) (thrown_Covered item.brand_id b quest_reward_cost _ s)
  | inr (c, set) ↦
      rw (there, set, reward_on_chain)
        (checked_Covered item.brand_id b quest_reward_cost (λ _. pay_for_quest env item quest b s) s
          (quest_Charged env item quest b s))
]

result_Covered :
    (env : ActionEnv) (item : ActionItem) (s : Store) (b : Brand)
    → s.brands item.brand_id ≡ some b
    → Covered item.brand_id b quest_reward_cost (run_quest_reward_action env item s)
unfolding run_quest_reward_action
result_Covered env item s b there = elim (Option-cases (resolve_token_id item s)) [
  | inl gone ↦
      rw (gone, run_quest_reward_action) (thrown_Covered item.brand_id b quest_reward_cost _ s)
  | inr (token, held) ↦ elim (Bool-cases (is_empty (quest_of env.runtime item))) [
    | inl missing ↦
        rw (held, missing, run_quest_reward_action)
          (thrown_Covered item.brand_id b quest_reward_cost _ s)
    | inr quest ↦
        rw (held, quest, run_quest_reward_action)
          (reward_Covered env item (quest_of env.runtime item) s b there)
  ]
]

update_Charged :
    (env : ActionEnv) (item : ActionItem) (s : Store) (b : Brand)
    → s.brands item.brand_id ≡ some b
    → Charged item.brand_id b quest_reward_cost (run_update_xp_action env item s)
unfolding run_update_xp_action
update_Charged env item s b there = elim (Option-cases (resolve_token_id item s)) [
  | inl gone ↦
      rw (gone, run_update_xp_action) (thrown_Charged item.brand_id b quest_reward_cost _ s)
  | inr (token, held) ↦ elim (Option-cases (s.nft_configs item.brand_id)) [
    | inl gone ↦
        rw (held, there, gone, run_update_xp_action)
          (thrown_Charged item.brand_id b quest_reward_cost _ s)
    | inr (c, set) ↦ elim (Option-cases env.core_loot_keys) [
      | inl gone ↦
          rw (held, there, set, gone, run_update_xp_action)
            (thrown_Charged item.brand_id b quest_reward_cost _ s)
      | inr (keys, read) ↦ elim (Option-cases (delta_of env.runtime item)) [
        | inl odd ↦
            rw (held, there, set, read, odd, run_update_xp_action)
              (thrown_Charged item.brand_id b quest_reward_cost _ s)
        | inr (delta, fits) ↦
            rw (held, there, set, read, fits, run_update_xp_action)
              (paid_Charged env item RunType.quest_reward b quest_reward_cost s)
      ]
    ]
  ]
]

-- A mint of a wallet that has a membership pays nothing.
abbrev pub is_free_mint : ActionItem → Store → Bool
is_free_mint item s = elim item.action_type [
  | mint_base_nft ↦ is_some (s.memberships item.brand_id item.wallet)
  | apply_quest_result ↦ false
  | update_xp ↦ false
  | open_lootbox ↦ false
]

-- Whether an action checks the credits before it submits its workflow.
abbrev pub is_checked : ActionType → Bool
is_checked update_xp = false
is_checked mint_base_nft = true
is_checked apply_quest_result = true
is_checked open_lootbox = true

-- The credits an action leaves when it is done, and that they were enough where it checks them.
abbrev pub IsCharged : ActionItem → Brand → Ending × Store → Type 0
IsCharged item b out =
    (credits_of (out.1.brands item.brand_id) ≡ b.sponsorship_credits -ℤ cost_of item.action_type)
    × (is_checked item.action_type ≡ true → cost_of item.action_type ≤ℤ b.sponsorship_credits)

is_some_lem : (o : Option String) → is_some o ≡ false → o ≡ none
is_some_lem none h = refl
is_some_lem (some x) h = absurd (false-ne-true (sym h))

executed_lem :
    (env : ActionEnv) (item : ActionItem) (s : Store) (b : Brand) (type : ActionType)
    → item.action_type ≡ type
    → s.brands item.brand_id ≡ some b
    → is_free_mint item s ≡ false
    → (execute_action env item s).0 ≡ done
    → IsCharged item b (execute_action env item s)
unfolding execute_action Charged Covered
executed_lem env item s b mint_base_nft e there paid h =
    let fresh = is_some_lem _ (rw e at paid) in
    let (left, enough) = mint_Covered env item s b fresh there (rw (e, execute_action) at h) in
    rw (e, execute_action) (left, λ _. enough)
executed_lem env item s b apply_quest_result e there paid h =
    let (left, enough) = result_Covered env item s b there (rw (e, execute_action) at h) in
    rw (e, execute_action) (left, λ _. enough)
executed_lem env item s b open_lootbox e there paid h =
    let (left, enough) = lootbox_Covered env item s b there (rw (e, execute_action) at h) in
    rw (e, execute_action) (left, λ _. enough)
executed_lem env item s b update_xp e there paid h =
    let left = update_Charged env item s b there (rw (e, execute_action) at h) in
    rw (e, execute_action) (left, λ c. absurd (false-ne-true c))

-- An action that is done, but for a mint of a wallet that has its token already, sets the brand's
-- credits to what they were when the action began, less its cost, whatever others have written to
-- them while it waited for its transaction; and they were enough when it began, but for the update
-- of experience, which does not check them.
pub execute_action-IsCharged :
    (env : ActionEnv) (item : ActionItem) (s : Store) (b : Brand)
    → s.brands item.brand_id ≡ some b
    → is_free_mint item s ≡ false
    → (execute_action env item s).0 ≡ done
    → IsCharged item b (execute_action env item s)
execute_action-IsCharged env item s b there paid h =
    executed_lem env item s b item.action_type refl there paid h
