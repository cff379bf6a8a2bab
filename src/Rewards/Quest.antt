-- ===== src/Rewards/Quest.antt =====
-- executeQuestReward (apps/api/src/services/rewardExecutionService.ts): a reward that is asked for
-- by a request, whose whole cost must be there before anything is done.
pub mod Covered
use dynamic_nft_krnl.Base.{Bool, true, false, Option, none, some, String, if◌then◌else◌}
use dynamic_nft_krnl.Base.Int.{ℤ, pos, ◌+ℤ◌, ◌-ℤ◌, ltb_ℤ}
use dynamic_nft_krnl.Store.{Store, quest_reward}
use dynamic_nft_krnl.Krnl.Submit.{WorkflowSubmission}
use dynamic_nft_krnl.Rewards.{
  RewardEnv, submit, own_token, mint_token, set_credits, mint_credit_cost, quest_reward_credit_cost,
}

-- The error classes that the routes tell apart; any other error is `execution_failed`.
pub data RewardError : Type 0 where
  reward_config insufficient_credits execution_failed : RewardError

-- A reward with its workflow and transaction, or an error; both with the state they leave.
pub data Executed : Type 0 where
  executed : String → String → Store → Executed
  refused : RewardError → Store → Executed

-- The transaction of the reward is awaited.
unfoldable pub await_hash : RewardEnv → WorkflowSubmission → Store → Executed
await_hash env w s = elim env.reward.awaited [
  | none ↦ refused execution_failed s
  | some hash ↦ executed w.workflow_run_id hash s
]

-- The reward was submitted: the brand pays for it.
unfoldable pub pay_and_wait : RewardEnv → String → ℤ → Option WorkflowSubmission × Store → Executed
unfolding set_credits await_hash
pay_and_wait env brand credits (none, s) = refused execution_failed s
pay_and_wait env brand credits (some w, s) =
    elim (set_credits brand (credits -ℤ quest_reward_credit_cost) s) [
      | none ↦ refused execution_failed s
      | some t ↦ await_hash env w t
    ]

unfoldable pub submit_reward : RewardEnv → String → String → ℤ → Store → Executed
unfolding submit pay_and_wait
submit_reward env brand wallet credits s =
    if env.encodes
    then pay_and_wait env brand credits (submit env.reward quest_reward brand wallet s)
    else refused execution_failed s

-- The token was minted: the brand pays for it.
unfoldable pub pay_token : RewardEnv → String → String → ℤ → Option String × Store → Executed
unfolding set_credits submit_reward
pay_token env brand wallet credits (none, s) = refused execution_failed s
pay_token env brand wallet credits (some token, s) =
    elim (set_credits brand (credits -ℤ mint_credit_cost) s) [
      | none ↦ refused execution_failed s
      | some t ↦ submit_reward env brand wallet (credits -ℤ mint_credit_cost) t
    ]

-- The wallet's token, or one that `resolveTokenWithMint` mints.
unfoldable pub with_token : RewardEnv → String → String → ℤ → Store → Executed
unfolding own_token mint_token pay_token submit_reward
with_token env brand wallet credits s = elim (s.memberships brand wallet) [
  | some token ↦ submit_reward env brand wallet credits (own_token brand wallet token s)
  | none ↦ pay_token env brand wallet credits (mint_token env brand wallet s)
]

abbrev pub required_credits : Option String → ℤ
required_credits (some token) = quest_reward_credit_cost
required_credits none = mint_credit_cost +ℤ quest_reward_credit_cost

-- `has_zealy_config` tells of which brands there is a row of `brandZealyConfig`.
unfoldable pub execute_quest_reward :
    RewardEnv → (String → Bool) → String → String → String → Store → Executed
unfolding with_token
execute_quest_reward env has_zealy_config brand wallet quest s = elim (s.brands brand) [
  | none ↦ refused execution_failed s
  | some b ↦ elim (s.nft_configs brand) [
    | none ↦ refused execution_failed s
    | some c ↦
        if has_zealy_config brand
        then elim (s.zealy_quests brand quest) [
          | none ↦ refused execution_failed s
          | some q ↦ elim (s.quest_reward_rules brand quest) [
            | none ↦ refused reward_config s
            | some rule ↦
                if ltb_ℤ b.sponsorship_credits (required_credits (s.memberships brand wallet))
                then refused insufficient_credits s
                else with_token env brand wallet b.sponsorship_credits s
          ]
        ]
        else refused execution_failed s
  ]
]
