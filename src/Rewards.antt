-- ===== src/Rewards.antt =====
-- apps/api/src/services/rewardExecutionService.ts and zealyEventProcessor.ts: the reward of a quest
-- on the chain, which a brand pays for with its sponsorship credits, and resolveEvolvingTokenId of
-- nftService.ts. Credits are in units of 0.0001. `none` is an exception; its message is left out.
pub mod Charge
pub mod Paid
pub mod Quest
pub mod Retries
mod Tests
use text.Mathlib.Text.{◌==◌ as str_eq}
use dynamic_nft_krnl.Base.{
  Bool, true, false, ◌&&◌, not, Option, none, some, String, List, [], ◌∷◌, if◌then◌else◌, put,
  Table, is_some,
}
use dynamic_nft_krnl.Base.Int.{ℤ, pos, ◌-ℤ◌, ltb_ℤ}
use dynamic_nft_krnl.Store.{Store, Brand, RunType, mint_base_nft, quest_reward}
use dynamic_nft_krnl.Krnl.Submit.{Answer, SubmitArgs, WorkflowSubmission, submit_workflow}
use dynamic_nft_krnl.Mint.{upsert_token_record, non_empty}

-- One workflow: what its submission is answered, and whether waiting for it gives what it is awaited
-- for: the token in its receipt, or the hash of its transaction.
pub record Workflow : Type 0 where
  pub run_id : String
  pub payload_intent_id : Option String
  pub answer : Answer
  pub awaited : Option String

pub record RewardEnv : Type 0 where
  pub mint : Workflow
  pub reward : Workflow
  -- Whether the token's traits are read from the chain, and the new ones can be encoded.
  pub encodes : Bool
  -- The id of a quest that is created.
  pub new_quest_id : String

-- Submits a workflow, without waiting for it.
unfoldable pub submit :
    Workflow → RunType → String → String → Store → Option WorkflowSubmission × Store
unfolding submit_workflow
submit w type brand wallet s =
    let args : SubmitArgs = record {
      run_id = w.run_id;
      brand_id = brand;
      wallet = wallet;
      run_type = type;
      payload_intent_id = w.payload_intent_id;
    } in
    let r = submit_workflow args w.answer s.runs in (r.0, record s { runs = r.1 })

unfoldable pub own_token : String → String → String → Store → Store
unfolding upsert_token_record
own_token brand wallet token s = record s {
  tokens = upsert_token_record token brand wallet s.tokens;
}

-- The membership of a token that was minted now, and the token's record.
unfoldable pub join : String → String → String → Store → Store
unfolding own_token put
join brand wallet token s =
    own_token brand wallet token (record s { memberships = put brand wallet token s.memberships })

-- After the mint's workflow was submitted: its receipt is awaited.
unfoldable pub await_token :
    Workflow → String → String → Option WorkflowSubmission × Store → Option String × Store
unfolding join
await_token w brand wallet (none, s) = (none, s)
await_token w brand wallet (some r, s) = elim w.awaited [
  | none ↦ (none, s)
  | some token ↦ (some token, join brand wallet token s)
]

-- A token is minted for a wallet that has none: the common part of `resolveEvolvingTokenId` and
-- `resolveTokenWithMint`.
unfoldable pub mint_token : RewardEnv → String → String → Store → Option String × Store
unfolding submit await_token
mint_token env brand wallet s =
    await_token env.mint brand wallet (submit env.mint mint_base_nft brand wallet s)

unfoldable pub resolve_evolving_token_id :
    RewardEnv → String → String → Store → Option String × Store
unfolding own_token mint_token
resolve_evolving_token_id env brand wallet s = elim (s.memberships brand wallet) [
  | some token ↦ (some token, own_token brand wallet token s)
  | none ↦ elim (s.nft_configs brand) [ none ↦ (none, s) | some c ↦ mint_token env brand wallet s ]
]

-- `brand.update` with credits that were computed before; it throws where the brand is gone.
unfoldable pub set_credits : String → ℤ → Store → Option Store
set_credits id credits s = elim (s.brands id) [
  | none ↦ none
  | some b ↦ some (record s {
    brands =
        λ i. if str_eq id i then some (record b { sponsorship_credits = credits }) else s.brands i;
  })
]

abbrev pub mint_credit_cost : ℤ
mint_credit_cost = pos 10000

abbrev pub quest_reward_credit_cost : ℤ
quest_reward_credit_cost = pos 5000

-- A row of `zealyEvent`.
pub record ZealyEvent : Type 0 where
  pub brand_id : String
  pub zealy_quest_id : String
  pub wallet : String
  pub is_completed : Bool
  pub workflow_run_id : Option String

-- How far the wallet's quest is: "completed" or "rewarded".
pub data QuestProgress : Type 0 where
  completed rewarded : QuestProgress

-- The state of the event processor: the database's other tables, the one event that is processed, and
-- the tables of quests (by brand and Zealy quest), of their rewards (by brand and quest) and of the
-- wallets' progress (by quest and wallet, for the event's brand).
pub record EventState : Type 0 where
  pub store : Store
  pub event : ZealyEvent
  pub quests : Table String
  pub quest_rewards : Table (Unit {0})
  pub progress : Table QuestProgress

-- An end of the processor: done or thrown, with the state it leaves.
pub data Processed : Type 0 where
  done thrown : EventState → Processed

abbrev pub state_of : Processed → EventState
state_of (done s) = s
state_of (thrown s) = s

abbrev pub and_then : Option Store × EventState → (EventState → Processed) → Processed
and_then (none, s) next = thrown s
and_then (some t, s) next = next (record s { store = t })

-- The transaction of the reward's workflow is awaited.
unfoldable pub await_reward : RewardEnv → String → EventState → Processed
unfolding put
await_reward env quest s = elim env.reward.awaited [
  | none ↦ thrown s
  | some hash ↦ done (record s {
    progress = put quest s.event.wallet rewarded s.progress;
    event = record (s.event) { is_completed = true };
  })
]

-- The reward's workflow was submitted: the event remembers it, and the brand pays.
unfoldable pub pay_reward :
    ℤ → Option WorkflowSubmission × Store → EventState → (EventState → Processed) → Processed
unfolding set_credits
pay_reward credits (none, t) s next = thrown (record s { store = t })
pay_reward credits (some w, t) s next =
    let s' = record s {
      store = t;
      event = record (s.event) { workflow_run_id = some w.workflow_run_id };
    } in
    and_then (set_credits s.event.brand_id (credits -ℤ quest_reward_credit_cost) t, s') next

-- With the token: the reward is submitted, unless the event has its workflow already.
unfoldable pub reward_event : RewardEnv → String → ℤ → EventState → Processed
unfolding submit pay_reward await_reward
reward_event env quest credits s = elim (non_empty s.event.workflow_run_id) [
  | some run ↦ if env.encodes then await_reward env quest s else thrown s
  | none ↦
      if ltb_ℤ (pos 0) credits && env.encodes
      then pay_reward credits
          (submit env.reward quest_reward s.event.brand_id s.event.wallet s.store) s
          (await_reward env quest)
      else thrown s
]

-- After the mint: the brand pays for it.
unfoldable pub pay_mint : RewardEnv → String → ℤ → Option String × Store → EventState → Processed
unfolding set_credits reward_event
pay_mint env quest credits (none, t) s = thrown (record s { store = t })
pay_mint env quest credits (some token, t) s =
    and_then (set_credits s.event.brand_id (credits -ℤ mint_credit_cost) t, record s { store = t })
      (reward_event env quest (credits -ℤ mint_credit_cost))

-- The token: the wallet's, or one that is minted.
unfoldable pub take_token : RewardEnv → String → ℤ → EventState → Processed
unfolding own_token resolve_evolving_token_id pay_mint reward_event
take_token env quest credits s = elim (s.store.memberships s.event.brand_id s.event.wallet) [
  | some token ↦
      reward_event env quest credits
        (record s { store = own_token s.event.brand_id s.event.wallet token s.store })
  | none ↦
      if ltb_ℤ (pos 0) credits
      then pay_mint env quest credits
          (resolve_evolving_token_id env s.event.brand_id s.event.wallet s.store) s
      else thrown s
]

abbrev pub is_rewarded : Option QuestProgress → Bool
is_rewarded none = false
is_rewarded (some completed) = false
is_rewarded (some rewarded) = true

-- With the quest: nothing more is done for a wallet that was rewarded.
unfoldable pub process_quest : RewardEnv → String → ℤ → EventState → Processed
unfolding take_token put
process_quest env quest credits s = elim (s.quest_rewards s.event.brand_id quest) [
  | none ↦ thrown s
  | some rule ↦
      if is_rewarded (s.progress quest s.event.wallet)
      then done (record s { event = record (s.event) { is_completed = true } })
      else take_token env quest credits
          (record s { progress = put quest s.event.wallet completed s.progress })
]

-- The quest is created where it is not known.
unfoldable pub process_event : RewardEnv → EventState → Processed
unfolding process_quest put
process_event env s = elim (s.store.brands s.event.brand_id) [
  | none ↦ thrown s
  | some b ↦ elim (s.store.nft_configs s.event.brand_id) [
    | none ↦ thrown s
    | some c ↦ elim (s.quests s.event.brand_id s.event.zealy_quest_id) [
      | some quest ↦ process_quest env quest b.sponsorship_credits s
      | none ↦ process_quest env env.new_quest_id b.sponsorship_credits (record s {
        quests = put s.event.brand_id s.event.zealy_quest_id env.new_quest_id s.quests;
      })
    ]
  ]
]

-- `processZealyEvent`; the event's other statuses than "completed" are not told apart.
unfoldable pub process_zealy_event : RewardEnv → EventState → Processed
unfolding process_event
process_zealy_event env s = if s.event.is_completed then done s else process_event env s
