-- ===== src/Rewards/Tests.antt =====
-- An event that is retried.
use dynamic_nft_krnl.Base.{
  arith, ◌≡◌, refl, false, true, none, some, List, [], ◌∷◌, Option, String, put, empty,
}
use dynamic_nft_krnl.Base.Int.{pos, ◌-ℤ◌}
use dynamic_nft_krnl.Store.{Store}
use dynamic_nft_krnl.Krnl.Submit.{accepted}
use dynamic_nft_krnl.Fixtures.{shop}
use dynamic_nft_krnl.Rewards.{RewardEnv, Workflow, EventState, rewarded}
use dynamic_nft_krnl.Rewards.Charge.{IsPaid, credits_of}
use dynamic_nft_krnl.Rewards.Quest.{execute_quest_reward, required_credits}
use dynamic_nft_krnl.Rewards.Quest.Covered.{IsCovered, execute_quest_reward-IsCovered}
use dynamic_nft_krnl.Rewards.Retries.{retries, retries-IsPaid}

abbrev workflow : String → Option String → Workflow
workflow id awaited = record {
  run_id = id;
  payload_intent_id = none;
  answer = accepted "request-9" (some "intent-9") none;
  awaited = awaited;
}

-- The transaction of the first attempt's reward is not seen in time, that of the second one's is.
abbrev slow_then_seen : List RewardEnv
slow_then_seen =
    record {
      mint = workflow "run-1" (some "7");
      reward = workflow "run-2" none;
      encodes = true;
      new_quest_id = "quest-a";
    }
    ∷ record {
      mint = workflow "run-3" (some "8");
      reward = workflow "run-4" (some "0x12");
      encodes = true;
      new_quest_id = "quest-b";
    }
    ∷ []

abbrev waiting : EventState
waiting = record {
  store = shop;
  event = record {
    brand_id = "acme";
    zealy_quest_id = "q";
    wallet = "0xb";
    is_completed = false;
    workflow_run_id = none;
  };
  quests = put "acme" "q" "quest-1" empty;
  quest_rewards = put "acme" "quest-1" tt empty;
  progress = empty;
}

paid_once : credits_of (retries slow_then_seen waiting) ≡ pos 5000
unfolding retries ◌-ℤ◌
paid_once = refl

rewarded_in_the_end : (retries slow_then_seen waiting).progress "quest-1" "0xb" ≡ some rewarded
unfolding retries ◌-ℤ◌
rewarded_in_the_end = refl

retries-IsPaid_example : IsPaid waiting (retries slow_then_seen waiting)
retries-IsPaid_example = retries-IsPaid slow_then_seen waiting (refl, (refl, tt))

-- A wallet without a token asks for the reward of a synced quest, and the reward's transaction is not
-- seen.
abbrev quest_shop : Store
quest_shop = record shop { zealy_quests = put "acme" "q" none empty }

abbrev unseen : RewardEnv
unseen = record {
  mint = workflow "run-1" (some "7");
  reward = workflow "run-2" none;
  encodes = true;
  new_quest_id = "quest-a";
}

execute_quest_reward-IsCovered_example :
    IsCovered "acme"
      (pos 20000)
      (required_credits none)
      (execute_quest_reward unseen (λ b. true) "acme" "0xb" "q" quest_shop)
execute_quest_reward-IsCovered_example =
    execute_quest_reward-IsCovered unseen "acme" "0xb" (λ b. true) "q"
      (record { sponsorship_credits = pos 20000 }) quest_shop refl (omega arith)
