-- ===== src/Worker/Tests.antt =====
-- Runs of the workers, and their theorems at concrete inputs.
use dynamic_nft_krnl.Base.{◌≡◌, ◌⊎◌, refl, true, false, none, some, String, [], ◌∷◌, arith, length}
use dynamic_nft_krnl.Base.Int.{pos, negsuc, ◌-ℤ◌}
use dynamic_nft_krnl.Js.{obj, str, field, end}
use dynamic_nft_krnl.Store.{Store, WebhookEvent, received}
use dynamic_nft_krnl.Krnl.Submit.{accepted}
use dynamic_nft_krnl.Worker.Queue.{
  ActionItem, WorkerState, open_lootbox, update_xp, failed, is_retry_due,
}
use dynamic_nft_krnl.Worker.Events.{EventEnv, process_zealy_webhook_events}
use dynamic_nft_krnl.Worker.Actions.{ActionEnv, done}
use dynamic_nft_krnl.Worker.Actions.Kinds.{execute_action}
use dynamic_nft_krnl.Worker.Run.{Turn, is_eligible, process_action_queue}
use dynamic_nft_krnl.Worker.Deduped.{IsDeduped, process_zealy_webhook_events-IsDeduped}
use dynamic_nft_krnl.Worker.Kept.{find_item, IsRunOnce}
use dynamic_nft_krnl.Worker.Rounds.{round_turn}
use dynamic_nft_krnl.Worker.Bounded.{rounds, IsLater, rounds-IsLater}
use dynamic_nft_krnl.Worker.Charged.{credits_of}
use dynamic_nft_krnl.Worker.Priced.{IsCharged, execute_action-IsCharged}
use dynamic_nft_krnl.Fixtures.{plain, shop}

-- While an action waits, the brand's credits are raised to 5.
abbrev top_up : Store → Store
top_up s = record s { brands = λ b. some (record { sponsorship_credits = pos 50000 }) }

abbrev action_env : ActionEnv
action_env = record {
  runtime = plain;
  run_id = "run-3";
  payload_intent_id = none;
  answer = accepted "request-3" (some "intent-3") none;
  tx_found = true;
  minted_token = some "9";
  core_loot_keys = some (pos 0);
  encodes = true;
  meanwhile = top_up;
}

abbrev opening : ActionItem
opening = record {
  id = "item-1";
  brand_id = "acme";
  wallet = "0xa";
  token_id = some "7";
  action_type = open_lootbox;
  payload = obj end;
  status = failed;
  attempts = 4;
  last_error = none;
  updated_at = 0;
}

abbrev queued : WorkerState
queued = record { store = shop; queue = opening ∷ [] }

abbrev turns : String → Turn
turns id = record { now = 80000; finished = 90000; action = action_env }

waits : is_retry_due 79999 opening ≡ false
unfolding is_retry_due
waits = refl

-- The credits end at 1.5, though there were 5 while the action waited.
loses : credits_of ((process_action_queue turns queued).store.brands "acme") ≡ pos 15000
unfolding process_action_queue ◌-ℤ◌
loses = refl

-- An update of experience drives the credits below zero.
abbrev poor : Store
poor = record shop { brands = λ b. some (record { sponsorship_credits = pos 0 }) }

overdraws :
    credits_of (
      (execute_action
          (record action_env { meanwhile = λ s. s })
          (record opening { action_type = update_xp })
          poor).1.brands
        "acme")
    ≡ negsuc 4999
unfolding execute_action ◌-ℤ◌
overdraws = refl

ends : (execute_action action_env opening shop).0 ≡ done
unfolding execute_action
ends = refl

execute_action-IsCharged_example :
    IsCharged opening
      (record { sponsorship_credits = pos 20000 })
      (execute_action action_env opening shop)
execute_action-IsCharged_example =
    execute_action-IsCharged action_env opening shop (record { sponsorship_credits = pos 20000 })
      refl refl ends

there : find_item "item-1" queued.queue ≡ some opening
unfolding find_item
there = refl

round_turn_example :
    (find_item "item-1" (process_action_queue turns queued).queue ≡ some opening)
    ⊎ ((is_eligible opening ≡ true)
        × ((j : ActionItem) × (find_item "item-1" (process_action_queue turns queued).queue
              ≡ some j)
            × IsRunOnce opening j))
round_turn_example = round_turn turns "item-1" opening queued (refl, tt) there

rounds-IsLater_example :
    (j : ActionItem) × (find_item "item-1" (rounds (turns ∷ turns ∷ []) queued).queue ≡ some j)
    × IsLater opening j
rounds-IsLater_example =
    rounds-IsLater (turns ∷ turns ∷ []) "item-1" opening queued (refl, tt) there

abbrev event_env : EventEnv
event_env = record { runtime = plain; now = 0; mint_item_id = "item-2"; quest_item_id = "item-3" }

abbrev completed : WebhookEvent
completed = record {
  brand_id = "acme";
  community_id = "acme-hq";
  event_type = "completed";
  payload = obj (field "questId" (str "quest-1") (field "wallet" (str "0xb") end));
  status = received;
  is_processed = false;
  error = none;
}

-- An event that is stored and not processed, and no actions.
abbrev stored : WorkerState
stored = record { store = record shop { events = λ e. some completed }; queue = [] }

queues :
    length
      (process_zealy_webhook_events (λ id. event_env) ("event-1" ∷ "event-1" ∷ []) stored).queue
    ≡ 2
unfolding process_zealy_webhook_events
queues = refl

process_zealy_webhook_events-IsDeduped_example :
    IsDeduped
      (process_zealy_webhook_events (λ id. event_env) ("event-1" ∷ "event-1" ∷ []) stored).queue
process_zealy_webhook_events-IsDeduped_example =
    process_zealy_webhook_events-IsDeduped (λ id. event_env) ("event-1" ∷ "event-1" ∷ []) stored
      (λ brand type event. omega arith)
