-- ===== src/Worker/Run.antt =====
-- One round of the action worker. A second round does not start before the first has ended.
use text.Mathlib.Text.{◌==◌}
use dynamic_nft_krnl.Base.{
  ℕ, suc, Bool, true, false, ◌&&◌, not, Option, none, some, String, List, [], ◌∷◌, if◌then◌else◌,
  ltb, keep, take,
}
use dynamic_nft_krnl.Store.{Store}
use dynamic_nft_krnl.Worker.Queue.{
  mint_base_nft, apply_quest_result, update_xp, open_lootbox, ActionStatus, pending, running,
  succeeded, failed, ActionItem, WorkerState, max_attempts, is_retry_due,
}
use dynamic_nft_krnl.Worker.Actions.{ActionEnv, Ending, done, thrown}
use dynamic_nft_krnl.Worker.Actions.Kinds.{execute_action}

-- The times at which an action is started and ended, and what it takes from outside.
pub record Turn : Type 0 where
  pub now : ℕ
  pub finished : ℕ
  pub action : ActionEnv

abbrev pub is_failed : ActionStatus → Bool
is_failed failed = true
is_failed pending = false
is_failed running = false
is_failed succeeded = false

abbrev pub is_waiting : ActionStatus → Bool
is_waiting pending = true
is_waiting failed = true
is_waiting running = false
is_waiting succeeded = false

-- The condition of the worker's query.
unfoldable pub is_eligible : ActionItem → Bool
is_eligible item = is_waiting item.status && ltb item.attempts max_attempts

-- `actionQueueItem.update` by id.
unfoldable pub update_item : String → (ActionItem → ActionItem) → List ActionItem → List ActionItem
update_item id f [] = []
update_item id f (i ∷ is) = let rest = update_item id f is in (if i.id == id then f i else i) ∷ rest

unfoldable pub started : ℕ → ActionItem → ActionItem
started now i = record i {
  status = running;
  attempts = suc i.attempts;
  last_error = none;
  updated_at = now;
}

-- A mint writes the wallet's token to its item.
abbrev token_after : Store → ActionItem → Option String
token_after s i = elim i.action_type [
  | mint_base_nft ↦ s.memberships i.brand_id i.wallet
  | apply_quest_result ↦ i.token_id
  | open_lootbox ↦ i.token_id
  | update_xp ↦ i.token_id
]

unfoldable pub ended : ℕ → Ending → Store → ActionItem → ActionItem
ended now done s i = record i { status = succeeded; token_id = token_after s i; updated_at = now }
ended now (thrown message) s i = record i {
  status = failed;
  last_error = some message;
  updated_at = now;
}

-- The body of the loop; the action is run on the item as the query returned it.
unfoldable pub run_item : Turn → ActionItem → WorkerState → WorkerState
unfolding update_item started ended execute_action
run_item turn item w =
    let out = execute_action turn.action item w.store in
    record {
      store = out.1;
      queue =
          update_item item.id (ended turn.finished out.0 out.1)
            (update_item item.id (started turn.now) w.queue);
    }

unfoldable pub process_item : Turn → ActionItem → WorkerState → WorkerState
unfolding is_retry_due run_item
process_item turn item w =
    if is_failed item.status && not (is_retry_due turn.now item) then w else run_item turn item w

unfoldable pub process_items : (String → Turn) → List ActionItem → WorkerState → WorkerState
unfolding process_item
process_items turns [] w = w
process_items turns (i ∷ is) w = process_items turns is (process_item (turns i.id) i w)

-- `processActionQueue`: the oldest five actions that are eligible.
unfoldable pub process_action_queue : (String → Turn) → WorkerState → WorkerState
unfolding process_items keep is_eligible
process_action_queue turns w = process_items turns (take 5 (keep is_eligible w.queue)) w
