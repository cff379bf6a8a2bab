-- ===== src/Worker/Queue.antt =====
-- The queue of actions, oldest first, and how an action is added to it.
use text.Mathlib.Text.{◌==◌}
use dynamic_nft_krnl.Base.{
  ℕ, ◌+◌, ◌-◌, ◌*◌, ◌^◌, min, Bool, true, false, ◌&&◌, Option, none, some, String, List, [], ◌∷◌,
  ◌++◌, if◌then◌else◌, leb,
}
use dynamic_nft_krnl.Base.Text.{is_empty}
use dynamic_nft_krnl.Js.{Value, str, get, fields_of}
use dynamic_nft_krnl.Store.{Store}

pub data ActionType : Type 0 where
  mint_base_nft apply_quest_result update_xp open_lootbox : ActionType

pub data ActionStatus : Type 0 where
  pending running succeeded failed : ActionStatus

-- Times are milliseconds.
pub record ActionItem : Type 0 where
  pub id : String
  pub brand_id : String
  pub wallet : String
  pub token_id : Option String
  pub action_type : ActionType
  pub payload : Value
  pub status : ActionStatus
  pub attempts : ℕ
  pub last_error : Option String
  pub updated_at : ℕ

-- The database with the queue.
pub record WorkerState : Type 0 where
  pub store : Store
  pub queue : List ActionItem

abbrev pub max_attempts : ℕ
max_attempts = 5

-- `attempts` is no more than the base's exponent plus one.
unfoldable pub is_retry_due : ℕ → ActionItem → Bool
is_retry_due now item =
    if leb item.attempts 0
    then true
    else leb (item.updated_at + min (2 ^ (item.attempts - 1) * 10000) 300000) now

unfoldable pub same_type : ActionType → ActionType → Bool
same_type mint_base_nft mint_base_nft = true
same_type apply_quest_result apply_quest_result = true
same_type update_xp update_xp = true
same_type open_lootbox open_lootbox = true
same_type a b = false

-- The event id of a payload, when it is a text that is not empty.
unfoldable pub event_id_of : Value → Option String
unfolding get fields_of
event_id_of payload = elim (get "zealyEventId" (fields_of payload)) [
  | str s ↦ if is_empty s then none else some s
  | _ ↦ none
]

abbrev pub has_event : String → Option String → Bool
has_event event none = false
has_event event (some e) = e == event

-- The condition of the query for an action of the event.
unfoldable pub is_queued_for : String → ActionType → String → ActionItem → Bool
unfolding same_type event_id_of
is_queued_for brand type event item =
    item.brand_id == brand
    && (same_type item.action_type type && has_event event (event_id_of item.payload))

unfoldable pub find_queued : String → ActionType → String → List ActionItem → Option ActionItem
unfolding is_queued_for
find_queued brand type event [] = none
find_queued brand type event (i ∷ is) =
    let rest = find_queued brand type event is in
    if is_queued_for brand type event i then some i else rest

-- An action as it is asked for, with the id and the time that the database gives it.
pub record NewAction : Type 0 where
  pub id : String
  pub brand_id : String
  pub wallet : String
  pub token_id : Option String
  pub action_type : ActionType
  pub payload : Value
  pub now : ℕ

abbrev pub item_of : NewAction → ActionItem
item_of a = record {
  id = a.id;
  brand_id = a.brand_id;
  wallet = a.wallet;
  token_id = a.token_id;
  action_type = a.action_type;
  payload = a.payload;
  status = pending;
  attempts = 0;
  last_error = none;
  updated_at = a.now;
}

abbrev pub add_action : NewAction → List ActionItem → List ActionItem
add_action a queue = queue ++ item_of a ∷ []

-- The queue after `ensureActionQueued`.
unfoldable pub ensure_action_queued : NewAction → List ActionItem → List ActionItem
unfolding event_id_of find_queued
ensure_action_queued a queue = elim (event_id_of a.payload) [
  | none ↦ add_action a queue
  | some event ↦ elim (find_queued a.brand_id a.action_type event queue) [
    | some i ↦ queue
    | none ↦ add_action a queue
  ]
]
