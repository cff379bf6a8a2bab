-- ===== src/Worker/Events.antt =====
-- What the event worker makes of a stored event.
use text.Mathlib.Text.{◌==◌}
use dynamic_nft_krnl.Base.{
  ℕ, Bool, true, false, ◌&&◌, ◌||◌, not, keep, take, Option, none, some, String, List, [], ◌∷◌,
  if◌then◌else◌, upsert,
}
use dynamic_nft_krnl.Base.Int.{ℤ, pos}
use dynamic_nft_krnl.Base.Text.{is_empty, trim}
use dynamic_nft_krnl.Js.{
  Runtime, Value, str, num, obj, field, end, whole, int, Fields, get, fields_of, truthy, nullish,
  text_of,
}
use dynamic_nft_krnl.Store.{
  Store, WebhookEvent, EventStatus, received, processing, processed, ignored, failed, enqueued,
}
use dynamic_nft_krnl.Mint.{find_ownership}
use dynamic_nft_krnl.Zealy.Reward.{put_event, closed}
use dynamic_nft_krnl.Worker.Queue.{
  ActionType, mint_base_nft, apply_quest_result, NewAction, ActionItem, WorkerState,
  ensure_action_queued,
}

pub record EventEnv : Type 0 where
  pub runtime : Runtime
  pub now : ℕ
  pub mint_item_id : String
  pub quest_item_id : String

pub record PayloadFields : Type 0 where
  pub quest_id : String
  pub zealy_user_id : Option String
  pub wallet : Option String
  pub status : String

abbrev text_if : Runtime → Value → Option String
unfolding truthy text_of
text_if rt v = if truthy v then some (text_of rt v) else none

unfoldable pub extract_payload_fields : Runtime → Value → PayloadFields
unfolding text_if text_of nullish get fields_of trim
extract_payload_fields rt payload =
    let fs = fields_of payload in
    record {
      quest_id = trim (
          text_of rt (
            nullish (get "questId" fs) (
              nullish (get "zealyQuestId" fs)
                (nullish (get "quest_id" fs) (nullish (get "questID" fs) (str ""))))));
      zealy_user_id = text_if rt (get "userId" fs);
      wallet = text_if rt (get "wallet" fs);
      status =
          rt.to_lower
            (trim (text_of rt (nullish (get "status" fs) (nullish (get "event" fs) (str "")))));
    }

abbrev pub is_completed : String → Bool
is_completed s =
    (s == "completed" || s == "approved") || (s == "quest_completed" || s == "quest_approved")

-- `status || event.eventType?.toLowerCase() || "unknown"`.
abbrev pub status_of : Runtime → PayloadFields → WebhookEvent → String
status_of rt f e =
    if is_empty f.status
    then (let t = rt.to_lower e.event_type in if is_empty t then "unknown" else t)
    else f.status

abbrev known_wallet : Runtime → PayloadFields → String → Store → Option String
known_wallet rt f brand s = elim f.zealy_user_id [
  | none ↦ none
  | some u ↦ if is_empty u then none else elim (s.identities brand u) [
    | none ↦ none
    | some w ↦ let l = rt.to_lower w in if is_empty l then none else some l
  ]
]

-- The wallet of the payload, or else the one known for the user, in lower case; `none` when empty.
abbrev pub resolved_wallet : Runtime → PayloadFields → String → Store → Option String
resolved_wallet rt f brand s = elim f.wallet [
  | some w ↦ let l = rt.to_lower w in if is_empty l then known_wallet rt f brand s else some l
  | none ↦ known_wallet rt f brand s
]

unfoldable pub close_event :
    String → EventStatus → Option String → WebhookEvent → WorkerState → WorkerState
unfolding put_event
close_event id st err e w = record w {
  store = record (w.store) { events = put_event id (closed st err e) w.store.events };
}

-- `userIdentity.upsert`.
abbrev pub remember : String → Option String → String → Store → Store
remember brand none wallet s = s
remember brand (some u) wallet s =
    if is_empty u
    then s
    else record s { identities = upsert brand u (λ _. wallet) wallet s.identities }

-- `basePayload`; a user that is not known is left out.
unfoldable pub base_payload : String → String → Option String → String → ℤ → Value
base_payload event quest user wallet delta = obj (
    field "zealyEventId" (str event) (
      field "zealyQuestId" (str quest) (
        with_user user (
          field "walletAddress" (str wallet) (
            field "xpDelta" (num (whole (int (pos 0))))
              (field "lootKeyDelta" (num (whole (int delta))) end))))))
  where
    with_user : Option String → Fields → Fields
    with_user none fs = fs
    with_user (some u) fs = field "zealyUserId" (str u) fs

abbrev pub event_action :
    EventEnv → String → String → Option String → Value → ActionType → String → NewAction
event_action env brand wallet token payload type id = record {
  id = id;
  brand_id = brand;
  wallet = wallet;
  token_id = token;
  action_type = type;
  payload = payload;
  now = env.now;
}

-- The two actions of a completed quest: a mint where no token is owned, and the quest's result.
unfoldable pub queue_actions :
    EventEnv → String → String → Option String → Value → List ActionItem → List ActionItem
unfolding ensure_action_queued
queue_actions env brand wallet token payload queue =
    ensure_action_queued
      (event_action env brand wallet token payload apply_quest_result env.quest_item_id)
      (elim token [
        | some t ↦ queue
        | none ↦
            ensure_action_queued
              (event_action env brand wallet none payload mint_base_nft env.mint_item_id) queue
      ])

-- The part of `handleZealyEvent` once the wallet is known.
unfoldable pub enqueue_event :
    EventEnv → String → WebhookEvent → PayloadFields → String → WorkerState → WorkerState
unfolding close_event queue_actions find_ownership upsert base_payload
enqueue_event env id e f wallet w =
    let s = remember e.brand_id f.zealy_user_id wallet w.store in
    let w' : WorkerState = record w { store = s } in
    elim (s.quest_reward_rules e.brand_id f.quest_id) [
      | none ↦ close_event id failed (some "Reward rule not configured") e w'
      | some rule ↦
          if not rule.enabled
          then close_event id ignored none e w'
          else close_event id enqueued none e (record w' {
            queue =
                queue_actions env e.brand_id wallet (find_ownership e.brand_id wallet s.ownerships)
                  (base_payload id f.quest_id f.zealy_user_id wallet rule.loot_key_delta) w.queue;
          })
    ]

-- `handleZealyEvent`, for the event with the given `zealyEventId`.
unfoldable pub handle_zealy_event : EventEnv → String → WorkerState → WorkerState
unfolding extract_payload_fields close_event enqueue_event
handle_zealy_event env id w = elim (w.store.events id) [
  | none ↦ w
  | some e ↦
      let f = extract_payload_fields env.runtime e.payload in
      if is_empty f.quest_id
      then close_event id failed (some "Missing zealyQuestId") e w
      else if not (is_completed (status_of env.runtime f e))
      then close_event id ignored e.error e w
      else elim (resolved_wallet env.runtime f e.brand_id w.store) [
        | none ↦ close_event id failed (some "Missing wallet address") e w
        | some wallet ↦ enqueue_event env id e f wallet w
      ]
]

-- The condition of the worker's query.
abbrev pub is_due : Store → String → Bool
is_due s id = elim (s.events id) [
  | none ↦ false
  | some e ↦ not e.is_processed && elim e.status [
    | received ↦ true
    | processing ↦ true
    | processed ↦ false
    | ignored ↦ false
    | enqueued ↦ false
    | failed ↦ false
  ]
]

unfoldable pub mark_processing : String → WorkerState → WorkerState
unfolding put_event
mark_processing id w = elim (w.store.events id) [
  | none ↦ w
  | some e ↦ record w {
    store = record (w.store) {
      events = put_event id (record e { status = processing }) w.store.events;
    };
  }
]

unfoldable pub handle_events : (String → EventEnv) → List String → WorkerState → WorkerState
unfolding mark_processing handle_zealy_event
handle_events envs [] w = w
handle_events envs (id ∷ ids) w =
    handle_events envs ids (handle_zealy_event (envs id) id (mark_processing id w))

-- `processZealyWebhookEvents`: the oldest ten events that wait, of all events by their arrival.
unfoldable pub process_zealy_webhook_events :
    (String → EventEnv) → List String → WorkerState → WorkerState
unfolding handle_events keep
process_zealy_webhook_events envs all_ids w =
    handle_events envs (take 10 (keep (is_due w.store) all_ids)) w
