-- ===== src/Worker/Deduped.antt =====
-- An event is queued once for each kind of action.
use text.Mathlib.TextEquality.{eq_iff}
use dynamic_nft_krnl.Base.Text.{is_empty}
use dynamic_nft_krnl.Mint.{find_ownership}
use dynamic_nft_krnl.Js.{Value}
use dynamic_nft_krnl.Store.{WebhookEvent}
use dynamic_nft_krnl.Worker.Events.{
  is_due, mark_processing, handle_events, process_zealy_webhook_events, EventEnv, PayloadFields,
  event_action, remember, is_completed, status_of, resolved_wallet, base_payload, queue_actions,
  enqueue_event, close_event, handle_zealy_event, extract_payload_fields,
}
use dynamic_nft_krnl.Base.{
  keep, take, none-ne-some, some_injective, sym, ℕ, ◌+◌, ◌≤◌, ◌≡◌, refl, inl, inr, true, Option,
  none, some, String, List, [], ◌∷◌, ◌++◌, arith, if◌then◌else◌, Option-cases, Bool-cases,
}
use dynamic_nft_krnl.Worker.Queue.{
  ActionType, ActionItem, NewAction, same_type, event_id_of, has_event, is_queued_for, find_queued,
  item_of, add_action, WorkerState, ensure_action_queued, mint_base_nft, apply_quest_result,
}

-- How many actions of a kind are queued for an event of a brand.
abbrev pub times_queued : String → ActionType → String → List ActionItem → ℕ
times_queued brand type event [] = 0
times_queued brand type event (i ∷ is) =
    (if is_queued_for brand type event i then 1 else 0) + times_queued brand type event is

-- No brand has two actions of a kind for one event.
abbrev pub IsDeduped : List ActionItem → Type 0
IsDeduped queue =
    (brand : String) (type : ActionType) (event : String) → times_queued brand type event queue ≤ 1

same_type_eq : (s t : ActionType) → same_type s t ≡ true → s ≡ t
unfolding same_type
same_type_eq s t e = ground arith

find_none :
    (brand : String) (type : ActionType) (event : String) (queue : List ActionItem)
    → find_queued brand type event queue ≡ none
    → times_queued brand type event queue ≡ 0
unfolding find_queued
find_none brand type event [] e = refl
find_none brand type event (i ∷ is) e = ground (arith, find_none brand type event is)

times_queued-append :
    (brand : String) (type : ActionType) (event : String) (queue : List ActionItem) (i : ActionItem)
    → times_queued brand type event (queue ++ i ∷ [])
      ≡ times_queued brand type event queue + (if is_queued_for brand type event i then 1 else 0)
times_queued-append brand type event [] i = omega arith
times_queued-append brand type event (j ∷ is) i =
    omega (arith, times_queued-append brand type event is i)

has_event_eq : (e : String) (o : Option String) → has_event e o ≡ true → o ≡ some e
has_event_eq e none h = ground arith
has_event_eq e (some x) h = ground (arith, eq_iff x e)

-- An action that the query for another event finds is of that event.
queued_for :
    (a : NewAction) (event : Option String) (brand : String) (type : ActionType) (e : String)
    → event_id_of a.payload ≡ event
    → is_queued_for brand type e (item_of a) ≡ true
    → (brand ≡ a.brand_id) × (type ≡ a.action_type) × (event ≡ some e)
unfolding is_queued_for
queued_for a event brand type e same found =
    let same_brand = eq_iff a.brand_id brand in
    (
      ground (arith, same_brand),
      ground (arith, same_type_eq a.action_type type),
      ground (arith, has_event_eq e (event_id_of a.payload)),
    )

-- What is added is of an event that has no such action, or of none.
add_lem :
    (a : NewAction) (event : Option String) (queue : List ActionItem) (brand : String)
    (type : ActionType) (e : String)
    → event_id_of a.payload ≡ event
    → (event ≡ some e → times_queued a.brand_id a.action_type e queue ≡ 0)
    → times_queued brand type e queue ≤ 1
    → times_queued brand type e (add_action a queue) ≤ 1
add_lem a event queue brand type e same fresh h =
    elim (Bool-cases (is_queued_for brand type e (item_of a))) [
      | inr other ↦ ground (arith, times_queued-append brand type e queue (item_of a))
      | inl found ↦
          let (b, t, ev) = queued_for a event brand type e same found in
          let none_yet : times_queued brand type e queue ≡ 0 = rw (b, t) (fresh ev) in
          ground (arith, times_queued-append brand type e queue (item_of a))
    ]

-- Asking for an action keeps it so that no brand has two actions of a kind for one event.
pub ensure_action_queued-IsDeduped :
    (a : NewAction) (queue : List ActionItem)
    → IsDeduped queue
    → IsDeduped (ensure_action_queued a queue)
unfolding ensure_action_queued
ensure_action_queued-IsDeduped a queue h brand type e =
    elim (Option-cases (event_id_of a.payload)) [
      | inl no_event ↦
          rw (no_event, ensure_action_queued)
            (add_lem a none queue brand type e no_event (λ p. absurd (none-ne-some e p))
              (h brand type e))
      | inr (event, given) ↦
          elim (Option-cases (find_queued a.brand_id a.action_type event queue)) [
            | inr (i, found) ↦ rw (given, found, ensure_action_queued) (h brand type e)
            | inl missing ↦
                rw (given, missing, ensure_action_queued)
                  (add_lem a (some event) queue brand type e given
                    (λ p.
                      rw (sym (some_injective event e p))
                        (find_none a.brand_id a.action_type event queue missing))
                    (h brand type e))
          ]
    ]

queue_actions-IsDeduped :
    (env : EventEnv) (brand wallet : String) (token : Option String) (payload : Value)
    (queue : List ActionItem)
    → IsDeduped queue
    → IsDeduped (queue_actions env brand wallet token payload queue)
unfolding queue_actions
queue_actions-IsDeduped env brand wallet (some t) payload queue h =
    ensure_action_queued-IsDeduped
      (event_action env brand wallet (some t) payload apply_quest_result env.quest_item_id) queue h
queue_actions-IsDeduped env brand wallet none payload queue h =
    let mint = event_action env brand wallet none payload mint_base_nft env.mint_item_id in
    ensure_action_queued-IsDeduped
      (event_action env brand wallet none payload apply_quest_result env.quest_item_id)
      (ensure_action_queued mint queue) (ensure_action_queued-IsDeduped mint queue h)

enqueue-IsDeduped :
    (env : EventEnv) (id : String) (e : WebhookEvent) (f : PayloadFields) (wallet : String)
    (w : WorkerState)
    → IsDeduped w.queue
    → IsDeduped (enqueue_event env id e f wallet w).queue
unfolding enqueue_event close_event
enqueue-IsDeduped env id e f wallet w h =
    let s = remember e.brand_id f.zealy_user_id wallet w.store in
    elim (Option-cases (s.quest_reward_rules e.brand_id f.quest_id)) [
      | inl missing ↦ rw (missing, enqueue_event) h
      | inr (rule, there) ↦ elim (Bool-cases rule.enabled) [
        | inr off ↦ rw (there, off, enqueue_event) h
        | inl on ↦
            rw (there, on, enqueue_event)
              (queue_actions-IsDeduped env e.brand_id wallet
                (find_ownership e.brand_id wallet s.ownerships)
                (base_payload id f.quest_id f.zealy_user_id wallet rule.loot_key_delta) w.queue h)
      ]
    ]

-- Handling one event keeps it so.
pub handle_zealy_event-IsDeduped :
    (env : EventEnv) (id : String) (w : WorkerState)
    → IsDeduped w.queue
    → IsDeduped (handle_zealy_event env id w).queue
unfolding handle_zealy_event close_event
handle_zealy_event-IsDeduped env id w h = elim (Option-cases (w.store.events id)) [
  | inl gone ↦ rw (gone, handle_zealy_event) h
  | inr (e, there) ↦
      let f = extract_payload_fields env.runtime e.payload in
      elim (Bool-cases (is_empty f.quest_id)) [
        | inl no_quest ↦ rw (there, no_quest, handle_zealy_event) h
        | inr quest ↦ elim (Bool-cases (is_completed (status_of env.runtime f e))) [
          | inr other ↦ rw (there, quest, other, handle_zealy_event) h
          | inl complete ↦ elim (Option-cases (resolved_wallet env.runtime f e.brand_id w.store)) [
            | inl no_wallet ↦ rw (there, quest, complete, no_wallet, handle_zealy_event) h
            | inr (wallet, known) ↦
                rw (there, quest, complete, known, handle_zealy_event)
                  (enqueue-IsDeduped env id e f wallet w h)
          ]
        ]
      ]
]

marked-IsDeduped :
    (id : String) (w : WorkerState) → IsDeduped w.queue → IsDeduped (mark_processing id w).queue
unfolding mark_processing
marked-IsDeduped id w h = elim (Option-cases (w.store.events id)) [
  | inl gone ↦ rw (gone, mark_processing) h
  | inr (e, there) ↦ rw (there, mark_processing) h
]

events-IsDeduped :
    (envs : String → EventEnv) (ids : List String) (w : WorkerState)
    → IsDeduped w.queue
    → IsDeduped (handle_events envs ids w).queue
unfolding handle_events mark_processing
events-IsDeduped envs [] w h = h
events-IsDeduped envs (id ∷ ids) w h =
    events-IsDeduped envs ids (handle_zealy_event (envs id) id (mark_processing id w))
      (handle_zealy_event-IsDeduped (envs id) id (mark_processing id w) (marked-IsDeduped id w h))

-- A round of the event worker, whatever events wait and how often they were handled before, keeps
-- it so that no brand has two actions of a kind in the queue for one event.
pub process_zealy_webhook_events-IsDeduped :
    (envs : String → EventEnv) (ids : List String) (w : WorkerState)
    → IsDeduped w.queue
    → IsDeduped (process_zealy_webhook_events envs ids w).queue
unfolding process_zealy_webhook_events
process_zealy_webhook_events-IsDeduped envs ids w h =
    events-IsDeduped envs (take 10 (keep (is_due w.store) ids)) w h
