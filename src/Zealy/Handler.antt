-- ===== src/Zealy/Handler.antt =====
-- What both webhook routes of zealy.ts do with a request that was read: the same code in both, here
-- `receive`. An exception of the database itself is not modelled.
pub mod Webhooks
pub mod Cases
pub mod Once
pub mod Outcome
pub mod Closed
pub mod Routes
use Prim.Native.String
use dynamic_nft_krnl.Base.{
  ℕ, Bool, true, false, ◌||◌, not, Option, none, some, String, List, [], ◌∷◌, if◌then◌else◌,
  or_else,
}
use dynamic_nft_krnl.Base.Int.{ℤ, pos}
use dynamic_nft_krnl.Base.Text.{is_empty, includes}
use dynamic_nft_krnl.Js.{Runtime, Value, obj, end, Number, fields_of, nullish}
use text.Mathlib.Text.{◌==◌}
use dynamic_nft_krnl.Store.{Store, ZealyConnection, WebhookEvent, EventStatus, received, ignored}
use dynamic_nft_krnl.Mint.{MintEnv, ensure_base_nft_minted}
use dynamic_nft_krnl.Zealy.Payload.{
  WebhookRequest, ZealyWebhookEvent, or_text, verify_webhook_secret,
  normalize_zealy_webhook_payload, resolve_community_id, resolve_quest_id, resolve_wallet,
  build_zealy_event_id,
}
use dynamic_nft_krnl.Zealy.Reward.{
  Lookup, resolve_zealy_xp_total, get_effective_reward_rule, credited_loot_keys_of, put_event,
  closed, RewardArgs, apply_webhook_reward,
}

-- What the routes take from outside: the environment's secret, the hash of a payload, Zealy's
-- answer for a community and a wallet, and the mint service's surroundings.
pub record WebhookEnv : Type 0 where
  pub runtime : Runtime
  pub shared_secret : Option String
  pub hash_payload : Value → String
  pub look_up : String → String → Lookup
  pub mint : MintEnv

pub data Response : Type 0 where
  ok : Response
  failure : ℕ → String → Response

abbrev pub internal_error : Response
internal_error = failure 500 "Internal server error"

-- What a route has read when it stores the event.
pub record Delivery : Type 0 where
  pub brand_id : String
  pub community_id : String
  pub event_type : String
  pub event_id : String
  pub quest_id : String
  pub wallet : String
  pub payload : Value

-- The wallet of the payload, or else the one known for the Zealy user.
unfoldable pub wallet_of : String → Option String → String → Store → String
wallet_of brand zealy_user wallet s =
    if is_empty wallet
    then elim zealy_user [
      | none ↦ wallet
      | some u ↦ if is_empty u then wallet else or_else (s.identities brand u) ""
    ]
    else wallet

unfoldable pub reward_args : WebhookEnv → Delivery → Number → Store → RewardArgs
unfolding get_effective_reward_rule credited_loot_keys_of
reward_args env d total s = record {
  brand_id = d.brand_id;
  wallet = d.wallet;
  quest_id = d.quest_id;
  event_id = d.event_id;
  xp_total = total;
  loot_key_delta =
      credited_loot_keys_of (get_effective_reward_rule env.runtime d.brand_id d.quest_id s) total;
}

-- The experience that the synced quest gives, when there is one.
unfoldable pub quest_xp : Option (Option ℤ) → ℤ
quest_xp none = pos 0
quest_xp (some x) = or_else x (pos 0)

unfoldable pub xp_total_of : WebhookEnv → Delivery → Store → Option Number
unfolding resolve_zealy_xp_total quest_xp fields_of
xp_total_of env d s =
    resolve_zealy_xp_total env.runtime (fields_of d.payload) (env.look_up d.community_id d.wallet)
      (quest_xp (s.zealy_quests d.brand_id d.quest_id))

-- A completion with a quest and a wallet.
unfoldable pub complete_quest : WebhookEnv → Delivery → Store → Response × Store
unfolding xp_total_of reward_args ensure_base_nft_minted apply_webhook_reward
complete_quest env d s = elim (xp_total_of env d s) [
  | none ↦ (internal_error, s)
  | some total ↦
      let m = ensure_base_nft_minted env.mint d.brand_id d.wallet s in
      elim m.0 [
        | none ↦ (internal_error, m.1)
        | some _ ↦ elim (apply_webhook_reward (reward_args env d total s) m.1) [
          | none ↦ (internal_error, m.1)
          | some t ↦ (ok, t)
        ]
      ]
]

abbrev pub new_event : Delivery → WebhookEvent
new_event d = record {
  brand_id = d.brand_id;
  community_id = d.community_id;
  event_type = d.event_type;
  payload = d.payload;
  status = received;
  is_processed = false;
  error = none;
}

-- The stored event closed as ignored.
unfoldable pub ignore_event : Delivery → String → Store → Store
unfolding put_event
ignore_event d why s = record s {
  events = put_event d.event_id (closed ignored (some why) (new_event d)) s.events;
}

-- What follows the insertion of the event.
unfoldable pub process_event : WebhookEnv → Delivery → Store → Response × Store
unfolding ignore_event complete_quest includes
process_event env d s =
    if not (includes (env.runtime.to_lower d.event_type) "complete")
    then (ok, ignore_event d "Event not a quest completion" s)
    else if is_empty d.quest_id
    then (ok, ignore_event d "Missing zealyQuestId" s)
    else if is_empty d.wallet
    then (ok, ignore_event d "Missing wallet address" s)
    else complete_quest env d s

-- The event as it is inserted.
unfoldable pub insert_event : Delivery → Store → Store
unfolding put_event
insert_event d s = record s { events = put_event d.event_id (new_event d) s.events }

-- From the insertion of the event on. The event id is unique: a second insertion is refused, and
-- the route then answers that all is well.
unfoldable pub receive : WebhookEnv → Delivery → Store → Response × Store
unfolding insert_event process_event
receive env d s = elim (s.events d.event_id) [
  | some e ↦ (ok, s)
  | none ↦ process_event env d (insert_event d s)
]
