-- ===== src/Zealy/Handler/Webhooks.antt =====
-- The two webhook routes: what each checks and reads before the event is stored.
use Prim.Native.String
use dynamic_nft_krnl.Base.{Option, none, some, String, List, [], ◌∷◌, if◌then◌else◌}
use dynamic_nft_krnl.Base.Text.{is_empty}
use dynamic_nft_krnl.Js.{Value, obj, end, fields_of, nullish}
use text.Mathlib.Text.{◌==◌}
use dynamic_nft_krnl.Store.{Store, ZealyConnection}
use dynamic_nft_krnl.Zealy.Payload.{
  WebhookRequest, or_text, verify_webhook_secret, normalize_zealy_webhook_payload,
  resolve_community_id, resolve_quest_id, resolve_wallet, build_zealy_event_id,
}
use dynamic_nft_krnl.Zealy.Handler.{WebhookEnv, Response, Delivery, wallet_of, receive, failure}

-- `req.body ?? {}`.
abbrev pub payload_of : WebhookRequest → Value
payload_of req = nullish req.body (obj end)

-- What a route reads for a brand and a community.
unfoldable pub delivery_of :
    WebhookEnv → WebhookRequest → String → String → String → Store → Delivery
unfolding normalize_zealy_webhook_payload build_zealy_event_id resolve_quest_id resolve_wallet
    wallet_of or_text fields_of nullish
delivery_of env req brand stored resolved s =
    let rt = env.runtime in
    let payload = payload_of req in
    let body = fields_of payload in
    let event = normalize_zealy_webhook_payload rt body in
    record {
      brand_id = brand;
      community_id = stored;
      event_type = or_text (some event.status) "unknown";
      event_id =
          build_zealy_event_id rt (env.hash_payload payload) payload
            (String.◌++◌ brand (String.◌++◌ "-" resolved));
      quest_id = resolve_quest_id rt body event.quest_id;
      wallet = wallet_of brand event.zealy_user_id (resolve_wallet rt body event.wallet) s;
      payload = payload;
    }

-- `zealyConnection.findFirst` by brand and by community.
unfoldable pub connection_of_brand : String → List ZealyConnection → Option ZealyConnection
connection_of_brand brand [] = none
connection_of_brand brand (c ∷ cs) =
    if c.brand_id == brand then some c else connection_of_brand brand cs

unfoldable pub connection_of_community : String → List ZealyConnection → Option ZealyConnection
connection_of_community community [] = none
connection_of_community community (c ∷ cs) =
    if c.community_id == community then some c else connection_of_community community cs

-- `a || b`, where each may be missing.
abbrev pub either_text : Option String → Option String → Option String
either_text none b = b
either_text (some a) b = if is_empty a then b else some a

abbrev pub secret_of : Option ZealyConnection → Option String
secret_of none = none
secret_of (some c) = c.webhook_secret

abbrev pub community_of : Option ZealyConnection → Option String
community_of none = none
community_of (some c) = some c.community_id

-- `POST /zealy/webhook/:brandId`.
unfoldable pub webhook_for_brand : WebhookEnv → String → WebhookRequest → Store → Response × Store
unfolding connection_of_brand verify_webhook_secret delivery_of receive
    normalize_zealy_webhook_payload resolve_community_id or_text fields_of nullish
webhook_for_brand env brand req s = elim (s.brands brand) [
  | none ↦ (failure 404 "Brand not found", s)
  | some _ ↦
      let connection = connection_of_brand brand s.connections in
      if verify_webhook_secret req (either_text (secret_of connection) env.shared_secret)
      then (let body = fields_of (payload_of req) in
          let event = normalize_zealy_webhook_payload env.runtime body in
          let community =
            resolve_community_id env.runtime body
              (or_text (some event.subdomain) (or_text (community_of connection) brand)) in
          receive env (delivery_of env req brand community community s) s)
      else (failure 401 "Invalid webhook signature", s)
]

-- `POST /zealy/webhook`.
unfoldable pub webhook_for_community : WebhookEnv → WebhookRequest → Store → Response × Store
unfolding connection_of_community verify_webhook_secret delivery_of receive
    normalize_zealy_webhook_payload resolve_community_id or_text fields_of nullish
webhook_for_community env req s =
    let body = fields_of (payload_of req) in
    let event = normalize_zealy_webhook_payload env.runtime body in
    let community = resolve_community_id env.runtime body event.subdomain in
    elim (connection_of_community community s.connections) [
      | none ↦ (failure 404 "Unknown Zealy community", s)
      | some c ↦
          if verify_webhook_secret req (either_text env.shared_secret c.webhook_secret)
          then elim (s.brands c.brand_id) [
            | none ↦ (failure 404 "Brand not found", s)
            | some _ ↦ receive env (delivery_of env req c.brand_id c.community_id community s) s
          ]
          else (failure 401 "Invalid webhook signature", s)
    ]
