-- ===== src/Zealy/Payload.antt =====
-- What the handlers read from a webhook's request.
use Prim.Native.String
use text.Mathlib.Text.{◌==◌}
use dynamic_nft_krnl.Base.{
  Bool, true, Option, none, some, String, List, [], ◌∷◌, if◌then◌else◌, or_else,
}
use dynamic_nft_krnl.Base.Int.{ℤ, pos, max_ℤ}
use dynamic_nft_krnl.Base.Text.{is_empty, trim}
use dynamic_nft_krnl.Js.{
  Runtime, nan, pos_inf, neg_inf, int, Number, whole, frac, Value, undefined, null, bool, num, str,
  arr, obj, Fields, get, fields_of, truthy, or_value, nullish, text_of,
}

pub record WebhookRequest : Type 0 where
  pub webhook_secret : Option String
  pub signature : Option String
  pub secret : Option String
  pub body : Value

pub record ZealyWebhookEvent : Type 0 where
  pub subdomain : String
  pub quest_id : String
  pub zealy_user_id : Option String
  pub wallet : Option String
  pub status : String

-- `a || b` on texts that may be missing.
unfoldable pub or_text : Option String → String → String
or_text none b = b
or_text (some a) b = if is_empty a then b else a

unfoldable pub verify_webhook_secret : WebhookRequest → Option String → Bool
unfolding or_text
verify_webhook_secret req none = true
verify_webhook_secret req (some shared) =
    if is_empty shared
    then true
    else or_text req.webhook_secret (or_text req.signature (or_text req.secret "")) == shared

-- The loop of `resolveZealyXpFromPayload` for one candidate: `Math.max(0, Math.floor(x))`.
unfoldable pub finite_floor : Number → Option ℤ
finite_floor (whole (int n)) = some (max_ℤ (pos 0) n)
finite_floor (frac n f) = some (max_ℤ (pos 0) n)
finite_floor (whole nan) = none
finite_floor (whole pos_inf) = none
finite_floor (whole neg_inf) = none

-- The places where a payload may give its experience.
unfoldable pub candidates : Fields → List Value
unfolding get fields_of
candidates payload =
    let quest = fields_of (get "quest" payload) in
    get "xp" payload
    ∷ get "xpDelta" payload
    ∷ get "xpReward" payload
    ∷ get "rewardXp" payload
    ∷ get "questXp" payload
    ∷ get "earnedXp" payload
    ∷ get "xp" quest
    ∷ get "xpReward" quest
    ∷ []

module _ (rt : Runtime) where
  -- `x ? String(x) : undefined`.
  text_if : Value → Option String
  unfolding truthy text_of
  text_if v = if truthy v then some (text_of rt v) else none

  unfoldable pub normalize_zealy_webhook_payload : Fields → ZealyWebhookEvent
  unfolding text_of nullish get text_if
  normalize_zealy_webhook_payload body = record {
    subdomain =
        text_of rt (nullish (nullish (get "subdomain" body) (get "zealySubdomain" body)) (str ""));
    quest_id =
        text_of rt (nullish (nullish (get "questId" body) (get "zealyQuestId" body)) (str ""));
    zealy_user_id = text_if (get "userId" body);
    wallet = text_if (get "wallet" body);
    status = text_of rt (nullish (nullish (get "status" body) (get "event" body)) (str "unknown"));
  }

  unfoldable pub resolve_community_id : Fields → String → String
  unfolding trim text_of nullish or_value get
  resolve_community_id payload fallback = trim (
      text_of rt (
        nullish
          (or_value (get "communityId" payload) (
            or_value (get "community_id" payload) (
              or_value (get "community" payload)
                (or_value (get "subdomain" payload) (get "zealySubdomain" payload)))))
          (str fallback)))

  unfoldable pub resolve_quest_id : Fields → String → String
  unfolding trim text_of nullish or_value get fields_of
  resolve_quest_id payload fallback = trim (
      text_of rt (
        nullish
          (or_value (get "questId" payload) (
            or_value (get "zealyQuestId" payload)
              (or_value (get "quest_id" payload) (get "id" (fields_of (get "quest" payload))))))
          (str fallback)))

  unfoldable pub resolve_wallet : Fields → Option String → String
  unfolding trim text_of nullish or_value get
  resolve_wallet payload fallback = trim (
      text_of rt (
        nullish
          (or_value (get "wallet" payload)
            (or_value (get "walletAddress" payload) (get "address" payload)))
          (str (or_else fallback ""))))

  unfoldable pub candidate_xp : Value → Option ℤ
  unfolding finite_floor
  candidate_xp (num n) = finite_floor n
  candidate_xp (str s) = finite_floor (rt.read_number s)
  candidate_xp undefined = none
  candidate_xp null = none
  candidate_xp (bool b) = none
  candidate_xp (arr vs) = none
  candidate_xp (obj fs) = none

  unfoldable pub first_xp : List Value → Option ℤ
  unfolding candidate_xp
  first_xp [] = none
  first_xp (v ∷ vs) =
      let rest = first_xp vs in elim (candidate_xp v) [ none ↦ rest | some n ↦ some n ]

  unfoldable pub resolve_zealy_xp_from_payload : Fields → Option ℤ
  unfolding first_xp candidates
  resolve_zealy_xp_from_payload payload = first_xp (candidates payload)

  -- `hash` is the payload's SHA-256.
  unfoldable pub build_zealy_event_id : String → Value → String → String
  unfolding or_value get fields_of trim
  build_zealy_event_id hash payload fallback =
      let fs = fields_of payload in
      let made = String.◌++◌ fallback (String.◌++◌ "-" hash) in
      id_of made (
        or_value (get "eventId" fs)
          (or_value (get "id" fs) (or_value (get "event_id" fs) (get "eventID" fs))))
    where
      id_of : String → Value → String
      id_of made (str s) = if is_empty (trim s) then made else s
      id_of made (num n) = rt.show_number n
      id_of made v = made
