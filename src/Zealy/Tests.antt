-- ===== src/Zealy/Tests.antt =====
-- Runs of the webhooks, and their theorems at concrete inputs.
use dynamic_nft_krnl.Base.{◌≡◌, ◌≢◌, refl, none, some, String}
use dynamic_nft_krnl.Base.Int.{pos, ◌+ℤ◌}
use dynamic_nft_krnl.Js.{obj, str, field, end}
use dynamic_nft_krnl.Zealy.Payload.{WebhookRequest}
use dynamic_nft_krnl.Zealy.Handler.{ok, failure, receive}
use dynamic_nft_krnl.Zealy.Handler.Webhooks.{webhook_for_brand, webhook_for_community}
use dynamic_nft_krnl.Zealy.Handler.Once.{receive_once}
use dynamic_nft_krnl.Zealy.Handler.Outcome.{IsOutcome, receive-IsOutcome}
use dynamic_nft_krnl.Zealy.Handler.Routes.{
  presented, webhook_for_brand_refused, webhook_for_community_refused,
}
use dynamic_nft_krnl.Fixtures.{webhook_env, completion, shop, two_keys}

pays :
    let out = receive webhook_env completion shop in
    (out.0 ≡ ok)
    × (out.1.economy "acme" "0xa"
        ≡ some
            (record { zealy_xp_total = pos 1500; xp_spent = pos 200; loot_keys_balance = pos 5 }))
unfolding receive ◌+ℤ◌ two_keys
pays = (refl, refl)

-- A webhook with a secret in its header.
abbrev request : String → WebhookRequest
request secret = record {
  webhook_secret = some secret;
  signature = none;
  secret = none;
  body = obj (
      field "subdomain" (str "acme-hq") (
        field "questId" (str "quest-1")
          (field "status" (str "completed") (field "wallet" (str "0xa") end))));
}

accepts : (webhook_for_brand webhook_env "acme" (request "s3cret") shop).0 ≡ ok
unfolding webhook_for_brand two_keys
accepts = refl

accepts_community : (webhook_for_community webhook_env (request "s3cret") shop).0 ≡ ok
unfolding webhook_for_community two_keys
accepts_community = refl

wrong : presented (request "guess") ≢ "s3cret"
unfolding presented
wrong e = cc

receive_once_example :
    let t = (receive webhook_env completion shop).1 in receive webhook_env completion t ≡ (ok, t)
receive_once_example = receive_once webhook_env webhook_env completion completion shop refl

receive-IsOutcome_example :
    IsOutcome webhook_env completion shop (receive webhook_env completion shop)
receive-IsOutcome_example = receive-IsOutcome webhook_env completion shop refl

webhook_for_brand_refused_example :
    webhook_for_brand webhook_env "acme" (request "guess") shop
    ≡ (failure 401 "Invalid webhook signature", shop)
unfolding webhook_for_brand two_keys
webhook_for_brand_refused_example =
    webhook_for_brand_refused webhook_env (request "guess") shop "s3cret" refl wrong "acme" refl

webhook_for_community_refused_example :
    webhook_for_community webhook_env (request "guess") shop
    ≡ (failure 401 "Invalid webhook signature", shop)
unfolding webhook_for_community two_keys
webhook_for_community_refused_example =
    webhook_for_community_refused webhook_env (request "guess") shop "s3cret" refl wrong
      (some
        (record { brand_id = "acme"; community_id = "acme-hq"; webhook_secret = some "s3cret" }))
      refl refl
