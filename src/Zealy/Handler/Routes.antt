-- ===== src/Zealy/Handler/Routes.antt =====
-- Who gets past the routes' checks.
use dynamic_nft_krnl.Base.{
  ◌≡◌, ◌≢◌, refl, sym, false, Option, none, some, String, arith, Option-cases, inl, inr,
}
use dynamic_nft_krnl.Base.Text.{is_empty}
use text.Mathlib.TextEquality.{eq_iff}
use dynamic_nft_krnl.Js.{fields_of}
use dynamic_nft_krnl.Store.{Store, ZealyConnection}
use dynamic_nft_krnl.Zealy.Payload.{
  WebhookRequest, verify_webhook_secret, or_text, normalize_zealy_webhook_payload,
  resolve_community_id,
}
use dynamic_nft_krnl.Zealy.Handler.{WebhookEnv, failure}
use dynamic_nft_krnl.Zealy.Handler.Webhooks.{
  connection_of_brand, connection_of_community, either_text, secret_of, payload_of,
  webhook_for_brand, webhook_for_community,
}

-- The secret that a request presents: the first of its three places that is not empty.
unfoldable pub presented : WebhookRequest → String
unfolding or_text
presented req = or_text req.webhook_secret (or_text req.signature (or_text req.secret ""))

refused_lem :
    (req : WebhookRequest) (secret : String)
    → is_empty secret ≡ false
    → presented req ≢ secret
    → verify_webhook_secret req (some secret) ≡ false
unfolding verify_webhook_secret presented
refused_lem req secret e ne = ground (arith, eq_iff (presented req) secret)

-- The first secret that is set: a brand's connection before the environment on the brand's route,
-- the environment before the connection on the community's.
module _ (env : WebhookEnv) (req : WebhookRequest) (s : Store) (secret : String)
    (set : is_empty secret ≡ false) (wrong : presented req ≢ secret) where
  -- A request to a brand's route that does not present the secret that is set, the connection's or
  -- else the environment's, changes nothing and is refused: with 404 where there is no such brand,
  -- else with 401.
  pub webhook_for_brand_refused :
      (brand : String)
      → either_text (secret_of (connection_of_brand brand s.connections)) env.shared_secret
        ≡ some secret
      → webhook_for_brand env brand req s ≡ (
        elim (s.brands brand) [
          | none ↦ failure 404 "Brand not found"
          | some _ ↦ failure 401 "Invalid webhook signature"
        ],
        s,
      )
  unfolding webhook_for_brand
  webhook_for_brand_refused brand e = elim (Option-cases (s.brands brand)) [
    | inl gone ↦ rw (gone, webhook_for_brand) refl
    | inr (b, there) ↦ rw (there, e, refused_lem req secret set wrong, webhook_for_brand) refl
  ]

  -- So is a request to the route for communities where the secret is the environment's or else the
  -- connection's: with 404 where no connection has the community, else with 401.
  pub webhook_for_community_refused :
      (c : Option ZealyConnection)
      → c
        ≡ connection_of_community
            (resolve_community_id env.runtime
              (fields_of (payload_of req))
              (normalize_zealy_webhook_payload env.runtime (fields_of (payload_of req))).subdomain)
            s.connections
      → either_text env.shared_secret (secret_of c) ≡ some secret
      → webhook_for_community env req s ≡ (
        elim c [
          | none ↦ failure 404 "Unknown Zealy community"
          | some _ ↦ failure 401 "Invalid webhook signature"
        ],
        s,
      )
  unfolding webhook_for_community
  webhook_for_community_refused none found e = rw (sym found, webhook_for_community) refl
  webhook_for_community_refused (some c) found e =
      rw (sym found, e, refused_lem req secret set wrong, webhook_for_community) refl
