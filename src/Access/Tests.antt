-- ===== src/Access/Tests.antt =====
-- Requests and their sessions.
use text.Mathlib.Text.{◌==◌ as str_eq}
use dynamic_nft_krnl.Base.{true, ◌≡◌, refl, false, none, some, String, [], ◌∷◌, if◌then◌else◌}
use dynamic_nft_krnl.Js.{get, fields_of, Value, str, obj, end, field}
use dynamic_nft_krnl.Access.{AccessEnv, Request, stop}
use dynamic_nft_krnl.Access.Routes.{Route, brand_route, select_route, request}
use dynamic_nft_krnl.Access.BrandPath.{route_brand_id, is_uuid}
use dynamic_nft_krnl.Access.Delegated.{
  DelegationEnv, BrandWallets, IsDelegated, goes_on, first_filled, require_delegated_wallet,
  require_delegated_wallet-IsDelegated,
}
use dynamic_nft_krnl.Me.{Auth}
use dynamic_nft_krnl.Access.Paths.{brand_path, route_brand_id-path}
use dynamic_nft_krnl.Access.Owned.{sessions_after, brand_request-owned}

abbrev acme : String
acme = "6f1d2c3b-0a9e-4b7c-8d5f-1234567890ab"

abbrev env : AccessEnv
env = record {
  verify_access_token = λ t. some t;
  owner_of = λ b. if str_eq b acme then some "ann" else none;
  to_lower = λ s. s;
}

abbrev by : String → String → Value → Request
by token url body = record {
  is_options = false;
  original_url = url;
  authorization = some token;
  x_wallet_address = some "0xa";
  body = body;
}

abbrev choose : Route × Request
choose = (
  select_route,
  by "Bearer ann" "/api/auth/select-portal"
      (obj (field "portalType" (str "brand") (field "brandId" (str acme) end))),
)

abbrev choose_ill : Route × Request
choose_ill = (
  select_route,
  by "Bearer bob" "/api/auth/select-portal"
      (obj (field "portalType" (str "brand") (field "brandId" (str acme) end))),
)

abbrev visit : Request
visit = by "Bearer ann" (brand_path acme "nft?page=2") (obj end)

refuses_others :
    (request env brand_route
      (by "Bearer bob" (brand_path acme "nft") (obj end))
      (sessions_after env (choose ∷ choose_ill ∷ []) (λ u. none))).0
    ≡ stop 409 "Portal not selected"
unfolding request sessions_after
refuses_others = refl

-- A path that names the brand by an encoded id is none of a brand.
encoded_is_none : route_brand_id "/api/brands/%36f1d2c3b-0a9e-4b7c-8d5f-1234567890ab/nft" ≡ none
unfolding route_brand_id
encoded_is_none = refl

route_brand_id-path_example : route_brand_id (brand_path acme "nft?page=2") ≡ some acme
route_brand_id-path_example = route_brand_id-path acme "nft?page=2" (unfold is_uuid in refl)

brand_request-owned_example : env.owner_of acme ≡ some "ann"
unfolding request sessions_after is_uuid
brand_request-owned_example =
    brand_request-owned env (choose ∷ choose_ill ∷ []) visit acme "nft?page=2" _ _ refl refl refl

abbrev sender_only : BrandWallets
sender_only = record { automation_wallet_address = some ""; krnl_sender_address = some "0xs" }

abbrev delegation : DelegationEnv
delegation = record {
  wallets_of = λ b. some sender_only;
  sender = some "0xp";
  is_delegated = λ w. some true;
}

abbrev ann : Auth
ann = record { privy_user_id = "ann"; wallet_address = some "0xa" }

runs_with_sender :
    require_delegated_wallet delegation (some ann) (obj end) (some acme)
    ≡ goes_on "0xs" (some (record ann { wallet_address = some "0xs" }))
unfolding require_delegated_wallet
runs_with_sender = refl

require_delegated_wallet-IsDelegated_example :
    IsDelegated delegation
      (some ann)
      (first_filled (some "" ∷ some "0xs" ∷ some "0xp" ∷ some "0xa" ∷ none ∷ []))
      (require_delegated_wallet delegation (some ann) (obj end) (some acme))
unfolding get fields_of
require_delegated_wallet-IsDelegated_example =
    require_delegated_wallet-IsDelegated delegation (some ann) (obj end) acme sender_only refl refl
