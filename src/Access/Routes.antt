-- ===== src/Access/Routes.antt =====
-- The choice of a portal and the end of a session (apps/api/src/routes/auth.ts), and requests that
-- pass the guards.
use Prim.Native.Char.{code}
use text.Mathlib.Text.{◌==◌ as str_eq}
use dynamic_nft_krnl.Base.{true, Option, none, some, String, if◌then◌else◌}
use dynamic_nft_krnl.Base.Text.{trim}
use dynamic_nft_krnl.Js.{Value, undefined, null, bool, num, str, arr, obj, get, fields_of}
use dynamic_nft_krnl.Mint.{non_empty}
use dynamic_nft_krnl.Me.{Auth}
use dynamic_nft_krnl.Access.BrandPath.{is_uuid}
use dynamic_nft_krnl.Access.{
  PortalType, PortalSession, Sessions, put_session, Request, AccessEnv, Gate, lower, require_auth,
  require_owner_portal, require_brand_portal, brand, owner, stop, pass,
}

-- `typeof v === "string" ? v.trim() : ""`, when it is not empty.
abbrev pub trimmed : Value → Option String
unfolding trim
trimmed (str s) = non_empty (some (trim s))
trimmed undefined = none
trimmed null = none
trimmed (bool b) = none
trimmed (num n) = none
trimmed (arr vs) = none
trimmed (obj fs) = none

-- The brand that a selection ends with: the one that is asked for, or else that of a session of the
-- brand portal.
unfoldable pub final_brand : Option String → Option PortalSession → Option String
unfolding is_uuid
final_brand asked existing =
    let kept : Option String = elim existing [
      | none ↦ none
      | some row ↦ elim row.portal_type [ brand ↦ non_empty row.brand_id | owner ↦ none ]
    ] in
    elim asked [ none ↦ kept | some b ↦ if is_uuid b then some b else kept ]

abbrev pub selected : PortalType → Option String → String → Option PortalSession
selected type brand_id wallet = some (record {
  portal_type = type;
  brand_id = brand_id;
  wallet_address = some wallet;
  is_explicit = true;
})

-- `POST /auth/select-portal` for a portal of brands.
unfoldable pub select_brand :
    AccessEnv → String → String → Option String → Sessions → Gate × Sessions
unfolding put_session
select_brand env user wallet none sessions =
    (stop 200 "brand", put_session user (selected brand none wallet) sessions)
select_brand env user wallet (some b) sessions = elim (env.owner_of b) [
  | none ↦ (stop 404 "Brand not found", sessions)
  | some o ↦
      if str_eq o user
      then (stop 200 "brand", put_session user (selected brand (some b) wallet) sessions)
      else (stop 403 "Not authorized for this brand", sessions)
]

abbrev pub asked_portal : Value → Option PortalType
asked_portal (str s) =
    if str_eq s "brand" then some brand else if str_eq s "owner" then some owner else none
asked_portal undefined = none
asked_portal null = none
asked_portal (bool b) = none
asked_portal (num n) = none
asked_portal (arr vs) = none
asked_portal (obj fs) = none

unfoldable pub select_type :
    AccessEnv → Value → String → String → Option PortalType → Sessions → Gate × Sessions
unfolding get fields_of final_brand select_brand put_session
select_type env body user wallet none sessions = (stop 400 "Invalid portal type", sessions)
select_type env body user wallet (some owner) sessions =
    (stop 200 "owner", put_session user (selected owner none wallet) sessions)
select_type env body user wallet (some brand) sessions =
    select_brand env user wallet
      (final_brand (trimmed (get "brandId" (fields_of body))) (sessions user)) sessions

unfoldable pub select_portal : AccessEnv → Value → Auth → Sessions → Gate × Sessions
unfolding get fields_of select_type
select_portal env body auth sessions = elim (non_empty (lower env auth.wallet_address)) [
  | none ↦ (stop 400 "Wallet required", sessions)
  | some wallet ↦
      select_type env body auth.privy_user_id wallet
        (asked_portal (get "portalType" (fields_of body))) sessions
]

-- `POST /auth/logout`.
unfoldable pub logout : AccessEnv → Auth → Sessions → Gate × Sessions
unfolding put_session
logout env auth sessions = elim (non_empty (lower env auth.wallet_address)) [
  | none ↦ (stop 400 "Wallet required", sessions)
  | some wallet ↦ (stop 200 "ok", put_session auth.privy_user_id none sessions)
]

-- The routes by what guards them and what they do to the sessions.
pub data Route : Type 0 where
  brand_route owner_route select_route logout_route : Route

unfoldable pub after_auth : AccessEnv → Route → Request → Gate × Sessions → Gate × Sessions
unfolding require_brand_portal require_owner_portal select_portal logout
after_auth env route req (stop code message, sessions) = (stop code message, sessions)
after_auth env brand_route req (pass auth portal, sessions) =
    (require_brand_portal req auth portal, sessions)
after_auth env owner_route req (pass auth portal, sessions) =
    require_owner_portal req auth portal sessions
after_auth env select_route req (pass auth portal, sessions) =
    select_portal env req.body auth sessions
after_auth env logout_route req (pass auth portal, sessions) = logout env auth sessions

-- A request through `requireAuth` and what follows it on its route.
unfoldable pub request : AccessEnv → Route → Request → Sessions → Gate × Sessions
unfolding require_auth after_auth
request env route req sessions = after_auth env route req (require_auth env req sessions)
