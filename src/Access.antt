-- ===== src/Access.antt =====
-- apps/api/src/middleware/requireAuth.ts and requirePortal.ts: which requests pass, and the table of
-- portal sessions.
pub mod Routes
pub mod BrandPath
pub mod Paths
pub mod Gates
pub mod Owned
pub mod Delegated
mod Tests
use Prim.Native.Char.{code}
use Prim.Native.String
use text.Mathlib.Text.{◌==◌ as str_eq}
use dynamic_nft_krnl.Base.{
  ℕ, ◌-◌, ◌+◌, Bool, true, false, ◌&&◌, ◌||◌, not, Option, none, some, String, List, [], ◌∷◌,
  if◌then◌else◌, leb, ◌==◌,
}
use dynamic_nft_krnl.Base.Text.{is_empty, trim, strip_prefix}
use dynamic_nft_krnl.Js.{Value, undefined, null, bool, num, str, arr, obj, get, fields_of}
use dynamic_nft_krnl.Mint.{non_empty}
use dynamic_nft_krnl.Me.{Auth}
use dynamic_nft_krnl.Access.BrandPath.{is_uuid, route_brand_id, before_query, take_places}

pub data PortalType : Type 0 where
  brand owner : PortalType

-- A row of `portalSession`, by its user.
pub record PortalSession : Type 0 where
  pub portal_type : PortalType
  pub brand_id : Option String
  pub wallet_address : Option String
  pub is_explicit : Bool

abbrev pub Sessions : Type 0
Sessions = String → Option PortalSession

unfoldable pub put_session : String → Option PortalSession → Sessions → Sessions
put_session user row sessions u = if str_eq user u then row else sessions u

-- `req.portal`.
pub record Portal : Type 0 where
  pub portal_type : PortalType
  pub brand_id : Option String
  pub is_explicit : Bool

-- What a request brings; a header that is missing is `none`.
pub record Request : Type 0 where
  pub is_options : Bool
  pub original_url : String
  pub authorization : Option String
  pub x_wallet_address : Option String
  pub body : Value

-- The verification of tokens, the brands' owners, and text in lower case.
pub record AccessEnv : Type 0 where
  pub verify_access_token : String → Option String
  pub owner_of : String → Option String
  pub to_lower : String → String

-- A request that passes goes on with `req.auth` and `req.portal`.
pub data Gate : Type 0 where
  stop : ℕ → String → Gate
  pass : Auth → Option Portal → Gate

abbrev pub exactly : ℕ → ℕ → Bool
exactly a b = a == b

abbrev pub portal_of : Option PortalSession → Option Portal
portal_of none = none
portal_of (some row) = some (record {
  portal_type = row.portal_type;
  brand_id = row.brand_id;
  is_explicit = row.is_explicit;
})

abbrev pub lower : AccessEnv → Option String → Option String
lower env none = none
lower env (some w) = some (env.to_lower w)

abbrev pub same_wallet : Option String → String → Bool
same_wallet none w = false
same_wallet (some v) w = str_eq v w

-- The session's wallet follows the request's.
unfoldable pub follow_wallet : String → Option String → Sessions → Sessions
unfolding put_session
follow_wallet user none sessions = sessions
follow_wallet user (some wallet) sessions = elim (sessions user) [
  | none ↦ sessions
  | some row ↦
      if same_wallet row.wallet_address wallet
      then sessions
      else put_session user (some (record row { wallet_address = some wallet })) sessions
]

-- The token after "Bearer ".
unfoldable pub token_of : Option String → Option String
unfolding strip_prefix trim
token_of none = none
token_of (some header) = elim (strip_prefix exactly "Bearer " header) [
  | none ↦ none
  | some t ↦ non_empty (some (trim t))
]

unfoldable pub require_auth : AccessEnv → Request → Sessions → Gate × Sessions
unfolding token_of follow_wallet
require_auth env req sessions =
    if req.is_options then (stop 204 "", sessions) else elim (token_of req.authorization) [
      | none ↦ (stop 401 "Unauthorized", sessions)
      | some token ↦ elim (env.verify_access_token token) [
        | none ↦ (stop 401 "Unauthorized", sessions)
        | some user ↦
            let wallet = lower env (non_empty req.x_wallet_address) in
            (
              pass (record { privy_user_id = user; wallet_address = wallet })
                  (portal_of (sessions user)),
              follow_wallet user wallet sessions,
            )
      ]
    ]

abbrev pub owner_portal : Option String → Option Portal
owner_portal brand_id =
    some (record { portal_type = owner; brand_id = brand_id; is_explicit = false })

-- A portal that was not chosen is taken for the owner's.
unfoldable pub owner_answer : Auth → Portal → Gate
owner_answer auth p =
    if p.is_explicit
    then elim p.portal_type [ owner ↦ pass auth (some p) | brand ↦ stop 403 "Wrong portal" ]
    else pass auth (owner_portal p.brand_id)

unfoldable pub owner_gate : Auth → String → Option Portal → Sessions → Gate × Sessions
unfolding owner_answer put_session
owner_gate auth wallet (some p) sessions = (owner_answer auth p, sessions)
owner_gate auth wallet none sessions = (
  pass auth (owner_portal none),
  put_session auth.privy_user_id
      (some (record {
        portal_type = owner;
        brand_id = none;
        wallet_address = some wallet;
        is_explicit = false;
      }))
      sessions,
)

-- `requireOwnerPortal`, after `requireAuth` let the request pass.
unfoldable pub require_owner_portal : Request → Auth → Option Portal → Sessions → Gate × Sessions
unfolding owner_gate
require_owner_portal req auth portal sessions =
    if req.is_options
    then (stop 204 "", sessions)
    else if is_empty auth.privy_user_id
    then (stop 401 "Unauthorized", sessions)
    else elim (non_empty auth.wallet_address) [
      | none ↦ (stop 400 "Wallet required", sessions)
      | some wallet ↦ owner_gate auth wallet portal sessions
    ]

abbrev pub is_brand : Option String → String → Bool
is_brand none id = false
is_brand (some b) id = str_eq b id

-- The response of `requireBrandPortal` to a session's portal and the brand that the path names.
unfoldable pub brand_gate : Auth → Option Portal → Option String → Gate
brand_gate auth none route = stop 409 "Portal not selected"
brand_gate auth (some p) route = elim p.portal_type [
  | owner ↦ stop 403 "Wrong portal"
  | brand ↦ elim route [
    | none ↦ pass auth (some p)
    | some id ↦ elim (non_empty p.brand_id) [
      | none ↦ stop 409 "Portal not selected"
      | some b ↦ if str_eq b id then pass auth (some p) else stop 403 "Wrong portal"
    ]
  ]
]

unfoldable pub require_brand_portal : Request → Auth → Option Portal → Gate
unfolding route_brand_id brand_gate
require_brand_portal req auth portal =
    if req.is_options then stop 204 "" else elim (non_empty auth.wallet_address) [
      | none ↦ stop 400 "Wallet required"
      | some w ↦
          if is_empty auth.privy_user_id
          then stop 400 "Wallet required"
          else brand_gate auth portal (route_brand_id req.original_url)
    ]
