-- ===== src/Access/Owned.antt =====
-- A brand's routes are its owner's.
use text.Mathlib.Text.{◌==◌ as str_eq}
use text.Mathlib.TextEquality.{eq_iff}
use dynamic_nft_krnl.Base.{
  ◌≡◌, refl, sym, ◌∙◌, ap, subst, true, Option, none, some, Option-cases, Bool-cases, none-ne-some,
  some_injective, inl, inr, String, List, [], ◌∷◌,
}
use dynamic_nft_krnl.Base.Text.{is_empty}
use dynamic_nft_krnl.Js.{Value, get, fields_of}
use dynamic_nft_krnl.Mint.{non_empty}
use dynamic_nft_krnl.Me.{Auth}
use dynamic_nft_krnl.Access.{
  PortalType, brand, owner, PortalSession, Sessions, put_session, Portal, AccessEnv, Request, Gate,
  stop, pass, follow_wallet, portal_of, lower, same_wallet, token_of, require_auth, owner_gate,
  require_owner_portal,
}
use dynamic_nft_krnl.Access.Routes.{
  final_brand, select_brand, select_type, select_portal, logout, Route, brand_route, owner_route,
  select_route, logout_route, after_auth, request, trimmed, asked_portal, selected,
}
use dynamic_nft_krnl.Access.BrandPath.{route_brand_id, is_uuid}
use dynamic_nft_krnl.Access.Paths.{brand_path, route_brand_id-path}
use dynamic_nft_krnl.Access.Gates.{stop-ne-pass, require_brand_portal-IsBrandPortal}

owner-ne-brand : owner ≡ brand → ⊥
owner-ne-brand e = cc

module _ (env : AccessEnv) where
  -- A session of the portal of brands is for no brand, or for one of its user.
  abbrev pub Owns : String → PortalType → Option String → Type 0
  Owns user owner b = Unit
  Owns user brand none = Unit
  Owns user brand (some b) = env.owner_of b ≡ some user

  abbrev pub OwnsRow : String → Option PortalSession → Type 0
  OwnsRow user none = Unit
  OwnsRow user (some row) = Owns user row.portal_type row.brand_id

  abbrev pub AllOwned : Sessions → Type 0
  AllOwned sessions = (user : String) → OwnsRow user (sessions user)

  put_session-AllOwned :
      (user : String) (row : Option PortalSession) (sessions : Sessions)
      → OwnsRow user row
      → AllOwned sessions
      → AllOwned (put_session user row sessions)
  unfolding put_session
  put_session-AllOwned user row sessions own all u = elim (Bool-cases (str_eq user u)) [
    | inr other ↦ rw other (all u)
    | inl same ↦ rw same (subst (λ v. OwnsRow v row) ((eq_iff user u).0 same) own)
  ]

  follow_wallet-AllOwned :
      (user : String) (wallet : Option String) (sessions : Sessions)
      → AllOwned sessions
      → AllOwned (follow_wallet user wallet sessions)
  unfolding follow_wallet
  follow_wallet-AllOwned user none sessions all = all
  follow_wallet-AllOwned user (some w) sessions all = elim (Option-cases (sessions user)) [
    | inl no_row ↦ rw (no_row, follow_wallet) all
    | inr (row, e) ↦ elim (Bool-cases (same_wallet row.wallet_address w)) [
      | inl same ↦ rw (e, follow_wallet) (rw same all)
      | inr other ↦
          rw (e, follow_wallet)
            (rw other (
              put_session-AllOwned user (some (record row { wallet_address = some w })) sessions
                (subst (OwnsRow user) e (all user)) all))
    ]
  ]

  -- A request that passes has its user's session, and the sessions stay as they should.
  abbrev Authenticated : Sessions → Gate × Sessions → Type 0
  Authenticated before (stop code m, after) = AllOwned after
  Authenticated before (pass auth portal, after) =
      (portal ≡ portal_of (before auth.privy_user_id)) × AllOwned after

  require_auth-Authenticated :
      (req : Request) (sessions : Sessions)
      → AllOwned sessions
      → Authenticated sessions (require_auth env req sessions)
  unfolding require_auth
  require_auth-Authenticated req sessions all = elim (Bool-cases req.is_options) [
    | inl options ↦ rw (options, require_auth) all
    | inr other ↦ elim (Option-cases (token_of req.authorization)) [
      | inl no_token ↦ rw (other, require_auth) (rw (no_token, require_auth) all)
      | inr (token, read) ↦ elim (Option-cases (env.verify_access_token token)) [
        | inl nobody ↦
            rw (other, require_auth) (rw (read, require_auth) (rw (nobody, require_auth) all))
        | inr (user, known) ↦
            rw (other, require_auth)
              (rw (read, require_auth)
                (rw (known, require_auth)
                  (
                    refl,
                    follow_wallet-AllOwned user (lower env (non_empty req.x_wallet_address))
                        sessions all,
                  )))
      ]
    ]
  ]

  owner_gate-AllOwned :
      (auth : Auth) (wallet : String) (portal : Option Portal) (sessions : Sessions)
      → AllOwned sessions
      → AllOwned (owner_gate auth wallet portal sessions).1
  unfolding owner_gate
  owner_gate-AllOwned auth wallet (some p) sessions all = all
  owner_gate-AllOwned auth wallet none sessions all =
      put_session-AllOwned auth.privy_user_id _ sessions tt all

  require_owner_portal-AllOwned :
      (req : Request) (auth : Auth) (portal : Option Portal) (sessions : Sessions)
      → AllOwned sessions
      → AllOwned (require_owner_portal req auth portal sessions).1
  unfolding require_owner_portal
  require_owner_portal-AllOwned req auth portal sessions all = elim (Bool-cases req.is_options) [
    | inl options ↦ rw (options, require_owner_portal) all
    | inr other ↦ elim (Bool-cases (is_empty auth.privy_user_id)) [
      | inl nobody ↦ rw (other, require_owner_portal) (rw (nobody, require_owner_portal) all)
      | inr user ↦ elim (Option-cases (non_empty auth.wallet_address)) [
        | inl no_wallet ↦
            rw (other, require_owner_portal)
              (rw (user, require_owner_portal) (rw (no_wallet, require_owner_portal) all))
        | inr (w, held) ↦
            rw (other, require_owner_portal)
              (rw (user, require_owner_portal)
                (rw (held, require_owner_portal) (owner_gate-AllOwned auth w portal sessions all)))
      ]
    ]
  ]

  select_brand-AllOwned :
      (user wallet : String) (b : Option String) (sessions : Sessions)
      → AllOwned sessions
      → AllOwned (select_brand env user wallet b sessions).1
  unfolding select_brand
  select_brand-AllOwned user wallet none sessions all =
      put_session-AllOwned user (selected brand none wallet) sessions tt all
  select_brand-AllOwned user wallet (some b) sessions all = elim (Option-cases (env.owner_of b)) [
    | inl no_brand ↦ rw (no_brand, select_brand) all
    | inr (o, e) ↦ elim (Bool-cases (str_eq o user)) [
      | inr other ↦ rw (e, select_brand) (rw other all)
      | inl same ↦
          rw (e, select_brand)
            (rw same (
              put_session-AllOwned user (selected brand (some b) wallet) sessions
                (e ∙ ap some ((eq_iff o user).0 same)) all))
    ]
  ]

  select_type-AllOwned :
      (body : Value) (user wallet : String) (type : Option PortalType) (sessions : Sessions)
      → AllOwned sessions
      → AllOwned (select_type env body user wallet type sessions).1
  unfolding select_type
  select_type-AllOwned body user wallet none sessions all = all
  select_type-AllOwned body user wallet (some owner) sessions all =
      put_session-AllOwned user (selected owner none wallet) sessions tt all
  select_type-AllOwned body user wallet (some brand) sessions all =
      select_brand-AllOwned user wallet
        (final_brand (trimmed (get "brandId" (fields_of body))) (sessions user)) sessions all

  select_portal-AllOwned :
      (body : Value) (auth : Auth) (sessions : Sessions)
      → AllOwned sessions
      → AllOwned (select_portal env body auth sessions).1
  unfolding select_portal
  select_portal-AllOwned body auth sessions all =
      elim (Option-cases (non_empty (lower env auth.wallet_address))) [
        | inl no_wallet ↦ rw (no_wallet, select_portal) all
        | inr (w, e) ↦
            rw (e, select_portal)
              (select_type-AllOwned body auth.privy_user_id w
                (asked_portal (get "portalType" (fields_of body))) sessions all)
      ]

  logout-AllOwned :
      (auth : Auth) (sessions : Sessions)
      → AllOwned sessions
      → AllOwned (logout env auth sessions).1
  unfolding logout
  logout-AllOwned auth sessions all =
      elim (Option-cases (non_empty (lower env auth.wallet_address))) [
        | inl no_wallet ↦ rw (no_wallet, logout) all
        | inr (w, e) ↦ rw (e, logout) (put_session-AllOwned auth.privy_user_id none sessions tt all)
      ]

  after_auth-AllOwned :
      (route : Route) (req : Request) (before : Sessions) (r : Gate × Sessions)
      → Authenticated before r
      → AllOwned (after_auth env route req r).1
  unfolding after_auth
  after_auth-AllOwned route req before (stop code m, after) all = all
  after_auth-AllOwned brand_route req before (pass auth portal, after) h = h.1
  after_auth-AllOwned owner_route req before (pass auth portal, after) h =
      require_owner_portal-AllOwned req auth portal after h.1
  after_auth-AllOwned select_route req before (pass auth portal, after) h =
      select_portal-AllOwned req.body auth after h.1
  after_auth-AllOwned logout_route req before (pass auth portal, after) h =
      logout-AllOwned auth after h.1

  -- The sessions after a sequence of requests.
  unfoldable pub sessions_after : List (Route × Request) → Sessions → Sessions
  unfolding request
  sessions_after [] sessions = sessions
  sessions_after ((route, req) ∷ rest) sessions =
      sessions_after rest (request env route req sessions).1

  sessions_after-AllOwned :
      (requests : List (Route × Request)) (sessions : Sessions)
      → AllOwned sessions
      → AllOwned (sessions_after requests sessions)
  unfolding sessions_after request
  sessions_after-AllOwned [] sessions all = all
  sessions_after-AllOwned ((route, req) ∷ rest) sessions all =
      sessions_after-AllOwned rest (request env route req sessions).1 (
        after_auth-AllOwned route req sessions (require_auth env req sessions)
          (require_auth-Authenticated req sessions all))

  owned-brand :
      (user : String) (t : PortalType) (b : Option String) (id : String)
      → t ≡ brand
      → b ≡ some id
      → Owns user t b
      → env.owner_of id ≡ some user
  owned-brand user owner b id e f own = absurd (owner-ne-brand e)
  owned-brand user brand none id e f own = absurd (none-ne-some id f)
  owned-brand user brand (some b) id e f own = ap env.owner_of (sym (some_injective b id f)) ∙ own

  portal-owned :
      (user : String) (row : Option PortalSession) (portal : Portal) (id : String)
      → portal_of row ≡ some portal
      → portal.portal_type ≡ brand
      → portal.brand_id ≡ some id
      → OwnsRow user row
      → env.owner_of id ≡ some user
  portal-owned user none portal id e t b own = absurd (none-ne-some portal e)
  portal-owned user (some row) portal id e t b own =
      owned-brand user row.portal_type row.brand_id id
        (ap (λ (p : Portal). p.portal_type) (some_injective _ portal e) ∙ t)
        (ap (λ (p : Portal). p.brand_id) (some_injective _ portal e) ∙ b) own

  passed-owned :
      (req : Request) (before : Sessions) (r : Gate × Sessions) (auth : Auth)
      (portal : Option Portal) (id : String)
      → Authenticated before r
      → AllOwned before
      → route_brand_id req.original_url ≡ some id
      → (after_auth env brand_route req r).0 ≡ pass auth portal
      → env.owner_of id ≡ some auth.privy_user_id
  unfolding after_auth
  passed-owned req before (stop code m, after) auth portal id h all route passed =
      absurd (stop-ne-pass code m auth portal passed)
  passed-owned req before (pass a p, after) auth portal id h all route passed =
      let guarded = require_brand_portal-IsBrandPortal req a auth p portal id route passed in
      subst (λ (u : Auth). env.owner_of id ≡ some u.privy_user_id) guarded.same_auth
        (portal-owned a.privy_user_id (before a.privy_user_id) guarded.portal id
          (sym h.0 ∙ guarded.selected) guarded.is_brand guarded.same_brand (all a.privy_user_id))

  -- A request whose path is written as /api/brands/, a uuid that is not percent-encoded, a slash
  -- and whatever follows, and that passes to the routes of this brand, is of a user who owns the
  -- brand, whatever requests selected portals, logged out or came to other routes before, starting
  -- from no session.
  pub brand_request-owned :
      (requests : List (Route × Request)) (req : Request) (id rest : String) (auth : Auth)
      (portal : Option Portal)
      → is_uuid id ≡ true
      → req.original_url ≡ brand_path id rest
      → (request env brand_route req (sessions_after requests (λ u. none))).0 ≡ pass auth portal
      → env.owner_of id ≡ some auth.privy_user_id
  unfolding request
  brand_request-owned requests req id rest auth portal uuid path passed =
      let sessions = sessions_after requests (λ u. none) in
      let all : AllOwned sessions = sessions_after-AllOwned requests (λ u. none) (λ u. tt) in
      passed-owned req sessions (require_auth env req sessions) auth portal id
        (require_auth-Authenticated req sessions all) all
        (ap route_brand_id path ∙ route_brand_id-path id rest uuid) passed
