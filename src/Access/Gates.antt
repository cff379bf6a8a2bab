-- ===== src/Access/Gates.antt =====
-- What it takes to pass `requireBrandPortal`.
use text.Mathlib.Text.{◌==◌ as str_eq}
use text.Mathlib.TextEquality.{eq_iff}
use dynamic_nft_krnl.Base.{
  ℕ, ◌≡◌, refl, ◌∙◌, ap, Option, none, some, Option-cases, Bool-cases, inl, inr, String, arith,
}
use dynamic_nft_krnl.Base.Text.{is_empty}
use dynamic_nft_krnl.Mint.{non_empty}
use dynamic_nft_krnl.Me.{Auth}
use dynamic_nft_krnl.Access.{
  PortalType, brand, owner, Portal, Request, stop, pass, brand_gate, require_brand_portal,
}
use dynamic_nft_krnl.Access.BrandPath.{route_brand_id}

pub stop-ne-pass :
    (code : ℕ) (m : String) (auth : Auth) (p : Option Portal) → stop code m ≡ pass auth p → ⊥
stop-ne-pass code m auth p e = cc

passed_auth : (a b : Auth) (p q : Option Portal) → pass a p ≡ pass b q → a ≡ b
passed_auth a b p q e = cc

-- The request goes on as it came, the portal is one of brands, and for a path that names a brand it
-- is the session's.
pub record IsBrandPortal (auth a : Auth) (p : Option Portal) (id : String) : Type 0 where
  pub same_auth : auth ≡ a
  pub portal : Portal
  pub selected : p ≡ some portal
  pub is_brand : portal.portal_type ≡ brand
  pub same_brand : portal.brand_id ≡ some id

non_empty-some : (o : Option String) (s : String) → non_empty o ≡ some s → o ≡ some s
non_empty-some none s h = cc
non_empty-some (some a) s h = ground arith

brand_gate-IsBrandPortal :
    (auth a : Auth) (p q : Option Portal) (id : String)
    → brand_gate auth p (some id) ≡ pass a q
    → IsBrandPortal auth a p id
unfolding brand_gate
brand_gate-IsBrandPortal auth a none q id h = absurd (stop-ne-pass _ _ a q h)
brand_gate-IsBrandPortal auth a (some p) q id h = typed p.portal_type refl
  where
    typed : (t : PortalType) → p.portal_type ≡ t → IsBrandPortal auth a (some p) id
    typed owner e = absurd (stop-ne-pass _ _ a q (rw (e, brand_gate) at h))
    typed brand e = elim (Option-cases (non_empty p.brand_id)) [
      | inl no_brand ↦
          absurd (stop-ne-pass _ _ a q (rw (no_brand, brand_gate) at (rw (e, brand_gate) at h)))
      | inr (b, held) ↦ elim (Bool-cases (str_eq b id)) [
        | inr other ↦ absurd (
            stop-ne-pass _ _ a q
              (rw (other, brand_gate) at (rw (held, brand_gate) at (rw (e, brand_gate) at h))))
        | inl same ↦ record {
          same_auth =
              passed_auth auth a (some p) q
                (rw (same, brand_gate) at (rw (held, brand_gate) at (rw (e, brand_gate) at h)));
          portal = p;
          selected = refl;
          is_brand = e;
          same_brand = non_empty-some p.brand_id b held ∙ ap some ((eq_iff b id).0 same);
        }
      ]
    ]

pub require_brand_portal-IsBrandPortal :
    (req : Request) (auth a : Auth) (p q : Option Portal) (id : String)
    → route_brand_id req.original_url ≡ some id
    → require_brand_portal req auth p ≡ pass a q
    → IsBrandPortal auth a p id
unfolding require_brand_portal
require_brand_portal-IsBrandPortal req auth a p q id route h = elim (Bool-cases req.is_options) [
  | inl options ↦ absurd (stop-ne-pass _ _ a q (rw (options, require_brand_portal) at h))
  | inr other ↦ elim (Option-cases (non_empty auth.wallet_address)) [
    | inl no_wallet ↦ absurd (
        stop-ne-pass _ _ a q
          (rw (no_wallet, require_brand_portal) at (rw (other, require_brand_portal) at h)))
    | inr (w, held) ↦ elim (Bool-cases (is_empty auth.privy_user_id)) [
      | inl nobody ↦ absurd (
          stop-ne-pass _ _ a q (
            rw (nobody, require_brand_portal) at
              (rw (held, require_brand_portal) at (rw (other, require_brand_portal) at h))))
      | inr user ↦ brand_gate-IsBrandPortal auth a p q id (
          rw (route, brand_gate) at
            (rw (user, require_brand_portal) at
              (rw (held, require_brand_portal) at (rw (other, require_brand_portal) at h))))
    ]
  ]
]
