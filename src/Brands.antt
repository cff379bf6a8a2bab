-- ===== src/Brands.antt =====
-- Routes of apps/api/src/routes/brands.ts that set what quests and lootboxes give, and the one to
-- join a brand: what they share.
pub mod Reward
pub mod Config
pub mod Join
mod Tests
use text.Mathlib.Text.{◌==◌ as str_eq}
use dynamic_nft_krnl.Base.{
  ℕ, Option-cases, Bool-cases, inl, inr, Bool, Option, none, some, String, List, if◌then◌else◌,
}
use dynamic_nft_krnl.Js.{Runtime}
use dynamic_nft_krnl.Me.{Auth}
use dynamic_nft_krnl.Store.{Store}

-- The tables that the routes only read: the owner of each brand, and the state keys of the uploaded
-- layers of an asset pack.
pub record BrandsEnv : Type 0 where
  pub runtime : Runtime
  pub owner_of : String → Option String
  pub layers : String → String → List String
  -- Whether the column of an asset pack's id takes a text.
  pub is_asset_pack_id : String → Bool

-- An error with its status, or what was saved.
pub data Answer {ℓ} (A : Type ℓ) : Type ℓ where
  refused : ℕ → String → Answer A
  saved : A → Answer A

-- The brand is the user's.
unfoldable pub as_owner {ℓ} :
    {A : Type ℓ} → BrandsEnv → Auth → String → Store → Answer A × Store → Answer A × Store
as_owner env auth brand s next = elim (env.owner_of brand) [
  | none ↦ (refused 404 "Brand not found", s)
  | some o ↦
      if str_eq o auth.privy_user_id then next else (refused 403 "Not authorized for this brand", s)
]

-- Either an error that leaves the state, or what is next.
pub as_owner-cases {ℓ κ} :
    {A : Type ℓ} (P : Answer A × Store → Type κ) (env : BrandsEnv) (auth : Auth) (brand : String)
    (s : Store) (next : Answer A × Store)
    → ((code : ℕ) (m : String) → P (refused code m, s))
    → P next
    → P (as_owner env auth brand s next)
unfolding as_owner
as_owner-cases P env auth brand s next failed done = elim (Option-cases (env.owner_of brand)) [
  | inl no_brand ↦ rw (no_brand, as_owner) (failed 404 "Brand not found")
  | inr (o, e) ↦ elim (Bool-cases (str_eq o auth.privy_user_id)) [
    | inr other ↦ rw (e, as_owner) (rw other (failed 403 "Not authorized for this brand"))
    | inl own ↦ rw (e, as_owner) (rw own done)
  ]
]
