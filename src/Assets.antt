-- ===== src/Assets.antt =====
-- The images of a brand's tokens (apps/api/src/routes/brands.ts and metadata.ts): the tables and the
-- object store that the routes share, and their look-ups.
pub mod Upload
pub mod Contract
pub mod Render
pub mod Metadata
pub mod Kept
pub mod Whole
pub mod Added
pub mod Uploaded
pub mod Layers
pub mod Again
mod Tests
use Prim.Native.String
use text.Mathlib.Text.{◌==◌ as str_eq}
use dynamic_nft_krnl.Base.{
  ℕ, Option-cases, Bool-cases, inl, inr, Bool, true, Option, none, some, String, List, [], ◌∷◌,
  Table, if◌then◌else◌, ◌≡◌,
}
use dynamic_nft_krnl.Base.Int.{ℤ}
use dynamic_nft_krnl.Base.Text.{is_empty}
use dynamic_nft_krnl.Js.{Runtime}
use dynamic_nft_krnl.Me.{Auth}
use dynamic_nft_krnl.Brands.{Answer, refused}

-- The bytes of a file.
abbrev pub Buffer : Type 0
Buffer = List ℕ

pub record AssetPack : Type 0 where
  pub brand_id : String
  pub base_image_key : Option String
  pub preview_image_key : Option String

pub record AssetObject : Type 0 where
  pub id : String
  pub brand_id : String
  pub asset_pack_id : String
  pub object_key : String
  pub kind : String
  pub state_key : Option String

pub record ContractConfig : Type 0 where
  pub contract_address : String
  pub chain_id : ℤ
  pub rpc_url : String
  pub active_asset_pack_id : Option String

-- The tables, and the objects of the bucket by their key. Newer assets come first; the mappings of a
-- pack give the asset of a trait's value.
pub record Assets : Type 0 where
  pub packs : String → Option AssetPack
  pub objects : List AssetObject
  pub state_mappings : String → Table String
  pub nft_configs : String → Option ContractConfig
  pub bucket : String → Option Buffer

pub record BrandRow : Type 0 where
  pub owner_user_id : String
  pub name : String

-- The tables that the routes only read, the variables of the environment, the hash of a text, the
-- order of the database for texts, and the library that draws images over each other, which may
-- throw.
pub record AssetsEnv : Type 0 where
  pub runtime : Runtime
  pub brands : String → Option BrandRow
  pub token_brand : String → Option String
  pub traits_of_token : String → String → List (String × String)
  pub public_base_url : Option String
  pub s3_public_base_url : Option String
  pub sha256 : String → String
  pub by_state_key : List AssetObject → List AssetObject
  pub draw : Buffer → List Buffer → Option Buffer

infixr 40 ◌<>◌
abbrev pub ◌<>◌ : String → String → String
a <> b = String.◌++◌ a b

-- A row at a key, over those that were there.
unfoldable pub set_at {ℓ} : {V : Type ℓ} → String → V → (String → Option V) → String → Option V
set_at k v t j = if str_eq k j then some v else t j

-- `findFirst` and `findUnique` of a pack and of an asset.
unfoldable pub find_pack : String → String → Assets → Option AssetPack
find_pack brand pack s = elim (s.packs pack) [
  | none ↦ none
  | some p ↦ if str_eq p.brand_id brand then some p else none
]

unfoldable pub find_object : String → List AssetObject → Option AssetObject
find_object id [] = none
find_object id (o ∷ os) = let rest = find_object id os in if str_eq o.id id then some o else rest

-- The brand is there and is the user's, or else the request is refused with the text given.
unfoldable pub for_owner {ℓ} :
    {A : Type ℓ}
    → AssetsEnv
    → String
    → Auth
    → String
    → Assets
    → Answer A × Assets
    → Answer A × Assets
for_owner env message auth brand s next = elim (env.brands brand) [
  | none ↦ (refused 404 "Brand not found", s)
  | some b ↦ if str_eq b.owner_user_id auth.privy_user_id then next else (refused 403 message, s)
]

-- Either an error that leaves the state, or what is next, for a brand of the user's.
pub for_owner-cases {ℓ κ} :
    {A : Type ℓ} (P : Answer A × Assets → Type κ) (env : AssetsEnv) (message : String) (auth : Auth)
    (brand : String) (s : Assets) (next : Answer A × Assets)
    → ((code : ℕ) (m : String) → P (refused code m, s))
    → ((b : BrandRow)
        → env.brands brand ≡ some b
        → str_eq b.owner_user_id auth.privy_user_id ≡ true
        → P next)
    → P (for_owner env message auth brand s next)
unfolding for_owner
for_owner-cases P env message auth brand s next failed done =
    elim (Option-cases (env.brands brand)) [
      | inl no_brand ↦ rw (no_brand, for_owner) (failed 404 "Brand not found")
      | inr (b, e) ↦ elim (Bool-cases (str_eq b.owner_user_id auth.privy_user_id)) [
        | inr other ↦ rw (e, for_owner) (rw other (failed 403 message))
        | inl own ↦ rw (e, for_owner) (rw own (done b e own))
      ]
    ]
