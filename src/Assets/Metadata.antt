-- ===== src/Assets/Metadata.antt =====
-- The metadata of a token: buildMetadataResponse and GET /metadata/:tokenId of
-- apps/api/src/routes/metadata.ts, and getPublicUrl of apps/api/src/services/s3Service.ts.
use Prim.Native.Char.{code}
use dynamic_nft_krnl.Base.{ℕ, ◌&&◌, ◌==◌, Option, none, some, String, if◌then◌else◌, or_else}
use dynamic_nft_krnl.Base.Text.{is_empty}
use dynamic_nft_krnl.Js.{Runtime, whole, int}
use dynamic_nft_krnl.Base.Int.{pos}
use dynamic_nft_krnl.Mint.{non_empty}
use dynamic_nft_krnl.Brands.{Answer, refused, saved}
use dynamic_nft_krnl.Assets.{AssetPack, Assets, AssetsEnv, BrandRow, ◌<>◌, find_pack, find_object}

-- `/\/+$/` and `/^\/+/`, replaced by nothing; "/" is the character 47.
unfoldable pub without_last_slashes : String → String
without_last_slashes String.[] = String.[]
without_last_slashes (String.◌∷◌ c s) =
    let rest = without_last_slashes s in
    if code c == 47 && is_empty rest then String.[] else String.◌∷◌ c rest

unfoldable pub without_first_slashes : String → String
without_first_slashes String.[] = String.[]
without_first_slashes (String.◌∷◌ c s) =
    let rest = without_first_slashes s in if code c == 47 then rest else String.◌∷◌ c s

-- It throws where the variable is not set.
unfoldable pub get_public_url : AssetsEnv → String → Option String
unfolding without_last_slashes without_first_slashes
get_public_url env key = elim (non_empty env.s3_public_base_url) [
  | none ↦ none
  | some url ↦ some (without_last_slashes url <> "/" <> without_first_slashes key)
]

-- The uints that the contract of the brand holds for a token, each of which may fail to be read.
pub record CoreTraits : Type 0 where
  pub rarity : Option ℕ
  pub xp : Option ℕ
  pub level : Option ℕ

pub record Metadata : Type 0 where
  pub name : String
  pub description : String
  pub image : String
  pub animation_url : String
  pub xp : ℕ
  pub level : ℕ
  pub rarity : ℕ

-- The object that a trait's value is shown by in a pack.
unfoldable pub state_image : String → String → String → Assets → Option String
unfolding find_object
state_image pack trait value s = elim (s.state_mappings pack trait value) [
  | none ↦ none
  | some id ↦ elim (find_object id s.objects) [ none ↦ none | some o ↦ some o.object_key ]
]

abbrev first_of : Option String → Option String → Option String
first_of (some a) b = some a
first_of none b = b

-- `rarity.toString()`.
abbrev show_uint : Runtime → ℕ → String
show_uint rt n = rt.show_number (whole (int (pos n)))

unfoldable pub image_key : Runtime → String → AssetPack → ℕ → Assets → Option String
unfolding state_image
image_key rt pack row rarity s =
    non_empty (first_of (state_image pack "RARITY" (show_uint rt rarity) s) row.base_image_key)

abbrev image_url : AssetsEnv → String → String → Option String
image_url env token key = elim (non_empty env.public_base_url) [
  | none ↦ get_public_url env key
  | some url ↦ elim (non_empty (some (without_last_slashes url))) [
    | none ↦ get_public_url env key
    | some u ↦ some (u <> "/render/" <> token <> ".png")
  ]
]

unfoldable pub describe :
    AssetsEnv → BrandRow → String → AssetPack → String → ℕ → ℕ → ℕ → Answer Metadata
unfolding get_public_url without_last_slashes
describe env brand token row key rarity xp level = elim (image_url env token key) [
  | none ↦ refused 500 "Internal server error"
  | some image ↦ elim (get_public_url env (or_else row.preview_image_key key)) [
    | none ↦ refused 500 "Internal server error"
    | some animation ↦ saved (record {
      name = brand.name <> " #" <> token;
      description = "Dynamic NFT rewards for " <> brand.name;
      image = image;
      animation_url = animation;
      xp = xp;
      level = level;
      rarity = rarity;
    })
  ]
]

unfoldable pub with_image :
    AssetsEnv → CoreTraits → BrandRow → String → String → AssetPack → Assets → Answer Metadata
unfolding image_key describe
with_image env traits brand token pack row s = elim traits.rarity [
  | none ↦ refused 500 "Internal server error"
  | some rarity ↦ elim traits.xp [
    | none ↦ refused 500 "Internal server error"
    | some xp ↦ elim traits.level [
      | none ↦ refused 500 "Internal server error"
      | some level ↦ elim (image_key env.runtime pack row rarity s) [
        | none ↦ refused 404 "No image configured for this asset pack"
        | some key ↦ describe env brand token row key rarity xp level
      ]
    ]
  ]
]

unfoldable pub build_metadata_response :
    AssetsEnv → CoreTraits → String → String → Assets → Answer Metadata
unfolding find_pack with_image
build_metadata_response env traits brand_id token s = elim (env.brands brand_id) [
  | none ↦ refused 404 "Brand not found"
  | some brand ↦ elim (s.nft_configs brand_id) [
    | none ↦ refused 404 "NFT config not found"
    | some c ↦ elim (non_empty c.active_asset_pack_id) [
      | none ↦ refused 404 "Active asset pack not configured"
      | some pack ↦ elim (find_pack brand_id pack s) [
        | none ↦ refused 404 "Asset pack not found"
        | some row ↦ with_image env traits brand token pack row s
      ]
    ]
  ]
]

unfoldable pub metadata : AssetsEnv → CoreTraits → String → Assets → Answer Metadata
unfolding build_metadata_response
metadata env traits token s =
    if is_empty token then refused 400 "Invalid tokenId" else elim (env.token_brand token) [
      | none ↦ refused 404 "Token not found"
      | some brand ↦ build_metadata_response env traits brand token s
    ]
