-- ===== src/Assets/Upload.antt =====
-- A new asset pack, and a file that is uploaded to a pack (apps/api/src/routes/brands.ts).
use text.Mathlib.Text.{◌==◌ as str_eq}
use dynamic_nft_krnl.Base.{
  Bool, ◌||◌, Option, none, some, String, ◌∷◌, if◌then◌else◌, ◌⊎◌, inl, inr, put,
}
use dynamic_nft_krnl.Base.Text.{is_empty}
use dynamic_nft_krnl.Js.{if_text, Value, undefined, null, str, Fields, get, fields_of, truthy}
use dynamic_nft_krnl.Me.{Auth}
use dynamic_nft_krnl.Brands.{Answer, refused, saved}
use dynamic_nft_krnl.Assets.{
  Buffer, AssetPack, AssetObject, Assets, AssetsEnv, ◌<>◌, set_at, find_pack, find_object,
  for_owner,
}

-- POST /brands/:brandId/nft/asset-packs. The database gives the new row its id, and takes none twice.
unfoldable pub create_pack : String → String → Assets → Answer String × Assets
unfolding set_at
create_pack id brand s = elim (s.packs id) [
  | some p ↦ (refused 500 "Internal server error", s)
  | none ↦
      let row : AssetPack = record {
        brand_id = brand;
        base_image_key = none;
        preview_image_key = none;
      } in
      (saved id, record s { packs = set_at id row s.packs })
]

-- The columns of the name and of the description, which may be missing, are texts.
unfoldable pub create_named :
    String → String → Option String → Value → Assets → Answer String × Assets
unfolding create_pack
create_named id brand none description s = (refused 500 "Internal server error", s)
create_named id brand (some name) (str d) s = create_pack id brand s
create_named id brand (some name) undefined s = create_pack id brand s
create_named id brand (some name) null s = create_pack id brand s
create_named id brand (some name) _ s = (refused 500 "Internal server error", s)

unfoldable pub add_asset_pack :
    AssetsEnv → String → Auth → String → Value → Assets → Answer String × Assets
unfolding for_owner create_named get fields_of truthy
add_asset_pack env id auth brand body s =
    let fs = fields_of body in
    let name = get "name" fs in
    if truthy name
    then for_owner env "Not authorized for this brand" auth brand s
        (create_named id brand (if_text name) (get "description" fs) s)
    else (refused 400 "Name is required", s)

-- What a file is uploaded as: the base of a pack, or the image of a trait's value.
pub data Target : Type 0 where
  base : Target
  state : String → String → Target
  layer : String → String → Target

abbrev pub kind_of : Target → String
kind_of base = "base"
kind_of (state trait value) = "state"
kind_of (layer trait value) = "layer"

abbrev pub state_key_of : Target → Option String
state_key_of base = none
state_key_of (state trait value) = some (trait <> ":" <> value)
state_key_of (layer trait value) = some (trait <> ":" <> value)

-- `!traitName || !traitValue`, where they are needed.
unfoldable pub with_trait : (String → String → Target) → Fields → String ⊎ Target
unfolding get
with_trait make fs = elim (if_text (get "traitName" fs)) [
  | none ↦ inl "traitName and traitValue are required for state uploads"
  | some trait ↦ elim (if_text (get "traitValue" fs)) [
    | none ↦ inl "traitName and traitValue are required for state uploads"
    | some value ↦
        if is_empty trait || is_empty value
        then inl "traitName and traitValue are required for state uploads"
        else inr (make trait value)
  ]
]

unfoldable pub check_target : Fields → String ⊎ Target
unfolding get with_trait
check_target fs = elim (if_text (get "kind" fs)) [
  | none ↦ inl "Invalid kind. Must be base, state, or layer"
  | some kind ↦
      if str_eq kind "base"
      then inr base
      else if str_eq kind "state"
      then with_trait state fs
      else if str_eq kind "layer"
      then with_trait layer fs
      else inl "Invalid kind. Must be base, state, or layer"
]

-- The file of a request, by the name that its sender gave it.
pub record UploadedFile : Type 0 where
  pub original_name : String
  pub buffer : Buffer

abbrev pub object_key_of : String → String → Target → UploadedFile → String
object_key_of brand pack target file =
    "brands/" <> brand <> "/packs/" <> pack <> "/" <> kind_of target <> "/" <> file.original_name

-- `uploadObject`, where the object store takes the object.
unfoldable pub put_object : String → Buffer → Assets → Assets
unfolding set_at
put_object key buffer s = record s { bucket = set_at key buffer s.bucket }

-- The pack shows the new base, or the pack's mapping of the trait's value shows the new asset.
unfoldable pub refer : String → String → String → Target → Assets → Assets
unfolding set_at put
refer pack id key base s = elim (s.packs pack) [
  | none ↦ s
  | some p ↦ record s { packs = set_at pack (record p { base_image_key = some key }) s.packs }
]
refer pack id key (state trait value) s = record s {
  state_mappings =
      λ p. if str_eq pack p then put trait value id (s.state_mappings p) else s.state_mappings p;
}
refer pack id key (layer trait value) s = s

abbrev pub new_object : String → String → String → String → Target → AssetObject
new_object id brand pack key target = record {
  id = id;
  brand_id = brand;
  asset_pack_id = pack;
  object_key = key;
  kind = kind_of target;
  state_key = state_key_of target;
}

-- The asset's row, whose id the database takes once, and what refers to it.
unfoldable pub add_object :
    String → String → String → String → Target → Assets → Answer (String × String) × Assets
unfolding find_object refer
add_object id brand pack key target s = elim (find_object id s.objects) [
  | some o ↦ (refused 500 "Internal server error", s)
  | none ↦
      let t : Assets = record s { objects = new_object id brand pack key target ∷ s.objects } in
      (saved (key, id), refer pack id key target t)
]

-- Whether the object store takes the file is given.
unfoldable pub store_file :
    Bool
    → String
    → String
    → String
    → Target
    → UploadedFile
    → Assets
    → Answer (String × String) × Assets
unfolding find_pack put_object add_object
store_file stores id brand pack target file s = elim (find_pack brand pack s) [
  | none ↦ (refused 404 "Asset pack not found", s)
  | some p ↦
      let key = object_key_of brand pack target file in
      if stores
      then add_object id brand pack key target (put_object key file.buffer s)
      else (refused 500 "Internal server error", s)
]

unfoldable pub upload_checked :
    AssetsEnv
    → Bool
    → String
    → Auth
    → String
    → String
    → String ⊎ Target
    → UploadedFile
    → Assets
    → Answer (String × String) × Assets
unfolding for_owner store_file
upload_checked env stores id auth brand pack (inl m) file s = (refused 400 m, s)
upload_checked env stores id auth brand pack (inr target) file s =
    for_owner env "Forbidden" auth brand s (store_file stores id brand pack target file s)

-- POST /brands/:brandId/nft/asset-packs/:packId/upload.
unfoldable pub upload :
    AssetsEnv
    → Bool
    → String
    → Auth
    → String
    → String
    → Fields
    → Option UploadedFile
    → Assets
    → Answer (String × String) × Assets
unfolding check_target upload_checked
upload env stores id auth brand pack fs none s = (refused 400 "File is required", s)
upload env stores id auth brand pack fs (some file) s =
    upload_checked env stores id auth brand pack (check_target fs) file s
