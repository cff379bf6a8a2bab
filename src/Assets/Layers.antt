-- ===== src/Assets/Layers.antt =====
-- The layers that a lootbox's configuration asks for, after an upload: how POST
-- /brands/:brandId/lootbox/config and the uploads of apps/api/src/routes/brands.ts meet.
use text.Mathlib.Text.{◌==◌ as str_eq}
use dynamic_nft_krnl.Base.{
  ◌≡◌, ap, Bool, false, not, ◌&&◌, ◌||◌, Option, none, some, String, List, [], ◌∷◌, arith, inr,
  if◌then◌else◌,
}
use dynamic_nft_krnl.Js.{Fields}
use dynamic_nft_krnl.Lootbox.{LootTableEntry, has}
use dynamic_nft_krnl.Me.{Auth}
use dynamic_nft_krnl.Brands.{Answer, refused, saved}
use dynamic_nft_krnl.Brands.Config.{is_missing_layer}
use dynamic_nft_krnl.Assets.{AssetObject, Assets, AssetsEnv, ◌<>◌}
use dynamic_nft_krnl.Assets.Upload.{
  Target, base, state, layer, UploadedFile, new_object, upload, check_target,
}
use dynamic_nft_krnl.Assets.Added.{IsAdded}
use dynamic_nft_krnl.Assets.Uploaded.{IsUploaded, upload-IsUploaded}

-- The state keys of the layers and states of a brand's pack: `availableLayers`.
unfoldable pub layers_of : List AssetObject → String → String → List String
layers_of [] brand pack = []
layers_of (o ∷ os) brand pack =
    let rest = layers_of os brand pack in
    if str_eq o.brand_id brand
      && str_eq o.asset_pack_id pack
      && (str_eq o.kind "layer" || str_eq o.kind "state")
    then with_key o.state_key rest
    else rest
  where
    with_key : Option String → List String → List String
    with_key none keys = keys
    with_key (some k) keys = k ∷ keys

-- The upload was a layer or a state of an entry, in the pack.
abbrev is_layer_for : Target → String → String → String → String → LootTableEntry → Bool
is_layer_for base brand pack b p e = false
is_layer_for (state trait value) brand pack b p e =
    str_eq brand b
    && str_eq pack p
    && str_eq (e.trait_name <> ":" <> e.trait_value) (trait <> ":" <> value)
is_layer_for (layer trait value) brand pack b p e =
    str_eq brand b
    && str_eq pack p
    && str_eq (e.trait_name <> ":" <> e.trait_value) (trait <> ":" <> value)

-- The entries whose layer is missing are the same, but for the one that was uploaded.
abbrev pub IsListed : String → String → Fields → Assets → Answer (String × String) × Assets → Type 0
IsListed brand pack fs s (refused code m, s') =
    (b p : String) (e : LootTableEntry)
    → is_missing_layer (layers_of s'.objects b p) e ≡ is_missing_layer (layers_of s.objects b p) e
IsListed brand pack fs s (saved a, s') =
    (target : Target) × (check_target fs ≡ inr target)
    × ((b p : String) (e : LootTableEntry)
        → is_missing_layer (layers_of s'.objects b p) e
          ≡ is_missing_layer (layers_of s.objects b p) e
            && not (is_layer_for target brand pack b p e))

module _ (id brand pack key b p : String) (e : LootTableEntry) (os : List AssetObject) where
  is_missing_layer-add :
      (target : Target)
      → is_missing_layer (layers_of (new_object id brand pack key target ∷ os) b p) e
        ≡ is_missing_layer (layers_of os b p) e && not (is_layer_for target brand pack b p e)
  unfolding is_missing_layer layers_of has
  is_missing_layer-add base = ground arith
  is_missing_layer-add (state trait value) = ground arith
  is_missing_layer-add (layer trait value) = ground arith

  -- The row of an asset that was added is the one that the upload writes.
  IsAdded-objects :
      (target : Target) (s s' : Assets)
      → IsAdded id brand pack key target s s'
      → s'.objects ≡ new_object id brand pack key target ∷ s.objects
  IsAdded-objects base s s' added = added.listed
  IsAdded-objects (state trait value) s s' added = added.listed
  IsAdded-objects (layer trait value) s s' added = added.listed

IsUploaded-IsListed :
    (env : AssetsEnv) (id : String) (auth : Auth) (brand pack : String) (fs : Fields)
    (file : Option UploadedFile) (s : Assets) (r : Answer (String × String) × Assets)
    → IsUploaded env id auth brand pack fs file s r
    → IsListed brand pack fs s r
IsUploaded-IsListed env id auth brand pack fs file s (refused code m, s') h =
    λ b p e. ap (λ t. is_missing_layer (layers_of t.objects b p) e) h
IsUploaded-IsListed env id auth brand pack fs file s (saved (key, given), s')
      (_, _, _, _, _, _, (_, target, _, checked, _, _, added)) =
    (
      target,
      checked,
      λ b p e.
          rw (IsAdded-objects id brand pack key b p e s.objects target s s' added)
            (is_missing_layer-add id brand pack key b p e s.objects target),
    )

-- An upload gives a lootbox's configuration the image that it is for and no other: an entry's layer
-- is missing in a pack afterwards where it was missing before, unless the upload was saved, was a
-- layer or a state of this pack, and had the name and the value of the entry, joined by a colon.
pub upload-IsListed :
    (env : AssetsEnv) (stores : Bool) (id : String) (auth : Auth) (brand pack : String)
    (fs : Fields) (file : Option UploadedFile) (s : Assets)
    → IsListed brand pack fs s (upload env stores id auth brand pack fs file s)
upload-IsListed env stores id auth brand pack fs file s =
    IsUploaded-IsListed env id auth brand pack fs file s _
      (upload-IsUploaded env stores id auth brand pack fs file s)
