-- ===== src/Assets/Added.antt =====
-- An asset that is added to a pack, and what shows it.
use text.Mathlib.Text.{◌==◌ as str_eq}
use text.Mathlib.TextPositions.{eq_refl}
use dynamic_nft_krnl.Base.{
  ◌≡◌, refl, Bool, false, ◌&&◌, Option, none, some, String, ◌∷◌, arith, Bool-cases, Option-cases,
  inl, inr, none-ne-some, put_self, put_other, same_key,
}
use dynamic_nft_krnl.Assets.{Buffer, AssetPack, AssetObject, Assets, ◌<>◌, find_pack, find_object}
use dynamic_nft_krnl.Assets.Upload.{Target, base, state, layer, refer, new_object}
use dynamic_nft_krnl.Assets.Metadata.{state_image}
use dynamic_nft_krnl.Assets.Kept.{set_at_self, set_at_other, find_object_new, find_object_self}

-- The mapping is the one that the upload sets.
abbrev pub is_set : Target → String → String → String → String → Bool
is_set base pack p t v = false
is_set (state trait value) pack p t v = str_eq pack p && same_key trait value t v
is_set (layer trait value) pack p t v = false

-- The base is kept by the pack, and a state or a layer by its trait and value.
abbrev kind_name : Target → String
kind_name base = "base"
kind_name (state trait value) = "state"
kind_name (layer trait value) = "layer"

abbrev place_name : Target → Option String
place_name base = none
place_name (state trait value) = some (trait <> ":" <> value)
place_name (layer trait value) = some (trait <> ":" <> value)

-- The key of a file in the object store.
abbrev pub file_key : String → String → Target → String → String
file_key brand pack target name =
    "brands/" <> brand <> "/packs/" <> pack <> "/" <> kind_name target <> "/" <> name

-- The pack of a new base shows it, and other packs are what they were; all are for a state or a
-- layer.
abbrev pub IsPacked : Target → String → String → Assets → Assets → Type 0
IsPacked base pack key s s' =
    ((row : AssetPack) × (s.packs pack ≡ some row)
      × (s'.packs pack ≡ some (record row { base_image_key = some key })))
    × ((p : String) → str_eq pack p ≡ false → s'.packs p ≡ s.packs p)
IsPacked (state trait value) pack key s s' = s'.packs ≡ s.packs
IsPacked (layer trait value) pack key s s' = s'.packs ≡ s.packs

-- The trait's value of a state shows the new object; a base and a layer are mapped to no value.
abbrev pub IsMapped : Target → String → String → Assets → Assets → Type 0
IsMapped base pack key s s' = s'.state_mappings ≡ s.state_mappings
IsMapped (state trait value) pack key s s' = state_image pack trait value s' ≡ some key
IsMapped (layer trait value) pack key s s' = s'.state_mappings ≡ s.state_mappings

-- The asset is there with its kind, its trait and value, what it was uploaded for shows its object,
-- and other traits and values are shown by the same objects as before.
pub record IsAdded (id brand pack key : String) (target : Target) (s s' : Assets) : Type 0 where
  pub is_new : find_object id s.objects ≡ none
  pub listed :
      s'.objects
      ≡ record {
        id = id;
        brand_id = brand;
        asset_pack_id = pack;
        object_key = key;
        kind = kind_name target;
        state_key = place_name target;
      }
        ∷ s.objects
  pub packed : IsPacked target pack key s s'
  pub mapped : IsMapped target pack key s s'
  pub contracts : s'.nft_configs ≡ s.nft_configs
  pub others :
      (p t v k : String)
      → is_set target pack p t v ≡ false
      → state_image p t v s ≡ some k
      → state_image p t v s' ≡ some k

-- What a mapping shows, where its asset stays.
state_image-add :
    (o : AssetObject) (s : Assets) (p t v k : String)
    → find_object o.id s.objects ≡ none
    → state_image p t v s ≡ some k
    → state_image p t v (record s { objects = o ∷ s.objects }) ≡ some k
unfolding state_image
state_image-add o s p t v k free h = elim (Option-cases (s.state_mappings p t v)) [
  | inl unmapped ↦ absurd (none-ne-some k (rw (unmapped, state_image) at h))
  | inr (id, mapped) ↦ elim (Option-cases (find_object id s.objects)) [
    | inl lost ↦ absurd (none-ne-some k (rw lost at (rw (mapped, state_image) at h)))
    | inr (old, found) ↦
        rw (mapped, state_image)
          (rw (find_object_new o s.objects id old free found)
            (rw found at (rw (mapped, state_image) at h)))
  ]
]

pub refer-bucket :
    (pack id key : String) (target : Target) (s : Assets)
    → (refer pack id key target s).bucket ≡ s.bucket
unfolding refer
refer-bucket pack id key base s = elim (Option-cases (s.packs pack)) [
  | inl lost ↦ rw (lost, refer) refl
  | inr (row, found) ↦ rw (found, refer) refl
]
refer-bucket pack id key (state trait value) s = refl
refer-bucket pack id key (layer trait value) s = refl

pub find_pack-packs :
    (brand pack : String) (row : AssetPack) (s : Assets)
    → find_pack brand pack s ≡ some row
    → s.packs pack ≡ some row
unfolding find_pack
find_pack-packs brand pack row s found = ground arith

module _ (id brand pack key : String) (s : Assets) (bucket : String → Option Buffer)
    (free : find_object id s.objects ≡ none) (row : AssetPack)
    (found : s.packs pack ≡ some row) where
  abbrev pub with_object : Target → Assets
  with_object target = record s {
    objects = new_object id brand pack key target ∷ s.objects;
    bucket = bucket;
  }

  pub refer-IsAdded :
      (target : Target)
      → IsAdded id brand pack key target s (refer pack id key target (with_object target))
  unfolding refer state_image
  refer-IsAdded base =
      rw (found, refer)
        (record {
          is_new = free;
          listed = refl;
          packed = (
            (row, found, set_at_self pack _ s.packs),
            λ p far. set_at_other pack _ s.packs p far,
          );
          mapped = refl;
          contracts = refl;
          others = λ p t v k other h.
              state_image-add (new_object id brand pack key base) s p t v k free h;
        })
  refer-IsAdded (layer trait value) = record {
    is_new = free;
    listed = refl;
    packed = refl;
    mapped = refl;
    contracts = refl;
    others = λ p t v k other h.
        state_image-add (new_object id brand pack key (layer trait value)) s p t v k free h;
  }
  refer-IsAdded (state trait value) = record {
    is_new = free;
    listed = refl;
    packed = refl;
    contracts = refl;
    mapped =
        rw (eq_refl pack, state_image)
          (rw (put_self trait value id (s.state_mappings pack)) (
            rw (find_object_self (new_object id brand pack key (state trait value)) s.objects)
              refl));
    others = λ p t v k other h. elim (Bool-cases (str_eq pack p)) [
      | inr far ↦
          rw (far, state_image)
            (state_image-add (new_object id brand pack key (state trait value)) s p t v k free h)
      | inl same ↦
          rw (same, state_image)
            (rw (put_other trait value t v id (s.state_mappings p) (rw same at other))
              (state_image-add (new_object id brand pack key (state trait value)) s p t v k free h))
    ];
  }
