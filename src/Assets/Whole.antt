-- ===== src/Assets/Whole.antt =====
-- The rows that show an image find it: the invariant, and the writes that keep it.
pub mod Contract
pub mod Requests
use text.Mathlib.Text.{◌==◌ as str_eq}
use text.Mathlib.TextEquality.{eq_iff}
use dynamic_nft_krnl.Base.{
  ◌≡◌, refl, sym, ◌∙◌, subst, Bool, true, false, ◌&&◌, ap, Option, none, some, String, List, [],
  ◌∷◌, arith, Bool-cases, Option-cases, inl, inr, All, if◌then◌else◌, none-ne-some, some_injective,
  put, same_key, Table, ◌⊎◌,
}
use dynamic_nft_krnl.Js.{Value, Fields}
use dynamic_nft_krnl.Me.{Auth}
use dynamic_nft_krnl.Brands.{Answer, refused, saved}
use dynamic_nft_krnl.Base.Int.{ℤ}
use dynamic_nft_krnl.Assets.{
  Buffer, AssetPack, AssetObject, ContractConfig, Assets, AssetsEnv, ◌<>◌, set_at, find_pack,
  find_object, for_owner-cases,
}
use dynamic_nft_krnl.Assets.Upload.{
  Target, base, state, layer, state_key_of, UploadedFile, put_object, refer, new_object, add_object,
  store_file, upload, create_pack, add_asset_pack, check_target, object_key_of,
}
use dynamic_nft_krnl.Assets.Render.{render_image}
use dynamic_nft_krnl.Assets.Kept.{
  HasObject, set_at_self, HasObject-set_at, All-HasObject, find_object_new, find_object_self,
  find_pack_set,
}

-- The asset that a mapping names: there, of the mapping's pack, and uploaded for its trait and value.
abbrev IsShown : List AssetObject → String → String → String → String → Type 0
IsShown os pack trait value id =
    (o : AssetObject) × (find_object id os ≡ some o)
    × (o.asset_pack_id ≡ pack)
    × (o.state_key ≡ some (trait <> ":" <> value))

-- Every asset and every pack's base is an object of the bucket, every mapping names an asset of its
-- pack, its trait and its value, and the active pack of a brand is a pack of the brand.
pub record IsWhole (s : Assets) : Type 0 where
  pub stored : All (λ o. HasObject s.bucket o.object_key) s.objects
  pub bases :
      (p : String) (row : AssetPack) (k : String)
      → s.packs p ≡ some row
      → row.base_image_key ≡ some k
      → HasObject s.bucket k
  pub mapped :
      (p trait value id : String)
      → s.state_mappings p trait value ≡ some id
      → IsShown s.objects p trait value id
  pub actives :
      (b : String) (c : ContractConfig) (p : String)
      → s.nft_configs b ≡ some c
      → c.active_asset_pack_id ≡ some p
      → (row : AssetPack) × (find_pack b p s ≡ some row)

pub put_object-IsWhole :
    (key : String) (b : Buffer) (s : Assets) → IsWhole s → IsWhole (put_object key b s)
unfolding put_object find_pack
put_object-IsWhole key b s w = record {
  stored = All-HasObject key b s.bucket s.objects w.stored;
  bases = λ p row k e f. HasObject-set_at key b s.bucket k (w.bases p row k e f);
  mapped = w.mapped;
  actives = w.actives;
}

-- The row that a table gives at a key after a row was set: the new one or one that was there.
pub set_at-cases {ℓ} :
    {V : Type ℓ} (k : String) (v : V) (t : String → Option V) (j : String) (x : V)
    → set_at k v t j ≡ some x
    → ((k ≡ j) × (v ≡ x)) ⊎ (t j ≡ some x)
unfolding set_at
set_at-cases k v t j x e = elim (Bool-cases (str_eq k j)) [
  | inl same ↦ inl ((eq_iff k j).0 same, some_injective v x (rw same at e))
  | inr other ↦ inr (rw other at e)
]

-- A row of a pack that takes the place of one of the same brand, with a base that is stored.
set_pack-IsWhole :
    (id : String) (row : AssetPack) (s : Assets)
    → ((x : AssetPack) → s.packs id ≡ some x → x.brand_id ≡ row.brand_id)
    → ((k : String) → row.base_image_key ≡ some k → HasObject s.bucket k)
    → IsWhole s
    → IsWhole (record s { packs = set_at id row s.packs })
set_pack-IsWhole id row s same_brand held w = record {
  stored = w.stored;
  bases = λ p x k e f. elim (set_at-cases id row s.packs p x e) [
    | inl (_, new) ↦ held k (subst (λ y. y.base_image_key ≡ some k) (sym new) f)
    | inr old ↦ w.bases p x k old f
  ];
  mapped = w.mapped;
  actives = λ b c p e f.
      find_pack_set b id p row (w.actives b c p e f).0 s same_brand (w.actives b c p e f).1;
}

pub create_pack-IsWhole :
    (id brand : String) (s : Assets) → IsWhole s → IsWhole (create_pack id brand s).1
unfolding create_pack
create_pack-IsWhole id brand s w = elim (Option-cases (s.packs id)) [
  | inr (p, there) ↦ rw (there, create_pack) w
  | inl free ↦
      rw (free, create_pack)
        (set_pack-IsWhole id _ s (λ x e. absurd (none-ne-some x (sym free ∙ e)))
          (λ k e. absurd (none-ne-some k e)) w)
]

module _ (id brand pack key : String) (target : Target) (s : Assets) where
  abbrev pub added : Assets
  added = record s { objects = new_object id brand pack key target ∷ s.objects }

  pub added-IsWhole :
      HasObject s.bucket key → find_object id s.objects ≡ none → IsWhole s → IsWhole added
  unfolding find_pack
  added-IsWhole held free w = record {
    stored = (held, w.stored);
    bases = w.bases;
    mapped = λ p trait value i e.
        let (o, found, of_pack, of_state) = w.mapped p trait value i e in
        (
          o,
          find_object_new (new_object id brand pack key target) s.objects i o free found,
          of_pack,
          of_state,
        );
    actives = w.actives;
  }

-- The id that a mapping gives after one was put: the new one, or one that was there.
put-cases :
    (b w v : String) (t : Table String) (b' w' x : String)
    → put b w v t b' w' ≡ some x
    → ((b ≡ b') × (w ≡ w') × (v ≡ x)) ⊎ (t b' w' ≡ some x)
unfolding put
put-cases b w v t b' w' x e = elim (Bool-cases (same_key b w b' w')) [
  | inl same ↦ inl (
    (eq_iff b b').0 (and_left _ _ same),
    (eq_iff w w').0 (and_right _ _ same),
    some_injective v x (rw same at e),
  )
  | inr other ↦ inr (rw other at e)
]
  where
    and_left : (p q : Bool) → (p && q) ≡ true → p ≡ true
    and_left p q h = ground arith

    and_right : (p q : Bool) → (p && q) ≡ true → q ≡ true
    and_right p q h = ground arith

pub refer-IsWhole :
    (id brand pack key : String) (target : Target) (s : Assets)
    → find_object id s.objects ≡ some (new_object id brand pack key target)
    → HasObject s.bucket key
    → IsWhole s
    → IsWhole (refer pack id key target s)
unfolding refer find_pack
refer-IsWhole id brand pack key base s there held w = elim (Option-cases (s.packs pack)) [
  | inl free ↦ rw (free, refer) w
  | inr (p, e) ↦
      rw (e, refer)
        (set_pack-IsWhole pack (record p { base_image_key = some key }) s
          (λ x f. ap (λ r. r.brand_id) (some_injective x p (sym f ∙ e)))
          (λ k f. subst (HasObject s.bucket) (some_injective key k f) held) w)
]
refer-IsWhole id brand pack key (layer trait value) s there held w = w
refer-IsWhole id brand pack key (state trait value) s there held w = record {
  stored = w.stored;
  bases = w.bases;
  mapped = λ p t v i e. elim (Bool-cases (str_eq pack p)) [
    | inr other ↦ w.mapped p t v i (rw other at e)
    | inl same ↦ elim (put-cases trait value id (s.state_mappings p) t v i (rw same at e)) [
      | inr old ↦ w.mapped p t v i old
      | inl (of_trait, of_value, of_id) ↦
          subst (λ j. IsShown s.objects p t v j) of_id
            (
              new_object id brand pack key (state trait value),
              there,
              (eq_iff pack p).0 same,
              rw (of_trait, of_value) refl,
            )
    ]
  ];
  actives = w.actives;
}
