-- ===== src/Assets/Kept.antt =====
-- What the single writes leave of the images: objects of the bucket, packs, and assets.
use text.Mathlib.Text.{◌==◌ as str_eq}
use text.Mathlib.TextEquality.{eq_iff}
use text.Mathlib.TextPositions.{eq_refl}
use dynamic_nft_krnl.Base.{
  ◌≡◌, refl, sym, ◌∙◌, subst, true, false, Option, none, some, String, List, [], ◌∷◌, Bool-cases,
  Option-cases, inl, inr, All, none-ne-some,
}
use dynamic_nft_krnl.Assets.{Buffer, AssetPack, AssetObject, Assets, set_at, find_pack, find_object}

-- The key has an object in the bucket.
abbrev pub HasObject : (String → Option Buffer) → String → Type 0
HasObject bucket key = (b : Buffer) × (bucket key ≡ some b)

module _ {ℓ} {V : Type ℓ} (k : String) (v : V) (t : String → Option V) where
  pub set_at_self : set_at k v t k ≡ some v
  unfolding set_at
  set_at_self = rw (eq_refl k) refl

  pub set_at_other : (j : String) → str_eq k j ≡ false → set_at k v t j ≡ t j
  unfolding set_at
  set_at_other j other = rw other refl

  pub same_text : (j : String) → str_eq k j ≡ true → k ≡ j
  same_text j e = (eq_iff k j).0 e

pub HasObject-set_at :
    (key : String) (b : Buffer) (bucket : String → Option Buffer) (k : String)
    → HasObject bucket k
    → HasObject (set_at key b bucket) k
unfolding set_at
HasObject-set_at key b bucket k (old, h) = elim (Bool-cases (str_eq key k)) [
  | inl same ↦ (b, rw same refl)
  | inr other ↦ (old, rw other h)
]

pub All-HasObject :
    (key : String) (b : Buffer) (bucket : String → Option Buffer) (os : List AssetObject)
    → All (λ o. HasObject bucket o.object_key) os
    → All (λ o. HasObject (set_at key b bucket) o.object_key) os
All-HasObject key b bucket [] h = tt
All-HasObject key b bucket (o ∷ os) h =
    (HasObject-set_at key b bucket o.object_key h.0, All-HasObject key b bucket os h.1)

-- A new asset with an id that none has hides none.
pub find_object_new :
    (o : AssetObject) (os : List AssetObject) (id : String) (old : AssetObject)
    → find_object o.id os ≡ none
    → find_object id os ≡ some old
    → find_object id (o ∷ os) ≡ some old
unfolding find_object
find_object_new o os id old free found = elim (Bool-cases (str_eq o.id id)) [
  | inl same ↦ absurd (
      none-ne-some old
        (sym free ∙ subst (λ i. find_object i os ≡ some old) (sym ((eq_iff o.id id).0 same)) found))
  | inr other ↦ rw other found
]

pub find_object_self :
    (o : AssetObject) (os : List AssetObject) → find_object o.id (o ∷ os) ≡ some o
unfolding find_object
find_object_self o os = rw (eq_refl o.id) refl

-- A pack of the brand, where a row of the same brand takes a row's place.
pub find_pack_set :
    (brand id p : String) (row old : AssetPack) (s : Assets)
    → ((x : AssetPack) → s.packs id ≡ some x → x.brand_id ≡ row.brand_id)
    → find_pack brand p s ≡ some old
    → (x : AssetPack) × (find_pack brand p (record s { packs = set_at id row s.packs }) ≡ some x)
unfolding find_pack set_at
find_pack_set brand id p row old s same_brand found = elim (Bool-cases (str_eq id p)) [
  | inr other ↦ (old, rw (other, find_pack) found)
  | inl same ↦ elim (Option-cases (s.packs p)) [
    | inl free ↦ absurd (none-ne-some old (rw (free, find_pack) at found))
    | inr (x, there) ↦ elim (Bool-cases (str_eq x.brand_id brand)) [
      | inr foreign ↦ absurd (none-ne-some old (rw foreign at (rw (there, find_pack) at found)))
      | inl own ↦ (
        row,
        rw (same, find_pack)
            (rw (subst (λ b. str_eq b brand ≡ true) (same_brand x (at_id x there same)) own) refl),
      )
    ]
  ]
]
  where
    at_id : (x : AssetPack) → s.packs p ≡ some x → str_eq id p ≡ true → s.packs id ≡ some x
    at_id x there same = subst (λ i. s.packs i ≡ some x) (sym ((eq_iff id p).0 same)) there
