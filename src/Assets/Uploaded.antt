-- ===== src/Assets/Uploaded.antt =====
-- What an upload leaves, on every way it ends.
use text.Mathlib.Text.{◌==◌ as str_eq}
use dynamic_nft_krnl.Base.{
  ◌≡◌, refl, Bool, true, false, Option, none, some, String, ◌∷◌, Bool-cases, Option-cases, inl, inr,
  ◌⊎◌,
}
use dynamic_nft_krnl.Js.{Fields}
use dynamic_nft_krnl.Me.{Auth}
use dynamic_nft_krnl.Brands.{Answer, refused, saved}
use dynamic_nft_krnl.Assets.{
  AssetPack, Assets, AssetsEnv, BrandRow, set_at, find_pack, find_object, for_owner-cases,
}
use dynamic_nft_krnl.Assets.Upload.{
  Target, base, state, layer, UploadedFile, put_object, new_object, add_object, store_file, upload,
  upload_checked, check_target, object_key_of,
}
use dynamic_nft_krnl.Assets.Kept.{set_at_self, set_at_other}
use dynamic_nft_krnl.Assets.Added.{IsAdded, file_key, refer-bucket, find_pack-packs, refer-IsAdded}

-- Where the upload is refused, every row is what it was. Where it is saved, the brand is the user's
-- and the pack the brand's, the key that is answered is the file's and holds it, other keys hold
-- what they held, and the asset is added.
abbrev pub IsUploaded :
    AssetsEnv
    → String
    → Auth
    → String
    → String
    → Fields
    → Option UploadedFile
    → Assets
    → Answer (String × String) × Assets
    → Type 0
IsUploaded env id auth brand pack fs file s (refused code m, s') =
    record s' { bucket = s.bucket } ≡ s
IsUploaded env id auth brand pack fs file s (saved (key, given), s') =
    (b : BrandRow) × (env.brands brand ≡ some b)
    × (str_eq b.owner_user_id auth.privy_user_id ≡ true)
    × ((row : AssetPack) × (find_pack brand pack s ≡ some row))
    × ((k : String) → str_eq key k ≡ false → s'.bucket k ≡ s.bucket k)
    × (given ≡ id)
    × ((f : UploadedFile) × (target : Target) × (file ≡ some f)
        × (check_target fs ≡ inr target)
        × (key ≡ file_key brand pack target f.original_name)
        × (s'.bucket key ≡ some f.buffer)
        × IsAdded id brand pack key target s s')

module _ (env : AssetsEnv) (id : String) (auth : Auth) (brand pack : String) (fs : Fields)
    (s : Assets) where
  add_object-IsUploaded :
      (target : Target) (file : UploadedFile) (b : BrandRow) (row : AssetPack)
      → env.brands brand ≡ some b
      → str_eq b.owner_user_id auth.privy_user_id ≡ true
      → find_pack brand pack s ≡ some row
      → check_target fs ≡ inr target
      → IsUploaded env id auth brand pack fs (some file) s (
          add_object id brand pack
            (object_key_of brand pack target file)
            target
            (put_object (object_key_of brand pack target file) file.buffer s))
  unfolding add_object put_object
  add_object-IsUploaded target file b row there own found checked =
      elim (Option-cases (find_object id s.objects)) [
        | inr (o, taken) ↦ rw (taken, add_object, IsUploaded) refl
        | inl free ↦
            rw (free, add_object, IsUploaded)
              (
                b,
                there,
                own,
                (row, found),
                (λ k other.
                    rw (refer-bucket pack id key target t)
                      (set_at_other key file.buffer s.bucket k other)),
                refl,
                (
                  file,
                  target,
                  refl,
                  checked,
                  key-eq target,
                  rw (refer-bucket pack id key target t) (set_at_self key file.buffer s.bucket),
                  refer-IsAdded id brand pack key s t.bucket free row
                      (find_pack-packs brand pack row s found) target,
                ),
              )
      ]
    where
      key-eq :
          (g : Target) → object_key_of brand pack g file ≡ file_key brand pack g file.original_name
      key-eq base = refl
      key-eq (state trait value) = refl
      key-eq (layer trait value) = refl

      key : String
      key = object_key_of brand pack target file

      t : Assets
      t = record s {
        objects = new_object id brand pack key target ∷ s.objects;
        bucket = set_at key file.buffer s.bucket;
      }

  store_file-IsUploaded :
      (stores : Bool) (target : Target) (file : UploadedFile) (b : BrandRow)
      → env.brands brand ≡ some b
      → str_eq b.owner_user_id auth.privy_user_id ≡ true
      → check_target fs ≡ inr target
      → IsUploaded env id auth brand pack fs
          (some file)
          s
          (store_file stores id brand pack target file s)
  unfolding store_file
  store_file-IsUploaded stores target file b there own checked =
      elim (Option-cases (find_pack brand pack s)) [
        | inl lost ↦ rw (lost, store_file, IsUploaded) refl
        | inr (row, found) ↦ elim (Bool-cases stores) [
          | inr fails ↦ rw (found, store_file, IsUploaded) (rw fails refl)
          | inl takes ↦
              rw (found, store_file)
                (rw takes (add_object-IsUploaded target file b row there own found checked))
        ]
      ]

  upload_checked-IsUploaded :
      (stores : Bool) (target : String ⊎ Target) (file : UploadedFile)
      → check_target fs ≡ target
      → IsUploaded env id auth brand pack fs
          (some file)
          s
          (upload_checked env stores id auth brand pack target file s)
  unfolding upload_checked
  upload_checked-IsUploaded stores (inl m) file checked = refl
  upload_checked-IsUploaded stores (inr target) file checked =
      for_owner-cases (IsUploaded env id auth brand pack fs (some file) s) env "Forbidden" auth
        brand s _ (λ code m. refl)
        (λ b there own. store_file-IsUploaded stores target file b there own checked)

-- An upload that is refused changes no row. One that is saved is of a user who owns the brand, to a
-- pack of the brand, with a file and a kind; the object store then has the file at the key of the
-- brand, the pack, the kind and the file's name, which is answered, and under other keys what it
-- had. The asset is added with the id, which was free, its kind and its trait and value. An upload
-- for a trait's value is what this value is shown by from then on, one for the base what the pack
-- is shown by, and one of a layer is listed as one. Other packs, all contracts, and what other
-- values are shown by stay.
pub upload-IsUploaded :
    (env : AssetsEnv) (stores : Bool) (id : String) (auth : Auth) (brand pack : String)
    (fs : Fields) (file : Option UploadedFile) (s : Assets)
    → IsUploaded env id auth brand pack fs file s (upload env stores id auth brand pack fs file s)
unfolding upload
upload-IsUploaded env stores id auth brand pack fs none s = refl
upload-IsUploaded env stores id auth brand pack fs (some file) s =
    upload_checked-IsUploaded env id auth brand pack fs s stores (check_target fs) file refl
