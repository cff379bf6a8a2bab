-- ===== src/Assets/Whole/Requests.antt =====
-- The rows that show an image find it, whatever requests come in whatever order.
use dynamic_nft_krnl.Base.{
  Bool, true, false, Option, none, some, String, List, [], ◌∷◌, Bool-cases, Option-cases, inl, inr,
  if◌then◌else◌, ◌⊎◌,
}
use dynamic_nft_krnl.Js.{
  if_text, undefined, null, bool, num, str, arr, obj, Value, Fields, truthy, get, fields_of,
}
use dynamic_nft_krnl.Me.{Auth}
use dynamic_nft_krnl.Brands.{refused}
use dynamic_nft_krnl.Assets.{Buffer, Assets, AssetsEnv, find_pack, find_object}
use dynamic_nft_krnl.Assets.Upload.{
  Target, UploadedFile, put_object, new_object, add_object, store_file, upload, add_asset_pack,
  check_target, object_key_of, create_named, upload_checked,
}
use dynamic_nft_krnl.Assets.Render.{
  render_image, draw_and_keep, render_located, render_pack, Located, missing, located, locate,
  cache_key, trait_pairs,
}
use dynamic_nft_krnl.Assets.Kept.{HasObject, set_at_self, find_object_self}
use dynamic_nft_krnl.Assets.Whole.{
  IsWhole, put_object-IsWhole, create_pack-IsWhole, added, added-IsWhole, refer-IsWhole,
}
use dynamic_nft_krnl.Assets.Contract.{set_contract}
use dynamic_nft_krnl.Assets.Whole.Contract.{owned, set_contract-IsWhole}

add_object-IsWhole :
    (id brand pack key : String) (target : Target) (s : Assets)
    → HasObject s.bucket key
    → IsWhole s
    → IsWhole (add_object id brand pack key target s).1
unfolding add_object
add_object-IsWhole id brand pack key target s held w =
    elim (Option-cases (find_object id s.objects)) [
      | inr (o, taken) ↦ rw (taken, add_object) w
      | inl free ↦
          rw (free, add_object)
            (refer-IsWhole id brand pack key target (added id brand pack key target s)
              (find_object_self (new_object id brand pack key target) s.objects) held
              (added-IsWhole id brand pack key target s held free w))
    ]

store_file-IsWhole :
    (stores : Bool) (id brand pack : String) (target : Target) (file : UploadedFile) (s : Assets)
    → IsWhole s
    → IsWhole (store_file stores id brand pack target file s).1
unfolding store_file put_object
store_file-IsWhole stores id brand pack target file s w =
    elim (Option-cases (find_pack brand pack s)) [
      | inl none_found ↦ rw (none_found, store_file) w
      | inr (p, found) ↦ rw (found, store_file) (taken stores)
    ]
  where
    key : String
    key = object_key_of brand pack target file

    taken :
        (b : Bool)
        → IsWhole
            (if b
              then add_object id brand pack key target (put_object key file.buffer s)
              else (refused 500 "Internal server error", s)).1
    taken false = w
    taken true =
        add_object-IsWhole id brand pack key target (put_object key file.buffer s)
          (file.buffer, set_at_self key file.buffer s.bucket)
          (put_object-IsWhole key file.buffer s w)

module _ (env : AssetsEnv) (s : Assets) (w : IsWhole s) where
  create_named-IsWhole :
      (id brand : String) (name : Option String) (description : Value)
      → IsWhole (create_named id brand name description s).1
  unfolding create_named
  create_named-IsWhole id brand none description = w
  create_named-IsWhole id brand (some name) (str d) = create_pack-IsWhole id brand s w
  create_named-IsWhole id brand (some name) undefined = create_pack-IsWhole id brand s w
  create_named-IsWhole id brand (some name) null = create_pack-IsWhole id brand s w
  create_named-IsWhole id brand (some name) (bool b) = w
  create_named-IsWhole id brand (some name) (num n) = w
  create_named-IsWhole id brand (some name) (arr vs) = w
  create_named-IsWhole id brand (some name) (obj fs) = w

  add_asset_pack-IsWhole :
      (id : String) (auth : Auth) (brand : String) (body : Value)
      → IsWhole (add_asset_pack env id auth brand body s).1
  unfolding add_asset_pack
  add_asset_pack-IsWhole id auth brand body =
      elim (Bool-cases (truthy (get "name" (fields_of body)))) [
        | inr absent ↦ rw (absent, add_asset_pack) w
        | inl named ↦
            rw (named, add_asset_pack)
              (owned env s w "Not authorized for this brand" auth brand _ (
                create_named-IsWhole id brand (if_text (get "name" (fields_of body)))
                  (get "description" (fields_of body))))
      ]

  upload_checked-IsWhole :
      (stores : Bool) (id : String) (auth : Auth) (brand pack : String) (target : String ⊎ Target)
      (file : UploadedFile)
      → IsWhole (upload_checked env stores id auth brand pack target file s).1
  unfolding upload_checked
  upload_checked-IsWhole stores id auth brand pack (inl m) file = w
  upload_checked-IsWhole stores id auth brand pack (inr target) file =
      owned env s w "Forbidden" auth brand _
        (store_file-IsWhole stores id brand pack target file s w)

  upload-IsWhole :
      (stores : Bool) (id : String) (auth : Auth) (brand pack : String) (fs : Fields)
      (file : Option UploadedFile)
      → IsWhole (upload env stores id auth brand pack fs file s).1
  unfolding upload
  upload-IsWhole stores id auth brand pack fs none = w
  upload-IsWhole stores id auth brand pack fs (some file) =
      upload_checked-IsWhole stores id auth brand pack (check_target fs) file

  draw_and_keep-IsWhole :
      (stores : Bool) (key : String) (image : Option Buffer)
      → IsWhole (draw_and_keep stores key image s).1
  unfolding draw_and_keep
  draw_and_keep-IsWhole true key (some image) = put_object-IsWhole key image s w
  draw_and_keep-IsWhole true key none = w
  draw_and_keep-IsWhole false key image = w

  render_located-IsWhole :
      (stores : Bool) (token : String) (at : Located)
      → IsWhole (render_located env stores token at s).1
  unfolding render_located render_pack
  render_located-IsWhole stores token (missing code m) = w
  render_located-IsWhole stores token (located brand pack base_key) =
      elim (Option-cases (s.bucket key)) [
        | inr (cached, there) ↦ rw (there, render_pack) w
        | inl fresh ↦ rw (fresh, render_pack) (draw_and_keep-IsWhole stores key _)
      ]
    where
      key : String
      key = cache_key env token base_key (trait_pairs env brand token)

-- A request of an owner, or one that draws a token. What the database and the object store do with it
-- comes along.
pub data Request : Type 0 where
  new_pack : String → Auth → String → Value → Request
  new_upload : Bool → String → Auth → String → String → Fields → Option UploadedFile → Request
  new_contract : Auth → String → Value → Request
  new_image : Bool → String → Request

unfoldable pub serve : AssetsEnv → Request → Assets → Assets
unfolding add_asset_pack upload set_contract render_image
serve env (new_pack id auth brand body) s = (add_asset_pack env id auth brand body s).1
serve env (new_upload stores id auth brand pack fs file) s =
    (upload env stores id auth brand pack fs file s).1
serve env (new_contract auth brand body) s = (set_contract env auth brand body s).1
serve env (new_image stores token) s = (render_image env stores token s).1

unfoldable pub serve_all : AssetsEnv → List Request → Assets → Assets
unfolding serve
serve_all env [] s = s
serve_all env (r ∷ rs) s = serve_all env rs (serve env r s)

serve-IsWhole : (env : AssetsEnv) (r : Request) (s : Assets) → IsWhole s → IsWhole (serve env r s)
unfolding serve render_image
serve-IsWhole env (new_pack id auth brand body) s w =
    add_asset_pack-IsWhole env s w id auth brand body
serve-IsWhole env (new_upload stores id auth brand pack fs file) s w =
    upload-IsWhole env s w stores id auth brand pack fs file
serve-IsWhole env (new_contract auth brand body) s w = set_contract-IsWhole env s w auth brand body
serve-IsWhole env (new_image stores token) s w =
    render_located-IsWhole env s w stores token (locate env token s)

-- Whatever requests for packs, uploads, contracts and images come, of whatever users, refused ones
-- and failing ones among them: if it is so before, every asset and every pack's base is an object
-- of the bucket, every mapping of a trait's value names an asset of the same pack that was uploaded
-- for this trait and value, and the active pack of a brand is a pack of the brand.
pub serve_all-IsWhole :
    (env : AssetsEnv) (rs : List Request) (s : Assets) → IsWhole s → IsWhole (serve_all env rs s)
unfolding serve_all
serve_all-IsWhole env [] s w = w
serve_all-IsWhole env (r ∷ rs) s w = serve_all-IsWhole env rs _ (serve-IsWhole env r s w)
