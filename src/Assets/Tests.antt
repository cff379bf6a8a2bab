-- ===== src/Assets/Tests.antt =====
-- Uploads and images of one brand.
use dynamic_nft_krnl.Base.{
  ◌≡◌, refl, ℕ, true, Option, none, some, String, List, [], ◌∷◌, empty, none-ne-some,
}
use dynamic_nft_krnl.Base.Int.{pos}
use dynamic_nft_krnl.Json.{stringify}
use dynamic_nft_krnl.Js.{Value, Fields, str, num, obj, end, field, whole, int}
use dynamic_nft_krnl.Me.{Auth}
use dynamic_nft_krnl.Fixtures.{plain}
use dynamic_nft_krnl.Brands.{saved}
use dynamic_nft_krnl.Assets.{Assets, AssetsEnv}
use dynamic_nft_krnl.Assets.Upload.{UploadedFile, upload}
use dynamic_nft_krnl.Assets.Render.{render_image, sort}
use dynamic_nft_krnl.Assets.Metadata.{CoreTraits, metadata, state_image}
use dynamic_nft_krnl.Assets.Whole.{IsWhole}
use dynamic_nft_krnl.Assets.Whole.Requests.{
  Request, new_pack, new_upload, new_contract, serve_all, serve_all-IsWhole,
}
use dynamic_nft_krnl.Assets.Uploaded.{IsUploaded, upload-IsUploaded}
use dynamic_nft_krnl.Assets.Layers.{IsListed, upload-IsListed}
use dynamic_nft_krnl.Assets.Again.{IsDrawn, render_image-IsDrawn}

abbrev env : AssetsEnv
env = record {
  runtime = record plain { show_number = λ n. "2" };
  brands = λ b. some (record { owner_user_id = "ann"; name = "Acme" });
  token_brand = λ t. some "acme";
  traits_of_token = λ b t. ("hat", "gold") ∷ [];
  public_base_url = none;
  s3_public_base_url = some "https://img/";
  sha256 = λ x. x;
  by_state_key = λ os. os;
  draw = λ image layers. some image;
}

abbrev ann : Auth
ann = record { privy_user_id = "ann"; wallet_address = none }

abbrev none_yet : Assets
none_yet = record {
  packs = λ p. none;
  objects = [];
  state_mappings = λ p. empty;
  nft_configs = λ b. none;
  bucket = λ k. none;
}

abbrev of_kind : String → String → Fields
of_kind kind value =
    field "kind" (str kind) (field "traitName" (str "RARITY") (field "traitValue" (str value) end))

abbrev file : List ℕ → Option UploadedFile
file bytes = some (record { original_name = "a.png"; buffer = bytes })

abbrev contract : Value
contract = obj (
    field "contractAddress" (str "0xc") (
      field "chainId" (num (whole (int (pos 1))))
        (field "rpcUrl" (str "rpc") (field "activeAssetPackId" (str "p") end))))

abbrev requests : List Request
requests =
    new_pack "p" ann "acme" (obj (field "name" (str "Hats") end))
    ∷ new_contract ann "acme" contract
    ∷ new_upload true "1" ann "acme" "p" (of_kind "base" "") (file (1 ∷ []))
    ∷ new_upload true "2" ann "acme" "p" (of_kind "state" "2") (file (2 ∷ []))
    ∷ []

abbrev stocked : Assets
unfolding serve_all
stocked = serve_all env requests none_yet

none_yet-IsWhole : IsWhole none_yet
none_yet-IsWhole = record {
  stored = tt;
  bases = λ p row k e f. absurd (none-ne-some row e);
  mapped = λ p t v id e. absurd (none-ne-some id e);
  actives = λ b c p e f. absurd (none-ne-some c e);
}

serve_all-IsWhole_example : IsWhole (serve_all env requests none_yet)
serve_all-IsWhole_example = serve_all-IsWhole env requests none_yet none_yet-IsWhole

upload-IsUploaded_example :
    IsUploaded env "3" ann "acme" "p"
      (of_kind "state" "3")
      (file (3 ∷ []))
      stocked
      (upload env true "3" ann "acme" "p" (of_kind "state" "3") (file (3 ∷ [])) stocked)
upload-IsUploaded_example =
    upload-IsUploaded env true "3" ann "acme" "p" (of_kind "state" "3") (file (3 ∷ [])) stocked

upload-IsListed_example :
    IsListed "acme" "p"
      (of_kind "layer" "3")
      stocked
      (upload env true "3" ann "acme" "p" (of_kind "layer" "3") (file (3 ∷ [])) stocked)
upload-IsListed_example =
    upload-IsListed env true "3" ann "acme" "p" (of_kind "layer" "3") (file (3 ∷ [])) stocked

render_image-IsDrawn_example : IsDrawn env "1" stocked (render_image env true "1" stocked)
render_image-IsDrawn_example = render_image-IsDrawn env true "1" stocked

-- A file of the same name for another value takes the place of the first value's image.
takes_place :
    ((upload env true "3" ann "acme" "p" (of_kind "state" "3") (file (3 ∷ [])) stocked).1).bucket
      "brands/acme/packs/p/state/a.png"
    ≡ some (3 ∷ [])
unfolding upload serve_all
takes_place = refl

still_shown :
    state_image "p" "RARITY" "2"
      (upload env true "3" ann "acme" "p" (of_kind "state" "3") (file (3 ∷ [])) stocked).1
    ≡ some "brands/acme/packs/p/state/a.png"
unfolding upload serve_all state_image
still_shown = refl

sorts : sort ("b:2" ∷ "a:1" ∷ "b" ∷ []) ≡ "a:1" ∷ "b" ∷ "b:2" ∷ []
unfolding sort
sorts = refl

abbrev rare : CoreTraits
rare = record { rarity = some 2; xp = some 10; level = some 1 }

shows_state :
    metadata env rare "7" stocked
    ≡ saved (record {
      name = "Acme #7";
      description = "Dynamic NFT rewards for Acme";
      image = "https://img/brands/acme/packs/p/state/a.png";
      animation_url = "https://img/brands/acme/packs/p/state/a.png";
      xp = 10;
      level = 1;
      rarity = 2;
    })
unfolding metadata serve_all
shows_state = refl

-- The image that is drawn stays when the base is replaced under its name.
stays_drawn :
    (render_image env true "1"
      (upload env true "3" ann "acme" "p"
        (of_kind "base" "")
        (file (3 ∷ []))
        (render_image env true "1" stocked).1).1).0
    ≡ saved (1 ∷ [])
unfolding render_image upload serve_all stringify
stays_drawn = refl
