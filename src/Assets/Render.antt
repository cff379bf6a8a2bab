-- ===== src/Assets/Render.antt =====
-- The drawn image of a token: GET /render/:tokenId.png of apps/api/src/routes/metadata.ts.
use Prim.Native.Char.{code}
use text.Mathlib.Text.{◌==◌ as str_eq}
use dynamic_nft_krnl.Base.{
  ℕ, ◌+◌, ◌-◌, ◌/◌, ◌%◌, Bool, true, false, ◌&&◌, ◌||◌, Option, none, some, String, List, [], ◌∷◌,
  if◌then◌else◌, ltb, ◌==◌, keep, map, or_else,
}
use dynamic_nft_krnl.Js.{str, arr, obj, Values, nil, cons, end, field}
use dynamic_nft_krnl.Json.{stringify}
use dynamic_nft_krnl.Lootbox.{has}
use dynamic_nft_krnl.Mint.{non_empty}
use dynamic_nft_krnl.Base.Text.{is_empty}
use dynamic_nft_krnl.Brands.{Answer, refused, saved}
use dynamic_nft_krnl.Assets.{Buffer, AssetObject, AssetPack, Assets, AssetsEnv, ◌<>◌, find_pack}
use dynamic_nft_krnl.Assets.Upload.{put_object}

-- The units that texts are compared by: a character above 0xffff has two.
unfoldable pub code_units : String → List ℕ
code_units String.[] = []
code_units (String.◌∷◌ c s) =
    let rest = code_units s in
    let n = code c in
    if ltb n 0x10000
    then n ∷ rest
    else (0xd800 + (n - 0x10000) / 0x400) ∷ (0xdc00 + (n - 0x10000) % 0x400) ∷ rest

unfoldable pub is_before : List ℕ → List ℕ → Bool
is_before [] [] = false
is_before [] (y ∷ ys) = true
is_before (x ∷ xs) [] = false
is_before (x ∷ xs) (y ∷ ys) = let rest = is_before xs ys in ltb x y || (x == y && rest)

-- `sort()`, which keeps the order of equal texts.
insert : String → List String → List String
unfolding is_before code_units
insert x [] = x ∷ []
insert x (y ∷ ys) =
    let rest = insert x ys in
    if is_before (code_units y) (code_units x) then y ∷ rest else x ∷ y ∷ ys

unfoldable pub sort : List String → List String
unfolding insert
sort [] = []
sort (x ∷ xs) = insert x (sort xs)

abbrev pair_of : String × String → String
pair_of t = t.0 <> ":" <> t.1

-- The active traits of a token, as the state keys of their layers.
unfoldable pub trait_pairs : AssetsEnv → String → String → List String
unfolding sort
trait_pairs env brand token = sort (map pair_of (env.traits_of_token brand token))

texts : List String → Values
texts [] = nil
texts (x ∷ xs) = cons (str x) (texts xs)

-- The key that the drawn image is kept under.
unfoldable pub cache_key : AssetsEnv → String → String → List String → String
unfolding texts
cache_key env token base_key pairs =
    let input = obj (field "base" (str base_key) (field "traits" (arr (texts pairs)) end)) in
    "renders/" <> token <> "/" <> env.sha256 (or_else (stringify env.runtime input) "") <> ".png"

abbrev is_in : Option String → List String → Bool
is_in none pairs = false
is_in (some k) pairs = has k pairs

is_layer_of : String → String → List String → AssetObject → Bool
unfolding has
is_layer_of brand pack pairs o =
    str_eq o.brand_id brand
    && str_eq o.asset_pack_id pack
    && str_eq o.kind "layer"
    && is_in o.state_key pairs

-- `getObjectBuffer` of each, which throws for an object that is missing.
unfoldable pub fetch_all : List AssetObject → Assets → Option (List Buffer)
fetch_all [] s = some []
fetch_all (o ∷ os) s =
    let rest = fetch_all os s in
    elim (s.bucket o.object_key) [
      | none ↦ none
      | some b ↦ elim rest [ none ↦ none | some bs ↦ some (b ∷ bs) ]
    ]

-- The base with the layers of the active traits over it.
unfoldable pub draw_token :
    AssetsEnv → String → String → String → List String → Assets → Option Buffer
unfolding is_layer_of fetch_all keep
draw_token env brand pack base_key pairs s = elim (s.bucket base_key) [
  | none ↦ none
  | some image ↦
      elim (fetch_all (env.by_state_key (keep (is_layer_of brand pack pairs) s.objects)) s) [
        | none ↦ none
        | some layers ↦ env.draw image layers
      ]
]

-- Whether the object store takes the new image is given.
unfoldable pub draw_and_keep : Bool → String → Option Buffer → Assets → Answer Buffer × Assets
unfolding put_object
draw_and_keep true key (some image) s = (saved image, put_object key image s)
draw_and_keep _ key _ s = (refused 500 "Failed to render image", s)

unfoldable pub render_pack :
    AssetsEnv → Bool → String → String → String → String → Assets → Answer Buffer × Assets
unfolding trait_pairs cache_key draw_token draw_and_keep
render_pack env stores token brand pack base_key s =
    let pairs = trait_pairs env brand token in
    let key = cache_key env token base_key pairs in
    elim (s.bucket key) [
      | some cached ↦ (saved cached, s)
      | none ↦ draw_and_keep stores key (draw_token env brand pack base_key pairs s) s
    ]

-- The pack that is active for a brand, by its id.
unfoldable pub active_pack : String → Assets → Option String
active_pack brand s = elim (s.nft_configs brand) [
  | none ↦ none
  | some c ↦ non_empty c.active_asset_pack_id
]

abbrev base_key_of : Option AssetPack → Option String
base_key_of none = none
base_key_of (some p) = non_empty p.base_image_key

-- The brand of a token, its active pack and the key of the pack's base, or why there is none.
pub data Located : Type 0 where
  missing : ℕ → String → Located
  located : String → String → String → Located

unfoldable pub locate_pack : String → Assets → Located
unfolding active_pack find_pack
locate_pack brand s = elim (active_pack brand s) [
  | none ↦ missing 404 "Active asset pack not configured"
  | some pack ↦ elim (base_key_of (find_pack brand pack s)) [
    | none ↦ missing 404 "Base image not configured"
    | some base_key ↦ located brand pack base_key
  ]
]

unfoldable pub locate : AssetsEnv → String → Assets → Located
unfolding locate_pack
locate env token s =
    if is_empty token then missing 400 "Invalid tokenId" else elim (env.token_brand token) [
      | none ↦ missing 404 "Token not found"
      | some brand ↦ locate_pack brand s
    ]

unfoldable pub render_located :
    AssetsEnv → Bool → String → Located → Assets → Answer Buffer × Assets
unfolding render_pack
render_located env stores token (missing code m) s = (refused code m, s)
render_located env stores token (located brand pack base_key) s =
    render_pack env stores token brand pack base_key s

unfoldable pub render_image : AssetsEnv → Bool → String → Assets → Answer Buffer × Assets
unfolding locate render_located
render_image env stores token s = render_located env stores token (locate env token s) s
