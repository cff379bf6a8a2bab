-- ===== src/Assets/Again.antt =====
-- Drawing a token again.
use dynamic_nft_krnl.Base.{
  ◌≡◌, refl, Bool, true, false, Option, none, some, String, Option-cases, inl, inr,
}
use dynamic_nft_krnl.Brands.{Answer, refused, saved}
use dynamic_nft_krnl.Assets.{Buffer, Assets, AssetsEnv}
use dynamic_nft_krnl.Assets.Upload.{put_object}
use dynamic_nft_krnl.Assets.Render.{
  Located, missing, located, locate, render_located, render_pack, render_image, draw_and_keep,
  cache_key, trait_pairs,
}
use dynamic_nft_krnl.Assets.Kept.{set_at_self}

-- What was refused changed nothing; what was drawn is answered again from the state it left, whether
-- the object store takes new objects then or not, and nothing changes.
abbrev pub IsDrawn : AssetsEnv → String → Assets → Answer Buffer × Assets → Type 0
IsDrawn env token s (refused code m, s') = s' ≡ s
IsDrawn env token s (saved image, s') =
    (stores : Bool) → render_image env stores token s' ≡ (saved image, s')

-- The same, of what is drawn for a place that is found alike in both states.
abbrev IsKept : AssetsEnv → String → Located → Assets → Answer Buffer × Assets → Type 0
IsKept env token at s (refused code m, s') = s' ≡ s
IsKept env token at s (saved image, s') =
    (locate env token s' ≡ locate env token s)
    × ((stores : Bool) → render_located env stores token at s' ≡ (saved image, s'))

module _ (env : AssetsEnv) (token brand pack base_key : String) (s : Assets) where
  key : String
  key = cache_key env token base_key (trait_pairs env brand token)

  cached_again :
      (image : Buffer) (s' : Assets)
      → s'.bucket key ≡ some image
      → (stores : Bool) → render_pack env stores token brand pack base_key s' ≡ (saved image, s')
  unfolding render_pack key
  cached_again image s' there stores = rw (there, render_pack) refl

  draw_and_keep-IsKept :
      (stores : Bool) (image : Option Buffer)
      → IsKept env token (located brand pack base_key) s (draw_and_keep stores key image s)
  unfolding draw_and_keep render_located put_object locate
  draw_and_keep-IsKept true (some image) =
      (refl, cached_again image (put_object key image s) (set_at_self key image s.bucket))
  draw_and_keep-IsKept true none = refl
  draw_and_keep-IsKept false image = refl

  render_pack-IsKept :
      (stores : Bool)
      → IsKept env token
          (located brand pack base_key)
          s
          (render_pack env stores token brand pack base_key s)
  unfolding render_pack render_located key
  render_pack-IsKept stores = elim (Option-cases (s.bucket key)) [
    | inr (cached, there) ↦ rw (there, render_pack, IsKept) (refl, cached_again cached s there)
    | inl fresh ↦ rw (fresh, render_pack) (draw_and_keep-IsKept stores _)
  ]

render_located-IsKept :
    (env : AssetsEnv) (stores : Bool) (token : String) (at : Located) (s : Assets)
    → IsKept env token at s (render_located env stores token at s)
unfolding render_located
render_located-IsKept env stores token (missing code m) s = refl
render_located-IsKept env stores token (located brand pack base_key) s =
    render_pack-IsKept env token brand pack base_key s stores

IsKept-IsDrawn :
    (env : AssetsEnv) (token : String) (s : Assets) (r : Answer Buffer × Assets)
    → IsKept env token (locate env token s) s r
    → IsDrawn env token s r
unfolding render_image
IsKept-IsDrawn env token s (refused code m, s') h = h
IsKept-IsDrawn env token s (saved image, s') (alike, again) = λ stores. rw alike (again stores)

-- A request for the image of a token that is refused changes nothing. After one that is answered
-- with an image the same request is answered with the same image, whether the object store takes
-- new objects then or not, and it changes nothing. Reads of the object store do not fail but for
-- objects that are missing.
pub render_image-IsDrawn :
    (env : AssetsEnv) (stores : Bool) (token : String) (s : Assets)
    → IsDrawn env token s (render_image env stores token s)
unfolding render_image
render_image-IsDrawn env stores token s =
    IsKept-IsDrawn env token s _ (render_located-IsKept env stores token (locate env token s) s)
