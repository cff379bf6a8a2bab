-- ===== src/Mint/Tests.antt =====
-- Minting once, at a wallet without a token.
use dynamic_nft_krnl.Base.{◌≡◌, refl, true, is_some}
use dynamic_nft_krnl.Mint.{ensure_base_nft_minted}
use dynamic_nft_krnl.Mint.Once.{ensure_once}
use dynamic_nft_krnl.Fixtures.{shop, mint_env, two_keys}

submits : is_some (ensure_base_nft_minted mint_env "acme" "0xb" shop).0 ≡ true
unfolding ensure_base_nft_minted two_keys
submits = refl

ensure_once_example :
    let t = (ensure_base_nft_minted mint_env "acme" "0xb" shop).1 in
    (is_some (ensure_base_nft_minted mint_env "acme" "0xb" t).0 ≡ true)
    × ((ensure_base_nft_minted mint_env "acme" "0xb" t).1.runs ≡ t.runs)
ensure_once_example =
    ensure_once mint_env mint_env "acme" "0xb" shop
      (ensure_base_nft_minted mint_env "acme" "0xb" shop).1 refl submits refl refl
