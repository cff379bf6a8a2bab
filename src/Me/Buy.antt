-- ===== src/Me/Buy.antt =====
-- `handleLootKeysBuy`.
use dynamic_nft_krnl.Base.{Option, none, some, String, if◌then◌else◌}
use dynamic_nft_krnl.Base.Int.{ℤ, pos, max_ℤ}
use dynamic_nft_krnl.Base.Text.{is_empty}
use dynamic_nft_krnl.Js.{int, whole, Value, get, fields_of, nullish, number_of, integer_from}
use dynamic_nft_krnl.Economy.{resolve_default_xp_per_loot_key, calculate_purchase_xp_required}
use dynamic_nft_krnl.Store.{Store, LootboxConfig}
use dynamic_nft_krnl.Mint.{non_empty}
use dynamic_nft_krnl.Ledger.{
  PurchaseResult, insufficient_xp, not_an_integer, bought, aborted, purchase,
}
use dynamic_nft_krnl.Me.{
  MeEnv, Auth, Response, internal_error, brand_id_of, failure, short_of_xp, keys_bought,
}

-- `Math.max(1, lootboxConfig?.xpPerLootKey ?? … ?? resolveDefaultXpPerLootKey())`.
unfoldable pub xp_per_loot_key_of : MeEnv → Option LootboxConfig → ℤ
unfolding resolve_default_xp_per_loot_key
xp_per_loot_key_of env none = max_ℤ (pos 1) (resolve_default_xp_per_loot_key env.runtime env.prices)
xp_per_loot_key_of env (some c) = max_ℤ (pos 1) c.xp_per_loot_key

-- The answer to a transaction; the numbers of 409 travel in the message of an error.
unfoldable pub settle : PurchaseResult → Store → Response × Store
settle (aborted (insufficient_xp current needed)) s = (short_of_xp needed current, s)
settle (aborted not_an_integer) s = (internal_error, s)
settle (bought xp keys l) s = (keys_bought xp keys, record s { ledgers = l })

-- A purchase for a brand that exists.
unfoldable pub buy_keys : MeEnv → String → String → ℤ → Store → Response × Store
unfolding xp_per_loot_key_of calculate_purchase_xp_required purchase settle
buy_keys env brand wallet quantity s =
    let price = xp_per_loot_key_of env (s.lootbox_configs brand) in
    let required = calculate_purchase_xp_required (whole (int quantity)) (whole (int price)) in
    settle (purchase brand wallet quantity required s.ledgers) s

unfoldable pub handle_loot_keys_buy : MeEnv → Option Auth → Value → Store → Response × Store
unfolding brand_id_of buy_keys number_of integer_from nullish get fields_of
handle_loot_keys_buy env none body s = (failure 401 "Unauthorized", s)
handle_loot_keys_buy env (some auth) body s = elim (non_empty auth.wallet_address) [
  | none ↦ (failure 400 "Wallet required", s)
  | some wallet ↦
      let brand = brand_id_of env.runtime body in
      let asked = nullish (get "quantity" (fields_of body)) (get "qty" (fields_of body)) in
      if is_empty brand
      then (failure 400 "brandId required", s)
      else elim (integer_from (pos 1) (number_of env.runtime asked)) [
        | none ↦ (failure 400 "Invalid quantity", s)
        | some quantity ↦ elim (s.brands brand) [
          | none ↦ (failure 404 "Brand not found", s)
          | some _ ↦ buy_keys env brand wallet quantity s
        ]
      ]
]
