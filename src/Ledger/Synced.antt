-- ===== src/Ledger/Synced.antt =====
-- All ledgers show the same loot keys.
use dynamic_nft_krnl.Base.{◌≡◌, Option, none, some, String, arith, or_else, same_key_lookup}
use dynamic_nft_krnl.Base.Int.{ℤ, pos, ◌-ℤ◌}
use dynamic_nft_krnl.Js.{Whole}
use dynamic_nft_krnl.Store.{EconomyLedger, BrandUserLedger, Ledgers}
use dynamic_nft_krnl.Ledger.{
  credit_ledgers, purchase, charge, consume, get_or_create_economy_ledger, bought, current_economy,
}
use dynamic_nft_krnl.Ledger.Bought.{purchase-eq-bought}

-- The keys that a row shows; a wallet with no row has none.
abbrev pub economy_keys : Option EconomyLedger → ℤ
economy_keys none = pos 0
economy_keys (some r) = r.loot_keys_balance

abbrev pub user_keys : Option BrandUserLedger → ℤ
user_keys none = pos 0
user_keys (some r) = r.loot_keys

-- The three other ledgers show the keys of the economy ledger.
pub record IsSynced (l : Ledgers) (brand wallet : String) : Type 0 where
  pub loot : or_else (l.loot_ledger brand wallet) (pos 0) ≡ economy_keys (l.economy brand wallet)
  pub balance :
      or_else (l.loot_balance brand wallet) (pos 0) ≡ economy_keys (l.economy brand wallet)
  pub user : user_keys (l.user_ledger brand wallet) ≡ economy_keys (l.economy brand wallet)

module _ (l : Ledgers) (b w : String) (s : IsSynced l b w) (brand wallet : String) where
  -- The reward of a webhook keeps every wallet's ledgers in step.
  pub credit-IsSynced : (total delta : ℤ) → IsSynced (credit_ledgers brand wallet total delta l) b w
  unfolding credit_ledgers
  credit-IsSynced total delta = ground arith

  -- So does opening a lootbox.
  pub consume-IsSynced :
      (n keys : ℤ) (l' : Ledgers) → consume brand wallet n l ≡ some (keys, l') → IsSynced l' b w
  unfolding consume ◌-ℤ◌
  consume-IsSynced n keys l' e = ground arith

  -- And so does reading the economy ledger, which may create it.
  pub get_or_create-IsSynced : IsSynced (get_or_create_economy_ledger brand wallet l).1 b w
  unfolding get_or_create_economy_ledger
  get_or_create-IsSynced = ground (arith, same_key_lookup brand wallet b w l.economy)

  charge-IsSynced :
      (quantity price : ℤ) (current : EconomyLedger) (xp : Whole) (keys : ℤ) (l' : Ledgers)
      → charge brand wallet quantity price current l ≡ bought xp keys l'
      → IsSynced l' b w
  unfolding charge
  charge-IsSynced quantity price current xp keys l' e = ground arith

  -- A purchase that goes through keeps every wallet's ledgers in step too.
  pub purchase-IsSynced :
      (quantity : ℤ) (required xp : Whole) (keys : ℤ) (l' : Ledgers)
      → purchase brand wallet quantity required l ≡ bought xp keys l'
      → IsSynced l' b w
  purchase-IsSynced quantity required xp keys l' e =
      let (price, _, _, charged) =
        purchase-eq-bought brand wallet quantity required l xp keys l' e in
      charge-IsSynced quantity price (current_economy (l.economy brand wallet)) xp keys l' charged
