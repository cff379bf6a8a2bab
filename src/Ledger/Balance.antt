-- ===== src/Ledger/Balance.antt =====
-- No ledger row goes below zero.
use dynamic_nft_krnl.Base.{◌≡◌, Option, none, some, String, arith}
use dynamic_nft_krnl.Base.Int.{ℤ, pos, ◌+ℤ◌, ◌-ℤ◌, ◌≤ℤ◌}
use dynamic_nft_krnl.Js.{Whole, int}
use dynamic_nft_krnl.Store.{EconomyLedger, Ledgers}
use dynamic_nft_krnl.Ledger.{
  credit_ledgers, purchase, charge, consume, get_or_create_economy_ledger, bought, current_economy,
}
use dynamic_nft_krnl.Ledger.Bought.{purchase-eq-bought}

-- Keys, experience and spent experience of a row are not negative; a missing row has none.
abbrev pub IsSolvent : Option EconomyLedger → Type 0
IsSolvent none = Unit {0}
IsSolvent (some r) =
    (pos 0 ≤ℤ r.zealy_xp_total) × (pos 0 ≤ℤ r.xp_spent) × (pos 0 ≤ℤ r.loot_keys_balance)

module _ (l : Ledgers) (b w : String) (s : IsSolvent (l.economy b w)) (brand wallet : String)
    (here : IsSolvent (l.economy brand wallet)) where
  pub credit-IsSolvent :
      (total delta : ℤ)
      → pos 0 ≤ℤ total
      → pos 0 ≤ℤ delta
      → IsSolvent ((credit_ledgers brand wallet total delta l).economy b w)
  unfolding credit_ledgers ◌+ℤ◌
  credit-IsSolvent total delta t d = ground arith

  pub consume-IsSolvent :
      (n keys : ℤ) (l' : Ledgers)
      → consume brand wallet n l ≡ some (keys, l')
      → IsSolvent (l'.economy b w)
  unfolding consume ◌-ℤ◌
  consume-IsSolvent n keys l' e = ground arith

  pub get_or_create-IsSolvent :
      IsSolvent ((get_or_create_economy_ledger brand wallet l).1.economy b w)
  unfolding get_or_create_economy_ledger
  get_or_create-IsSolvent = ground arith

  charge-IsSolvent :
      (quantity price : ℤ) (xp : Whole) (keys : ℤ) (l' : Ledgers)
      → pos 0 ≤ℤ quantity
      → pos 0 ≤ℤ price
      → charge brand wallet quantity price (current_economy (l.economy brand wallet)) l
        ≡ bought xp keys l'
      → IsSolvent (l'.economy b w)
  unfolding charge ◌+ℤ◌
  charge-IsSolvent quantity price xp keys l' q p e = ground arith

  pub purchase-IsSolvent :
      (quantity price : ℤ) (xp : Whole) (keys : ℤ) (l' : Ledgers)
      → pos 0 ≤ℤ quantity
      → pos 0 ≤ℤ price
      → purchase brand wallet quantity (int price) l ≡ bought xp keys l'
      → IsSolvent (l'.economy b w)
  purchase-IsSolvent quantity price xp keys l' q p e =
      let (price', same, _, charged) =
        purchase-eq-bought brand wallet quantity (int price) l xp keys l' e in
      charge-IsSolvent quantity price' xp keys l' q (ground arith) charged
