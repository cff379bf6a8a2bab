-- ===== src/Ledger/Spending.antt =====
-- What a purchase does to a wallet's experience and keys.
use dynamic_nft_krnl.Base.{◌≡◌, ◌∙◌, false, some, String, arith, same_key_refl}
use dynamic_nft_krnl.Base.Int.{ℤ, pos, ◌+ℤ◌, ◌-ℤ◌, ◌≤ℤ◌}
use dynamic_nft_krnl.Js.{Whole, int, less, minus}
use dynamic_nft_krnl.Economy.{calculate_xp_available}
use dynamic_nft_krnl.Economy.Prices.{available-after_purchase, exact}
use dynamic_nft_krnl.Store.{EconomyLedger, Ledgers}
use dynamic_nft_krnl.Ledger.{
  purchase, charge, bought, current_economy, effective_total, spendable, available_of,
}
use dynamic_nft_krnl.Ledger.Bought.{purchase-eq-bought}
use dynamic_nft_krnl.Ledger.Balance.{IsSolvent}

-- The row that a purchase leaves.
abbrev pub paid : ℤ → ℤ → EconomyLedger → EconomyLedger
paid quantity price r = record {
  zealy_xp_total = effective_total r;
  xp_spent = r.xp_spent +ℤ price;
  loot_keys_balance = r.loot_keys_balance +ℤ quantity;
}

charge_lem :
    (brand wallet : String) (quantity price : ℤ) (r : EconomyLedger) (l l' : Ledgers) (xp : Whole)
    (keys : ℤ)
    → charge brand wallet quantity price r l ≡ bought xp keys l'
    → (l'.economy brand wallet ≡ some (paid quantity price r))
      × (xp ≡ available_of (paid quantity price r))
      × (keys ≡ r.loot_keys_balance +ℤ quantity)
unfolding charge
charge_lem brand wallet quantity price r l l' xp keys e = ground (arith, same_key_refl brand wallet)

effective_pos : (r : EconomyLedger) → pos 1 ≤ℤ effective_total r
effective_pos r = ground arith

covered_lem :
    (total spent price : ℤ)
    → pos 0 ≤ℤ total
    → pos 0 ≤ℤ spent
    → pos 1 ≤ℤ price
    → less (calculate_xp_available (exact total) (exact spent)) (int price) ≡ false
    → spent +ℤ price ≤ℤ total
unfolding calculate_xp_available less ◌+ℤ◌ ◌-ℤ◌
covered_lem total spent price t s p enough = ground arith

-- A purchase that goes through at a positive integer price takes exactly that from the experience
-- that could be spent, reports what is left, and adds the keys to the economy ledger; what was ever
-- spent stays within the total. The row must not be negative.
pub purchase_pays :
    (brand wallet : String) (quantity price : ℤ) (l l' : Ledgers) (xp : Whole) (keys : ℤ)
    → pos 1 ≤ℤ price
    → IsSolvent (l.economy brand wallet)
    → purchase brand wallet quantity (int price) l ≡ bought xp keys l'
    → let r = current_economy (l.economy brand wallet) in
      (xp ≡ minus (spendable r) (int price))
      × (keys ≡ r.loot_keys_balance +ℤ quantity)
      × (l'.economy brand wallet ≡ some (paid quantity price r))
      × (r.xp_spent +ℤ price ≤ℤ effective_total r)
purchase_pays brand wallet quantity price l l' xp keys p s e =
    let r = current_economy (l.economy brand wallet) in
    let (price', same, covered, charged) =
      purchase-eq-bought brand wallet quantity (int price) l xp keys l' e in
    let same_price : price' ≡ price = cc in
    let (row, left, sum) =
      charge_lem brand wallet quantity price r l l' xp keys (rw same_price at charged) in
    let spent : pos 0 ≤ℤ r.xp_spent = ground arith in
    let total : pos 0 ≤ℤ effective_total r = omega (arith, effective_pos r) in
    (
      left
          ∙ available-after_purchase (effective_total r) r.xp_spent price total spent (omega arith)
              covered,
      sum,
      row,
      covered_lem (effective_total r) r.xp_spent price total spent p covered,
    )
