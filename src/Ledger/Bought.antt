-- ===== src/Ledger/Bought.antt =====
-- What a purchase that went through has passed.
use dynamic_nft_krnl.Base.{◌≡◌, false, some, String, Option-cases, Bool-cases, inl, inr}
use dynamic_nft_krnl.Base.Int.{ℤ}
use dynamic_nft_krnl.Js.{Whole, nan, pos_inf, neg_inf, int, less}
use dynamic_nft_krnl.Store.{Ledgers}
use dynamic_nft_krnl.Ledger.{
  purchase, charge, column, current_economy, spendable, PurchaseError, bought, aborted,
}

pub column_lem : (x : Whole) (n : ℤ) → column x ≡ some n → x ≡ int n
column_lem nan n e = cc
column_lem pos_inf n e = cc
column_lem neg_inf n e = cc
column_lem (int m) n e = cc

aborted-ne-bought :
    (err : PurchaseError) (xp : Whole) (keys : ℤ) (l : Ledgers) → aborted err ≡ bought xp keys l → ⊥
aborted-ne-bought err xp keys l e = cc

-- The price was an integer and covered by the experience available, and the purchase was charged.
pub purchase-eq-bought :
    (brand wallet : String) (quantity : ℤ) (required : Whole) (l : Ledgers) (xp : Whole) (keys : ℤ)
    (l' : Ledgers)
    → purchase brand wallet quantity required l ≡ bought xp keys l'
    → let current = current_economy (l.economy brand wallet) in
      (price : ℤ) × (required ≡ int price)
      × (less (spendable current) required ≡ false)
      × (charge brand wallet quantity price current l ≡ bought xp keys l')
unfolding purchase
purchase-eq-bought brand wallet quantity required l xp keys l' e =
    let current = current_economy (l.economy brand wallet) in
    elim (Bool-cases (less (spendable current) required)) [
      | inl short ↦ absurd (aborted-ne-bought _ xp keys l' (rw (short, purchase) at e))
      | inr covered ↦ elim (Option-cases (column required)) [
        | inl odd ↦ absurd (aborted-ne-bought _ xp keys l' (rw (covered, odd, purchase) at e))
        | inr (price, exact) ↦
            (price, column_lem required price exact, covered, rw (covered, exact, purchase) at e)
      ]
    ]
