-- ===== src/Economy/Prices.antt =====
-- Prices of loot keys and the experience left to spend.
use dynamic_nft_krnl.Base.{◌≡◌, refl, false, arith}
use dynamic_nft_krnl.Base.Int.{ℤ, pos, ◌+ℤ◌, ◌-ℤ◌, ◌*ℤ◌, ◌≤ℤ◌, max_ℤ}
use dynamic_nft_krnl.Js.{int, Number, whole, minus, less}
use dynamic_nft_krnl.Economy.{calculate_purchase_xp_required, calculate_xp_available}

abbrev pub exact : ℤ → Number
exact n = whole (int n)

pub required_exact :
    (quantity price : ℤ)
    → calculate_purchase_xp_required (exact quantity) (exact price)
      ≡ int (max_ℤ (pos 0) quantity *ℤ max_ℤ (pos 1) price)
unfolding calculate_purchase_xp_required
required_exact quantity price = refl

-- A purchase that is not refused takes its price, and nothing else, from the experience that is
-- available: for a balance with nothing negative and a price that is no more than it.
pub available-after_purchase :
    (total spent price : ℤ)
    → pos 0 ≤ℤ total
    → pos 0 ≤ℤ spent
    → pos 0 ≤ℤ price
    → less (calculate_xp_available (exact total) (exact spent)) (int price) ≡ false
    → calculate_xp_available (exact total) (exact (spent +ℤ price))
      ≡ minus (calculate_xp_available (exact total) (exact spent)) (int price)
unfolding calculate_xp_available less minus ◌+ℤ◌ ◌-ℤ◌
available-after_purchase total spent price t s p enough = ground arith
