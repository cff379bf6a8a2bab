-- ===== src/Ledger/Tests.antt =====
-- Runs of the ledger transactions, and their theorems at concrete inputs.
use dynamic_nft_krnl.Base.{◌≡◌, refl}
use dynamic_nft_krnl.Base.Int.{pos, ◌+ℤ◌, ◌-ℤ◌}
use dynamic_nft_krnl.Js.{int}
use dynamic_nft_krnl.Economy.{calculate_xp_available}
use dynamic_nft_krnl.Store.{Ledgers}
use dynamic_nft_krnl.Ledger.{charge, purchase, bought, aborted}
use dynamic_nft_krnl.Fixtures.{two_keys}

-- The ledgers after two keys were bought for 600.
abbrev after : Ledgers
unfolding purchase two_keys
after = elim (purchase "acme" "0xa" (pos 2) (int (pos 600)) two_keys) [
  | bought xp keys l ↦ l
  | aborted e ↦ two_keys
]

buys : purchase "acme" "0xa" (pos 2) (int (pos 600)) two_keys ≡ bought (int (pos 200)) (pos 4) after
unfolding purchase after two_keys ◌+ℤ◌ ◌-ℤ◌ calculate_xp_available charge
buys = refl
