-- ===== src/Ledger/Closed.antt =====
-- Properties of the ledgers that every operation on them keeps.
use dynamic_nft_krnl.Base.{◌≡◌, refl, ◌∙◌, Option, none, some, String}
use dynamic_nft_krnl.Base.Int.{ℤ, pos, ◌≤ℤ◌}
use dynamic_nft_krnl.Js.{Whole, int}
use dynamic_nft_krnl.Store.{BrandUserLedger, Ledgers}
use dynamic_nft_krnl.Ledger.{
  credit_ledgers, purchase, bought, consume, get_or_create_economy_ledger,
}
use dynamic_nft_krnl.Ledger.Synced.{user_keys}

-- The experience of a legacy row, none as zero.
abbrev pub user_xp : Option BrandUserLedger → ℤ
user_xp none = pos 0
user_xp (some r) = r.total_xp

-- Two states of the ledgers with the same experience and keys.
pub record IsSame (l l' : Ledgers) : Type 0 where
  pub economy : l'.economy ≡ l.economy
  pub xp_ledger : l'.xp_ledger ≡ l.xp_ledger
  pub loot_ledger : l'.loot_ledger ≡ l.loot_ledger
  pub loot_balance : l'.loot_balance ≡ l.loot_balance
  pub user_keys_kept :
      (b w : String) → user_keys (l'.user_ledger b w) ≡ user_keys (l.user_ledger b w)
  pub user_xp_kept : (b w : String) → user_xp (l'.user_ledger b w) ≡ user_xp (l.user_ledger b w)

pub IsSame-refl : (l : Ledgers) → IsSame l l
IsSame-refl l = record {
  economy = refl;
  xp_ledger = refl;
  loot_ledger = refl;
  loot_balance = refl;
  user_keys_kept = λ b w. refl;
  user_xp_kept = λ b w. refl;
}

pub IsSame-trans : (l m n : Ledgers) → IsSame l m → IsSame m n → IsSame l n
IsSame-trans l m n h k = record {
  economy = k.economy ∙ h.economy;
  xp_ledger = k.xp_ledger ∙ h.xp_ledger;
  loot_ledger = k.loot_ledger ∙ h.loot_ledger;
  loot_balance = k.loot_balance ∙ h.loot_balance;
  user_keys_kept = λ b w. k.user_keys_kept b w ∙ h.user_keys_kept b w;
  user_xp_kept = λ b w. k.user_xp_kept b w ∙ h.user_xp_kept b w;
}

pub record IsClosed (inv : Ledgers → Type 0) : Type 0 where
  pub credit :
      (brand wallet : String) (total delta : ℤ) (l : Ledgers)
      → pos 0 ≤ℤ total
      → pos 0 ≤ℤ delta
      → inv l
      → inv (credit_ledgers brand wallet total delta l)
  pub buy :
      (brand wallet : String) (quantity price : ℤ) (l l' : Ledgers) (xp : Whole) (keys : ℤ)
      → pos 1 ≤ℤ quantity
      → pos 1 ≤ℤ price
      → purchase brand wallet quantity (int price) l ≡ bought xp keys l'
      → inv l
      → inv l'
  pub open_one :
      (brand wallet : String) (n keys : ℤ) (l l' : Ledgers)
      → consume brand wallet n l ≡ some (keys, l')
      → inv l
      → inv l'
  pub view :
      (brand wallet : String) (l : Ledgers)
      → inv l
      → inv (get_or_create_economy_ledger brand wallet l).1
  pub same : (l l' : Ledgers) → IsSame l l' → inv l → inv l'
