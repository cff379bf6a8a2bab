-- ===== src/Ledger.antt =====
-- The transactions on a wallet's ledgers: the reward of a webhook (apps/api/src/routes/zealy.ts),
-- the purchase of loot keys and the opening of a lootbox (apps/api/src/routes/me.ts).
pub mod Bought
pub mod Synced
pub mod Closed
pub mod Credited
pub mod Balance
pub mod Spending
mod Tests
use dynamic_nft_krnl.Base.{
  Bool, true, false, Option, none, some, String, List, [], ◌∷◌, if◌then◌else◌, Table, put, upsert,
}
use dynamic_nft_krnl.Base.Int.{ℤ, pos, ◌+ℤ◌, ◌-ℤ◌, ltb_ℤ, max_ℤ}
use dynamic_nft_krnl.Js.{Whole, nan, pos_inf, neg_inf, int, Number, whole, less}
use dynamic_nft_krnl.Economy.{calculate_xp_available}
use dynamic_nft_krnl.Store.{EconomyLedger, BrandUserLedger, Ledgers}

abbrev pub demo_default_xp : ℤ
demo_default_xp = pos 10000

-- Writes the loot-key balance to the two ledgers that hold nothing else.
unfoldable pub mirror_keys : String → String → ℤ → Ledgers → Ledgers
unfolding put upsert
mirror_keys brand wallet keys l = record l {
  loot_ledger = upsert brand wallet (λ _. keys) keys l.loot_ledger;
  loot_balance = upsert brand wallet (λ _. keys) keys l.loot_balance;
}

-- The `brandUserLedger.upsert` of experience and keys.
unfoldable pub mirror_user : String → String → ℤ → ℤ → Ledgers → Ledgers
unfolding put upsert
mirror_user brand wallet xp keys l = record l {
  user_ledger =
      upsert brand wallet (λ r. record r { total_xp = xp; loot_keys = keys })
        (record { token_id = none; total_xp = xp; loot_keys = keys }) l.user_ledger;
}

-- The row that the webhook's transaction leaves in the economy ledger.
unfoldable pub credited : ℤ → ℤ → Option EconomyLedger → EconomyLedger
credited total delta none = record {
  zealy_xp_total = total;
  xp_spent = pos 0;
  loot_keys_balance = delta;
}
credited total delta (some r) = record r {
  zealy_xp_total = total;
  loot_keys_balance = r.loot_keys_balance +ℤ delta;
}

-- The ledger writes of `applyWebhookReward`.
unfoldable pub credit_ledgers : String → String → ℤ → ℤ → Ledgers → Ledgers
unfolding put upsert credited mirror_keys mirror_user
credit_ledgers brand wallet total delta l =
    let next = credited total delta (l.economy brand wallet) in
    mirror_user brand wallet total next.loot_keys_balance (
      mirror_keys brand wallet next.loot_keys_balance (record l {
        economy = put brand wallet next l.economy;
        xp_ledger = upsert brand wallet (λ _. total) total l.xp_ledger;
      }))

abbrev pub fresh_economy : EconomyLedger
fresh_economy = record {
  zealy_xp_total = demo_default_xp;
  xp_spent = pos 0;
  loot_keys_balance = pos 0;
}

-- `upsert` with an empty update: the row that is there, or a fresh one.
abbrev pub current_economy : Option EconomyLedger → EconomyLedger
current_economy none = fresh_economy
current_economy (some r) = r

abbrev pub effective_total : EconomyLedger → ℤ
effective_total r = if ltb_ℤ (pos 0) r.zealy_xp_total then r.zealy_xp_total else demo_default_xp

-- The integer that a column can hold; any other number makes the database client throw.
abbrev pub column : Whole → Option ℤ
column nan = none
column pos_inf = none
column neg_inf = none
column (int n) = some n

pub data PurchaseError : Type 0 where
  insufficient_xp : Whole → Whole → PurchaseError
  not_an_integer : PurchaseError

pub data PurchaseResult : Type 0 where
  bought : Whole → ℤ → Ledgers → PurchaseResult
  aborted : PurchaseError → PurchaseResult

abbrev pub available_of : EconomyLedger → Whole
available_of r = calculate_xp_available (whole (int r.zealy_xp_total)) (whole (int r.xp_spent))

-- `currentAvailableXp`.
abbrev pub spendable : EconomyLedger → Whole
spendable r = available_of (record r { zealy_xp_total = effective_total r })

-- The writes of a purchase that can be paid.
unfoldable pub charge : String → String → ℤ → ℤ → EconomyLedger → Ledgers → PurchaseResult
unfolding put mirror_keys mirror_user
charge brand wallet quantity price current l =
    let next : EconomyLedger = record {
      zealy_xp_total = effective_total current;
      xp_spent = current.xp_spent +ℤ price;
      loot_keys_balance = current.loot_keys_balance +ℤ quantity;
    } in
    let remaining = available_of next in
    elim (column remaining) [
      | none ↦ aborted not_an_integer
      | some xp ↦ bought remaining next.loot_keys_balance (
          mirror_user brand wallet xp next.loot_keys_balance (
            mirror_keys brand wallet next.loot_keys_balance
              (record l { economy = put brand wallet next l.economy })))
    ]

-- The transaction of `handleLootKeysBuy`; an exception rolls it back.
unfoldable pub purchase : String → String → ℤ → Whole → Ledgers → PurchaseResult
unfolding less
purchase brand wallet quantity required l =
    let current = current_economy (l.economy brand wallet) in
    let available = spendable current in
    if less available required
    then aborted (insufficient_xp available required)
    else elim (column required) [
      | none ↦ aborted not_an_integer
      | some price ↦ charge brand wallet quantity price current l
    ]

-- The `brandUserLedger.upsert` of the keys alone.
unfoldable pub mirror_user_keys : String → String → ℤ → Ledgers → Ledgers
unfolding put upsert
mirror_user_keys brand wallet keys l = record l {
  user_ledger =
      upsert brand wallet (λ r. record r { loot_keys = keys })
        (record { token_id = none; total_xp = pos 0; loot_keys = keys }) l.user_ledger;
}

-- The ledger writes of `/me/open-lootbox`, with the new balance; `none` where the conditional
-- update of the economy ledger hits no row.
unfoldable pub consume : String → String → ℤ → Ledgers → Option (ℤ × Ledgers)
unfolding put mirror_keys mirror_user_keys
consume brand wallet keys_per_open l = elim (l.economy brand wallet) [
  | none ↦ none
  | some r ↦
      if ltb_ℤ r.loot_keys_balance keys_per_open
      then none
      else let left = r.loot_keys_balance -ℤ keys_per_open in
        let balance = max_ℤ (pos 0) left in
        some (
          balance,
          mirror_user_keys brand wallet balance (
              mirror_keys brand wallet balance (record l {
                economy = put brand wallet (record r { loot_keys_balance = left }) l.economy;
              })),
        )
]

-- `getOrCreateEconomyLedger` of me.ts.
unfoldable pub get_or_create_economy_ledger : String → String → Ledgers → EconomyLedger × Ledgers
unfolding put
get_or_create_economy_ledger brand wallet l = elim (l.economy brand wallet) [
  | none ↦ (fresh_economy, record l { economy = put brand wallet fresh_economy l.economy })
  | some r ↦
      if ltb_ℤ (pos 0) r.zealy_xp_total
      then (r, l)
      else let r' = record r { zealy_xp_total = demo_default_xp } in
        (r', record l { economy = put brand wallet r' l.economy })
]
