-- ===== src/Me/Purchase.antt =====
-- What a request to buy loot keys does.
use dynamic_nft_krnl.Base.{
  zero, suc, if◌then◌else◌, ◌≡◌, refl, sym, ap, ◌⊎◌, inl, inr, Option, none, some, String, arith,
}
use dynamic_nft_krnl.Base.Int.{ℤ, pos, negsuc, ◌≤ℤ◌, ◌+ℤ◌, ◌-ℤ◌, ltb_ℤ, ◌*ℤ◌, max_ℤ}
use dynamic_nft_krnl.Js.{Whole, int, minus}
use dynamic_nft_krnl.Economy.{
  calculate_purchase_xp_required, calculate_xp_available, resolve_default_xp_per_loot_key,
}
use dynamic_nft_krnl.Economy.Prices.{exact, required_exact}
use dynamic_nft_krnl.Store.{Store, EconomyLedger, Ledgers, LootboxConfig}
use dynamic_nft_krnl.Ledger.{
  PurchaseResult, bought, aborted, insufficient_xp, not_an_integer, purchase, current_economy,
  effective_total,
}
use dynamic_nft_krnl.Ledger.Credited.{held}
use dynamic_nft_krnl.Ledger.Balance.{IsSolvent}
use dynamic_nft_krnl.Ledger.Spending.{purchase_pays}
use dynamic_nft_krnl.Me.{MeEnv, Response, internal_error, short_of_xp, keys_bought}
use dynamic_nft_krnl.Me.Buy.{xp_per_loot_key_of, settle, buy_keys}

price_pos : (env : MeEnv) (c : Option LootboxConfig) → pos 1 ≤ℤ xp_per_loot_key_of env c
unfolding xp_per_loot_key_of
price_pos env none = ground arith
price_pos env (some c) = ground arith

times_pos : (q p : ℤ) → pos 1 ≤ℤ q → pos 1 ≤ℤ p → pos 1 ≤ℤ q *ℤ p
unfolding ◌*ℤ◌
times_pos (negsuc a) p hq hp = absurd (omega arith)
times_pos (pos a) (negsuc b) hq hp = absurd (omega arith)
times_pos (pos zero) (pos b) hq hp = absurd (omega arith)
times_pos (pos (suc a)) (pos zero) hq hp = absurd (omega arith)
times_pos (pos (suc a)) (pos (suc b)) hq hp = ground arith

max_lem : (low n : ℤ) → low ≤ℤ n → max_ℤ low n ≡ n
max_lem low n h = ground arith

required_lem :
    (q p : ℤ)
    → pos 1 ≤ℤ q
    → pos 1 ≤ℤ p
    → calculate_purchase_xp_required (exact q) (exact p) ≡ int (q *ℤ p)
required_lem q p hq hp =
    rw (required_exact q p, max_lem (pos 0) q (omega arith), max_lem (pos 1) p hp) refl

-- The experience that a purchase of `quantity` keys costs.
abbrev pub cost : MeEnv → String → ℤ → Store → ℤ
unfolding xp_per_loot_key_of
cost env brand quantity s = quantity *ℤ xp_per_loot_key_of env (s.lootbox_configs brand)

pub cost_pos :
    (env : MeEnv) (brand : String) (quantity : ℤ) (s : Store)
    → pos 1 ≤ℤ quantity
    → pos 1 ≤ℤ cost env brand quantity s
unfolding cost
cost_pos env brand quantity s q = times_pos quantity _ q (price_pos env (s.lootbox_configs brand))

pub required_cost :
    (env : MeEnv) (brand : String) (quantity : ℤ) (s : Store)
    → pos 1 ≤ℤ quantity
    → calculate_purchase_xp_required
        (exact quantity)
        (exact (xp_per_loot_key_of env (s.lootbox_configs brand)))
      ≡ int (cost env brand quantity s)
unfolding cost
required_cost env brand quantity s q =
    required_lem quantity _ q (price_pos env (s.lootbox_configs brand))

-- The experience that a wallet is counted to have earned: 10000 where it has none.
abbrev pub earned_of : Option EconomyLedger → ℤ
earned_of none = pos 10000
earned_of (some r) = if ltb_ℤ (pos 0) r.zealy_xp_total then r.zealy_xp_total else pos 10000

-- The price of a key: the brand's, or else the default one, and one at least.
abbrev pub price_in : MeEnv → Option LootboxConfig → ℤ
price_in env none = max_ℤ (pos 1) (resolve_default_xp_per_loot_key env.runtime env.prices)
price_in env (some c) = max_ℤ (pos 1) c.xp_per_loot_key

earned_lem : (o : Option EconomyLedger) → effective_total (current_economy o) ≡ earned_of o
earned_lem none = refl
earned_lem (some r) = refl

spent_lem : (o : Option EconomyLedger) → (current_economy o).xp_spent ≡ held (λ r. r.xp_spent) o
spent_lem none = refl
spent_lem (some r) = refl

balance_lem :
    (o : Option EconomyLedger)
    → (current_economy o).loot_keys_balance ≡ held (λ r. r.loot_keys_balance) o
balance_lem none = refl
balance_lem (some r) = refl

price_lem : (env : MeEnv) (c : Option LootboxConfig) → xp_per_loot_key_of env c ≡ price_in env c
unfolding xp_per_loot_key_of
price_lem env none = refl
price_lem env (some c) = refl

remaining_lem :
    (xp : Whole) (total spent price : ℤ)
    → spent +ℤ price ≤ℤ total
    → pos 1 ≤ℤ price
    → pos 0 ≤ℤ spent
    → xp ≡ minus (calculate_xp_available (exact total) (exact spent)) (int price)
    → xp ≡ int (total -ℤ spent -ℤ price)
unfolding calculate_xp_available ◌+ℤ◌ ◌-ℤ◌ minus
remaining_lem xp total spent price covered p z e = ground arith

-- What was paid, from the wallet's row and the price before.
abbrev IsCharged : ℤ → ℤ → Option EconomyLedger → Response → Option EconomyLedger → Type 0
IsCharged quantity price o answer after =
    let spent = held (λ r. r.xp_spent) o in
    let keys = held (λ r. r.loot_keys_balance) o in
    let cost = quantity *ℤ price in
    (spent +ℤ cost ≤ℤ earned_of o)
    × (answer ≡ keys_bought (int (earned_of o -ℤ spent -ℤ cost)) (keys +ℤ quantity))
    × (after
        ≡ some (record {
          zealy_xp_total = earned_of o;
          xp_spent = spent +ℤ cost;
          loot_keys_balance = keys +ℤ quantity;
        }))

-- The keys were paid for.
abbrev pub IsPaid : MeEnv → String → String → ℤ → Store → Response × Store → Type 0
IsPaid env brand wallet quantity s out =
    IsCharged quantity (price_in env (s.lootbox_configs brand)) (s.economy brand wallet) out.0
      (out.1.economy brand wallet)

solvent_spent : (o : Option EconomyLedger) → IsSolvent o → pos 0 ≤ℤ (current_economy o).xp_spent
solvent_spent o h = ground arith

bought_lem :
    (env : MeEnv) (brand wallet : String) (quantity : ℤ) (s : Store) (xp : Whole) (keys : ℤ)
    (l : Ledgers)
    → pos 1 ≤ℤ quantity
    → IsSolvent (s.economy brand wallet)
    → purchase brand wallet quantity (int (cost env brand quantity s)) s.ledgers ≡ bought xp keys l
    → IsPaid env brand wallet quantity s (keys_bought xp keys, record s { ledgers = l })
unfolding cost
bought_lem env brand wallet quantity s xp keys l q solvent e =
    let o = s.economy brand wallet in
    let p = cost_pos env brand quantity s q in
    let (remaining, added, row, covered) =
      purchase_pays brand wallet quantity (cost env brand quantity s) s.ledgers l xp keys p solvent
        e in
    rw
      (
        sym (earned_lem o),
        sym (spent_lem o),
        sym (balance_lem o),
        sym (price_lem env (s.lootbox_configs brand)),
      )
      (
        covered,
        rw
            (
              remaining_lem xp (effective_total (current_economy o)) ((current_economy o).xp_spent)
                  (cost env brand quantity s) covered p (solvent_spent o solvent) remaining,
              added,
            )
            refl,
        row,
      )

-- Nothing is changed and an error answered, or the keys are paid for.
abbrev pub IsPurchase : MeEnv → String → String → ℤ → Store → Response × Store → Type 0
IsPurchase env brand wallet quantity s out =
    ((out.1 ≡ s) × (((r a : Whole) × (out.0 ≡ short_of_xp r a)) ⊎ (out.0 ≡ internal_error)))
    ⊎ IsPaid env brand wallet quantity s out

settle_lem :
    (env : MeEnv) (brand wallet : String) (quantity : ℤ) (s : Store) (r : PurchaseResult)
    → pos 1 ≤ℤ quantity
    → IsSolvent (s.economy brand wallet)
    → purchase brand wallet quantity (int (cost env brand quantity s)) s.ledgers ≡ r
    → IsPurchase env brand wallet quantity s (settle r s)
unfolding settle
settle_lem env brand wallet quantity s (bought xp keys l) q solvent e =
    inr (bought_lem env brand wallet quantity s xp keys l q solvent e)
settle_lem env brand wallet quantity s (aborted (insufficient_xp a r)) q solvent e =
    inl (refl, inl (r, a, refl))
settle_lem env brand wallet quantity s (aborted not_an_integer) q solvent e = inl (refl, inr refl)

-- A request for a positive quantity either changes nothing and is answered by an error, or it adds
-- the quantity times the price of the brand's lootbox, one or the default where that is less or
-- missing, to what the wallet spent, and the quantity to its keys; the experience that the wallet
-- earned covers this, and the answer and the row show the rest and the keys. A wallet that earned
-- none is counted and stored as one that earned 10000, also outside of the demo mode. The wallet's
-- row must not be negative before.
pub buy_outcome :
    (env : MeEnv) (brand wallet : String) (quantity : ℤ) (s : Store)
    → pos 1 ≤ℤ quantity
    → IsSolvent (s.economy brand wallet)
    → IsPurchase env brand wallet quantity s (buy_keys env brand wallet quantity s)
unfolding buy_keys cost
buy_outcome env brand wallet quantity s q solvent =
    let c = s.lootbox_configs brand in
    settle_lem env brand wallet quantity s _ q solvent (
      ap (λ p. purchase brand wallet quantity p s.ledgers)
        (sym (required_lem quantity (xp_per_loot_key_of env c) q (price_pos env c))))
