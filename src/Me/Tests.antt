-- ===== src/Me/Tests.antt =====
-- Runs of the two handlers, and their theorems at concrete inputs.
use dynamic_nft_krnl.Base.{
  false, ℕ, ◌<◌, ◌≤◌, ◌≡◌, refl, none, some, String, [], ◌∷◌, All, arith, true,
}
use dynamic_nft_krnl.Base.Int.{pos, ◌+ℤ◌, ◌-ℤ◌, ◌*ℤ◌}
use dynamic_nft_krnl.Js.{Value, whole, int, num, str, obj, field, end}
use dynamic_nft_krnl.Lootbox.{LootTableEntry, random_steps}
use dynamic_nft_krnl.Store.{Store}
use dynamic_nft_krnl.Ledger.{charge}
use dynamic_nft_krnl.Economy.{calculate_xp_available}
use dynamic_nft_krnl.Me.{MeEnv, keys_bought, Auth}
use dynamic_nft_krnl.Me.Buy.{buy_keys, handle_loot_keys_buy}
use dynamic_nft_krnl.Me.Open.{handle_open_lootbox, open_for_wallet, unlock}
use dynamic_nft_krnl.Me.Opened.{IsOpening, open_outcome}
use dynamic_nft_krnl.Me.Outcomes.{is_opened}
use dynamic_nft_krnl.Me.Purchase.{IsPurchase, buy_outcome}
use dynamic_nft_krnl.Me.Traits.{times_owned, unlock_owned}
use text.Mathlib.TextEquality.{eq_iff}
use dynamic_nft_krnl.Me.Activate.{active_traits, activate_for_wallet}
use dynamic_nft_krnl.Me.Active.{IsSingle, activate_for_wallet-IsSingle}
use dynamic_nft_krnl.Fixtures.{me_env, shop, one_half, two_keys}

abbrev session : Auth
session = record { privy_user_id = "did:1"; wallet_address = some "0xa" }

abbrev buy_two : Value
buy_two = obj (field "brandId" (str " acme") (field "qty" (num (whole (int (pos 2)))) end))

buys :
    (handle_loot_keys_buy me_env (some session) buy_two shop).0
    ≡ keys_bought (int (pos 600)) (pos 4)
unfolding handle_loot_keys_buy two_keys ◌+ℤ◌ ◌-ℤ◌ ◌*ℤ◌ calculate_xp_available charge
buys = refl

opens : is_opened (handle_open_lootbox me_env (some session) buy_two shop).0 ≡ true
unfolding handle_open_lootbox two_keys
opens = refl

abbrev gold : LootTableEntry
gold = record { trait_name = "hat"; trait_value = "gold"; weight = 3 }

-- The state after the keys for one opening were spent.
abbrev after : Store
unfolding unlock two_keys
after = elim (unlock "acme" "0xa" (pos 1) (gold ∷ []) shop) [ none ↦ shop | some p ↦ p.1 ]

unlocks : unlock "acme" "0xa" (pos 1) (gold ∷ []) shop ≡ some (pos 1, after)
unfolding unlock after two_keys ◌-ℤ◌
unlocks = refl

in_range : (i : ℕ) → one_half i < random_steps
in_range i = omega arith

open_outcome_example : IsOpening me_env "acme" "0xa" shop (open_for_wallet me_env "acme" "0xa" shop)
open_outcome_example = open_outcome me_env "acme" "0xa" shop in_range

buy_outcome_example :
    IsPurchase me_env "acme" "0xa" (pos 2) shop (buy_keys me_env "acme" "0xa" (pos 2) shop)
unfolding two_keys
buy_outcome_example =
    buy_outcome me_env "acme" "0xa" (pos 2) shop (omega arith)
      (omega arith, omega arith, omega arith)

unlock_owned_example :
    All (λ e. 1 ≤ times_owned "acme" "0xa" e after.user_traits) (gold ∷ [])
    × ((f : LootTableEntry) (b w : String)
        → (times_owned b w f shop.user_traits ≤ times_owned b w f after.user_traits)
          × (times_owned b w f shop.user_traits ≤ 1 → times_owned b w f after.user_traits ≤ 1))
unlock_owned_example = unlock_owned "acme" "0xa" (pos 1) (pos 1) (gold ∷ []) shop after unlocks

-- A wallet with two hats, one of them active, in the demo.
abbrev hats : Store
hats = record shop {
  unlocked_traits =
      record {
        brand_id = "acme";
        wallet = "0xa";
        trait_key = "hat";
        trait_value = "gold";
        is_active = true;
      }
      ∷ record {
        brand_id = "acme";
        wallet = "0xa";
        trait_key = "hat";
        trait_value = "grey";
        is_active = false;
      }
      ∷ [];
}

abbrev demo_env : MeEnv
demo_env = record me_env { mint = record (me_env.mint) { demo_mode = true } }

abbrev grey_hat : Value
grey_hat = obj (field "traitName" (str "hat") (field "traitValue" (str " grey") end))

switches :
    active_traits "acme" "0xa"
      (activate_for_wallet demo_env "acme" "0xa" (grey_hat ∷ grey_hat ∷ []) hats).1.unlocked_traits
    ≡ ("hat", "grey") ∷ []
unfolding activate_for_wallet active_traits two_keys
switches = refl

one_hat : IsSingle hats.unlocked_traits
one_hat b w k v v' p q = ground (arith, eq_iff "gold" v, eq_iff "gold" v')

activate_for_wallet-IsSingle_example :
    IsSingle (activate_for_wallet demo_env "acme" "0xa" (grey_hat ∷ []) hats).1.unlocked_traits
activate_for_wallet-IsSingle_example =
    activate_for_wallet-IsSingle demo_env "acme" "0xa" (grey_hat ∷ []) hats one_hat
