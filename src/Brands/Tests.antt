-- ===== src/Brands/Tests.antt =====
-- Requests of a brand's owner.
use text.Mathlib.Text.{◌==◌ as str_eq}
use dynamic_nft_krnl.Base.{◌≡◌, refl, true, none, some, String, [], ◌∷◌, empty, put}
use dynamic_nft_krnl.Base.Int.{pos, ◌-ℤ◌}
use dynamic_nft_krnl.Js.{
  or_value, Value, num, str, arr, obj, nil, cons, end, field, fields_of, whole, int,
}
use dynamic_nft_krnl.Store.{Store}
use dynamic_nft_krnl.Me.{Auth}
use dynamic_nft_krnl.Fixtures.{plain, shop}
use dynamic_nft_krnl.Brands.{BrandsEnv, refused, saved}
use dynamic_nft_krnl.Krnl.Submit.{accepted}
use dynamic_nft_krnl.Brands.Join.{JoinEnv, JoinRequest, join_brand}
use dynamic_nft_krnl.Brands.Join.Joined.{IsJoined, join_brand-IsJoined}
use dynamic_nft_krnl.Brands.Reward.{set_reward_rule}
use dynamic_nft_krnl.Brands.Reward.Effective.{IsUpper, IsEffective, set_reward_rule-IsEffective}
use dynamic_nft_krnl.Brands.Config.{set_lootbox_config}
use dynamic_nft_krnl.Brands.Config.Outcome.{IsStored, set_lootbox_config-IsStored}

abbrev env : BrandsEnv
env = record {
  runtime = plain;
  owner_of = λ b. some "ann";
  layers = λ b p. "hat:gold" ∷ [];
  is_asset_pack_id = λ p. str_eq p "pack-1";
}

abbrev ann : Auth
ann = record { privy_user_id = "ann"; wallet_address = some "0xa" }

abbrev bob : Auth
bob = record { privy_user_id = "bob"; wallet_address = some "0xb" }

abbrev quest_shop : Store
quest_shop = record shop { zealy_quests = put "acme" "q" none empty }

abbrev reward : Value
reward = obj (
    field "lootKeysDelta" (num (whole (int (pos 2))))
      (field "xpMode" (str "OVERRIDE") (field "xpOverride" (num (whole (int (pos 50)))) end)))

plain-IsUpper : IsUpper plain
plain-IsUpper = record { upper = λ m. refl }

refuses_others :
    set_reward_rule env bob "acme" "q" reward quest_shop
    ≡ (refused 403 "Not authorized for this brand", quest_shop)
unfolding set_reward_rule
refuses_others = refl

abbrev foreign_pack : Value
foreign_pack = obj (
    field "assetPackId" (str "pack-9")
      (field "lootKeysDelta" (num (whole (int (pos 2)))) (field "xpMode" (str "NONE") end)))

-- The request fails, and the rule is the new one.
fails_half :
    let out = set_reward_rule env ann "acme" "q" foreign_pack quest_shop in
    (out.0 ≡ refused 500 "Internal server error")
    × (out.1.reward_rules "acme" "q"
        ≡ some (record {
          enabled = true;
          loot_keys_delta = pos 2;
          xp_mode = "NONE";
          xp_override = none;
        }))
unfolding set_reward_rule
fails_half = (refl, refl)

set_reward_rule-IsEffective_example :
    IsEffective env
      (fields_of reward)
      "acme"
      "q"
      quest_shop
      (set_reward_rule env ann "acme" "q" reward quest_shop)
set_reward_rule-IsEffective_example =
    set_reward_rule-IsEffective env ann "acme" "q" reward quest_shop plain-IsUpper

abbrev entry : String → Value
entry value = obj (
    field "traitKey" (str " hat ")
      (field "traitValue" (str value) (field "weight" (num (whole (int (pos 3)))) end)))

abbrev settings : String → Value
settings value = obj (field "lootTable" (arr (cons (entry value) nil)) end)

saves_trimmed :
    (set_lootbox_config env ann "acme" (settings "gold") shop).0
    ≡ saved (record { trait_name = "hat"; trait_value = "gold"; weight = 3 } ∷ [])
unfolding set_lootbox_config
saves_trimmed = refl

wants_layers :
    (set_lootbox_config env ann "acme" (settings "grey") shop).0
    ≡ refused 400 "Loot table entries must have uploaded layer images in the active asset pack."
unfolding set_lootbox_config
wants_layers = refl

set_lootbox_config-IsStored_example :
    IsStored plain
      (fields_of (settings "gold"))
      "acme"
      shop
      (set_lootbox_config env ann "acme" (settings "gold") shop)
set_lootbox_config-IsStored_example =
    set_lootbox_config-IsStored env ann "acme" (settings "gold") shop

abbrev join_env : JoinEnv
join_env = record {
  runtime = plain;
  has_zealy_config = λ b. true;
  mint = record {
    run_id = "run-9";
    payload_intent_id = none;
    answer = accepted "request-9" none none;
    awaited = none;
  };
  membership_count = 4;
  is_user_id = λ u. true;
}

abbrev signed : JoinRequest
signed = record {
  body = obj (field "userSignature" (str "0xabc") end);
  x_user_signature = none;
  x_transaction_intent_signature = none;
}

abbrev new_wallet : Auth
new_wallet = record { privy_user_id = "cy"; wallet_address = some "0xnew" }

joins : (join_brand join_env new_wallet "acme" signed shop).0 ≡ saved "0"
unfolding join_brand or_value
joins = refl

-- A member that joins again pays for a mint and is refused.
joins_again :
    let s = (join_brand join_env new_wallet "acme" signed shop).1 in
    let again = join_brand join_env new_wallet "acme" signed s in
    (again.0 ≡ refused 500 "Internal server error")
    × ((again.1).brands "acme" ≡ some (record { sponsorship_credits = pos 0 }))
unfolding join_brand or_value ◌-ℤ◌
joins_again = (refl, refl)

join_brand-IsJoined_example :
    IsJoined join_env new_wallet "acme" signed shop
      (join_brand join_env new_wallet "acme" signed shop)
join_brand-IsJoined_example = join_brand-IsJoined join_env new_wallet "acme" signed shop
