-- ===== src/Brands/Reward.antt =====
-- The reward of a quest: POST /brands/:brandId/quests/:questId/reward of
-- apps/api/src/routes/brands.ts.
pub mod Effective
use dynamic_nft_krnl.Base.{Bool, true, false, Option, none, some, String, if◌then◌else◌, put}
use dynamic_nft_krnl.Base.Int.{ℤ, pos}
use dynamic_nft_krnl.Js.{
  Runtime, Value, undefined, null, bool, num, str, arr, obj, Fields, get, fields_of,
}
use dynamic_nft_krnl.Store.{Store, BrandRewardRule}
use dynamic_nft_krnl.Economy.{
  RewardXpMode, zealy, override, nothing, normalize_xp_mode, normalize_non_negative_int,
  resolve_xp_override,
}
use dynamic_nft_krnl.Economy.Credits.{mode_name}
use dynamic_nft_krnl.Me.{Auth}
use dynamic_nft_krnl.Brands.{BrandsEnv, Answer, refused, saved, as_owner}

abbrev pub enabled_or_true : Value → Bool
enabled_or_true (bool b) = b
enabled_or_true undefined = true
enabled_or_true null = true
enabled_or_true (num n) = true
enabled_or_true (str s) = true
enabled_or_true (arr vs) = true
enabled_or_true (obj fs) = true

-- A reward of no number of keys is one of none.
unfoldable pub loot_keys_of : Runtime → Value → Option ℤ
unfolding normalize_non_negative_int
loot_keys_of rt undefined = some (pos 0)
loot_keys_of rt null = normalize_non_negative_int rt null
loot_keys_of rt (bool b) = normalize_non_negative_int rt (bool b)
loot_keys_of rt (num n) = normalize_non_negative_int rt (num n)
loot_keys_of rt (str s) = normalize_non_negative_int rt (str s)
loot_keys_of rt (arr vs) = normalize_non_negative_int rt (arr vs)
loot_keys_of rt (obj fs) = normalize_non_negative_int rt (obj fs)

abbrev pub rule_with : Bool → ℤ → RewardXpMode → Option ℤ → BrandRewardRule
rule_with enabled keys mode xp = record {
  enabled = enabled;
  loot_keys_delta = keys;
  xp_mode = mode_name mode;
  xp_override = xp;
}

-- The row that holds a quest's rule, which is written first.
unfoldable pub write_reward_rule : String → String → BrandRewardRule → Store → Store
unfolding put
write_reward_rule brand quest rule s = record s {
  reward_rules = put brand quest rule s.reward_rules;
}

-- Whether the column of an asset pack takes a value: none, or the id of a pack.
unfoldable pub is_asset_pack : BrandsEnv → Value → Bool
is_asset_pack env undefined = true
is_asset_pack env null = true
is_asset_pack env (bool b) = false
is_asset_pack env (num n) = false
is_asset_pack env (str p) = env.is_asset_pack_id p
is_asset_pack env (arr vs) = false
is_asset_pack env (obj fs) = false

-- The two rows that hold a quest's rule, each in a write of its own. The second names an asset pack,
-- unchecked: where the database does not take it, the first row stays written.
unfoldable pub write_rule :
    BrandsEnv → Value → String → String → BrandRewardRule → Store → Answer BrandRewardRule × Store
unfolding put write_reward_rule is_asset_pack
write_rule env asset_pack brand quest rule s =
    let t = write_reward_rule brand quest rule s in
    if is_asset_pack env asset_pack
    then (
      saved rule,
      record t {
        quest_reward_rules =
            put brand quest
              (record { enabled = rule.enabled; loot_key_delta = rule.loot_keys_delta })
              t.quest_reward_rules;
      },
    )
    else (refused 500 "Internal server error", t)

-- The experience in place of Zealy's, which the mode "OVERRIDE" requires.
unfoldable pub save_rule :
    BrandsEnv
    → Value
    → Bool
    → ℤ
    → RewardXpMode
    → Option ℤ
    → String
    → String
    → Store
    → Answer BrandRewardRule × Store
unfolding write_rule
save_rule env pack enabled keys override none brand quest s =
    (refused 400 "xpOverride must be present and >= 0 when xpMode is OVERRIDE", s)
save_rule env pack enabled keys override (some n) brand quest s =
    write_rule env pack brand quest (rule_with enabled keys override (some n)) s
save_rule env pack enabled keys zealy xp brand quest s =
    write_rule env pack brand quest (rule_with enabled keys zealy xp) s
save_rule env pack enabled keys nothing xp brand quest s =
    write_rule env pack brand quest (rule_with enabled keys nothing xp) s

-- The quest was found.
unfoldable pub check_rule :
    BrandsEnv → Fields → String → String → Store → Answer BrandRewardRule × Store
unfolding get loot_keys_of normalize_xp_mode resolve_xp_override save_rule
check_rule env fs brand quest s = elim (loot_keys_of env.runtime (get "lootKeysDelta" fs)) [
  | none ↦ (refused 400 "lootKeysDelta must be >= 0", s)
  | some keys ↦ elim (normalize_xp_mode env.runtime (get "xpMode" fs)) [
    | none ↦ (refused 400 "xpMode must be one of ZEALY, OVERRIDE, NONE", s)
    | some mode ↦
        save_rule env (get "assetPackId" fs) (enabled_or_true (get "enabled" fs)) keys mode
          (resolve_xp_override env.runtime mode (get "xpOverride" fs)) brand quest s
  ]
]

unfoldable pub set_reward_rule :
    BrandsEnv → Auth → String → String → Value → Store → Answer BrandRewardRule × Store
unfolding as_owner check_rule fields_of
set_reward_rule env auth brand quest body s =
    as_owner env auth brand s (elim (s.zealy_quests brand quest) [
      | none ↦ (refused 404 "Quest not found", s)
      | some q ↦ check_rule env (fields_of body) brand quest s
    ])
