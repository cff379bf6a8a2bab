-- ===== src/Economy.antt =====
-- apps/api/src/services/lootboxEconomyService.ts and rewardRulePolicy.ts: prices of loot keys,
-- available experience, and what a completed quest credits.
pub mod Prices
pub mod Credits
mod Tests
use Prim.Native.String
use text.Mathlib.Text.{◌==◌}
use dynamic_nft_krnl.Base.{
  Bool, true, false, Option, none, some, String, List, [], ◌∷◌, if◌then◌else◌,
}
use dynamic_nft_krnl.Base.Int.{ℤ, pos}
use dynamic_nft_krnl.Base.Text.{is_empty, trim}
use dynamic_nft_krnl.Js.{
  Runtime, Whole, nan, int, Number, whole, floor, max_whole, times, minus, integer_from, Value,
  text_of, number_of, or_value, str,
}

-- `Math.max(low, Math.floor(x))`.
unfoldable pub floor_from : ℤ → Number → Whole
unfolding floor max_whole
floor_from low x = max_whole (int low) (floor x)

unfoldable pub calculate_purchase_xp_required : Number → Number → Whole
unfolding floor_from times
calculate_purchase_xp_required quantity xp_per_loot_key =
    times (floor_from (pos 0) quantity) (floor_from (pos 1) xp_per_loot_key)

unfoldable pub calculate_xp_available : Number → Number → Whole
unfolding floor_from minus max_whole
calculate_xp_available zealy_xp_total xp_spent =
    max_whole (int (pos 0))
      (minus (floor_from (pos 0) zealy_xp_total) (floor_from (pos 0) xp_spent))

-- The two environment variables that set the default price.
pub record PriceEnv : Type 0 where
  pub xp_price_per_lootkey : Option String
  pub xp_per_lootkey : Option String

unfoldable pub build_zealy_join_url : String → String
unfolding trim
build_zealy_join_url community_id =
    let safe = trim community_id in
    if is_empty safe then "https://zealy.io" else String.◌++◌ "https://zealy.io/c/" safe

pub data RewardXpMode : Type 0 where
  zealy override nothing : RewardXpMode

pub record EffectiveRewardRule : Type 0 where
  pub enabled : Bool
  pub loot_keys_delta : Number
  pub xp_mode : RewardXpMode
  pub xp_override : Option Number

pub record WebhookCredits : Type 0 where
  pub credited_xp : Whole
  pub credited_loot_keys : Whole

abbrev zero : Number
zero = whole (int (pos 0))

-- `Number(x || 0)`: zero and NaN become zero.
unfoldable pub or_zero : Number → Number
or_zero (whole nan) = zero
or_zero x = x

-- The same of a number that may be null.
unfoldable pub null_or_zero : Option Number → Number
unfolding or_zero
null_or_zero none = zero
null_or_zero (some x) = or_zero x

credited_xp_for : RewardXpMode → Whole → Option Number → Whole
unfolding floor_from null_or_zero
credited_xp_for zealy zealy_xp xp_override = zealy_xp
credited_xp_for override zealy_xp xp_override = floor_from (pos 0) (null_or_zero xp_override)
credited_xp_for nothing zealy_xp xp_override = int (pos 0)

unfoldable pub compute_webhook_credits : EffectiveRewardRule → Number → WebhookCredits
unfolding floor_from or_zero credited_xp_for
compute_webhook_credits rule zealy_xp =
    if rule.enabled
    then record {
      credited_xp =
          credited_xp_for rule.xp_mode (floor_from (pos 0) (or_zero zealy_xp)) rule.xp_override;
      credited_loot_keys = floor_from (pos 0) (or_zero rule.loot_keys_delta);
    }
    else record { credited_xp = int (pos 0); credited_loot_keys = int (pos 0) }

mode_of : String → Option RewardXpMode
mode_of s =
    if s == "ZEALY"
    then some zealy
    else if s == "OVERRIDE"
    then some override
    else if s == "NONE"
    then some nothing
    else none

module _ (rt : Runtime) where
  -- `Number` of an environment variable; an unset one is NaN.
  number_of_env : Option String → Number
  number_of_env none = whole nan
  number_of_env (some s) = rt.read_number s

  -- The loop of `resolveDefaultXpPerLootKey`.
  first_price : List (Option String) → ℤ
  unfolding number_of_env integer_from
  first_price [] = pos 100
  first_price (c ∷ cs) =
      let rest = first_price cs in
      elim (integer_from (pos 1) (number_of_env c)) [ none ↦ rest | some n ↦ n ]

  unfoldable pub resolve_default_xp_per_loot_key : PriceEnv → ℤ
  unfolding first_price
  resolve_default_xp_per_loot_key env =
      first_price (env.xp_price_per_lootkey ∷ env.xp_per_lootkey ∷ some "100" ∷ [])

  unfoldable pub normalize_xp_mode : Value → Option RewardXpMode
  unfolding or_value text_of mode_of
  normalize_xp_mode value = mode_of (rt.to_upper (text_of rt (or_value value (str "ZEALY"))))

  unfoldable pub normalize_non_negative_int : Value → Option ℤ
  unfolding integer_from number_of
  normalize_non_negative_int value = integer_from (pos 0) (number_of rt value)

  unfoldable pub resolve_xp_override : RewardXpMode → Value → Option ℤ
  unfolding normalize_non_negative_int
  resolve_xp_override override value = normalize_non_negative_int value
  resolve_xp_override zealy value = none
  resolve_xp_override nothing value = none
