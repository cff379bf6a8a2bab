-- ===== src/Economy/Credits.antt =====
-- What a webhook credits, for any stored rule.
use dynamic_nft_krnl.Base.{
  ◌≡◌, refl, Bool-cases, false, Option, none, some, String, arith, ◌↔◌, inl, inr,
}
use dynamic_nft_krnl.Base.Int.{pos, ◌≤ℤ◌}
use dynamic_nft_krnl.Js.{
  Runtime, Whole, nan, pos_inf, neg_inf, int, Number, whole, frac, Value, text_of, or_value, str,
}
use dynamic_nft_krnl.Economy.{
  floor_from, RewardXpMode, zealy, override, nothing, EffectiveRewardRule, or_zero, null_or_zero,
  credited_xp_for, compute_webhook_credits, mode_of, normalize_xp_mode,
}
use text.Mathlib.TextEquality.{eq_iff}

-- A number that is no NaN and not negative.
abbrev pub NonNegative : Whole → Type 0
NonNegative nan = ⊥
NonNegative neg_inf = ⊥
NonNegative pos_inf = Unit
NonNegative (int n) = pos 0 ≤ℤ n

pub floor_from-NonNegative : (x : Number) → NonNegative (floor_from (pos 0) (or_zero x))
unfolding floor_from or_zero
floor_from-NonNegative (whole nan) = omega arith
floor_from-NonNegative (whole pos_inf) = tt
floor_from-NonNegative (whole neg_inf) = omega arith
floor_from-NonNegative (whole (int n)) = ground arith
floor_from-NonNegative (frac n f) = ground arith

null_or_zero-NonNegative : (x : Option Number) → NonNegative (floor_from (pos 0) (null_or_zero x))
unfolding null_or_zero floor_from
null_or_zero-NonNegative none = omega arith
null_or_zero-NonNegative (some x) = floor_from-NonNegative x

credited_xp_for-NonNegative :
    (m : RewardXpMode) (xp : Number) (o : Option Number)
    → NonNegative (credited_xp_for m (floor_from (pos 0) (or_zero xp)) o)
unfolding credited_xp_for
credited_xp_for-NonNegative zealy xp o = floor_from-NonNegative xp
credited_xp_for-NonNegative override xp o = null_or_zero-NonNegative o
credited_xp_for-NonNegative nothing xp o = omega arith

-- Whatever a rule holds, NaN and negative deltas included, and whatever experience Zealy reports,
-- the credited experience and loot keys are numbers and not negative; a disabled rule credits
-- nothing.
pub compute_webhook_credits-NonNegative :
    (rule : EffectiveRewardRule) (xp : Number)
    → let c = compute_webhook_credits rule xp in
      NonNegative c.credited_xp
      × NonNegative c.credited_loot_keys
      × (rule.enabled ≡ false
          → (c.credited_xp ≡ int (pos 0)) × (c.credited_loot_keys ≡ int (pos 0)))
unfolding compute_webhook_credits
compute_webhook_credits-NonNegative rule xp = elim (Bool-cases rule.enabled) [
  | inl on ↦
      rw (on, compute_webhook_credits)
        (
          credited_xp_for-NonNegative rule.xp_mode xp rule.xp_override,
          floor_from-NonNegative rule.loot_keys_delta,
          λ off. cc,
        )
  | inr off ↦ rw (off, compute_webhook_credits) (omega arith, omega arith, λ _. (refl, refl))
]

-- The stored name of a mode.
abbrev pub mode_name : RewardXpMode → String
mode_name zealy = "ZEALY"
mode_name override = "OVERRIDE"
mode_name nothing = "NONE"

mode_of_iff : (s : String) (m : RewardXpMode) → (mode_of s ≡ some m) ↔ (s ≡ mode_name m)
unfolding mode_of
mode_of_iff s zealy = ground (arith, eq_iff s "ZEALY", eq_iff s "OVERRIDE", eq_iff s "NONE")
mode_of_iff s override =
    ground
      (arith, eq_iff s "ZEALY", eq_iff s "OVERRIDE", eq_iff s "NONE", eq_iff "OVERRIDE" "ZEALY")
mode_of_iff s nothing = ground (
  arith,
  eq_iff s "ZEALY",
  eq_iff s "OVERRIDE",
  eq_iff s "NONE",
  eq_iff "NONE" "ZEALY",
  eq_iff "NONE" "OVERRIDE",
)

-- A value is read as a mode exactly when its text, "ZEALY" for a falsy value, is the mode's name
-- once it is in upper case; anything else is refused.
pub normalize_xp_mode_iff :
    (rt : Runtime) (value : Value) (m : RewardXpMode)
    → (normalize_xp_mode rt value ≡ some m)
      ↔ (rt.to_upper (text_of rt (or_value value (str "ZEALY"))) ≡ mode_name m)
unfolding normalize_xp_mode
normalize_xp_mode_iff rt value m =
    mode_of_iff (rt.to_upper (text_of rt (or_value value (str "ZEALY")))) m
