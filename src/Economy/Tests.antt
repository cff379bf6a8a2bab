-- ===== src/Economy/Tests.antt =====
-- Runs of the price and credit rules, and their theorems at concrete inputs.
use dynamic_nft_krnl.Base.{◌≡◌, refl, true, false, none, some}
use dynamic_nft_krnl.Base.Int.{pos, negsuc, ◌*ℤ◌}
use dynamic_nft_krnl.Js.{Runtime, whole, int, nan, frac}
use dynamic_nft_krnl.Economy.{
  override, EffectiveRewardRule, compute_webhook_credits, calculate_purchase_xp_required,
  resolve_default_xp_per_loot_key, build_zealy_join_url,
}
use dynamic_nft_krnl.Economy.Prices.{exact}
use dynamic_nft_krnl.Economy.Credits.{NonNegative, compute_webhook_credits-NonNegative}

-- Reads every text as 250, and leaves case alone.
abbrev runtime : Runtime
runtime = record {
  read_number = λ s. whole (int (pos 250));
  show_number = λ n. "0";
  to_lower = λ s. s;
  to_upper = λ s. s;
}

abbrev rule : EffectiveRewardRule
rule = record {
  enabled = true;
  loot_keys_delta = whole (int (negsuc 4));
  xp_mode = override;
  xp_override = some (frac (pos 30) 5);
}

credits :
    compute_webhook_credits rule (whole nan)
    ≡ record { credited_xp = int (pos 30); credited_loot_keys = int (pos 0) }
unfolding compute_webhook_credits
credits = refl

prices : calculate_purchase_xp_required (exact (pos 3)) (exact (pos 100)) ≡ int (pos 300)
unfolding calculate_purchase_xp_required ◌*ℤ◌
prices = refl

default_price :
    resolve_default_xp_per_loot_key runtime
      (record { xp_price_per_lootkey = none; xp_per_lootkey = some "250" })
    ≡ pos 250
unfolding resolve_default_xp_per_loot_key
default_price = refl

join_url : build_zealy_join_url "  krnl " ≡ "https://zealy.io/c/krnl"
unfolding build_zealy_join_url
join_url = refl

compute_webhook_credits-NonNegative_example :
    let c = compute_webhook_credits rule (whole nan) in
    NonNegative c.credited_xp
    × NonNegative c.credited_loot_keys
    × (rule.enabled ≡ false → (c.credited_xp ≡ int (pos 0)) × (c.credited_loot_keys ≡ int (pos 0)))
compute_webhook_credits-NonNegative_example = compute_webhook_credits-NonNegative rule (whole nan)
