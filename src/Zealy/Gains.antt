-- ===== src/Zealy/Gains.antt =====
-- What a completed quest gains is not negative.
use dynamic_nft_krnl.Base.{
  subst, sym, ◌∙◌, some_injective, none-ne-some, ◌≡◌, some, List, [], ◌∷◌, arith, Option-cases,
  Bool-cases, inl, inr,
}
use dynamic_nft_krnl.Base.Int.{ℤ, pos, ◌≤ℤ◌, max_ℤ}
use dynamic_nft_krnl.Js.{
  Runtime, Number, whole, frac, int, nan, pos_inf, neg_inf, Value, num, str, undefined, null, bool,
  arr, obj, Fields, fields_of,
}
use dynamic_nft_krnl.Store.{Store}
use dynamic_nft_krnl.Economy.{EffectiveRewardRule}
use dynamic_nft_krnl.Economy.Credits.{NonNegative, floor_from-NonNegative}
use dynamic_nft_krnl.Ledger.{column}
use dynamic_nft_krnl.Ledger.Bought.{column_lem}
use dynamic_nft_krnl.Zealy.Payload.{
  resolve_zealy_xp_from_payload, candidates, first_xp, candidate_xp, finite_floor,
}
use dynamic_nft_krnl.Zealy.Reward.{
  Lookup, found, api_error, other_error, xp_of_lookup, at_least_zero, int_column,
  resolve_zealy_xp_total, credited_loot_keys_of,
}
use dynamic_nft_krnl.Zealy.Handler.{WebhookEnv, Delivery, xp_total_of, quest_xp}

NumberNonNegative : Number → Type 0
NumberNonNegative (whole w) = NonNegative w
NumberNonNegative (frac n f) = pos 0 ≤ℤ n

floor_le : (x : Number) (n : ℤ) → finite_floor x ≡ some n → pos 0 ≤ℤ n
unfolding finite_floor
floor_le x n e = ground arith

candidate_le : (rt : Runtime) (v : Value) (n : ℤ) → candidate_xp rt v ≡ some n → pos 0 ≤ℤ n
unfolding candidate_xp
candidate_le rt (num x) n e = floor_le x n e
candidate_le rt (str s) n e = floor_le (rt.read_number s) n e
candidate_le rt undefined n e = ground arith
candidate_le rt null n e = ground arith
candidate_le rt (bool b) n e = ground arith
candidate_le rt (arr vs) n e = ground arith
candidate_le rt (obj fs) n e = ground arith

first_le : (rt : Runtime) (vs : List Value) (n : ℤ) → first_xp rt vs ≡ some n → pos 0 ≤ℤ n
unfolding first_xp
first_le rt [] n e = ground arith
first_le rt (v ∷ vs) n e = ground (arith, first_le rt vs n, candidate_le rt v n)

payload_le :
    (rt : Runtime) (p : Fields) (n : ℤ) → resolve_zealy_xp_from_payload rt p ≡ some n → pos 0 ≤ℤ n
unfolding resolve_zealy_xp_from_payload
payload_le rt p n e = first_le rt (candidates p) n e

at_least_zero_le : (x : Number) (n : ℤ) → int_column (at_least_zero x) ≡ some n → pos 0 ≤ℤ n
unfolding at_least_zero
at_least_zero_le (whole nan) n e = ground arith
at_least_zero_le (whole pos_inf) n e = ground arith
at_least_zero_le (whole neg_inf) n e = ground arith
at_least_zero_le (whole (int m)) n e = ground arith
at_least_zero_le (frac m f) n e = ground arith

max_le : (f total : ℤ) → some (max_ℤ (pos 0) f) ≡ some total → pos 0 ≤ℤ total
max_le f total e = ground arith

looked_le :
    (look : Lookup) (f : ℤ) (n : Number) (total : ℤ)
    → xp_of_lookup look f ≡ some n
    → int_column n ≡ some total
    → pos 0 ≤ℤ total
unfolding xp_of_lookup
looked_le (found xp) f n total e fits =
    at_least_zero_le xp total
      (subst (λ x. int_column x ≡ some total) (sym (some_injective (at_least_zero xp) n e)) fits)
looked_le api_error f n total e fits = max_le f total (
    subst (λ x. int_column x ≡ some total)
      (sym (some_injective (whole (int (max_ℤ (pos 0) f))) n e)) fits)
looked_le other_error f n total e fits = absurd (none-ne-some n e)

total_le :
    (rt : Runtime) (p : Fields) (look : Lookup) (fallback : ℤ) (n : Number) (total : ℤ)
    → resolve_zealy_xp_total rt p look fallback ≡ some n
    → int_column n ≡ some total
    → pos 0 ≤ℤ total
unfolding resolve_zealy_xp_total
total_le rt p look fallback n total e fits =
    elim (Option-cases (resolve_zealy_xp_from_payload rt p)) [
      | inr (m, got) ↦
          let same = some_injective (whole (int m)) n (rw (got, resolve_zealy_xp_total) at e) in
          payload_le rt p total (got ∙ subst (λ x. int_column x ≡ some total) (sym same) fits)
      | inl none_given ↦
          looked_le look fallback n total (rw (none_given, resolve_zealy_xp_total) at e) fits
    ]

-- The experience that counts, when the column takes it.
pub xp_total_of-NonNegative :
    (env : WebhookEnv) (d : Delivery) (s : Store) (n : Number) (total : ℤ)
    → xp_total_of env d s ≡ some n
    → int_column n ≡ some total
    → pos 0 ≤ℤ total
unfolding xp_total_of
xp_total_of-NonNegative env d s n total e fits =
    total_le env.runtime (fields_of d.payload) (env.look_up d.community_id d.wallet)
      (quest_xp (s.zealy_quests d.brand_id d.quest_id)) n total e fits

off_le : (delta : ℤ) → some (pos 0) ≡ some delta → pos 0 ≤ℤ delta
off_le delta e = ground arith

-- And the keys.
pub credited_loot_keys_of-NonNegative :
    (rule : EffectiveRewardRule) (xp : Number) (delta : ℤ)
    → column (credited_loot_keys_of rule xp) ≡ some delta
    → pos 0 ≤ℤ delta
unfolding credited_loot_keys_of
credited_loot_keys_of-NonNegative rule xp delta e = elim (Bool-cases rule.enabled) [
  | inr off ↦ off_le delta (rw (off, credited_loot_keys_of) at e)
  | inl on ↦
      let credits = floor_from-NonNegative rule.loot_keys_delta in
      subst NonNegative (column_lem _ delta (rw (on, credited_loot_keys_of) at e)) credits
]
