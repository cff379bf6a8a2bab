-- ===== src/Zealy/Written.antt =====
-- What a reward that was written has passed.
use dynamic_nft_krnl.Base.{
  none-ne-some, some_injective, ◌≡◌, sym, false, some, Option-cases, Bool-cases, inl, inr, any,
}
use dynamic_nft_krnl.Base.Int.{ℤ}
use dynamic_nft_krnl.Store.{Store, WebhookEvent}
use dynamic_nft_krnl.Ledger.{column}
use dynamic_nft_krnl.Zealy.Reward.{
  RewardArgs, write_reward, int_column, is_for, apply_webhook_reward,
}

-- The numbers fitted their columns, the event was there, and no reward had been written for it.
pub apply_webhook_reward-eq-some :
    (a : RewardArgs) (s t : Store)
    → apply_webhook_reward a s ≡ some t
    → (total : ℤ) × (delta : ℤ) × (e : WebhookEvent) × (int_column a.xp_total ≡ some total)
      × (column a.loot_key_delta ≡ some delta)
      × (any (is_for a.event_id) s.audits ≡ false)
      × (s.events a.event_id ≡ some e)
      × (t ≡ write_reward a total delta e s)
unfolding apply_webhook_reward
apply_webhook_reward-eq-some a s t h = elim (Option-cases (int_column a.xp_total)) [
  | inl odd ↦ absurd (none-ne-some t (rw (odd, apply_webhook_reward) at h))
  | inr (total, xp) ↦ elim (Option-cases (column a.loot_key_delta)) [
    | inl odd ↦ absurd (none-ne-some t (rw (xp, odd, apply_webhook_reward) at h))
    | inr (delta, keys) ↦ elim (Bool-cases (any (is_for a.event_id) s.audits)) [
      | inl twice ↦ absurd (none-ne-some t (rw (xp, keys, twice, apply_webhook_reward) at h))
      | inr first ↦ elim (Option-cases (s.events a.event_id)) [
        | inl gone ↦ absurd (none-ne-some t (rw (xp, keys, first, gone, apply_webhook_reward) at h))
        | inr (e, there) ↦ (
          total,
          delta,
          e,
          xp,
          keys,
          first,
          there,
          sym (some_injective _ t (rw (xp, keys, first, there, apply_webhook_reward) at h)),
        )
      ]
    ]
  ]
]
