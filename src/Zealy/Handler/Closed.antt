-- ===== src/Zealy/Handler/Closed.antt =====
-- A webhook keeps every property of the ledgers that the transactions keep.
use dynamic_nft_krnl.Base.{◌≡◌, some, Option-cases, inl, inr}
use dynamic_nft_krnl.Js.{Number}
use dynamic_nft_krnl.Store.{Store}
use dynamic_nft_krnl.Mint.{ensure_base_nft_minted}
use dynamic_nft_krnl.Mint.Frame.{Kept-IsSame, ensure-Kept}
use dynamic_nft_krnl.Store.{Ledgers}
use dynamic_nft_krnl.Ledger.Closed.{IsClosed}
use dynamic_nft_krnl.Zealy.Gains.{xp_total_of-NonNegative, credited_loot_keys_of-NonNegative}
use dynamic_nft_krnl.Zealy.Reward.{write_reward, apply_webhook_reward}
use dynamic_nft_krnl.Zealy.Written.{apply_webhook_reward-eq-some}
use dynamic_nft_krnl.Zealy.Handler.{
  WebhookEnv, Delivery, xp_total_of, reward_args, complete_quest, receive, insert_event,
  ignore_event,
}
use dynamic_nft_krnl.Zealy.Handler.Cases.{process_event-cases}

module _ (inv : Ledgers → Type 0) (closed : IsClosed inv) where
  apply-kept :
      (env : WebhookEnv) (d : Delivery) (n : Number) (s m t : Store)
      → xp_total_of env d s ≡ some n
      → apply_webhook_reward (reward_args env d n s) m ≡ some t
      → inv m.ledgers
      → inv t.ledgers
  unfolding write_reward reward_args
  apply-kept env d n s m t xp e h =
      let (total, delta, event, fits, keys, _, _, written) =
        apply_webhook_reward-eq-some (reward_args env d n s) m t e in
      rw written (
        closed.credit d.brand_id d.wallet total delta m.ledgers
          (xp_total_of-NonNegative env d s n total xp fits)
          (credited_loot_keys_of-NonNegative _ n delta keys) h)

  complete-kept :
      (env : WebhookEnv) (d : Delivery) (s : Store)
      → inv s.ledgers
      → inv (complete_quest env d s).1.ledgers
  unfolding complete_quest
  complete-kept env d s h = elim (Option-cases (xp_total_of env d s)) [
    | inl thrown ↦ rw (thrown, complete_quest) h
    | inr (n, xp) ↦
        let m = ensure_base_nft_minted env.mint d.brand_id d.wallet s in
        let kept : inv m.1.ledgers =
          closed.same s.ledgers m.1.ledgers
            (Kept-IsSame s m.1 (ensure-Kept env.mint d.brand_id d.wallet s)) h in
        elim (Option-cases m.0) [
          | inl thrown ↦ rw (xp, thrown, complete_quest) kept
          | inr (r, minted) ↦
              elim (Option-cases (apply_webhook_reward (reward_args env d n s) m.1)) [
                | inl thrown ↦ rw (xp, minted, thrown, complete_quest) kept
                | inr (t, written) ↦
                    rw (xp, minted, written, complete_quest)
                      (apply-kept env d n s m.1 t xp written kept)
              ]
        ]
  ]

  -- The delivery of an event, however it ends.
  pub receive-kept :
      (env : WebhookEnv) (d : Delivery) (s : Store)
      → inv s.ledgers
      → inv (receive env d s).1.ledgers
  unfolding receive insert_event ignore_event
  receive-kept env d s h = elim (Option-cases (s.events d.event_id)) [
    | inr (e, known) ↦ rw (known, receive) h
    | inl fresh ↦
        rw (fresh, receive)
          (elim (process_event-cases env d (insert_event d s)) [
            | inl (why, _, ended) ↦ rw ended h
            | inr (_, completed) ↦ rw completed (complete-kept env d (insert_event d s) h)
          ])
  ]
