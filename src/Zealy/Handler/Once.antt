-- ===== src/Zealy/Handler/Once.antt =====
-- A delivered event is dealt with once.
use text.Mathlib.TextPositions.{eq_refl}
use dynamic_nft_krnl.Base.{◌≡◌, refl, true, is_some, some, String, arith, Option-cases, inl, inr}
use dynamic_nft_krnl.Base.Int.{ℤ}
use dynamic_nft_krnl.Store.{Store, WebhookEvent}
use dynamic_nft_krnl.Mint.{ensure_base_nft_minted}
use dynamic_nft_krnl.Mint.Frame.{Kept, ensure-Kept}
use dynamic_nft_krnl.Zealy.Reward.{put_event, RewardArgs, write_reward, apply_webhook_reward}
use dynamic_nft_krnl.Zealy.Written.{apply_webhook_reward-eq-some}
use dynamic_nft_krnl.Zealy.Handler.Cases.{process_event-cases}
use dynamic_nft_krnl.Zealy.Handler.{
  WebhookEnv, ok, Delivery, xp_total_of, reward_args, complete_quest, receive, insert_event,
  ignore_event,
}

-- The event is stored.
abbrev pub IsKnown : String → Store → Type 0
IsKnown id s = is_some (s.events id) ≡ true

write-IsKnown :
    (a : RewardArgs) (total delta : ℤ) (e : WebhookEvent) (s : Store)
    → IsKnown a.event_id (write_reward a total delta e s)
unfolding write_reward put_event
write-IsKnown a total delta e s = ground (arith, eq_refl a.event_id)

apply-IsKnown :
    (a : RewardArgs) (s t : Store) → apply_webhook_reward a s ≡ some t → IsKnown a.event_id t
apply-IsKnown a s t h =
    let (total, delta, e, _, _, _, _, written) = apply_webhook_reward-eq-some a s t h in
    rw written (write-IsKnown a total delta e s)

complete-IsKnown :
    (env : WebhookEnv) (d : Delivery) (s : Store)
    → IsKnown d.event_id s
    → IsKnown d.event_id (complete_quest env d s).1
unfolding complete_quest reward_args
complete-IsKnown env d s h = elim (Option-cases (xp_total_of env d s)) [
  | inl thrown ↦ rw (thrown, complete_quest) h
  | inr (total, xp) ↦
      let m = ensure_base_nft_minted env.mint d.brand_id d.wallet s in
      let kept : IsKnown d.event_id m.1 =
        rw (Kept.events (ensure-Kept env.mint d.brand_id d.wallet s)) h in
      elim (Option-cases m.0) [
        | inl thrown ↦ rw (xp, thrown, complete_quest) kept
        | inr (r, minted) ↦
            elim (Option-cases (apply_webhook_reward (reward_args env d total s) m.1)) [
              | inl thrown ↦ rw (xp, minted, thrown, complete_quest) kept
              | inr (t, written) ↦
                  rw (xp, minted, written, complete_quest)
                    (apply-IsKnown (reward_args env d total s) m.1 t written)
            ]
      ]
]

receive-IsKnown :
    (env : WebhookEnv) (d : Delivery) (s : Store) → IsKnown d.event_id (receive env d s).1
unfolding receive put_event ignore_event insert_event
receive-IsKnown env d s = elim (Option-cases (s.events d.event_id)) [
  | inr (e, known) ↦ rw (known, receive) (rw known refl)
  | inl fresh ↦
      rw (fresh, receive)
        (elim (process_event-cases env d (insert_event d s)) [
          | inl (why, _, closed) ↦ rw closed (ground (arith, eq_refl d.event_id))
          | inr (_, completed) ↦
              rw completed
                (complete-IsKnown env d (insert_event d s) (ground (arith, eq_refl d.event_id)))
        ])
]

known_lem :
    (env : WebhookEnv) (d : Delivery) (s : Store) → IsKnown d.event_id s → receive env d s ≡ (ok, s)
unfolding receive
known_lem env d s h = elim (Option-cases (s.events d.event_id)) [
  | inl unknown ↦ absurd (ground arith)
  | inr (e, known) ↦ rw (known, receive) refl
]

-- Once an event has been received, however that ended, a further delivery of the same event, with
-- any payload and in any surroundings, is answered with ok and changes nothing; so it is not
-- repeated where the first delivery ended in an error.
pub receive_once :
    (env env' : WebhookEnv) (d d' : Delivery) (s : Store)
    → d'.event_id ≡ d.event_id
    → let t = (receive env d s).1 in receive env' d' t ≡ (ok, t)
receive_once env env' d d' s same =
    known_lem env' d' (receive env d s).1 (rw same (receive-IsKnown env d s))
