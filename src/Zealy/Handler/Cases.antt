-- ===== src/Zealy/Handler/Cases.antt =====
-- The two ways in which a new event goes on.
use dynamic_nft_krnl.Base.{
  ◌&&◌, ◌≡◌, refl, ◌⊎◌, inl, inr, Bool, true, false, not, String, Bool-cases,
}
use dynamic_nft_krnl.Base.Text.{is_empty, includes}
use dynamic_nft_krnl.Store.{Store}
use dynamic_nft_krnl.Zealy.Handler.{
  WebhookEnv, ok, Delivery, complete_quest, process_event, ignore_event,
}

-- A completion that names its quest and its wallet.
abbrev pub is_completion : WebhookEnv → Delivery → Bool
unfolding includes
is_completion env d =
    includes (env.runtime.to_lower d.event_type) "complete"
    && (not (is_empty d.quest_id) && not (is_empty d.wallet))

-- It is closed as ignored, or treated as a completion.
pub process_event-cases :
    (env : WebhookEnv) (d : Delivery) (s : Store)
    → ((why : String) × (is_completion env d ≡ false)
        × (process_event env d s ≡ (ok, ignore_event d why s)))
      ⊎ ((is_completion env d ≡ true) × (process_event env d s ≡ complete_quest env d s))
unfolding process_event
process_event-cases env d s =
    elim (Bool-cases (includes (env.runtime.to_lower d.event_type) "complete")) [
      | inr other ↦ rw (other, process_event) (inl ("Event not a quest completion", refl, refl))
      | inl complete ↦ elim (Bool-cases (is_empty d.quest_id)) [
        | inl no_quest ↦
            rw (complete, no_quest, process_event) (inl ("Missing zealyQuestId", refl, refl))
        | inr quest ↦ elim (Bool-cases (is_empty d.wallet)) [
          | inl no_wallet ↦
              rw (complete, quest, no_wallet, process_event)
                (inl ("Missing wallet address", refl, refl))
          | inr wallet ↦ rw (complete, quest, wallet, process_event) (inr (refl, refl))
        ]
      ]
    ]
