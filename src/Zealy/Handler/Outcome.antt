-- ===== src/Zealy/Handler/Outcome.antt =====
-- What a new event leads to: all of its reward or nothing of it.
use text.Mathlib.TextPositions.{eq_refl}
use dynamic_nft_krnl.Base.{
  ◌≡◌, refl, ap, ◌⊎◌, true, false, Option, none, some, String, ◌∷◌, Option-cases, inl, inr,
}
use dynamic_nft_krnl.Base.Int.{ℤ, pos, max_ℤ, ◌-ℤ◌}
use dynamic_nft_krnl.Js.{Number, whole, frac, int}
use dynamic_nft_krnl.Store.{Store, EconomyLedger, WebhookEvent, ignored, processed}
use dynamic_nft_krnl.Mint.{ensure_base_nft_minted}
use dynamic_nft_krnl.Mint.Frame.{Kept, Kept-IsSame, ensure-Kept}
use dynamic_nft_krnl.Ledger.Closed.{IsSame, IsSame-refl}
use dynamic_nft_krnl.Ledger.Credited.{held, IsCredited, credit-IsCredited, after-IsCredited}
use dynamic_nft_krnl.Ledger.Bought.{column_lem}
use dynamic_nft_krnl.Zealy.Reward.{
  put_event, closed, previous_xp, write_reward, int_column, apply_webhook_reward,
  get_effective_reward_rule, credited_loot_keys_of,
}
use dynamic_nft_krnl.Zealy.Written.{apply_webhook_reward-eq-some}
use dynamic_nft_krnl.Zealy.Handler.{
  WebhookEnv, Response, ok, internal_error, Delivery, xp_total_of, reward_args, complete_quest,
  new_event, receive, insert_event, ignore_event,
}
use dynamic_nft_krnl.Zealy.Handler.Cases.{is_completion, process_event-cases}

-- No experience, key or reward has changed.
pub record IsUnrewarded (s t : Store) : Type 0 where
  pub ledgers : IsSame s.ledgers t.ledgers
  pub audits : t.audits ≡ s.audits

-- The whole reward is written: the five ledgers, one audit, and the event's end.
pub record IsRewarded (env : WebhookEnv) (d : Delivery) (s t : Store) : Type 0 where
  pub total : ℤ
  pub delta : ℤ
  pub xp : xp_total_of env d s ≡ some (whole (int total))
  pub keys :
      credited_loot_keys_of
        (get_effective_reward_rule env.runtime d.brand_id d.quest_id s)
        (whole (int total))
      ≡ int delta
  pub ledgers : IsCredited d.brand_id d.wallet total delta s.ledgers t.ledgers
  pub audits :
      t.audits
      ≡ record {
        brand_id = d.brand_id;
        wallet = d.wallet;
        quest_id = d.quest_id;
        xp_delta =
            total -ℤ held (λ r. max_ℤ (pos 0) r.zealy_xp_total) (s.economy d.brand_id d.wallet);
        loot_key_delta = delta;
        webhook_event_id = d.event_id;
      }
        ∷ s.audits
  pub event : t.events d.event_id ≡ some (closed processed none (new_event d))

int_column_lem : (x : Number) (n : ℤ) → int_column x ≡ some n → x ≡ whole (int n)
int_column_lem (whole w) n e = ap whole (column_lem w n e)
int_column_lem (frac m f) n e = cc

previous_lem :
    (o : Option EconomyLedger) → previous_xp o ≡ held (λ r. max_ℤ (pos 0) r.zealy_xp_total) o
previous_lem none = refl
previous_lem (some r) = refl

put_event_self :
    (id : String) (e : WebhookEvent) (events : String → Option WebhookEvent)
    → put_event id e events id ≡ some e
unfolding put_event
put_event_self id e events = rw (eq_refl id) refl

write-IsRewarded :
    (env : WebhookEnv) (d : Delivery) (total delta : ℤ) (s m : Store)
    → Kept s m
    → xp_total_of env d s ≡ some (whole (int total))
    → credited_loot_keys_of
        (get_effective_reward_rule env.runtime d.brand_id d.quest_id s)
        (whole (int total))
      ≡ int delta
    → IsRewarded env d s
        (write_reward (reward_args env d (whole (int total)) s) total delta (new_event d) m)
unfolding reward_args write_reward
write-IsRewarded env d total delta s m kept xp keys = record {
  total = total;
  delta = delta;
  xp = xp;
  keys = keys;
  ledgers =
      after-IsCredited d.brand_id d.wallet total delta s.ledgers m.ledgers _ (Kept-IsSame s m kept)
        (credit-IsCredited d.brand_id d.wallet total delta m.ledgers);
  audits = rw (kept.economy, kept.audits) (rw (previous_lem (s.economy d.brand_id d.wallet)) refl);
  event = put_event_self d.event_id _ m.events;
}

some_eq : {A : Type 0} (a b c : A) (o : Option A) → o ≡ some a → o ≡ some b → b ≡ c → a ≡ c
some_eq a b c o p q r = cc

-- A transaction that commits after a mint, seen from the state before the mint.
written-IsRewarded :
    (env : WebhookEnv) (d : Delivery) (n : Number) (s m t : Store)
    → Kept s m
    → xp_total_of env d s ≡ some n
    → s.events d.event_id ≡ some (new_event d)
    → apply_webhook_reward (reward_args env d n s) m ≡ some t
    → IsRewarded env d s t
unfolding reward_args
written-IsRewarded env d n s m t kept xp there h =
    let (total, delta, e, fits, keys, _, found, written) =
      apply_webhook_reward-eq-some (reward_args env d n s) m t h in
    let exact : n ≡ whole (int total) = int_column_lem n total fits in
    let same_event : e ≡ new_event d =
      some_eq e (new_event d) (new_event d) (m.events d.event_id) found (rw (kept.events) there)
        refl in
    rw (written, same_event, exact)
      (write-IsRewarded env d total delta s m kept (rw exact at xp)
        (column_lem _ delta (rw exact at keys)))

Kept-IsUnrewarded : (s m : Store) → Kept s m → IsUnrewarded s m
Kept-IsUnrewarded s m k = record { ledgers = Kept-IsSame s m k; audits = k.audits }

-- A completion is rewarded, or ends in an error with the event left as received.
abbrev CompletionOutcome : WebhookEnv → Delivery → Store → Response × Store → Type 0
CompletionOutcome env d s out =
    ((out.0 ≡ ok) × IsRewarded env d s out.1)
    ⊎ ((out.0 ≡ internal_error)
        × IsUnrewarded s out.1
        × (out.1.events d.event_id ≡ some (new_event d)))

complete_quest_lem :
    (env : WebhookEnv) (d : Delivery) (s : Store)
    → s.events d.event_id ≡ some (new_event d)
    → CompletionOutcome env d s (complete_quest env d s)
unfolding complete_quest
complete_quest_lem env d s there = elim (Option-cases (xp_total_of env d s)) [
  | inl thrown ↦
      rw (thrown, complete_quest)
        (inr (refl, record { ledgers = IsSame-refl s.ledgers; audits = refl }, there))
  | inr (n, xp) ↦
      let m = ensure_base_nft_minted env.mint d.brand_id d.wallet s in
      let kept = ensure-Kept env.mint d.brand_id d.wallet s in
      let still : m.1.events d.event_id ≡ some (new_event d) = rw (Kept.events kept) there in
      let failed : (internal_error ≡ internal_error)
          × IsUnrewarded s m.1
          × (m.1.events d.event_id ≡ some (new_event d)) =
        (refl, Kept-IsUnrewarded s m.1 kept, still) in
      elim (Option-cases m.0) [
        | inl thrown ↦ rw (xp, thrown, complete_quest) (inr failed)
        | inr (r, minted) ↦ elim (Option-cases (apply_webhook_reward (reward_args env d n s) m.1)) [
          | inl thrown ↦ rw (xp, minted, thrown, complete_quest) (inr failed)
          | inr (t, written) ↦
              rw (xp, minted, written, complete_quest)
                (inl (refl, written-IsRewarded env d n s m.1 t kept xp there written))
        ]
      ]
]

-- The three ends of an event that was not delivered before.
abbrev pub IsOutcome : WebhookEnv → Delivery → Store → Response × Store → Type 0
IsOutcome env d s out =
    ((is_completion env d ≡ true) × (out.0 ≡ ok) × IsRewarded env d s out.1)
    ⊎ (((is_completion env d ≡ true)
          × (out.0 ≡ internal_error)
          × IsUnrewarded s out.1
          × (out.1.events d.event_id ≡ some (new_event d)))
        ⊎ ((is_completion env d ≡ false)
            × (out.0 ≡ ok)
            × IsUnrewarded s out.1
            × ((why : String) × (out.1.events d.event_id
                  ≡ some (closed ignored (some why) (new_event d))))))

-- The insertion of the event is not seen by what a reward is made of.
inserted-IsRewarded :
    (env : WebhookEnv) (d : Delivery) (s t : Store)
    → IsRewarded env d (insert_event d s) t
    → IsRewarded env d s t
unfolding insert_event xp_total_of get_effective_reward_rule
inserted-IsRewarded env d s t r = record {
  total = r.total;
  delta = r.delta;
  xp = r.xp;
  keys = r.keys;
  ledgers = r.ledgers;
  audits = r.audits;
  event = r.event;
}

ignored_lem :
    (env : WebhookEnv) (d : Delivery) (s : Store) (why : String)
    → IsUnrewarded s (ignore_event d why (insert_event d s))
      × ((ignore_event d why (insert_event d s)).events d.event_id
          ≡ some (closed ignored (some why) (new_event d)))
unfolding ignore_event insert_event
ignored_lem env d s why = (
  record { ledgers = IsSame-refl s.ledgers; audits = refl },
  put_event_self d.event_id _ (insert_event d s).events,
)

-- An event that was not delivered before is either a completion, and then its whole reward is
-- written (the new total and the keys that the rule gives in all five ledgers, one audit with the
-- gain, the event processed), or the answer is an error, no experience, key or reward has changed
-- for any wallet, and the event stays received; or it is no completion that names a quest and a
-- wallet, and then nothing is rewarded and the event is closed as ignored.
pub receive-IsOutcome :
    (env : WebhookEnv) (d : Delivery) (s : Store)
    → s.events d.event_id ≡ none
    → IsOutcome env d s (receive env d s)
unfolding receive insert_event
receive-IsOutcome env d s fresh =
    rw (fresh, receive)
      (elim (process_event-cases env d (insert_event d s)) [
        | inl (why, other, ended) ↦
            let (same, end) = ignored_lem env d s why in
            rw ended (inr (inr (other, refl, same, (why, end))))
        | inr (completion, completed) ↦
            rw completed
              (elim (complete_quest_lem env d (insert_event d s)
                (put_event_self d.event_id _ s.events)) [
                  | inl (good, r) ↦ inl (completion, good, inserted-IsRewarded env d s _ r)
                  | inr (bad, u, left) ↦ inr (
                      inl
                        (completion, bad, record { ledgers = u.ledgers; audits = u.audits }, left))
                ])
      ])
