-- ===== src/Rewards/Retries.antt =====
-- An event that is processed again and again, as the retries of processZealyEvent do.
use dynamic_nft_krnl.Base.{
  refl, Option-cases, Bool, true, false, if◌then◌else◌, inl, inr, List, [], ◌∷◌, All, put,
}
use dynamic_nft_krnl.Rewards.{
  RewardEnv, EventState, Processed, done, state_of, process_quest, process_event,
  process_zealy_event,
}
use dynamic_nft_krnl.Rewards.Paid.{IsNamed, process_quest-IsPaid}
use dynamic_nft_krnl.Rewards.Charge.{IsPaid, IsPaid-refl, IsPaid-trans}

process_event-IsPaid :
    (env : RewardEnv) (s : EventState)
    → IsNamed env.reward
    → IsPaid s (state_of (process_event env s))
unfolding process_event
process_event-IsPaid env s named = elim (Option-cases (s.store.brands s.event.brand_id)) [
  | inl gone ↦ rw (gone, process_event) (IsPaid-refl s)
  | inr (b, here) ↦ elim (Option-cases (s.store.nft_configs s.event.brand_id)) [
    | inl bare ↦ rw (here, process_event) (rw bare (IsPaid-refl s))
    | inr (c, e) ↦ elim (Option-cases (s.quests s.event.brand_id s.event.zealy_quest_id)) [
      | inr (quest, q) ↦
          rw (here, process_event) (rw e (rw q (process_quest-IsPaid env named quest s b here)))
      | inl unknown ↦
          let s' : EventState = record s {
            quests = put s.event.brand_id s.event.zealy_quest_id env.new_quest_id s.quests;
          } in
          rw (here, process_event)
            (rw e (
              rw unknown (
                IsPaid-trans s s'
                  (state_of (process_quest env env.new_quest_id b.sponsorship_credits s'))
                  (record { same_brand = refl; same_wallet = refl; balanced = refl })
                  (process_quest-IsPaid env named env.new_quest_id s' b here))))
    ]
  ]
]

-- An attempt that may find nothing to do.
IsPaid-if :
    (over : Bool) (s : EventState) (p : Processed)
    → IsPaid s (state_of p)
    → IsPaid s (state_of (if over then done s else p))
IsPaid-if true s p h = IsPaid-refl s
IsPaid-if false s p h = h

process_zealy_event-IsPaid :
    (env : RewardEnv) (s : EventState)
    → IsNamed env.reward
    → IsPaid s (state_of (process_zealy_event env s))
unfolding process_zealy_event
process_zealy_event-IsPaid env s named =
    IsPaid-if s.event.is_completed s (process_event env s) (process_event-IsPaid env s named)

unfoldable pub retries : List RewardEnv → EventState → EventState
unfolding process_zealy_event
retries [] s = s
retries (env ∷ envs) s = retries envs (state_of (process_zealy_event env s))

abbrev pub IsNamedIn : RewardEnv → Type 0
IsNamedIn env = IsNamed env.reward

-- However often an event is processed, and wherever an attempt throws, the brand's credits fall by
-- exactly the cost of a mint, where the wallet had no token and now has one, and the cost of a
-- reward, where the event had no workflow and now has one: no retry pays twice, and nothing goes
-- unpaid. The ids of the workflows' runs must not be empty.
pub retries-IsPaid :
    (envs : List RewardEnv) (s : EventState) → All IsNamedIn envs → IsPaid s (retries envs s)
unfolding retries
retries-IsPaid [] s named = IsPaid-refl s
retries-IsPaid (env ∷ envs) s named =
    IsPaid-trans s (state_of (process_zealy_event env s))
      (retries envs (state_of (process_zealy_event env s)))
      (process_zealy_event-IsPaid env s named.0)
      (retries-IsPaid envs (state_of (process_zealy_event env s)) named.1)
