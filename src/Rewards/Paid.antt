-- ===== src/Rewards/Paid.antt =====
-- What one attempt at an event takes from the brand.
use dynamic_nft_krnl.Base.{
  ◌≡◌, refl, ◌∙◌, ap, false, ◌&&◌, Option, none, some, Option-cases, Bool-cases, inl, inr, String,
  arith, put, put_self,
}
use dynamic_nft_krnl.Base.Int.{pos, ◌-ℤ◌, ltb_ℤ}
use dynamic_nft_krnl.Base.Text.{is_empty}
use dynamic_nft_krnl.Store.{RunType, Store, Brand, mint_base_nft, quest_reward}
use dynamic_nft_krnl.Krnl.Submit.{WorkflowSubmission, submit_workflow}
use dynamic_nft_krnl.Mint.{non_empty}
use dynamic_nft_krnl.Rewards.{
  Workflow, RewardEnv, submit, own_token, join, await_token, mint_token, resolve_evolving_token_id,
  mint_credit_cost, quest_reward_credit_cost, completed, EventState, state_of, await_reward,
  pay_reward, reward_event, pay_mint, take_token, is_rewarded, process_quest,
}
use dynamic_nft_krnl.Rewards.Charge.{
  owed_for_mint, owed_for_reward, IsPaid, IsPaid-refl, IsPaid-trans, charged, set_credits-charged,
  charged-brand, charged-memberships, balanced_charge, add_zero, zero_add,
}

await_reward-IsPaid :
    (env : RewardEnv) (quest : String) (s : EventState)
    → IsPaid s (state_of (await_reward env quest s))
unfolding await_reward
await_reward-IsPaid env quest s = elim (Option-cases env.reward.awaited) [
  | inl never ↦ rw (never, state_of) (IsPaid-refl s)
  | inr (hash, e) ↦
      rw (e, state_of) (record { same_brand = refl; same_wallet = refl; balanced = refl })
]

-- The ids of runs are not empty.
abbrev pub IsNamed : Workflow → Type 0
IsNamed w = is_empty w.run_id ≡ false

submit-id :
    (w : Workflow) (type : RunType) (brand wallet : String) (t : Store) (sub : WorkflowSubmission)
    → (submit w type brand wallet t).0 ≡ some sub
    → sub.workflow_run_id ≡ w.run_id
unfolding submit submit_workflow
submit-id w type brand wallet t sub e = ground arith

pub submit-brands :
    (w : Workflow) (type : RunType) (brand wallet : String) (t : Store)
    → ((submit w type brand wallet t).1.brands ≡ t.brands)
      × ((submit w type brand wallet t).1.memberships ≡ t.memberships)
unfolding submit
submit-brands w type brand wallet t = (refl, refl)

-- Where the mint throws there is still no membership, and else there is one.
abbrev IsMinted : EventState → Option String → Store → Type 0
IsMinted s none t = t.memberships ≡ s.store.memberships
IsMinted s (some token) t = t.memberships s.event.brand_id s.event.wallet ≡ some token

-- Waiting for a mint.
await_token-IsMinted :
    (w : Workflow) (s : EventState) (o : Option WorkflowSubmission) (t : Store)
    → t.brands ≡ s.store.brands
    → t.memberships ≡ s.store.memberships
    → ((await_token w s.event.brand_id s.event.wallet (o, t)).1.brands ≡ s.store.brands)
      × IsMinted s
          (await_token w s.event.brand_id s.event.wallet (o, t)).0
          (await_token w s.event.brand_id s.event.wallet (o, t)).1
unfolding await_token join own_token
await_token-IsMinted w s none t brands members = (brands, members)
await_token-IsMinted w s (some sub) t brands members = elim (Option-cases w.awaited) [
  | inl never ↦ rw never (brands, members)
  | inr (token, e) ↦ rw e (brands, put_self s.event.brand_id s.event.wallet token t.memberships)
]

resolve-IsMinted :
    (env : RewardEnv) (s : EventState)
    → s.store.memberships s.event.brand_id s.event.wallet ≡ none
    → ((resolve_evolving_token_id env s.event.brand_id s.event.wallet s.store).1.brands
        ≡ s.store.brands)
      × IsMinted s
          (resolve_evolving_token_id env s.event.brand_id s.event.wallet s.store).0
          (resolve_evolving_token_id env s.event.brand_id s.event.wallet s.store).1
unfolding resolve_evolving_token_id mint_token
resolve-IsMinted env s none_yet = elim (Option-cases (s.store.nft_configs s.event.brand_id)) [
  | inl bare ↦ rw (none_yet, resolve_evolving_token_id) (rw bare (refl, refl))
  | inr (c, e) ↦
      let sub = submit env.mint mint_base_nft s.event.brand_id s.event.wallet s.store in
      let kept = submit-brands env.mint mint_base_nft s.event.brand_id s.event.wallet s.store in
      rw (none_yet, resolve_evolving_token_id)
        (rw e (await_token-IsMinted env.mint s sub.0 sub.1 kept.0 kept.1))
]

module _ (env : RewardEnv) (named : IsNamed env.reward) (quest : String) where
  -- A submission that was taken is paid for.
  pay_reward-IsPaid :
      (s : EventState) (b : Brand) (o : Option WorkflowSubmission) (t : Store)
      → s.store.brands s.event.brand_id ≡ some b
      → t.brands ≡ s.store.brands
      → t.memberships ≡ s.store.memberships
      → non_empty s.event.workflow_run_id ≡ none
      → ((w : WorkflowSubmission) → o ≡ some w → is_empty w.workflow_run_id ≡ false)
      → IsPaid s (state_of (pay_reward b.sponsorship_credits (o, t) s (await_reward env quest)))
  unfolding pay_reward
  pay_reward-IsPaid s b none t here brands members fresh ids = record {
    same_brand = refl;
    same_wallet = refl;
    balanced = rw brands (rw members refl);
  }
  pay_reward-IsPaid s b (some w) t here brands members fresh ids =
      let id = s.event.brand_id in
      let x = b.sponsorship_credits -ℤ quest_reward_credit_cost in
      let there : t.brands id ≡ some b = ap (λ (f : String → Option Brand). f id) brands ∙ here in
      let s' : EventState = record s {
        store = charged id x b t;
        event = record (s.event) { workflow_run_id = some w.workflow_run_id };
      } in
      rw (set_credits-charged id x b t there) (
        IsPaid-trans s s' (state_of (await_reward env quest s'))
          (record {
            same_brand = refl;
            same_wallet = refl;
            balanced = rw (charged-brand id x b t) (
                rw here (
                  rw fresh (
                    rw (ids w refl) (
                      rw (charged-memberships id x b t) (
                        rw members (
                          balanced_charge b.sponsorship_credits
                            (owed_for_mint (s.store.memberships id s.event.wallet)) (pos 5000)
                            (owed_for_mint (s.store.memberships id s.event.wallet)) (pos 0)
                            (pos 5000) (add_zero _ (pos 5000))))))));
          })
          (await_reward-IsPaid env quest s'))

  -- The reward, for a brand with its credits as they are.
  reward_event-IsPaid :
      (s : EventState) (b : Brand)
      → s.store.brands s.event.brand_id ≡ some b
      → IsPaid s (state_of (reward_event env quest b.sponsorship_credits s))
  unfolding reward_event
  reward_event-IsPaid s b here = elim (Option-cases (non_empty s.event.workflow_run_id)) [
    | inr (run, e) ↦ elim (Bool-cases env.encodes) [
      | inl fine ↦ rw (e, reward_event) (rw fine (await_reward-IsPaid env quest s))
      | inr bad ↦ rw (e, reward_event) (rw bad (IsPaid-refl s))
    ]
    | inl fresh ↦ elim (Bool-cases (ltb_ℤ (pos 0) b.sponsorship_credits && env.encodes)) [
      | inr refused ↦ rw (fresh, reward_event) (rw refused (IsPaid-refl s))
      | inl fine ↦
          let sub = submit env.reward quest_reward s.event.brand_id s.event.wallet s.store in
          let kept =
            submit-brands env.reward quest_reward s.event.brand_id s.event.wallet s.store in
          rw (fresh, reward_event)
            (rw fine (
              pay_reward-IsPaid s b sub.0 sub.1 here kept.0 kept.1 fresh (λ w e.
                ap is_empty
                  (submit-id env.reward quest_reward s.event.brand_id s.event.wallet s.store w e)
                ∙ named)))
    ]
  ]

  -- A mint that went through is paid for.
  pay_mint-IsPaid :
      (s : EventState) (b : Brand) (token : Option String) (t : Store)
      → s.store.brands s.event.brand_id ≡ some b
      → s.store.memberships s.event.brand_id s.event.wallet ≡ none
      → t.brands ≡ s.store.brands
      → IsMinted s token t
      → IsPaid s (state_of (pay_mint env quest b.sponsorship_credits (token, t) s))
  unfolding pay_mint
  pay_mint-IsPaid s b none t here none_yet brands minted = record {
    same_brand = refl;
    same_wallet = refl;
    balanced = rw brands (rw minted refl);
  }
  pay_mint-IsPaid s b (some token) t here none_yet brands minted =
      let id = s.event.brand_id in
      let x = b.sponsorship_credits -ℤ mint_credit_cost in
      let there : t.brands id ≡ some b = ap (λ (f : String → Option Brand). f id) brands ∙ here in
      let s' : EventState = record s { store = charged id x b t } in
      rw (set_credits-charged id x b t there) (
        IsPaid-trans s s' (state_of (reward_event env quest x s'))
          (record {
            same_brand = refl;
            same_wallet = refl;
            balanced = rw (charged-brand id x b t) (
                rw here (
                  rw none_yet (
                    rw (charged-memberships id x b t) (
                      rw minted (
                        balanced_charge b.sponsorship_credits (pos 10000)
                          (owed_for_reward (non_empty s.event.workflow_run_id)) (pos 0)
                          (owed_for_reward (non_empty s.event.workflow_run_id)) (pos 10000)
                          (zero_add _ (pos 10000)))))));
          })
          (reward_event-IsPaid s' (record b { sponsorship_credits = x }) (charged-brand id x b t)))

  take_token-IsPaid :
      (s : EventState) (b : Brand)
      → s.store.brands s.event.brand_id ≡ some b
      → IsPaid s (state_of (take_token env quest b.sponsorship_credits s))
  unfolding take_token own_token
  take_token-IsPaid s b here =
      elim (Option-cases (s.store.memberships s.event.brand_id s.event.wallet)) [
        | inr (token, e) ↦
            let s' : EventState = record s {
              store = own_token s.event.brand_id s.event.wallet token s.store;
            } in
            rw (e, take_token)
              (IsPaid-trans s s' (state_of (reward_event env quest b.sponsorship_credits s'))
                (record { same_brand = refl; same_wallet = refl; balanced = refl })
                (reward_event-IsPaid s' b here))
        | inl none_yet ↦ elim (Bool-cases (ltb_ℤ (pos 0) b.sponsorship_credits)) [
          | inr poor ↦ rw (none_yet, take_token) (rw poor (IsPaid-refl s))
          | inl rich ↦
              let r = resolve_evolving_token_id env s.event.brand_id s.event.wallet s.store in
              let minted = resolve-IsMinted env s none_yet in
              rw (none_yet, take_token)
                (rw rich (pay_mint-IsPaid s b r.0 r.1 here none_yet minted.0 minted.1))
        ]
      ]

  pub process_quest-IsPaid :
      (s : EventState) (b : Brand)
      → s.store.brands s.event.brand_id ≡ some b
      → IsPaid s (state_of (process_quest env quest b.sponsorship_credits s))
  unfolding process_quest
  process_quest-IsPaid s b here = elim (Option-cases (s.quest_rewards s.event.brand_id quest)) [
    | inl unruled ↦ rw (unruled, process_quest) (IsPaid-refl s)
    | inr (rule, e) ↦ elim (Bool-cases (is_rewarded (s.progress quest s.event.wallet))) [
      | inl already ↦
          rw (e, process_quest)
            (rw already (record { same_brand = refl; same_wallet = refl; balanced = refl }))
      | inr not_yet ↦
          let s' : EventState = record s {
            progress = put quest s.event.wallet completed s.progress;
          } in
          rw (e, process_quest)
            (rw not_yet (
              IsPaid-trans s s' (state_of (take_token env quest b.sponsorship_credits s'))
                (record { same_brand = refl; same_wallet = refl; balanced = refl })
                (take_token-IsPaid s' b here)))
    ]
  ]
