-- ===== src/Rewards/Quest/Covered.antt =====
-- What a reward that is asked for takes from the brand.
use dynamic_nft_krnl.Base.{
  ◌≡◌, ◌∙◌, ap, Bool, false, Option, none, some, Option-cases, Bool-cases, inl, inr, String, arith,
}
use dynamic_nft_krnl.Base.Int.{ℤ, pos, pos_part, neg_part, ◌+ℤ◌, ◌-ℤ◌, ◌≤ℤ◌, ltb_ℤ, int_laws}
use dynamic_nft_krnl.Store.{Store, Brand, quest_reward}
use dynamic_nft_krnl.Krnl.Submit.{WorkflowSubmission}
use dynamic_nft_krnl.Rewards.{
  RewardEnv, submit, own_token, await_token, mint_token, join, mint_credit_cost,
  quest_reward_credit_cost,
}
use dynamic_nft_krnl.Rewards.Paid.{submit-brands}
use dynamic_nft_krnl.Rewards.Charge.{credits_in, charged, set_credits-charged, charged-brand}
use dynamic_nft_krnl.Rewards.Quest.{
  RewardError, Executed, executed, refused, execution_failed, reward_config, insufficient_credits,
  await_hash, pay_and_wait, submit_reward, pay_token, with_token, required_credits,
  execute_quest_reward,
}

-- The credits that are left of `c`: on success all of the cost is paid, and on an error some of it.
abbrev pub IsSpent : String → ℤ → ℤ → Executed → Type 0
IsSpent id c cost (executed run hash r) = credits_in (r.brands id) +ℤ cost ≡ c
IsSpent id c cost (refused e r) =
    (credits_in (r.brands id) ≤ℤ c) × (c ≤ℤ credits_in (r.brands id) +ℤ cost)

abbrev pub store_of : Executed → Store
store_of (executed run hash r) = r
store_of (refused e r) = r

-- Nothing was paid.
unspent :
    (id : String) (x : ℤ) (n : _) (e : RewardError) (r : Store)
    → credits_in (r.brands id) ≡ x
    → IsSpent id x (pos n) (refused e r)
unspent id x n e r h =
    (omega (int_laws, ap pos_part h, ap neg_part h), omega (int_laws, ap pos_part h, ap neg_part h))

-- What is paid before counts to the cost.
after_paying :
    (id : String) (c : ℤ) (e : Executed)
    → IsSpent id (c -ℤ pos 10000) (pos 5000) e
    → IsSpent id c (pos 15000) e
after_paying id c (executed run hash r) h = omega (int_laws, ap pos_part h, ap neg_part h)
after_paying id c (refused e r) h = (omega (int_laws, h.0, h.1), omega (int_laws, h.0, h.1))

await_hash-IsSpent :
    (env : RewardEnv) (id : String) (c : ℤ) (w : WorkflowSubmission) (s : Store)
    → credits_in (s.brands id) ≡ c -ℤ pos 5000
    → IsSpent id c (pos 5000) (await_hash env w s)
unfolding await_hash
await_hash-IsSpent env id c w s h = elim (Option-cases env.reward.awaited) [
  | inl never ↦
      rw (never, await_hash)
        ((
          omega (int_laws, ap pos_part h, ap neg_part h),
          omega (int_laws, ap pos_part h, ap neg_part h),
        ))
  | inr (hash, e) ↦ rw (e, await_hash) (omega (int_laws, ap pos_part h, ap neg_part h))
]

-- What is left after a cost that was covered.
abbrev pub IsCovered : String → ℤ → ℤ → Executed → Type 0
IsCovered id c cost e = IsSpent id c cost e × (pos 0 ≤ℤ credits_in ((store_of e).brands id))

ltb_ℤ-false : (a b : ℤ) → ltb_ℤ a b ≡ false → b ≤ℤ a
ltb_ℤ-false a b h = ground arith

left_over : (c cost x : ℤ) → cost ≤ℤ c → c ≤ℤ x +ℤ cost → pos 0 ≤ℤ x
left_over c cost x fits h = omega (int_laws, fits, h)

covered :
    (id : String) (c cost : ℤ) (e : Executed)
    → ltb_ℤ c cost ≡ false
    → IsSpent id c cost e
    → IsCovered id c cost e
covered id c cost (executed run hash r) fits h = (
  h,
  left_over c cost (credits_in (r.brands id)) (ltb_ℤ-false c cost fits)
      (omega (arith, ap pos_part h, ap neg_part h)),
)
covered id c cost (refused e r) fits h =
    (h, left_over c cost (credits_in (r.brands id)) (ltb_ℤ-false c cost fits) h.1)

required_credits-NonNegative : (token : Option String) → pos 0 ≤ℤ required_credits token
unfolding ◌+ℤ◌
required_credits-NonNegative none = ground arith
required_credits-NonNegative (some token) = ground arith

untouched :
    (id : String) (token : Option String) (b : Brand) (e : RewardError) (s : Store)
    → pos 0 ≤ℤ b.sponsorship_credits
    → s.brands id ≡ some b
    → IsCovered id b.sponsorship_credits (required_credits token) (refused e s)
untouched id token b e s rich here =
    let same = ap credits_in here in
    let cost = required_credits-NonNegative token in
    (
      (
        omega (arith, ap pos_part same, ap neg_part same),
        omega (int_laws, ap pos_part same, ap neg_part same, cost),
      ),
      omega (arith, rich, ap pos_part same, ap neg_part same),
    )

module _ (env : RewardEnv) (brand wallet : String) where
  pay_and_wait-IsSpent :
      (b : Brand) (o : Option WorkflowSubmission) (s : Store)
      → s.brands brand ≡ some b
      → IsSpent brand b.sponsorship_credits
          (pos 5000)
          (pay_and_wait env brand b.sponsorship_credits (o, s))
  unfolding pay_and_wait
  pay_and_wait-IsSpent b none s here =
      unspent brand b.sponsorship_credits 5000 execution_failed s (ap credits_in here)
  pay_and_wait-IsSpent b (some w) s here =
      let x = b.sponsorship_credits -ℤ quest_reward_credit_cost in
      rw (set_credits-charged brand x b s here, IsSpent)
        (await_hash-IsSpent env brand b.sponsorship_credits w (charged brand x b s)
          (ap credits_in (charged-brand brand x b s)))

  submit_reward-IsSpent :
      (b : Brand) (s : Store)
      → s.brands brand ≡ some b
      → IsSpent brand b.sponsorship_credits
          (pos 5000)
          (submit_reward env brand wallet b.sponsorship_credits s)
  unfolding submit_reward
  submit_reward-IsSpent b s here = elim (Bool-cases env.encodes) [
    | inr bad ↦
        rw (bad, submit_reward)
          (unspent brand b.sponsorship_credits 5000 execution_failed s (ap credits_in here))
    | inl fine ↦
        let sub = submit env.reward quest_reward brand wallet s in
        let kept = submit-brands env.reward quest_reward brand wallet s in
        rw (fine, submit_reward)
          (pay_and_wait-IsSpent b sub.0 sub.1
            (ap (λ (f : String → Option Brand). f brand) kept.0 ∙ here))
  ]

  pay_token-IsSpent :
      (b : Brand) (o : Option String) (s : Store)
      → s.brands brand ≡ some b
      → IsSpent brand b.sponsorship_credits
          (pos 15000)
          (pay_token env brand wallet b.sponsorship_credits (o, s))
  unfolding pay_token
  pay_token-IsSpent b none s here =
      unspent brand b.sponsorship_credits 15000 execution_failed s (ap credits_in here)
  pay_token-IsSpent b (some token) s here =
      let x = b.sponsorship_credits -ℤ mint_credit_cost in
      rw (set_credits-charged brand x b s here, IsSpent)
        (after_paying brand b.sponsorship_credits _ (
          submit_reward-IsSpent (record b { sponsorship_credits = x }) (charged brand x b s)
            (charged-brand brand x b s)))

  mint_token-brands : (s : Store) → (mint_token env brand wallet s).1.brands ≡ s.brands
  unfolding mint_token await_token join own_token submit
  mint_token-brands s = elim (Option-cases env.mint.awaited) [
    | inl never ↦ ground arith
    | inr (token, e) ↦ ground arith
  ]

  with_token-IsSpent :
      (b : Brand) (s : Store)
      → s.brands brand ≡ some b
      → IsSpent brand b.sponsorship_credits
          (required_credits (s.memberships brand wallet))
          (with_token env brand wallet b.sponsorship_credits s)
  unfolding with_token own_token ◌+ℤ◌
  with_token-IsSpent b s here = elim (Option-cases (s.memberships brand wallet)) [
    | inr (token, e) ↦
        rw (e, with_token) (submit_reward-IsSpent b (own_token brand wallet token s) here)
    | inl none_yet ↦
        let m = mint_token env brand wallet s in
        rw (none_yet, with_token)
          (pay_token-IsSpent b m.0 m.1
            (ap (λ (f : String → Option Brand). f brand) (mint_token-brands s) ∙ here))
  ]

  -- A reward that is asked for costs the brand its price, and the price of a mint where the wallet
  -- had no token: on success all of that is paid, on an error no more than that, and the credits do
  -- not fall below zero where they were not below it.
  pub execute_quest_reward-IsCovered :
      (has_zealy_config : String → Bool) (quest : String) (b : Brand) (s : Store)
      → s.brands brand ≡ some b
      → pos 0 ≤ℤ b.sponsorship_credits
      → IsCovered brand b.sponsorship_credits
          (required_credits (s.memberships brand wallet))
          (execute_quest_reward env has_zealy_config brand wallet quest s)
  unfolding execute_quest_reward
  execute_quest_reward-IsCovered has_zealy_config quest b s here rich =
      let unchanged =
        λ (e : RewardError). untouched brand (s.memberships brand wallet) b e s rich here in
      elim (Option-cases (s.nft_configs brand)) [
        | inl bare ↦ rw (here, execute_quest_reward) (rw bare (unchanged execution_failed))
        | inr (c, e) ↦ elim (Bool-cases (has_zealy_config brand)) [
          | inr off ↦ rw (here, execute_quest_reward) (rw e (rw off (unchanged execution_failed)))
          | inl on ↦ elim (Option-cases (s.zealy_quests brand quest)) [
            | inl unknown ↦
                rw (here, execute_quest_reward)
                  (rw e (rw on (rw unknown (unchanged execution_failed))))
            | inr (q, e') ↦ elim (Option-cases (s.quest_reward_rules brand quest)) [
              | inl unruled ↦
                  rw (here, execute_quest_reward)
                    (rw e (rw on (rw e' (rw unruled (unchanged reward_config)))))
              | inr (rule, e'') ↦
                  elim (Bool-cases
                    (ltb_ℤ b.sponsorship_credits (required_credits (s.memberships brand wallet)))) [
                      | inl poor ↦
                          rw (here, execute_quest_reward)
                            (rw e
                              (rw on (rw e' (rw e'' (rw poor (unchanged insufficient_credits))))))
                      | inr fits ↦
                          rw (here, execute_quest_reward)
                            (rw e (
                              rw on (
                                rw e' (
                                  rw e'' (
                                    rw fits (
                                      covered brand b.sponsorship_credits
                                        (required_credits (s.memberships brand wallet)) _ fits
                                        (with_token-IsSpent b s here)))))))
                    ]
            ]
          ]
        ]
      ]
