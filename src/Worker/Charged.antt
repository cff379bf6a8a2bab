-- ===== src/Worker/Charged.antt =====
-- What an action does to the brand's sponsorship credits.
use text.Mathlib.TextPositions.{eq_refl}
use dynamic_nft_krnl.Base.{
  ◌≡◌, inl, inr, Bool, true, false, Option, none, some, String, arith, Option-cases, Bool-cases,
}
use dynamic_nft_krnl.Base.Int.{ℤ, pos, ◌-ℤ◌, ltb_ℤ, ◌≤ℤ◌}
use dynamic_nft_krnl.Store.{Store, Brand, RunType}
use dynamic_nft_krnl.Worker.Queue.{
  ActionType, ActionItem, mint_base_nft, apply_quest_result, update_xp, open_lootbox,
}
use dynamic_nft_krnl.Worker.Actions.{
  ActionEnv, Ending, done, thrown, mint_cost, quest_reward_cost, lootbox_cost, submit_and_wait,
  charge_brand, waited, run_paid, with_credits, record_token, mint_waited, resolve_token_id,
}
use dynamic_nft_krnl.Worker.Actions.Kinds.{run_lootbox_action}

abbrev pub credits_of : Option Brand → ℤ
credits_of none = pos 0
credits_of (some b) = b.sponsorship_credits

-- The price of an action.
abbrev pub cost_of : ActionType → ℤ
cost_of mint_base_nft = mint_cost
cost_of apply_quest_result = quest_reward_cost
cost_of open_lootbox = lootbox_cost
cost_of update_xp = quest_reward_cost

-- An action that is done has set the credits to what it had read, less the cost.
unfoldable pub Charged : String → Brand → ℤ → Ending × Store → Type 0
Charged id brand cost out =
    out.0 ≡ done → credits_of (out.1.brands id) ≡ brand.sponsorship_credits -ℤ cost

charge_Charged :
    (id : String) (b : Brand) (cost : ℤ) (s : Store) → Charged id b cost (charge_brand id b cost s)
unfolding Charged charge_brand
charge_Charged id b cost s h = ground (arith, eq_refl id)

pub false-ne-true : false ≡ true → ⊥
false-ne-true e = cc

thrown-ne-done : (m : String) → thrown m ≡ done → ⊥
thrown-ne-done m e = cc

pub thrown_Charged :
    (id : String) (b : Brand) (cost : ℤ) (m : String) (s : Store) → Charged id b cost (thrown m, s)
unfolding Charged
thrown_Charged id b cost m s h = absurd (thrown-ne-done m h)

waited-Charged :
    (id : String) (b : Brand) (cost : ℤ) (r : Bool × Store) → Charged id b cost (waited id b cost r)
unfolding waited
waited-Charged id b cost (false, s) = thrown_Charged id b cost _ s
waited-Charged id b cost (true, s) = charge_Charged id b cost s

pub paid_Charged :
    (env : ActionEnv) (item : ActionItem) (type : RunType) (b : Brand) (cost : ℤ) (s : Store)
    → Charged item.brand_id b cost (run_paid env item type b cost s)
unfolding run_paid
paid_Charged env item type b cost s = elim (Bool-cases env.encodes) [
  | inl fine ↦ rw fine (waited-Charged item.brand_id b cost (submit_and_wait env item type s))
  | inr odd ↦ rw odd (thrown_Charged item.brand_id b cost _ s)
]

pub mint_waited-Charged :
    (env : ActionEnv) (item : ActionItem) (b : Brand) (r : Bool × Store)
    → Charged item.brand_id b mint_cost (mint_waited env item b r)
unfolding mint_waited
mint_waited-Charged env item b (false, s) = thrown_Charged item.brand_id b mint_cost _ s
mint_waited-Charged env item b (true, s) = elim (Option-cases env.minted_token) [
  | inl gone ↦ rw gone (thrown_Charged item.brand_id b mint_cost _ s)
  | inr (token, got) ↦ rw got (charge_Charged item.brand_id b mint_cost (record_token item token s))
]

-- The same of an action that first checks the credits: they covered the cost.
unfoldable pub Covered : String → Brand → ℤ → Ending × Store → Type 0
unfolding Charged
Covered id brand cost out =
    out.0 ≡ done
    → (credits_of (out.1.brands id) ≡ brand.sponsorship_credits -ℤ cost)
      × (cost ≤ℤ brand.sponsorship_credits)

pub thrown_Covered :
    (id : String) (b : Brand) (cost : ℤ) (m : String) (s : Store) → Covered id b cost (thrown m, s)
unfolding Covered
thrown_Covered id b cost m s h = absurd (thrown-ne-done m h)

pub checked_Covered :
    (id : String) (b : Brand) (cost : ℤ) (next : Unit {0} → Ending × Store) (s : Store)
    → Charged id b cost (next tt)
    → Covered id b cost (with_credits b cost next s)
unfolding Charged Covered
checked_Covered id b cost next s charged = elim (Bool-cases (ltb_ℤ b.sponsorship_credits cost)) [
  | inl short ↦ rw short (λ h. absurd (thrown-ne-done _ h))
  | inr enough ↦ rw enough (λ h. (charged h, ground arith))
]

pub lootbox_Covered :
    (env : ActionEnv) (item : ActionItem) (s : Store) (b : Brand)
    → s.brands item.brand_id ≡ some b
    → Covered item.brand_id b lootbox_cost (run_lootbox_action env item s)
unfolding run_lootbox_action
lootbox_Covered env item s b there = elim (Option-cases (resolve_token_id item s)) [
  | inl gone ↦ rw (gone, run_lootbox_action) (thrown_Covered item.brand_id b lootbox_cost _ s)
  | inr (token, held) ↦
      rw (held, there, run_lootbox_action)
        (checked_Covered item.brand_id b lootbox_cost
          (λ _. run_paid env item RunType.open_lootbox b lootbox_cost s) s
          (paid_Charged env item RunType.open_lootbox b lootbox_cost s))
]

-- A further check does not weaken this.
pub again_Covered :
    (id : String) (b : Brand) (cost other : ℤ) (next : Unit {0} → Ending × Store) (s : Store)
    → Covered id b cost (next tt)
    → Covered id b cost (with_credits b other next s)
again_Covered id b cost other next s covered =
    elim (Bool-cases (ltb_ℤ b.sponsorship_credits other)) [
      | inl short ↦ rw short (thrown_Covered id b cost _ s)
      | inr enough ↦ rw enough covered
    ]
