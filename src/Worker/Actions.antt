-- ===== src/Worker/Actions.antt =====
-- What the four actions share, and the mint. Credits are in units of 0.0001. Between the submission
-- of a workflow and its transaction an action waits, and other requests and workers write to the
-- database: `meanwhile`.
pub mod Kinds
use text.Mathlib.Text.{◌==◌}
use dynamic_nft_krnl.Base.{
  Bool, true, false, Option, none, some, String, if◌then◌else◌, put, upsert,
}
use dynamic_nft_krnl.Base.Int.{ℤ, pos, ◌-ℤ◌, ltb_ℤ}
use dynamic_nft_krnl.Base.Text.{is_empty}
use dynamic_nft_krnl.Js.{
  Runtime, str, num, whole, int, get, fields_of, or_value, nullish, text_of, number_of,
}
use dynamic_nft_krnl.Store.{Store, Brand, RunType}
use dynamic_nft_krnl.Krnl.Submit.{Answer, SubmitArgs, submit_workflow, first_some}
use dynamic_nft_krnl.Mint.{find_ownership, upsert_ownership, upsert_token_record, non_empty}
use dynamic_nft_krnl.Zealy.Reward.{int_column}
use dynamic_nft_krnl.Worker.Queue.{
  ActionItem, mint_base_nft, apply_quest_result, update_xp, open_lootbox,
}

-- What an action takes from outside: the answer to its submission, whether a transaction hash is
-- found in time, the token in the mint's receipt, the keys read from the chain (`none` where that
-- throws), whether the authorisation data can be encoded, and what others write while it waits.
pub record ActionEnv : Type 0 where
  pub runtime : Runtime
  pub run_id : String
  pub payload_intent_id : Option String
  pub answer : Answer
  pub tx_found : Bool
  pub minted_token : Option String
  pub core_loot_keys : Option ℤ
  pub encodes : Bool
  pub meanwhile : Store → Store

abbrev pub mint_cost : ℤ
mint_cost = pos 10000

abbrev pub quest_reward_cost : ℤ
quest_reward_cost = pos 5000

abbrev pub lootbox_cost : ℤ
lootbox_cost = pos 5000

-- How an action ends: done, or thrown with a message; either way with the state it leaves.
pub data Ending : Type 0 where
  done : Ending
  thrown : String → Ending

-- Submits the workflow and waits for its transaction; whether it was found, and the state then.
unfoldable pub submit_and_wait : ActionEnv → ActionItem → RunType → Store → Bool × Store
unfolding submit_workflow
submit_and_wait env item type s =
    let args : SubmitArgs = record {
      run_id = env.run_id;
      brand_id = item.brand_id;
      wallet = item.wallet;
      run_type = type;
      payload_intent_id = env.payload_intent_id;
    } in
    let r = submit_workflow args env.answer s.runs in
    let s' : Store = record s { runs = r.1 } in
    elim r.0 [ none ↦ (false, s') | some w ↦ (env.tx_found, env.meanwhile s') ]

abbrev put_brand : String → Brand → (String → Option Brand) → String → Option Brand
put_brand id b brands i = if id == i then some b else brands i

-- `brand.update` with the credits that the action read at its start, less the cost; it throws where
-- the brand is gone.
unfoldable pub charge_brand : String → Brand → ℤ → Store → Ending × Store
charge_brand id brand cost s = elim (s.brands id) [
  | none ↦ (thrown "Record to update not found", s)
  | some b ↦ (
    done,
    record s {
      brands =
          put_brand id (record b { sponsorship_credits = brand.sponsorship_credits -ℤ cost })
            s.brands;
    },
  )
]

unfoldable pub waited : String → Brand → ℤ → Bool × Store → Ending × Store
unfolding charge_brand
waited id brand cost (false, s) = (thrown "KRNL run failed", s)
waited id brand cost (true, s) = charge_brand id brand cost s

-- A workflow that is paid for once its transaction is found.
unfoldable pub run_paid : ActionEnv → ActionItem → RunType → Brand → ℤ → Store → Ending × Store
unfolding submit_and_wait waited
run_paid env item type brand cost s =
    if env.encodes
    then waited item.brand_id brand cost (submit_and_wait env item type s)
    else (thrown "invalid value", s)

unfoldable pub resolve_token_id : ActionItem → Store → Option String
unfolding find_ownership
resolve_token_id item s = elim (non_empty item.token_id) [
  | some token ↦ some token
  | none ↦ non_empty (
      first_some (find_ownership item.brand_id item.wallet s.ownerships)
        (s.memberships item.brand_id item.wallet))
]

-- `if (brand.sponsorshipCredits < cost) throw`.
abbrev pub with_credits : Brand → ℤ → (Unit {0} → Ending × Store) → Store → Ending × Store
with_credits brand cost next s =
    if ltb_ℤ brand.sponsorship_credits cost
    then (thrown "Insufficient sponsorship credits", s)
    else next tt

-- The token's membership, owner and record.
unfoldable pub record_token : ActionItem → String → Store → Store
unfolding upsert upsert_ownership upsert_token_record
record_token item token s = record s {
  memberships = put item.brand_id item.wallet token s.memberships;
  ownerships = upsert_ownership item.brand_id token item.wallet s.ownerships;
  tokens = upsert_token_record token item.brand_id item.wallet s.tokens;
}

-- The token is recorded before the mint is paid for.
unfoldable pub mint_waited : ActionEnv → ActionItem → Brand → Bool × Store → Ending × Store
unfolding record_token charge_brand
mint_waited env item brand (false, s) = (thrown "KRNL run failed", s)
mint_waited env item brand (true, s) = elim env.minted_token [
  | none ↦ (thrown "No token in the mint's receipt", s)
  | some token ↦ charge_brand item.brand_id brand mint_cost (record_token item token s)
]

-- `runMintAction`, but for the token id that it writes to its queue item.
unfoldable pub run_mint_action : ActionEnv → ActionItem → Store → Ending × Store
unfolding upsert_ownership upsert_token_record submit_and_wait mint_waited
run_mint_action env item s = elim (s.memberships item.brand_id item.wallet) [
  | some token ↦ (
    done,
    record s {
      ownerships = upsert_ownership item.brand_id token item.wallet s.ownerships;
      tokens = upsert_token_record token item.brand_id item.wallet s.tokens;
    },
  )
  | none ↦ elim (s.brands item.brand_id) [
    | none ↦ (thrown "Brand not found", s)
    | some brand ↦ elim (s.nft_configs item.brand_id) [
      | none ↦ (thrown "NFT config not found", s)
      | some c ↦
          with_credits brand quest_reward_cost
            (λ _.
              with_credits brand mint_cost
                (λ _. mint_waited env item brand (submit_and_wait env item RunType.mint_base_nft s))
                s)
            s
    ]
  ]
]
