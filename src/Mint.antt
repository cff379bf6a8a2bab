-- ===== src/Mint.antt =====
-- apps/api/src/services/nftService.ts and tokenService.ts: which token a wallet holds for a brand,
-- and the mint that is submitted when it holds none.
pub mod Once
pub mod Frame
mod Tests
use text.Mathlib.Text.{◌==◌}
use dynamic_nft_krnl.Base.{
  Bool, true, false, ◌&&◌, ◌||◌, Option, none, some, String, List, [], ◌∷◌, if◌then◌else◌, Table,
  put, upsert, same_key,
}
use dynamic_nft_krnl.Base.Int.{pos}
use dynamic_nft_krnl.Base.Text.{is_empty}
use dynamic_nft_krnl.Store.{
  Store, Token, TokenOwnership, BrandUserLedger, WorkflowRun, RunType, RunStatus, mint_base_nft,
  set_metadata_uri, open_lootbox, set_active_traits, quest_reward, queued, running, succeeded,
  failed,
}
use dynamic_nft_krnl.Krnl.Submit.{
  Answer, SubmitArgs, WorkflowSubmission, submit_workflow, first_some,
}

-- What the service takes from outside: whether it runs in demo mode, the token id that the demo
-- derives by a hash, random ids, and how a submission ends.
pub record MintEnv : Type 0 where
  pub demo_mode : Bool
  pub demo_token_id : String → String → String
  pub random_run_id : String
  pub random_request_id : String
  pub payload_intent_id : Option String
  pub answer : Answer

pub data MintState : Type 0 where
  minted submitted : MintState

pub record EnsureBaseNftMintResult : Type 0 where
  pub state : MintState
  pub token_id : Option String
  pub run_id : Option String
  pub request_id : Option String
  pub intent_id : Option String

-- `upsertTokenRecord`. A token that is there keeps its owner where the new one is empty.
unfoldable pub upsert_token_record :
    String → String → String → (String → Option Token) → String → Option Token
upsert_token_record token brand owner tokens t =
    if is_empty token
    then tokens t
    else if token == t
    then elim (tokens t) [
      | none ↦ some (record { brand_id = brand; owner_address = some owner })
      | some old ↦ some (record {
        brand_id = brand;
        owner_address = if is_empty owner then old.owner_address else some owner;
      })
    ]
    else tokens t

-- `tokenOwnership.upsert` by brand and token.
unfoldable pub upsert_ownership :
    String → String → String → List TokenOwnership → List TokenOwnership
upsert_ownership brand token wallet [] =
    record { brand_id = brand; token_id = token; wallet = wallet } ∷ []
upsert_ownership brand token wallet (o ∷ os) =
    if same_key brand token o.brand_id o.token_id
    then record o { wallet = wallet } ∷ os
    else o ∷ upsert_ownership brand token wallet os

-- `tokenOwnership.findFirst` by brand and wallet.
unfoldable pub find_ownership : String → String → List TokenOwnership → Option String
find_ownership brand wallet [] = none
find_ownership brand wallet (o ∷ os) =
    if same_key brand wallet o.brand_id o.wallet
    then some o.token_id
    else find_ownership brand wallet os

unfoldable pub persist_minted_token : String → String → String → Store → Store
unfolding put upsert upsert_ownership upsert_token_record
persist_minted_token brand wallet token s = record s {
  memberships = put brand wallet token s.memberships;
  ownerships = upsert_ownership brand token wallet s.ownerships;
  tokens = upsert_token_record token brand wallet s.tokens;
  ledgers = record (s.ledgers) {
    user_ledger =
        upsert brand wallet (λ r. record r { token_id = some token })
          (record { token_id = some token; total_xp = pos 0; loot_keys = pos 0 }) s.user_ledger;
  };
}

abbrev is_mint : RunType → Bool
is_mint mint_base_nft = true
is_mint set_metadata_uri = false
is_mint open_lootbox = false
is_mint set_active_traits = false
is_mint quest_reward = false

abbrev pub is_open : RunStatus → Bool
is_open queued = true
is_open running = true
is_open succeeded = false
is_open failed = false

-- The newest mint of the wallet that is still queued or running.
unfoldable pub pending_mint : String → String → List WorkflowRun → Option WorkflowRun
pending_mint brand wallet [] = none
pending_mint brand wallet (r ∷ rs) =
    if same_key brand wallet r.brand_id r.wallet && (is_mint r.run_type && is_open r.status)
    then some r
    else pending_mint brand wallet rs

abbrev pub minted_as : String → EnsureBaseNftMintResult
minted_as token = record {
  state = minted;
  token_id = some token;
  run_id = none;
  request_id = none;
  intent_id = none;
}

-- `x` when it is there and not empty, as under `if (x)`.
abbrev pub non_empty : Option String → Option String
non_empty none = none
non_empty (some x) = if is_empty x then none else some x

-- Demo mode: a run is recorded, and the token is taken as minted.
demo_mint : MintEnv → String → String → Store → Option EnsureBaseNftMintResult × Store
unfolding persist_minted_token
demo_mint env brand wallet s =
    let token = env.demo_token_id brand wallet in
    let run : WorkflowRun = record {
      id = env.random_run_id;
      brand_id = brand;
      wallet = wallet;
      run_type = mint_base_nft;
      status = queued;
      request_id = some env.random_request_id;
      tx_intent_id = none;
      intent_id = none;
      error = none;
    } in
    (
      some (record {
        state = minted;
        token_id = some token;
        run_id = some env.random_run_id;
        request_id = some env.random_request_id;
        intent_id = none;
      }),
      persist_minted_token brand wallet token (record s { runs = run ∷ s.runs }),
    )

submitted_as : WorkflowSubmission → EnsureBaseNftMintResult
submitted_as w = record {
  state = submitted;
  token_id = none;
  run_id = some w.workflow_run_id;
  request_id = w.request_id;
  intent_id = first_some w.tx_intent_id w.intent_id;
}

-- No token and no open mint: one is submitted. `none` is an exception.
submit_mint : MintEnv → String → String → Store → Option EnsureBaseNftMintResult × Store
unfolding submit_workflow submitted_as
submit_mint env brand wallet s =
    let args : SubmitArgs = record {
      run_id = env.random_run_id;
      brand_id = brand;
      wallet = wallet;
      run_type = mint_base_nft;
      payload_intent_id = env.payload_intent_id;
    } in
    let (outcome, runs) = submit_workflow args env.answer s.runs in
    (elim outcome [ none ↦ none | some w ↦ some (submitted_as w) ], record s { runs = runs })

pending_as : WorkflowRun → EnsureBaseNftMintResult
pending_as r = record {
  state = submitted;
  token_id = none;
  run_id = some r.id;
  request_id = r.request_id;
  intent_id = first_some r.tx_intent_id r.intent_id;
}

-- `existingTokenId`, when it is not empty.
known_token : String → String → Store → Option String
unfolding find_ownership
known_token brand wallet s =
    non_empty (first_some (s.memberships brand wallet) (find_ownership brand wallet s.ownerships))

-- The part of `ensureBaseNftMinted` after the ledger held no token.
mint_unless_known : MintEnv → String → String → Store → Option EnsureBaseNftMintResult × Store
unfolding known_token pending_mint persist_minted_token demo_mint submit_mint pending_as
mint_unless_known env brand wallet s = elim (known_token brand wallet s) [
  | some token ↦ (some (minted_as token), persist_minted_token brand wallet token s)
  | none ↦ elim (pending_mint brand wallet s.runs) [
    | some r ↦ (some (pending_as r), s)
    | none ↦ if env.demo_mode then demo_mint env brand wallet s else submit_mint env brand wallet s
  ]
]

-- The token in a row of `brandUserLedger`.
abbrev pub ledger_token : Option BrandUserLedger → Option String
ledger_token none = none
ledger_token (some r) = non_empty r.token_id

-- `brandUser.upsert`.
abbrev pub with_user : String → String → Store → Store
with_user brand wallet s = record s { brand_users = upsert brand wallet (λ u. u) tt s.brand_users }

unfoldable pub ensure_base_nft_minted :
    MintEnv → String → String → Store → Option EnsureBaseNftMintResult × Store
unfolding upsert mint_unless_known
ensure_base_nft_minted env brand wallet s =
    let s' = with_user brand wallet s in
    elim (ledger_token (s.user_ledger brand wallet)) [
      | some token ↦ (some (minted_as token), s')
      | none ↦ mint_unless_known env brand wallet s'
    ]
