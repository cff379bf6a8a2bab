-- ===== src/Me.antt =====
-- apps/api/src/routes/me.ts: the handlers by which a wallet buys loot keys, opens a lootbox and
-- activates traits. The table of users, which they only touch, is not modelled.
pub mod Buy
pub mod Open
pub mod Activate
pub mod Active
pub mod Outcomes
pub mod Opened
pub mod Purchase
pub mod Traits
pub mod Closed
mod Tests
use Prim.Native.String
use text.Mathlib.Text.{◌==◌}
use dynamic_nft_krnl.Base.{
  ℕ, Bool, true, false, ◌&&◌, not, Option, none, some, String, List, [], ◌∷◌, map, if◌then◌else◌,
  or_else,
}
use dynamic_nft_krnl.Base.Int.{ℤ, pos, ltb_ℤ, max_ℤ}
use dynamic_nft_krnl.Base.Text.{is_empty, trim}
use dynamic_nft_krnl.Js.{
  Runtime, Whole, int, whole, Value, str, obj, arr, nil, field, end, get, fields_of, or_value,
  nullish, text_of, number_of, integer_from,
}
use dynamic_nft_krnl.Economy.{
  PriceEnv, resolve_default_xp_per_loot_key, calculate_purchase_xp_required,
}
use dynamic_nft_krnl.Lootbox.{
  LootTableEntry, normalize_loot_table_entries, sample_weighted_loot_entries,
}
use dynamic_nft_krnl.Store.{
  Store, LootboxConfig, NftConfig, EconomyLedger, UnlockedTrait, RunType, open_lootbox,
}
use dynamic_nft_krnl.Krnl.Submit.{Answer, SubmitArgs, WorkflowSubmission, submit_workflow}
use dynamic_nft_krnl.Mint.{
  MintEnv, MintState, minted, submitted, EnsureBaseNftMintResult, ensure_base_nft_minted, non_empty,
}
use dynamic_nft_krnl.Ledger.{
  PurchaseError, PurchaseResult, insufficient_xp, not_an_integer, bought, aborted, purchase,
  consume,
}

-- What the handlers take from outside; `encodes` says whether the authorisation data of a token and
-- its traits can be encoded.
pub record MeEnv : Type 0 where
  pub runtime : Runtime
  pub prices : PriceEnv
  pub random : ℕ → ℕ
  pub mint : MintEnv
  pub run_id : String
  pub payload_intent_id : Option String
  pub answer : Answer
  pub encodes : String → List LootTableEntry → Bool

-- `req.auth`, set by `requireAuth`.
pub record Auth : Type 0 where
  pub privy_user_id : String
  pub wallet_address : Option String

pub data Response : Type 0 where
  failure : ℕ → String → Response
  -- 409, with the experience required and the one available.
  short_of_xp : Whole → Whole → Response
  -- What is left of the experience, and the loot keys.
  keys_bought : Whole → ℤ → Response
  mint_submitted : EnsureBaseNftMintResult → Response
  -- The submission, what was unlocked, the keys spent, and the balance.
  opened : WorkflowSubmission → List LootTableEntry → ℤ → ℤ → Response
  -- The submission, and the traits that are active, by name and value.
  activated : WorkflowSubmission → List (String × String) → Response

abbrev pub internal_error : Response
internal_error = failure 500 "Internal server error"

-- `String(req.body?.brandId || "").trim()`.
unfoldable pub brand_id_of : Runtime → Value → String
unfolding trim text_of or_value get fields_of
brand_id_of rt body = trim (text_of rt (or_value (get "brandId" (fields_of body)) (str "")))
