-- ===== src/Brands/Join.antt =====
-- A wallet that joins a brand: POST /brands/:brandId/join of apps/api/src/routes/brands.ts. Credits
-- are in units of 0.0001.
pub mod Joined
use text.Mathlib.Text.{◌==◌ as str_eq}
use dynamic_nft_krnl.Base.{
  ℕ, suc, Bool, false, not, ◌||◌, Option, none, some, String, List, [], ◌∷◌, if◌then◌else◌,
}
use dynamic_nft_krnl.Base.Int.{ℤ, pos, ◌-ℤ◌, ltb_ℤ}
use dynamic_nft_krnl.Base.Text.{is_empty}
use dynamic_nft_krnl.Js.{Runtime, Value, undefined, str, get, fields_of, if_text, whole, int}
use dynamic_nft_krnl.Krnl.Node.{first_truthy}
use dynamic_nft_krnl.Store.{Store, mint_base_nft}
use dynamic_nft_krnl.Krnl.Submit.{WorkflowSubmission}
use dynamic_nft_krnl.Mint.{non_empty}
use dynamic_nft_krnl.Me.{Auth}
use dynamic_nft_krnl.Rewards.{Workflow, submit, set_credits, mint_credit_cost, join}
use dynamic_nft_krnl.Brands.{Answer, refused, saved}

-- Whether a brand has a Zealy configuration, what the mint's submission is answered, the number of
-- the brand's memberships, and whether a text is the id of a row of User.
pub record JoinEnv : Type 0 where
  pub runtime : Runtime
  pub has_zealy_config : String → Bool
  pub mint : Workflow
  pub membership_count : ℕ
  pub is_user_id : String → Bool

-- The body of a request, and its headers for a signature.
pub record JoinRequest : Type 0 where
  pub body : Value
  pub x_user_signature : Option String
  pub x_transaction_intent_signature : Option String

abbrev header_value : Option String → Value
header_value none = undefined
header_value (some h) = str h

-- The signature of `getIntentInputs`.
unfoldable pub user_signature : JoinRequest → Option String
unfolding get fields_of
user_signature req =
    let fs = fields_of req.body in
    if_text (
      first_truthy (
        get "userSignature" fs
        ∷ get "intentSignature" fs
        ∷ get "transactionIntentSignature" fs
        ∷ header_value req.x_user_signature
        ∷ header_value req.x_transaction_intent_signature
        ∷ []))

-- `requireUserSignature`.
abbrev pub is_signed : Option String → Bool
is_signed none = false
is_signed (some x) = not (is_empty x || str_eq x "0x")

abbrev pub next_token : JoinEnv → String
next_token env = env.runtime.show_number (whole (int (pos (suc env.membership_count))))

-- The membership, of which a wallet has one and whose userId must be the id of a row of User, and the
-- token's record.
unfoldable pub add_member :
    JoinEnv → String → String → String → String → Option Store → Store → Answer String × Store
unfolding join
add_member env user brand wallet token none s = (refused 500 "Internal server error", s)
add_member env user brand wallet token (some t) s =
    if not (env.is_user_id user)
    then (refused 500 "Internal server error", t)
    else elim (t.memberships brand wallet) [
      | some old ↦ (refused 500 "Internal server error", t)
      | none ↦ (saved token, join brand wallet token t)
    ]

-- After the mint was submitted: the brand pays with the credits that were read before.
unfoldable pub pay_and_add :
    JoinEnv
    → String
    → String
    → String
    → ℤ
    → Option WorkflowSubmission × Store
    → Answer String × Store
unfolding set_credits add_member
pay_and_add env user brand wallet credits (none, s) = (refused 500 "Internal server error", s)
pay_and_add env user brand wallet credits (some r, s) =
    add_member env user brand wallet (next_token env)
      (set_credits brand (credits -ℤ mint_credit_cost) s) s

unfoldable pub join_as : JoinEnv → String → String → String → Store → Answer String × Store
unfolding submit pay_and_add
join_as env user brand wallet s = elim (s.brands brand) [
  | none ↦ (refused 404 "Brand not found", s)
  | some b ↦
      if not (env.has_zealy_config brand)
      then (refused 400 "Brand has no Zealy configuration", s)
      else if not (ltb_ℤ (pos 0) b.sponsorship_credits)
      then (refused 402 "Insufficient sponsorship credits", s)
      else pay_and_add env user brand wallet b.sponsorship_credits
          (submit env.mint mint_base_nft brand wallet s)
]

unfoldable pub join_brand : JoinEnv → Auth → String → JoinRequest → Store → Answer String × Store
unfolding join_as user_signature
join_brand env auth brand req s = elim (non_empty auth.wallet_address) [
  | none ↦ (refused 400 "Wallet required", s)
  | some wallet ↦
      if is_signed (user_signature req)
      then join_as env auth.privy_user_id brand wallet s
      else (refused 400 "missing_user_signature", s)
]
