-- ===== src/Billing.antt =====
-- The callback of the payment provider (apps/api/src/routes/billing.ts): the credits that a brand
-- buys.
pub mod Total
pub mod Amount
pub mod Rounded
pub mod Start
mod Tests
use text.Mathlib.Text.{◌==◌ as str_eq}
use dynamic_nft_krnl.Base.{
  ℕ, Bool, true, false, ◌&&◌, ◌||◌, Option, none, some, String, List, [], ◌∷◌, if◌then◌else◌,
}
use dynamic_nft_krnl.Base.Int.{ℤ, pos, ◌+ℤ◌}
use dynamic_nft_krnl.Store.{Brand}
use dynamic_nft_krnl.Mint.{non_empty}

-- Amounts are in units of 0.0001, as credits are.
pub record Payment : Type 0 where
  pub brand_id : String
  pub amount : ℤ
  pub status : String

-- The tables that the callback reads and writes.
pub record Accounts : Type 0 where
  pub payments : String → Option Payment
  pub brands : String → Option Brand

-- `BillingWebhookBody`; `amount` is there where it is a number.
pub record Callback : Type 0 where
  pub payment_id : Option String
  pub brand_id : Option String
  pub amount : Option ℤ
  pub status : Option String

abbrev pub is_success : Option String → Bool
is_success none = false
is_success (some status) = str_eq status "completed" || str_eq status "success"

abbrev pub or_amount : ℤ → Option ℤ → ℤ
or_amount own none = own
or_amount own (some amount) = amount

abbrev pub or_status : String → Option String → String
or_status own none = own
or_status own (some status) = status

abbrev pub set_status : String → String → Payment → Accounts → Accounts
set_status id status p s = record s {
  payments = λ i. if str_eq id i then some (record p { status = status }) else s.payments i;
}

-- The transaction of a payment that went through.
unfoldable pub credit_payment : String → String → Payment → Brand → ℤ → Accounts → Accounts
credit_payment payment_id brand_id p b amount s =
    let paid = set_status payment_id "completed" p s in
    record paid {
      brands = λ i.
          if str_eq brand_id i
          then some (record b { sponsorship_credits = b.sponsorship_credits +ℤ amount })
          else s.brands i;
    }

-- The payment and its brand were found.
unfoldable pub settle_payment : Callback → String → String → Payment → Brand → Accounts → Accounts
unfolding credit_payment
settle_payment c payment_id brand_id p b s =
    if is_success c.status
    then credit_payment payment_id brand_id p b (or_amount p.amount c.amount) s
    else set_status payment_id (or_status p.status c.status) p s

unfoldable pub find_payment : Callback → Accounts → String → String → ℕ × Accounts
unfolding settle_payment
find_payment c s payment_id brand_id = elim (s.payments payment_id) [
  | none ↦ (401, s)
  | some p ↦
      if str_eq p.brand_id brand_id
      then elim (s.brands brand_id) [
        | none ↦ (401, s)
        | some b ↦ (200, settle_payment c payment_id brand_id p b s)
      ]
      else (401, s)
]

-- The route's answer and the state it leaves.
unfoldable pub billing_webhook : Callback → Accounts → ℕ × Accounts
unfolding find_payment
billing_webhook c s = elim (non_empty c.payment_id) [
  | none ↦ (401, s)
  | some payment_id ↦ elim (non_empty c.brand_id) [
    | none ↦ (401, s)
    | some brand_id ↦ find_payment c s payment_id brand_id
  ]
]
