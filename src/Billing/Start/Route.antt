-- ===== src/Billing/Start/Route.antt =====
-- The start of a payment: POST /brands/:brandId/billing/x402/start of apps/api/src/routes/brands.ts.
use text.Mathlib.Text.{◌==◌ as str_eq}
use dynamic_nft_krnl.Base.{not, ◌&&◌, Option, none, some, String, if◌then◌else◌}
use dynamic_nft_krnl.Base.Int.{pos}
use dynamic_nft_krnl.Js.{Number, Value, get, fields_of, number_of}
use dynamic_nft_krnl.Mint.{non_empty}
use dynamic_nft_krnl.Me.{Auth}
use dynamic_nft_krnl.Billing.Amount.{add_decimal}
use dynamic_nft_krnl.Billing.{Payment, Accounts}
use dynamic_nft_krnl.Billing.Start.{
  StartEnv, Requirements, Started, is_positive, is_too_large, build_payment_requirements, throws,
  child, guards, first_failure, failure, payment_required, bad_signature_format, refused, paid,
}

-- The transaction; it throws where the brand is gone.
unfoldable pub book_payment : StartEnv → String → Number → Accounts → Started × Accounts
unfolding add_decimal
book_payment env brand amount s = elim (s.brands brand) [
  | none ↦ (refused throws, s)
  | some b ↦
      let credits = add_decimal b.sponsorship_credits (env.decimal amount) in
      let payment : Payment = record {
        brand_id = brand;
        amount = add_decimal (pos 0) (env.decimal amount);
        status = "completed";
      } in
      (
        paid credits env.payment_id,
        record {
          payments = λ i. if str_eq env.payment_id i then some payment else s.payments i;
          brands = λ i.
              if str_eq brand i
              then some (record b { sponsorship_credits = credits })
              else s.brands i;
        },
      )
]

unfoldable pub check_payment :
    StartEnv → String → Number → Requirements → Option Value → Accounts → Started × Accounts
unfolding guards first_failure book_payment
check_payment env brand amount q none s = (refused bad_signature_format, s)
check_payment env brand amount q (some p) s = elim (first_failure (guards env q p)) [
  | some f ↦ (refused f, s)
  | none ↦ book_payment env brand amount s
]

-- A header that is empty counts as missing.
unfoldable pub check_header :
    StartEnv → String → Number → Option String → Accounts → Started × Accounts
unfolding build_payment_requirements check_payment
check_header env brand amount header s = elim (build_payment_requirements env brand amount) [
  | none ↦ (refused throws, s)
  | some q ↦ elim (non_empty header) [
    | none ↦ (refused (payment_required q), s)
    | some h ↦ check_payment env brand amount q (env.decode h) s
  ]
]

unfoldable pub start_payment :
    StartEnv → Auth → String → Value → Option String → Accounts → Started × Accounts
unfolding number_of get fields_of is_positive is_too_large check_header
start_payment env auth brand body header s =
    let amount = number_of env.runtime (child "amount" body) in
    if not (is_positive amount)
    then (refused (failure 400 "Invalid amount"), s)
    else if is_too_large amount
    then (refused (failure 400 "Amount too large"), s)
    else elim (env.owner_of brand) [
      | none ↦ (refused (failure 404 "Brand not found"), s)
      | some o ↦
          if env.is_known auth.privy_user_id && str_eq o auth.privy_user_id
          then check_header env brand amount header s
          else (refused (failure 403 "Not authorized for this brand"), s)
    ]
