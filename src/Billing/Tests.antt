-- ===== src/Billing/Tests.antt =====
-- A callback that arrives twice, and others that are refused or fail.
use text.Mathlib.Text.{◌==◌ as str_eq}
use dynamic_nft_krnl.Base.{
  ◌≡◌, refl, false, true, ◌^◌, ◌-◌, Option, none, some, String, List, [], ◌∷◌, if◌then◌else◌,
}
use dynamic_nft_krnl.Base.Int.{ℤ, pos, ◌+ℤ◌}
use dynamic_nft_krnl.Billing.Amount.{Decimal, bits, scale, to_double, atomic_units, add_decimal}
use dynamic_nft_krnl.Js.{
  number_of, get, fields_of, Number, frac, Value, num, str, obj, end, field, whole, int,
}
use dynamic_nft_krnl.Me.{Auth}
use dynamic_nft_krnl.Fixtures.{plain, a_hash}
use dynamic_nft_krnl.Billing.Start.{StartEnv}
use dynamic_nft_krnl.Billing.Start.Route.{start_payment}
use dynamic_nft_krnl.Billing.Start.Exact.{IsExact, start_payment-IsExact}
use dynamic_nft_krnl.Billing.{Accounts, Callback, billing_webhook}
use dynamic_nft_krnl.Billing.Total.{callbacks}

abbrev accounts : Accounts
accounts = record {
  payments = λ i.
      if str_eq i "pay-1"
      then some (record { brand_id = "acme"; amount = pos 50000; status = "created" })
      else none;
  brands = λ b. some (record { sponsorship_credits = pos 20000 });
}

abbrev about : String → String → Option ℤ → Callback
about brand status amount = record {
  payment_id = some "pay-1";
  brand_id = some brand;
  amount = amount;
  status = some status;
}

abbrev twice_and_more : List Callback
twice_and_more =
    about "acme" "completed" none
    ∷ about "acme" "completed" none
    ∷ about "acme" "failed" none
    ∷ about "other" "completed" none
    ∷ []

counted_twice :
    (callbacks twice_and_more accounts).brands "acme"
    ≡ some (record { sponsorship_credits = pos 120000 })
unfolding callbacks ◌+ℤ◌
counted_twice = refl

of_another_brand : (billing_webhook (about "other" "completed" (some (pos 7))) accounts).0 ≡ 401
unfolding billing_webhook
of_another_brand = refl

-- 130 digits.
abbrev signature : String
signature =
    "0x0123456789012345678901234567890123456789012345678901234567890123456789012345678901234567890123456789012345678901234567890123456789"

abbrev payment : Value
payment = obj (
    field "x402Version" (num (whole (int (pos 2)))) (
      field "accepted"
        (obj (
          field "scheme" (str "exact") (
            field "network" (str "eip155:84532") (
              field "resource" (str "https://a/api/brands/acme/billing/x402/start")
                (field "asset" (str "0x036CbD53842c5426634e7929541eC2318f3dCF7e") end)))))
        (field "payload"
          (obj (
            field "signature" (str signature) (
              field "authorization"
                (obj (
                  field "to" (str "0xp")
                    (field "value" (str "5000000") (field "nonce" (str a_hash) end))))
                end)))
          end)))

abbrev whole_decimal : Number → Decimal
whole_decimal (whole (int (pos n))) = record { digits = n; places = 0 }
whole_decimal _ = record { digits = 0; places = 0 }

-- A half is 500000 units; 1.50005 credits, 15000.5 units, are rounded up.
half_units : atomic_units (frac (pos 0) (2 ^ 1073 - 1)) ≡ some 500000
unfolding atomic_units to_double scale bits
half_units = refl

rounded_credits : add_decimal (pos 7) (record { digits = 150005; places = 5 }) ≡ pos 15008
unfolding add_decimal
rounded_credits = refl

abbrev start_env : StartEnv
start_env = record {
  runtime = record plain { show_number = λ n. "5000000" };
  is_production = false;
  owner_of = λ b. some "ann";
  is_known = λ u. true;
  pay_to = some "0xp";
  base_url = "https://a";
  now = pos 1000;
  decimal = whole_decimal;
  decode = λ h. some payment;
  big_int = λ v. none;
  payment_id = "pay-2";
}

abbrev ann : Auth
ann = record { privy_user_id = "ann"; wallet_address = some "0xa" }

abbrev five : Value
five = obj (field "amount" (num (whole (int (pos 5)))) end)

abbrev after_start : Accounts
after_start = (start_payment start_env ann "acme" five (some "header") accounts).1

credited_once : after_start.brands "acme" ≡ some (record { sponsorship_credits = pos 70000 })
unfolding start_payment ◌+ℤ◌
credited_once = refl

-- The same header again.
replayed :
    (start_payment start_env ann "acme" five (some "header") after_start).1.brands "acme"
    ≡ some (record { sponsorship_credits = pos 120000 })
unfolding start_payment ◌+ℤ◌
replayed = refl

start_payment-IsExact_example :
    IsExact start_env ann "acme" five accounts
      (start_payment start_env ann "acme" five (some "header") accounts)
unfolding number_of get fields_of
start_payment-IsExact_example =
    start_payment-IsExact start_env ann "acme" five (some "header") accounts
      (record { of_whole = λ k. refl }) tt
