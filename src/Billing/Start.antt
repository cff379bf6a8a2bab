-- ===== src/Billing/Start.antt =====
-- Credits that are paid for with a signed transfer of USDC, in apps/api/src/routes/brands.ts: the
-- requirements and the guards of a payment.
pub mod Route
pub mod Exact
use Prim.Native.Char.{code}
use Prim.Native.String
use text.Mathlib.Text.{◌==◌ as str_eq}
use dynamic_nft_krnl.Base.{
  ℕ, zero, suc, ◌==◌, leb, Bool, true, false, not, ◌&&◌, ◌||◌, Option, none, some, String, List, [],
  ◌∷◌, if◌then◌else◌,
}
use dynamic_nft_krnl.Base.Int.{ℤ, pos, negsuc, ◌+ℤ◌, ltb_ℤ}
use dynamic_nft_krnl.Js.{
  Runtime, Number, whole, frac, int, nan, pos_inf, neg_inf, Value, undefined, null, bool, num, str,
  arr, obj, get, fields_of, truthy, or_value, text_of, number_of,
}
use dynamic_nft_krnl.Store.{Brand}
use dynamic_nft_krnl.Krnl.Node.{is_hex}
use dynamic_nft_krnl.Mint.{non_empty}
use dynamic_nft_krnl.Me.{Auth}
use dynamic_nft_krnl.Billing.Amount.{Decimal, atomic_units}

pub record StartEnv : Type 0 where
  pub runtime : Runtime
  pub is_production : Bool
  pub owner_of : String → Option String
  -- Whether the user has a row.
  pub is_known : String → Bool
  pub pay_to : Option String
  pub base_url : String
  -- In seconds.
  pub now : ℤ
  -- `new Prisma.Decimal(amount)`.
  pub decimal : Number → Decimal
  -- `decodeB64Json` and `BigInt`; `none` where they throw.
  pub decode : String → Option Value
  pub big_int : Value → Option ℤ
  -- The id of the payment that is created.
  pub payment_id : String

-- What is required of a payment.
pub record Requirements : Type 0 where
  pub resource : String
  pub pay_to : String
  pub max_amount : String

-- The answers to a request that is not paid for; all but `failure` have the status 402.
pub data Refusal : Type 0 where
  failure : ℕ → String → Refusal
  payment_required : Requirements → Refusal
  invalid_payment : String → Refusal
  bad_signature_format : Refusal

-- With the brand's credits and the id of the payment, where it is paid.
pub data Started : Type 0 where
  refused : Refusal → Started
  paid : ℤ → String → Started

unfoldable pub is_positive : Number → Bool
is_positive (whole (int n)) = ltb_ℤ (pos 0) n
is_positive (whole nan) = false
is_positive (whole pos_inf) = false
is_positive (whole neg_inf) = false
is_positive (frac (pos n) f) = true
is_positive (frac (negsuc n) f) = false

-- Whether a number is above X402_MAX_TOPUP_USDC.
unfoldable pub is_too_large : Number → Bool
is_too_large (whole (int n)) = ltb_ℤ (pos 100) n
is_too_large (whole nan) = false
is_too_large (whole pos_inf) = true
is_too_large (whole neg_inf) = false
is_too_large (frac n f) = not (ltb_ℤ n (pos 100))

-- The requirements; `none` where `buildPaymentRequirements` throws.
unfoldable pub build_payment_requirements : StartEnv → String → Number → Option Requirements
unfolding atomic_units
build_payment_requirements env brand amount = elim env.pay_to [
  | none ↦ none
  | some to ↦ elim (atomic_units amount) [
    | none ↦ none
    | some n ↦ some (record {
      resource =
          String.◌++◌ env.base_url
            (String.◌++◌ "/api/brands/" (String.◌++◌ brand "/billing/x402/start"));
      pay_to = to;
      max_amount = env.runtime.show_number (whole (int (pos n)));
    })
  ]
]

-- `v === s`.
unfoldable pub is_text : String → Value → Bool
is_text s (str t) = str_eq t s
is_text s undefined = false
is_text s null = false
is_text s (bool b) = false
is_text s (num n) = false
is_text s (arr vs) = false
is_text s (obj fs) = false

unfoldable pub is_version : Value → Bool
is_version (num (whole (int (pos n)))) = n == 2
is_version v = false

-- A guard of the handler: the answer it gives where it does not pass.
abbrev pub unless : Bool → Refusal → Option Refusal
unless true f = none
unless false f = some f

abbrev pub throws : Refusal
throws = failure 500 "Internal server error"

-- `v?.toLowerCase() !== s.toLowerCase()`, which throws on a value that is no text.
unfoldable pub same_lower : Runtime → String → String → Value → Option Refusal
same_lower rt s reason (str t) =
    unless (str_eq (rt.to_lower t) (rt.to_lower s)) (invalid_payment reason)
same_lower rt s reason undefined = some (invalid_payment reason)
same_lower rt s reason null = some (invalid_payment reason)
same_lower rt s reason (bool b) = some throws
same_lower rt s reason (num n) = some throws
same_lower rt s reason (arr vs) = some throws
same_lower rt s reason (obj fs) = some throws

-- A bound on the time, where there is one.
unfoldable pub within : StartEnv → Value → (ℤ → Bool) → Option Refusal
unfolding truthy
within env bound test =
    if truthy bound
    then elim (env.big_int bound) [
      | none ↦ some throws
      | some n ↦ unless (test n) (invalid_payment "expired")
    ]
    else none

-- As many hexadecimal digits, and no more.
unfoldable pub is_digits : ℕ → String → Bool
unfolding is_hex
is_digits zero String.[] = true
is_digits zero (String.◌∷◌ c s) = false
is_digits (suc n) String.[] = false
is_digits (suc n) (String.◌∷◌ c s) = let rest = is_digits n s in is_hex (code c) && rest

unfoldable pub is_hex_of : ℕ → String → Bool
unfolding is_digits
is_hex_of n String.[] = false
is_hex_of n (String.◌∷◌ c String.[]) = false
is_hex_of n (String.◌∷◌ c (String.◌∷◌ d s)) = code c == 48 && code d == 120 && is_digits n s

unfoldable pub has_digits : Runtime → ℕ → Value → Option Refusal
unfolding or_value text_of is_hex_of
has_digits rt n v = unless (is_hex_of n (text_of rt (or_value v (str "")))) bad_signature_format

abbrev pub is_nothing : Value → Bool
is_nothing undefined = true
is_nothing null = true
is_nothing (bool b) = false
is_nothing (num n) = false
is_nothing (str s) = false
is_nothing (arr vs) = false
is_nothing (obj fs) = false

abbrev pub child : String → Value → Value
child k v = get k (fields_of v)

-- Whether a value has a method `slice`, which a log calls outside of production.
abbrev pub has_slice : Value → Bool
has_slice (str s) = true
has_slice (arr vs) = true
has_slice undefined = false
has_slice null = false
has_slice (bool b) = false
has_slice (num n) = false
has_slice (obj fs) = false

-- The guards on a payment, in their order.
unfoldable pub guards : StartEnv → Requirements → Value → List (Option Refusal)
unfolding get fields_of or_value is_text is_version same_lower within truthy has_digits
guards env q p =
    let accepted = child "accepted" p in
    let authorization = child "authorization" (child "payload" p) in
    unless
      (env.is_production || has_slice (or_value (child "signature" (child "payload" p)) (str "")))
      throws
    ∷ unless (not (is_nothing p)) throws
    ∷ unless (is_version (child "x402Version" p)) bad_signature_format
    ∷ unless (is_text "exact" (child "scheme" accepted)) bad_signature_format
    ∷ unless (is_text "eip155:84532" (child "network" accepted))
        (invalid_payment "network_mismatch")
    ∷ unless (is_text q.resource (child "resource" accepted)) (invalid_payment "resource_mismatch")
    ∷ same_lower env.runtime "0x036CbD53842c5426634e7929541eC2318f3dCF7e" "asset_mismatch"
        (child "asset" accepted)
    ∷ unless (truthy authorization) bad_signature_format
    ∷ same_lower env.runtime q.pay_to "payto_mismatch" (child "to" authorization)
    ∷ unless (is_text q.max_amount (child "value" authorization))
        (invalid_payment "amount_mismatch")
    ∷ within env (child "validAfter" authorization) (λ n. not (ltb_ℤ env.now n))
    ∷ within env (child "validBefore" authorization) (λ n. ltb_ℤ env.now n)
    ∷ has_digits env.runtime 130 (child "signature" (child "payload" p))
    ∷ has_digits env.runtime 64 (child "nonce" authorization)
    ∷ unless (not env.is_production) (failure 501 "facilitator_not_configured")
    ∷ []

unfoldable pub first_failure : List (Option Refusal) → Option Refusal
first_failure [] = none
first_failure (none ∷ gs) = first_failure gs
first_failure (some f ∷ gs) = some f
