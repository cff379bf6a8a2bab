-- ===== src/Billing/Start/Exact.antt =====
-- What a payment must be to be credited, and what it credits.
use Prim.Native.String
use text.Mathlib.Text.{◌==◌ as str_eq}
use text.Mathlib.TextEquality.{eq_iff}
use text.Mathlib.TextPositions.{eq_refl}
use dynamic_nft_krnl.Base.{
  ℕ, subst, ◌*◌, ◌≡◌, refl, ◌∙◌, ap, Option-cases, inl, inr, none-ne-some, some_injective, sym,
  Bool, true, false, not, ◌&&◌, Option, none, some, String, List, [], ◌∷◌, All, arith,
  if◌then◌else◌,
}
use dynamic_nft_krnl.Base.Int.{ℤ, pos, ◌+ℤ◌}
use dynamic_nft_krnl.Js.{
  Number, whole, int, Value, undefined, null, bool, num, str, arr, obj, get, fields_of, number_of,
}
use dynamic_nft_krnl.Store.{Brand}
use dynamic_nft_krnl.Mint.{non_empty}
use dynamic_nft_krnl.Me.{Auth}
use dynamic_nft_krnl.Billing.Amount.{atomic_units, add_decimal, add_decimal-whole}
use dynamic_nft_krnl.Billing.Rounded.{
  IsSum, add_decimal-IsSum, IsNear, IsProper, atomic_units-IsNear,
}
use dynamic_nft_krnl.Billing.{Accounts}
use dynamic_nft_krnl.Billing.Start.{
  StartEnv, Requirements, Refusal, Started, refused, paid, unless, guards, is_text, first_failure,
  child, build_payment_requirements, is_positive, is_too_large,
}
use dynamic_nft_krnl.Billing.Start.Route.{book_payment, check_payment, check_header, start_payment}

-- The decimal of a whole number has its digits and no places.
pub record IsWholeDecimal (env : StartEnv) : Type 0 where
  pub of_whole : (k : ℕ) → env.decimal (whole (int (pos k))) ≡ record { digits = k; places = 0 }

-- A payment outside of production that names the brand's resource and the units of the amount, a
-- million for each USDC.
pub record IsRequired (env : StartEnv) (brand : String) (amount : Number) (p : Value) : Type 0 where
  pub units : ℕ
  pub is_near : IsNear amount units
  pub for_resource :
      child "resource" (child "accepted" p)
      ≡ str (
          String.◌++◌ env.base_url
            (String.◌++◌ "/api/brands/" (String.◌++◌ brand "/billing/x402/start")))
  pub of_amount :
      child "value" (child "authorization" (child "payload" p))
      ≡ str (env.runtime.show_number (whole (int (pos units))))
  pub in_development : env.is_production ≡ false

-- The brand's credits have risen by ten thousand units for each USDC of a whole amount, and are the
-- nearest to the sum with another where they were not below zero; others keep theirs.
pub record IsCredited (env : StartEnv) (brand : String) (amount : Number) (s s' : Accounts) (c : ℤ)
    : Type 0 where
  pub before : Brand
  pub was : s.brands brand ≡ some before
  pub is_now : s'.brands brand ≡ some (record { sponsorship_credits = c })
  pub is_sum : (b : ℕ) → before.sponsorship_credits ≡ pos b → IsSum b (env.decimal amount) c
  pub of_whole :
      (k : ℕ) → amount ≡ whole (int (pos k)) → c ≡ before.sponsorship_credits +ℤ pos (k * 10000)
  pub others : (b : String) → str_eq brand b ≡ false → s'.brands b ≡ s.brands b

abbrev pub amount_of : StartEnv → Value → Number
amount_of env body = number_of env.runtime (child "amount" body)

-- What is refused changes nothing; what is paid was asked for by the brand's owner, with an amount up
-- to 100, and with a payment of exactly that.
abbrev pub IsExact : StartEnv → Auth → String → Value → Accounts → Started × Accounts → Type 0
IsExact env auth brand body s (refused f, s') = s' ≡ s
IsExact env auth brand body s (paid c id, s') =
    (env.owner_of brand ≡ some auth.privy_user_id)
    × (is_too_large (amount_of env body) ≡ false)
    × ((p : Value) × IsRequired env brand (amount_of env body) p)
    × IsCredited env brand (amount_of env body) s s' c

unless-passed : (b : Bool) (f : Refusal) → unless b f ≡ none → b ≡ true
unless-passed true f h = refl
unless-passed false f h = cc

abbrev IsPassed : Option Refusal → Type 0
IsPassed g = g ≡ none

first_failure-IsPassed : (gs : List (Option Refusal)) → first_failure gs ≡ none → All IsPassed gs
unfolding first_failure
first_failure-IsPassed [] h = tt
first_failure-IsPassed (none ∷ gs) h = (refl, first_failure-IsPassed gs h)
first_failure-IsPassed (some f ∷ gs) h = cc

and_true : (a b : Bool) → a && b ≡ true → b ≡ true
and_true a b h = ground arith

not-true : (b : Bool) → not b ≡ true → b ≡ false
not-true b h = ground arith

is_text-eq : (s : String) (v : Value) → is_text s v ≡ true → v ≡ str s
unfolding is_text
is_text-eq s (str t) h = ap (λ (u : String). str u) ((eq_iff t s).0 h)
is_text-eq s undefined h = cc
is_text-eq s null h = cc
is_text-eq s (bool b) h = cc
is_text-eq s (num n) h = cc
is_text-eq s (arr vs) h = cc
is_text-eq s (obj fs) h = cc

-- What is required of a payment of an amount.
record IsBuilt (env : StartEnv) (brand : String) (amount : Number) (q : Requirements) : Type 0 where
  units : ℕ
  rounded : atomic_units amount ≡ some units
  resource :
      q.resource
      ≡ String.◌++◌ env.base_url
          (String.◌++◌ "/api/brands/" (String.◌++◌ brand "/billing/x402/start"))
  max_amount : q.max_amount ≡ env.runtime.show_number (whole (int (pos units)))

build_payment_requirements-IsBuilt :
    (env : StartEnv) (brand : String) (amount : Number) (q : Requirements)
    → build_payment_requirements env brand amount ≡ some q
    → IsBuilt env brand amount q
unfolding build_payment_requirements
build_payment_requirements-IsBuilt env brand amount q h = elim (Option-cases env.pay_to) [
  | inl unset ↦ absurd (none-ne-some q (rw (unset, build_payment_requirements) at h))
  | inr (to, set) ↦ elim (Option-cases (atomic_units amount)) [
    | inl unsafe ↦
        absurd (none-ne-some q (rw unsafe at (rw (set, build_payment_requirements) at h)))
    | inr (u, rounded) ↦
        (let e = some_injective _ q (rw rounded at (rw (set, build_payment_requirements) at h)) in
          record {
            units = u;
            rounded = rounded;
            resource = sym (ap (λ (r : Requirements). r.resource) e);
            max_amount = sym (ap (λ (r : Requirements). r.max_amount) e);
          })
  ]
]

guards-IsRequired :
    (env : StartEnv) (brand : String) (amount : Number) (q : Requirements) (p : Value)
    → is_too_large amount ≡ false
    → IsProper amount
    → build_payment_requirements env brand amount ≡ some q
    → first_failure (guards env q p) ≡ none
    → IsRequired env brand amount p
unfolding guards get fields_of
guards-IsRequired env brand amount q p small proper build h =
    let all = first_failure-IsPassed (guards env q p) h in
    let built = build_payment_requirements-IsBuilt env brand amount q build in
    record {
      units = built.units;
      is_near = atomic_units-IsNear amount built.units small proper built.rounded;
      for_resource =
          is_text-eq q.resource _ (unless-passed _ _ all.1.1.1.1.1.0)
          ∙ ap (λ (t : String). str t) built.resource;
      of_amount =
          is_text-eq q.max_amount _ (unless-passed _ _ all.1.1.1.1.1.1.1.1.1.0)
          ∙ ap (λ (t : String). str t) built.max_amount;
      in_development =
          not-true env.is_production (unless-passed _ _ all.1.1.1.1.1.1.1.1.1.1.1.1.1.1.0);
    }

-- A fact of a case split, from one of each case.
Option-split :
    {A B : Type 0} (P : B → Type 0) (o : Option A) (n : B) (f : A → B)
    → (o ≡ none → P n)
    → ((a : A) → o ≡ some a → P (f a))
    → P (elim o [ none ↦ n | some a ↦ f a ])
Option-split P none n f hn hs = hn refl
Option-split P (some a) n f hn hs = hs a refl

if-split :
    {B : Type 0} (P : B → Type 0) (b : Bool) (x y : B)
    → (b ≡ true → P x)
    → (b ≡ false → P y)
    → P (if b then x else y)
if-split P true x y hx hy = hx refl
if-split P false x y hx hy = hy refl

module _ (env : StartEnv) (auth : Auth) (brand : String) (body : Value) (s : Accounts)
    (exact : IsWholeDecimal env) (proper : IsProper (amount_of env body)) where
  book_payment-IsExact :
      env.owner_of brand ≡ some auth.privy_user_id
      → is_too_large (amount_of env body) ≡ false
      → ((p : Value) × IsRequired env brand (amount_of env body) p)
      → IsExact env auth brand body s (book_payment env brand (amount_of env body) s)
  unfolding book_payment
  book_payment-IsExact own small required =
      Option-split (IsExact env auth brand body s) (s.brands brand) _ _ (λ gone. refl)
        (λ b here. (
          own,
          small,
          required,
          record {
            before = b;
            was = here;
            is_now = rw (eq_refl brand) refl;
            is_sum = λ n credits.
                subst
                  (λ (z : ℤ).
                    IsSum n (env.decimal (amount_of env body))
                      (add_decimal z (env.decimal (amount_of env body))))
                  (sym credits) (add_decimal-IsSum n (env.decimal (amount_of env body)));
            of_whole = λ k w.
                (ap (λ (a : Number). add_decimal b.sponsorship_credits (env.decimal a)) w
                  ∙ ap (add_decimal b.sponsorship_credits) (exact.of_whole k)
                  ∙ add_decimal-whole b.sponsorship_credits k);
            others = λ i other. rw other refl;
          },
        ))

  check_header-IsExact :
      (header : Option String)
      → env.owner_of brand ≡ some auth.privy_user_id
      → is_too_large (amount_of env body) ≡ false
      → IsExact env auth brand body s (check_header env brand (amount_of env body) header s)
  unfolding check_header check_payment
  check_header-IsExact header own small =
      Option-split (IsExact env auth brand body s)
        (build_payment_requirements env brand (amount_of env body)) _ _ (λ e. refl)
        (λ q build.
          Option-split (IsExact env auth brand body s) (non_empty header) _ _ (λ e. refl)
            (λ h given. decoded q build (env.decode h)))
    where
      decoded :
          (q : Requirements)
          → build_payment_requirements env brand (amount_of env body) ≡ some q
          → (o : Option Value)
          → IsExact env auth brand body s (check_payment env brand (amount_of env body) q o s)
      decoded q build none = refl
      decoded q build (some p) =
          Option-split (IsExact env auth brand body s) (first_failure (guards env q p)) _ _
            (λ all_passed. book_payment-IsExact own small (
              p,
              guards-IsRequired env brand (amount_of env body) q p small proper build all_passed,
            ))
            (λ f failed. refl)

-- A request to pay for a brand's credits that is refused changes nothing. One that is paid comes
-- from the brand's owner, for an amount up to 100, outside of production, with a payment that names
-- the brand's resource and the units of the amount: a million for each USDC of a whole amount, and
-- what differs from a million times another amount by one at most. The brand's credits rise by a
-- whole amount, and where they were not below zero they become the nearest to the sum with any
-- other amount in four places; those of other brands stay. The decimal of a whole number must have
-- no places, and what a fraction exceeds its floor by be below one.
pub start_payment-IsExact :
    (env : StartEnv) (auth : Auth) (brand : String) (body : Value) (header : Option String)
    (s : Accounts)
    → IsWholeDecimal env
    → IsProper (amount_of env body)
    → IsExact env auth brand body s (start_payment env auth brand body header s)
unfolding start_payment
start_payment-IsExact env auth brand body header s exact proper =
    if-split (IsExact env auth brand body s) (not (is_positive (amount_of env body))) _ _
      (λ e. refl)
      (λ positive.
        if-split (IsExact env auth brand body s) (is_too_large (amount_of env body)) _ _ (λ e. refl)
          (λ small.
            Option-split (IsExact env auth brand body s) (env.owner_of brand) _ _ (λ e. refl)
              (λ o e.
                if-split (IsExact env auth brand body s)
                  (env.is_known auth.privy_user_id && str_eq o auth.privy_user_id) _ _
                  (λ own.
                    check_header-IsExact env auth brand body s exact proper header
                      (e
                        ∙ ap (λ (u : String). some u)
                            ((eq_iff o auth.privy_user_id).0 (and_true _ _ own)))
                      small)
                  (λ e. refl))))
