-- ===== src/Billing/Total.antt =====
-- What any number of callbacks adds up to.
use text.Mathlib.Text.{◌==◌ as str_eq}
use dynamic_nft_krnl.Base.{
  ◌≡◌, Bool, false, ◌&&◌, ◌||◌, Option, none, some, String, List, [], ◌∷◌, if◌then◌else◌,
}
use dynamic_nft_krnl.Base.Int.{ℤ, pos, ◌+ℤ◌}
use dynamic_nft_krnl.Store.{Brand}
use dynamic_nft_krnl.Mint.{non_empty}
use dynamic_nft_krnl.Billing.{Payment, Accounts, Callback, billing_webhook}

-- What never changes of a payment: its brand and its amount.
abbrev bill : Option Payment → Option (String × ℤ)
bill none = none
bill (some p) = some (p.brand_id, p.amount)

-- A success is reported by one of two words.
abbrev reports_success : Option String → Bool
reports_success none = false
reports_success (some word) = str_eq word "completed" || str_eq word "success"

-- The amount that a callback names, or else the payment's.
abbrev named_amount : ℤ → Option ℤ → ℤ
named_amount own none = own
named_amount own (some amount) = amount

abbrev worth_of_bill : String → Callback → Option (String × ℤ) → ℤ
worth_of_bill id c none = pos 0
worth_of_bill id c (some (owner, amount)) =
    if reports_success c.status && str_eq owner id then named_amount amount c.amount else pos 0

-- What a callback brings the brand: the amount it names, or else the payment's, where it reports
-- success and names the brand and a payment of the brand's.
unfoldable pub worth : Accounts → String → Callback → ℤ
worth s id c = elim (non_empty c.payment_id) [
  | none ↦ pos 0
  | some payment_id ↦ elim (non_empty c.brand_id) [
    | none ↦ pos 0
    | some brand_id ↦
        if str_eq brand_id id then worth_of_bill id c (bill (s.payments payment_id)) else pos 0
  ]
]

unfoldable pub total_worth : Accounts → String → List Callback → ℤ
unfolding worth
total_worth s id [] = pos 0
total_worth s id (c ∷ cs) = worth s id c +ℤ total_worth s id cs

unfoldable pub callbacks : List Callback → Accounts → Accounts
unfolding billing_webhook
callbacks [] s = s
callbacks (c ∷ cs) s = callbacks cs (billing_webhook c s).1

-- Two states with the same payments, but for their statuses.
abbrev SameBills : Accounts → Accounts → Type 0
SameBills s r = (i : String) → bill (r.payments i) ≡ bill (s.payments i)

-- A callback for the brand `id` with the row `b`: what it brings is added, and no bill changes.
record IsBooked (s : Accounts) (id : String) (b : Brand) (amount : ℤ) (r : Accounts) : Type 0 where
  booked : r.brands id ≡ some (record { sponsorship_credits = b.sponsorship_credits +ℤ amount })
  same_bills : SameBills s r
