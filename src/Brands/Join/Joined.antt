-- ===== src/Brands/Join/Joined.antt =====
-- The ends of a request to join a brand.
use text.Mathlib.Text.{◌==◌ as str_eq}
use text.Mathlib.TextPositions.{eq_refl}
use dynamic_nft_krnl.Base.{
  ◌≡◌, refl, sym, ap, ◌∙◌, true, false, ◌⊎◌, Option, none, some, String, arith, inl, inr,
  Option-cases, Bool-cases, if◌then◌else◌, put_self, is_some,
}
use dynamic_nft_krnl.Base.Int.{pos, ◌-ℤ◌, ◌≤ℤ◌, ltb_ℤ}
use dynamic_nft_krnl.Base.Text.{is_empty}
use dynamic_nft_krnl.Store.{Store, Brand, Token}
use dynamic_nft_krnl.Krnl.Submit.{WorkflowSubmission}
use dynamic_nft_krnl.Mint.{non_empty, upsert_token_record}
use dynamic_nft_krnl.Me.{Auth}
use dynamic_nft_krnl.Rewards.{submit, set_credits, mint_credit_cost, join, own_token}
use dynamic_nft_krnl.Brands.{Answer, refused, saved}
use dynamic_nft_krnl.Brands.Join.{
  JoinEnv, JoinRequest, user_signature, is_signed, next_token, add_member, pay_and_add, join_as,
  join_brand,
}

-- The credits of a brand that are left after the price of a mint; others keep theirs.
abbrev IsPaid : String → Store → Store → Type 0
IsPaid brand s s' =
    (b : Brand) × (s.brands brand ≡ some b)
    × (pos 1 ≤ℤ b.sponsorship_credits)
    × (s'.brands brand
        ≡ some (record b { sponsorship_credits = b.sponsorship_credits -ℤ mint_credit_cost }))
    × ((other : String) → str_eq brand other ≡ false → s'.brands other ≡ s.brands other)

-- The record of a token, unless its text is empty, is the brand's and the wallet's; others stay.
abbrev IsRecorded :
    String → String → String → (String → Option Token) → (String → Option Token) → Type 0
IsRecorded token brand wallet t t' =
    ((is_empty token ≡ true)
      ⊎ (t' token ≡ some (record { brand_id = brand; owner_address = some wallet })))
    × ((other : String) → str_eq token other ≡ false → t' other ≡ t other)

upsert_token_record_self :
    (token brand wallet : String) (t : String → Option Token)
    → is_empty wallet ≡ false
    → is_empty token ≡ false
    → upsert_token_record token brand wallet t token
      ≡ some (record { brand_id = brand; owner_address = some wallet })
unfolding upsert_token_record
upsert_token_record_self token brand wallet t full named = elim (Option-cases (t token)) [
  | inl new ↦ rw named (rw (eq_refl token) (rw new refl))
  | inr (old, e) ↦ rw named (rw (eq_refl token) (rw e (rw full refl)))
]

upsert_token_record_other :
    (token brand wallet other : String) (t : String → Option Token)
    → str_eq token other ≡ false
    → upsert_token_record token brand wallet t other ≡ t other
unfolding upsert_token_record
upsert_token_record_other token brand wallet other t far = elim (Bool-cases (is_empty token)) [
  | inl blank ↦ rw blank refl
  | inr named ↦ rw named (rw far refl)
]

upsert_token_record-IsRecorded :
    (token brand wallet : String) (t t' : String → Option Token)
    → is_empty wallet ≡ false
    → t' ≡ upsert_token_record token brand wallet t
    → IsRecorded token brand wallet t t'
upsert_token_record-IsRecorded token brand wallet t t' full wrote = (
  elim (Bool-cases (is_empty token)) [
    | inl blank ↦ inl blank
    | inr named ↦
        inr (ap (λ f. f token) wrote ∙ upsert_token_record_self token brand wallet t full named)
  ],
  λ other far. ap (λ f. f other) wrote ∙ upsert_token_record_other token brand wallet other t far,
)

-- One that is refused keeps brands and memberships, or it has paid and the user's Privy subject is
-- the id of no row of User or the wallet is a member already. One that is saved has paid, and the
-- wallet, which was none, is a member with the token.
abbrev pub IsJoined : JoinEnv → Auth → String → JoinRequest → Store → Answer String × Store → Type 0
IsJoined env auth brand req s (refused code m, s') =
    ((s'.brands ≡ s.brands) × (s'.memberships ≡ s.memberships))
    ⊎ ((wallet : String) × (auth.wallet_address ≡ some wallet)
        × IsPaid brand s s'
        × ((env.is_user_id auth.privy_user_id ≡ false)
            ⊎ (is_some (s.memberships brand wallet) ≡ true))
        × (s'.memberships ≡ s.memberships))
IsJoined env auth brand req s (saved token, s') =
    (wallet : String) × (auth.wallet_address ≡ some wallet)
    × (is_signed (user_signature req) ≡ true)
    × (env.has_zealy_config brand ≡ true)
    × (env.is_user_id auth.privy_user_id ≡ true)
    × IsPaid brand s s'
    × (s.memberships brand wallet ≡ none)
    × (s'.memberships brand wallet ≡ some token)
    × IsRecorded token brand wallet s.tokens s'.tokens

module _ (env : JoinEnv) (auth : Auth) (brand wallet : String) (req : JoinRequest) (s : Store)
    (own : auth.wallet_address ≡ some wallet) (full : is_empty wallet ≡ false)
    (signed : is_signed (user_signature req) ≡ true) where
  module _ (b : Brand) (has : env.has_zealy_config brand ≡ true) (there : s.brands brand ≡ some b)
      (rich : pos 1 ≤ℤ b.sponsorship_credits) where
    left : Brand
    left = record b { sponsorship_credits = b.sponsorship_credits -ℤ mint_credit_cost }

    abbrev paid_of : Store → Store
    paid_of t = record t { brands = λ i. if str_eq brand i then some left else t.brands i }

    paid_of-IsPaid : (t : Store) → t.brands ≡ s.brands → IsPaid brand s (paid_of t)
    unfolding left
    paid_of-IsPaid t kept =
        (b, there, rich, rw (eq_refl brand) refl, λ other e. rw e (ap (λ f. f other) kept))

    set_credits-paid_of :
        (t : Store)
        → t.brands ≡ s.brands
        → set_credits brand (b.sponsorship_credits -ℤ mint_credit_cost) t ≡ some (paid_of t)
    unfolding set_credits left
    set_credits-paid_of t kept = rw (ap (λ f. f brand) kept ∙ there, set_credits) refl

    add_member-IsJoined :
        (t : Store)
        → t.brands ≡ s.brands
        → t.memberships ≡ s.memberships
        → t.tokens ≡ s.tokens
        → (again : Store)
        → IsJoined env auth brand req s (
            add_member env auth.privy_user_id brand wallet
              (next_token env)
              (some (paid_of t))
              again)
    unfolding add_member join own_token
    add_member-IsJoined t brands members tokens again =
        elim (Bool-cases (env.is_user_id auth.privy_user_id)) [
          | inr foreign ↦
              rw (foreign, IsJoined)
                (inr (wallet, own, paid_of-IsPaid t brands, inl foreign, members))
          | inl user ↦ elim (Option-cases (t.memberships brand wallet)) [
            | inr (old, e) ↦ rw user (
                rw (e, add_member, IsJoined)
                  (inr (
                    wallet,
                    own,
                    paid_of-IsPaid t brands,
                    inr (rw (sym (ap (λ f. f brand wallet) members) ∙ e) refl),
                    members,
                  )))
            | inl new ↦ rw user (
                rw (new, add_member, IsJoined)
                  (
                    wallet,
                    own,
                    signed,
                    has,
                    user,
                    paid_of-IsPaid t brands,
                    sym (ap (λ f. f brand wallet) members) ∙ new,
                    put_self brand wallet (next_token env) t.memberships,
                    upsert_token_record-IsRecorded (next_token env) brand wallet s.tokens _ full
                        (ap (upsert_token_record (next_token env) brand wallet) tokens),
                  ))
          ]
        ]

    pay_and_add-IsJoined :
        (r : Option WorkflowSubmission) (t : Store)
        → t.brands ≡ s.brands
        → t.memberships ≡ s.memberships
        → t.tokens ≡ s.tokens
        → IsJoined env auth brand req s
            (pay_and_add env auth.privy_user_id brand wallet b.sponsorship_credits (r, t))
    unfolding pay_and_add
    pay_and_add-IsJoined none t brands members tokens = inl (brands, members)
    pay_and_add-IsJoined (some r) t brands members tokens =
        rw (set_credits-paid_of t brands) (add_member-IsJoined t brands members tokens t)

  join_as-IsJoined : IsJoined env auth brand req s (join_as env auth.privy_user_id brand wallet s)
  unfolding join_as submit
  join_as-IsJoined = elim (Option-cases (s.brands brand)) [
    | inl gone ↦ rw (gone, join_as, IsJoined) (inl (refl, refl))
    | inr (b, there) ↦ elim (Bool-cases (env.has_zealy_config brand)) [
      | inr bare ↦ rw (there, join_as) (rw (bare, IsJoined) (inl (refl, refl)))
      | inl has ↦ elim (Bool-cases (ltb_ℤ (pos 0) b.sponsorship_credits)) [
        | inr poor ↦ rw (there, join_as) (rw has (rw (poor, IsJoined) (inl (refl, refl))))
        | inl rich ↦
            rw (there, join_as)
              (rw has
                (rw rich (pay_and_add-IsJoined b has there (ground arith) _ _ refl refl refl)))
      ]
    ]
  ]

-- A request to join a brand that is saved comes signed, from a user whose Privy subject is also the
-- id of a row of User, and with a wallet that was no member, for a brand with a Zealy configuration
-- and with credits: the brand pays the price of a mint, other brands nothing, the wallet is a
-- member with the token of the answer, and the token's record, unless its text is empty, is the
-- brand's and the wallet's, where others stay. One that is refused changes neither brands nor
-- memberships, but where the Privy subject is the id of no row of User, or the wallet is a member
-- already: there the brand may have paid for a mint all the same.
pub join_brand-IsJoined :
    (env : JoinEnv) (auth : Auth) (brand : String) (req : JoinRequest) (s : Store)
    → IsJoined env auth brand req s (join_brand env auth brand req s)
unfolding join_brand
join_brand-IsJoined env auth brand req s = elim (Option-cases (non_empty auth.wallet_address)) [
  | inl none_given ↦ rw (none_given, join_brand, IsJoined) (inl (refl, refl))
  | inr (wallet, given) ↦ elim (Bool-cases (is_signed (user_signature req))) [
    | inr unsigned ↦ rw (given, join_brand) (rw (unsigned, IsJoined) (inl (refl, refl)))
    | inl signed ↦
        rw (given, join_brand)
          (rw signed (
            join_as-IsJoined env auth brand wallet req s
              (given_lem auth.wallet_address wallet given)
              (full_lem auth.wallet_address wallet given) signed))
  ]
]
  where
    given_lem : (o : Option String) (w : String) → non_empty o ≡ some w → o ≡ some w
    given_lem o w h = ground arith

    full_lem : (o : Option String) (w : String) → non_empty o ≡ some w → is_empty w ≡ false
    full_lem o w h = ground arith
