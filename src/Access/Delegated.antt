-- ===== src/Access/Delegated.antt =====
-- apps/api/src/middleware/requireDelegatedWallet.ts: the wallet that a workflow runs with must have
-- delegated its execution.
use dynamic_nft_krnl.Base.{
  ◌≡◌, refl, sym, ◌∙◌, ap, subst, ℕ, Bool, true, false, Option, none, some, none-ne-some,
  some_injective, Option-cases, Bool-cases, inl, inr, String, List, [], ◌∷◌,
}
use dynamic_nft_krnl.Base.Text.{is_empty}
use dynamic_nft_krnl.Js.{Value, undefined, null, bool, num, str, arr, obj, get, fields_of}
use dynamic_nft_krnl.Mint.{non_empty}
use dynamic_nft_krnl.Me.{Auth}

-- The wallets of a brand that its workflows run with.
pub record BrandWallets : Type 0 where
  pub automation_wallet_address : Option String
  pub krnl_sender_address : Option String

pub record DelegationEnv : Type 0 where
  pub wallets_of : String → Option BrandWallets
  -- `KRNL_SENDER_ADDRESS`.
  pub sender : Option String
  -- `getWalletStatus`; `none` is an exception.
  pub is_delegated : String → Option Bool

-- A response, or the request that goes on, with the wallet of its authentication if it has one.
pub data Checked : Type 0 where
  refused : ℕ → String → Checked
  goes_on : String → Option Auth → Checked

-- `a || b`.
unfoldable pub or_text : Option String → Option String → Option String
or_text a b = elim (non_empty a) [ none ↦ b | some x ↦ some x ]

abbrev pub text_in : Value → Option String
text_in (str s) = some s
text_in undefined = none
text_in null = none
text_in (bool b) = none
text_in (num n) = none
text_in (arr vs) = none
text_in (obj fs) = none

abbrev pub wallet_in : Option Auth → Option String
wallet_in none = none
wallet_in (some a) = a.wallet_address

abbrev pub with_wallet : String → Option Auth → Option Auth
with_wallet w none = none
with_wallet w (some a) = some (record a { wallet_address = some w })

unfoldable pub check_wallet : DelegationEnv → Option Auth → Option String → Checked
check_wallet env auth wallet = elim (non_empty wallet) [
  | none ↦ refused 400 "Wallet required"
  | some w ↦ elim (env.is_delegated w) [
    | none ↦ refused 500 "Failed to check wallet delegation"
    | some d ↦ elim d [
      | false ↦ refused 400 "wallet_not_delegated"
      | true ↦ goes_on w (with_wallet w auth)
    ]
  ]
]

-- The wallet of a brand: its own, the platform's, or else the request's.
unfoldable pub brand_wallet : DelegationEnv → BrandWallets → Option String → Option String
unfolding or_text
brand_wallet env b wallet =
    or_text b.automation_wallet_address (or_text b.krnl_sender_address (or_text env.sender wallet))

unfoldable pub require_delegated_wallet :
    DelegationEnv → Option Auth → Value → Option String → Checked
unfolding or_text get fields_of check_wallet brand_wallet
require_delegated_wallet env auth body brand =
    let wallet = or_text (wallet_in auth) (text_in (get "walletAddress" (fields_of body))) in
    elim (non_empty brand) [
      | none ↦ check_wallet env auth wallet
      | some id ↦ elim (env.wallets_of id) [
        | none ↦ refused 404 "Brand not found"
        | some b ↦ check_wallet env auth (brand_wallet env b wallet)
      ]
    ]

-- A request that goes on with a wallet: the wallet has delegated, and it is the one to come.
abbrev pub IsDelegated : DelegationEnv → Option Auth → Option String → Checked → Type 0
IsDelegated env auth wallet (refused code m) = Unit
IsDelegated env auth wallet (goes_on w a) =
    (env.is_delegated w ≡ some true) × (wallet ≡ some w) × (a ≡ with_wallet w auth)

-- The first text that is not empty.
unfoldable pub first_filled : List (Option String) → Option String
first_filled [] = none
first_filled (a ∷ more) = elim (non_empty a) [ none ↦ first_filled more | some x ↦ some x ]

non_empty-twice :
    (a : Option String) (x : String) → non_empty a ≡ some x → non_empty (some x) ≡ some x
non_empty-twice none x h = absurd (none-ne-some x h)
non_empty-twice (some y) x h = elim (Bool-cases (is_empty y)) [
  | inl blank ↦ absurd (none-ne-some x (rw blank at h))
  | inr filled ↦
      let same = some_injective y x (rw filled at h) in rw (ap is_empty (sym same) ∙ filled) refl
]

or_text-first :
    (a b : Option String) (xs : List (Option String))
    → non_empty b ≡ first_filled xs
    → non_empty (or_text a b) ≡ first_filled (a ∷ xs)
unfolding or_text first_filled
or_text-first a b xs h = elim (Option-cases (non_empty a)) [
  | inl blank ↦ rw (blank, or_text) (rw (blank, first_filled) h)
  | inr (x, e) ↦ rw (e, or_text) (rw (e, first_filled) (non_empty-twice a x e))
]

first_filled-one : (a : Option String) → non_empty a ≡ first_filled (a ∷ [])
unfolding first_filled
first_filled-one a = elim (Option-cases (non_empty a)) [
  | inl blank ↦ rw (blank, first_filled) refl
  | inr (x, e) ↦ rw (e, first_filled) refl
]

check_wallet-IsDelegated :
    (env : DelegationEnv) (auth : Option Auth) (wallet : Option String)
    → IsDelegated env auth (non_empty wallet) (check_wallet env auth wallet)
unfolding check_wallet
check_wallet-IsDelegated env auth wallet = elim (Option-cases (non_empty wallet)) [
  | inl blank ↦ rw (blank, IsDelegated) tt
  | inr (w, e) ↦ elim (Option-cases (env.is_delegated w)) [
    | inl thrown ↦ rw (e, check_wallet) (rw (thrown, IsDelegated) tt)
    | inr (d, f) ↦ rw (e, check_wallet) (rw f (asked w d f))
  ]
]
  where
    asked :
        (w : String) (d : Bool)
        → env.is_delegated w ≡ some d
        → IsDelegated env auth (some w) (elim d [
          | false ↦ refused 400 "wallet_not_delegated"
          | true ↦ goes_on w (with_wallet w auth)
        ])
    asked w false f = tt
    asked w true f = (f, refl, refl)

-- Where a request for a brand that is there goes on, the workflow's wallet has delegated its
-- execution, and it is the first that is there of the brand's own wallet, its sender, the
-- platform's sender, the wallet of the request's authentication and the one of its body.
pub require_delegated_wallet-IsDelegated :
    (env : DelegationEnv) (auth : Option Auth) (body : Value) (id : String) (b : BrandWallets)
    → is_empty id ≡ false
    → env.wallets_of id ≡ some b
    → IsDelegated env auth
        (first_filled (
          b.automation_wallet_address
          ∷ b.krnl_sender_address
          ∷ env.sender
          ∷ wallet_in auth
          ∷ text_in (get "walletAddress" (fields_of body))
          ∷ []))
        (require_delegated_wallet env auth body (some id))
unfolding require_delegated_wallet brand_wallet
require_delegated_wallet-IsDelegated env auth body id b named here =
    rw (named, require_delegated_wallet)
      (rw here (
        subst (λ (w : Option String). IsDelegated env auth w (check_wallet env auth chosen)) first
          (check_wallet-IsDelegated env auth chosen)))
  where
    posted : Option String
    posted = text_in (get "walletAddress" (fields_of body))

    chosen : Option String
    chosen = brand_wallet env b (or_text (wallet_in auth) posted)

    first :
        non_empty chosen
        ≡ first_filled (
            b.automation_wallet_address
            ∷ b.krnl_sender_address
            ∷ env.sender
            ∷ wallet_in auth
            ∷ posted
            ∷ [])
    first = or_text-first b.automation_wallet_address _ _ (
        or_text-first b.krnl_sender_address _ _ (
          or_text-first env.sender _ _
            (or_text-first (wallet_in auth) posted _ (first_filled-one posted))))
