-- ===== src/Mint/Once.antt =====
-- A call that follows a mint which is under way, or a token in the ledger, submits nothing.
use dynamic_nft_krnl.Base.{
  ◌≡◌, refl, inl, inr, true, false, ◌||◌, is_some, Option, none, some, String, arith, Option-cases,
  Bool-cases, same_key_refl,
}
use dynamic_nft_krnl.Store.{Store}
use dynamic_nft_krnl.Base.Text.{is_empty}
use dynamic_nft_krnl.Mint.{
  MintEnv, pending_mint, persist_minted_token, non_empty, with_user, demo_mint, submit_mint,
  known_token, mint_unless_known, ledger_token, ensure_base_nft_minted,
}

-- The ledger shows a token, or a mint is under way.
abbrev pub IsSettled : String → String → Store → Type 0
IsSettled brand wallet s =
    (is_some (ledger_token (s.user_ledger brand wallet))
      || is_some (pending_mint brand wallet s.runs))
    ≡ true

settled_runs :
    (env : MintEnv) (brand wallet : String) (s : Store)
    → IsSettled brand wallet s
    → (is_some (ensure_base_nft_minted env brand wallet s).0 ≡ true)
      × ((ensure_base_nft_minted env brand wallet s).1.runs ≡ s.runs)
unfolding ensure_base_nft_minted
settled_runs env brand wallet s h = ground arith

persist-IsSettled :
    (brand wallet token : String) (s : Store)
    → is_empty token ≡ false
    → IsSettled brand wallet (persist_minted_token brand wallet token s)
unfolding persist_minted_token
persist-IsSettled brand wallet token s e = ground (arith, same_key_refl brand wallet)

submit-IsSettled :
    (env : MintEnv) (brand wallet : String) (s : Store)
    → is_some (submit_mint env brand wallet s).0 ≡ true
    → IsSettled brand wallet (submit_mint env brand wallet s).1
unfolding submit_mint pending_mint
submit-IsSettled env brand wallet s h = ground (arith, same_key_refl brand wallet)

demo-IsSettled :
    (env : MintEnv) (brand wallet : String) (s : Store)
    → is_empty (env.demo_token_id brand wallet) ≡ false
    → IsSettled brand wallet (demo_mint env brand wallet s).1
unfolding demo_mint
demo-IsSettled env brand wallet s e = ground (arith, same_key_refl brand wallet)

non_empty_lem : (o : Option String) (t : String) → non_empty o ≡ some t → is_empty t ≡ false
non_empty_lem none t e = cc
non_empty_lem (some x) t e = ground arith

known_token_lem :
    (brand wallet t : String) (s : Store) → known_token brand wallet s ≡ some t → is_empty t ≡ false
unfolding known_token
known_token_lem brand wallet t s e = non_empty_lem _ t e

unless_known-IsSettled :
    (env : MintEnv) (brand wallet : String) (s : Store)
    → is_empty (env.demo_token_id brand wallet) ≡ false
    → is_some (mint_unless_known env brand wallet s).0 ≡ true
    → IsSettled brand wallet (mint_unless_known env brand wallet s).1
unfolding mint_unless_known
unless_known-IsSettled env brand wallet s e h = elim (Option-cases (known_token brand wallet s)) [
  | inr (token, known) ↦
      rw (known, mint_unless_known)
        (persist-IsSettled brand wallet token s (known_token_lem brand wallet token s known))
  | inl unknown ↦ elim (Option-cases (pending_mint brand wallet s.runs)) [
    | inr (r, pending) ↦ rw (unknown, pending, mint_unless_known) (ground arith)
    | inl idle ↦ elim (Bool-cases env.demo_mode) [
      | inl demo ↦ rw (unknown, idle, demo, mint_unless_known) (demo-IsSettled env brand wallet s e)
      | inr live ↦
          rw (unknown, idle, live, mint_unless_known)
            (submit-IsSettled env brand wallet s (rw (unknown, idle, live, mint_unless_known) at h))
    ]
  ]
]

-- A call that returns leaves the wallet with a token in the ledger or a mint under way.
ensure-IsSettled :
    (env : MintEnv) (brand wallet : String) (s : Store)
    → is_empty (env.demo_token_id brand wallet) ≡ false
    → is_some (ensure_base_nft_minted env brand wallet s).0 ≡ true
    → IsSettled brand wallet (ensure_base_nft_minted env brand wallet s).1
unfolding ensure_base_nft_minted
ensure-IsSettled env brand wallet s e h =
    elim (Option-cases (ledger_token (s.user_ledger brand wallet))) [
      | inr (token, held) ↦ rw (held, ensure_base_nft_minted) (rw held refl)
      | inl none_held ↦
          rw (none_held, ensure_base_nft_minted)
            (unless_known-IsSettled env brand wallet (with_user brand wallet s) e
              (rw (none_held, ensure_base_nft_minted) at h))
    ]

-- Once a call has returned, with a token or with a submitted mint, a later call for the same brand
-- and wallet returns as well and submits no further run, whatever the node would answer and
-- whatever else has changed, as long as the wallet's row of the ledger and the runs are as the
-- first call left them; the demo's token ids must not be empty.
pub ensure_once :
    (env env' : MintEnv) (brand wallet : String) (s t : Store)
    → is_empty (env.demo_token_id brand wallet) ≡ false
    → is_some (ensure_base_nft_minted env brand wallet s).0 ≡ true
    → t.user_ledger brand wallet
      ≡ (ensure_base_nft_minted env brand wallet s).1.user_ledger brand wallet
    → t.runs ≡ (ensure_base_nft_minted env brand wallet s).1.runs
    → (is_some (ensure_base_nft_minted env' brand wallet t).0 ≡ true)
      × ((ensure_base_nft_minted env' brand wallet t).1.runs ≡ t.runs)
ensure_once env env' brand wallet s t e h same_row same_runs =
    settled_runs env' brand wallet t
      (rw (same_row, same_runs) (ensure-IsSettled env brand wallet s e h))
