-- ===== src/Me/Active.antt =====
-- Which traits are active.
use text.Mathlib.Text.{◌==◌}
use text.Mathlib.TextEquality.{eq_iff}
use dynamic_nft_krnl.Base.{
  ◌≡◌, refl, sym, ◌∙◌, inl, inr, Bool, true, false, ◌&&◌, ◌||◌, Option, none, some, String, List,
  [], ◌∷◌, map, arith, Bool-cases, Option-cases, ltb, length, ◌==◌ as eqb,
}
use dynamic_nft_krnl.Js.{Value}
use dynamic_nft_krnl.Store.{Store, UnlockedTrait}
use dynamic_nft_krnl.Mint.{
  MintState, minted, submitted, EnsureBaseNftMintResult, ensure_base_nft_minted, non_empty,
  with_user,
}
use dynamic_nft_krnl.Mint.Frame.{Kept, ensure-Kept}
use dynamic_nft_krnl.Me.{MeEnv}
use dynamic_nft_krnl.Me.Activate.{
  Selection, is_of, activate_row, activate_all, unique_selections, existing_traits,
  submit_activation_run, traits_after, submit_activation, activate_chosen, activate_after_mint,
  activate_for_wallet,
}

-- The wallet has the value of the trait active for the brand.
abbrev pub shows : String → String → String → String → List UnlockedTrait → Bool
shows brand wallet key value [] = false
shows brand wallet key value (t ∷ ts) =
    (is_of brand wallet t && (t.trait_key == key && (t.trait_value == value && t.is_active)))
    || shows brand wallet key value ts

-- Of each trait a wallet has at most one value active.
abbrev pub IsSingle : List UnlockedTrait → Type 0
IsSingle ts =
    (brand wallet key v v' : String)
    → shows brand wallet key v ts ≡ true
    → shows brand wallet key v' ts ≡ true
    → v ≡ v'

same_lem :
    (b b' w w' k k' : String)
    → (b == b' && (w == w' && k == k')) ≡ true
    → (b ≡ b') × (w ≡ w') × (k ≡ k')
same_lem b b' w w' k k' h =
    (ground (arith, eq_iff b b'), ground (arith, eq_iff w w'), ground (arith, eq_iff k k'))

false-ne-true : false ≡ true → ⊥
false-ne-true e = cc

module _ (brand wallet : String) (s : Selection) where
  -- Of the trait selected only the selected value is active.
  shows_selected :
      (v : String) (ts : List UnlockedTrait)
      → shows brand wallet s.trait_key v (map (activate_row brand wallet s) ts) ≡ true
      → v ≡ s.trait_value
  unfolding activate_row
  shows_selected v [] h = absurd (false-ne-true h)
  shows_selected v (t ∷ ts) h =
      ground
        (arith, shows_selected v ts, eq_iff t.trait_value v, eq_iff t.trait_value s.trait_value)

  -- Everything else is as it was.
  shows_other :
      (b w k v : String) (ts : List UnlockedTrait)
      → (b == brand && (w == wallet && k == s.trait_key)) ≡ false
      → shows b w k v (map (activate_row brand wallet s) ts) ≡ shows b w k v ts
  unfolding activate_row
  shows_other b w k v [] h = refl
  shows_other b w k v (t ∷ ts) h = ground (
    arith,
    shows_other b w k v ts h,
    eq_iff t.brand_id b,
    eq_iff t.wallet w,
    eq_iff t.trait_key k,
    eq_iff t.brand_id brand,
    eq_iff t.wallet wallet,
    eq_iff t.trait_key s.trait_key,
    eq_iff b brand,
    eq_iff w wallet,
    eq_iff k s.trait_key,
  )

  -- One selection keeps it so.
  row-IsSingle :
      (ts : List UnlockedTrait) → IsSingle ts → IsSingle (map (activate_row brand wallet s) ts)
  row-IsSingle ts h b w k v v' p q =
      elim (Bool-cases (b == brand && (w == wallet && k == s.trait_key))) [
        | inr other ↦
            h b w k v v' (sym (shows_other b w k v ts other) ∙ p)
              (sym (shows_other b w k v' ts other) ∙ q)
        | inl same ↦
            let (here, mine, selected) = same_lem b brand w wallet k s.trait_key same in
            shows_selected v ts (rw (here, mine, selected) at p)
            ∙ sym (shows_selected v' ts (rw (here, mine, selected) at q))
      ]

pub all-IsSingle :
    (brand wallet : String) (chosen : List Selection) (ts : List UnlockedTrait)
    → IsSingle ts
    → IsSingle (activate_all brand wallet chosen ts)
unfolding activate_all
all-IsSingle brand wallet [] ts h = h
all-IsSingle brand wallet (s ∷ ss) ts h =
    all-IsSingle brand wallet ss (map (activate_row brand wallet s) ts)
      (row-IsSingle brand wallet s ts h)

submit-IsSingle :
    (env : MeEnv) (brand wallet : String) (chosen : List Selection) (s : Store)
    → IsSingle s.unlocked_traits
    → IsSingle (submit_activation env brand wallet chosen s).1.unlocked_traits
unfolding submit_activation traits_after
submit-IsSingle env brand wallet chosen s h =
    elim (Option-cases (submit_activation_run env brand wallet s).0) [
      | inl thrown ↦ rw (thrown, submit_activation) h
      | inr (w, done) ↦ elim (Bool-cases env.mint.demo_mode) [
        | inr live ↦ rw (done, live, submit_activation) h
        | inl demo ↦
            rw (done, demo, submit_activation)
              (all-IsSingle brand wallet chosen s.unlocked_traits h)
      ]
    ]

chosen-IsSingle :
    (env : MeEnv) (brand wallet : String) (chosen : Option (List Selection)) (s : Store)
    → IsSingle s.unlocked_traits
    → IsSingle (activate_chosen env brand wallet chosen s).1.unlocked_traits
unfolding activate_chosen
chosen-IsSingle env brand wallet none s h = h
chosen-IsSingle env brand wallet (some chosen) s h = elim (Bool-cases (eqb (length chosen) 0)) [
  | inl nothing ↦ rw (nothing, activate_chosen) h
  | inr something ↦ elim (Bool-cases (ltb 5 (length chosen))) [
    | inl many ↦ rw (something, many, activate_chosen) h
    | inr few ↦
        elim (Bool-cases
          (eqb (length (existing_traits brand wallet chosen s.unlocked_traits)) (length chosen))) [
            | inr missing ↦ rw (something, few, missing, activate_chosen) h
            | inl there ↦
                rw (something, few, there, activate_chosen)
                  (submit-IsSingle env brand wallet chosen s h)
          ]
  ]
]

after_mint-IsSingle :
    (env : MeEnv) (brand wallet : String) (selections : List Value) (r : EnsureBaseNftMintResult)
    (s : Store) (m : MintState)
    → r.state ≡ m
    → IsSingle s.unlocked_traits
    → IsSingle (activate_after_mint env brand wallet selections r s).1.unlocked_traits
unfolding activate_after_mint
after_mint-IsSingle env brand wallet selections r s submitted e h = rw (e, activate_after_mint) h
after_mint-IsSingle env brand wallet selections r s minted e h =
    elim (Option-cases (non_empty r.token_id)) [
      | inl no_token ↦ rw (e, no_token, activate_after_mint) h
      | inr (token, held) ↦
          rw (e, held, activate_after_mint)
            (chosen-IsSingle env brand wallet (unique_selections env.runtime selections []) s h)
    ]

-- A request to activate traits, whatever it asks for and however it ends, keeps it so that every
-- wallet has at most one value of each trait active for a brand.
pub activate_for_wallet-IsSingle :
    (env : MeEnv) (brand wallet : String) (selections : List Value) (s : Store)
    → IsSingle s.unlocked_traits
    → IsSingle (activate_for_wallet env brand wallet selections s).1.unlocked_traits
unfolding activate_for_wallet
activate_for_wallet-IsSingle env brand wallet selections s h =
    let m = ensure_base_nft_minted env.mint brand wallet (with_user brand wallet s) in
    let kept : IsSingle m.1.unlocked_traits =
      rw (Kept.unlocked_traits (ensure-Kept env.mint brand wallet (with_user brand wallet s))) h in
    elim (Option-cases m.0) [
      | inl thrown ↦ rw (thrown, activate_for_wallet) kept
      | inr (r, done) ↦
          rw (done, activate_for_wallet)
            (after_mint-IsSingle env brand wallet selections r m.1 _ refl kept)
    ]
