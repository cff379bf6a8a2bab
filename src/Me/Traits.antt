-- ===== src/Me/Traits.antt =====
-- The traits that a wallet has after the transaction of an opening.
use text.Mathlib.TextEquality.{eq_iff}
use text.Mathlib.TextPositions.{eq_refl}
use dynamic_nft_krnl.Base.{
  none-ne-some, some_injective, max, ◌∙◌, sym, ap, ℕ, ◌+◌, ◌≤◌, ◌≡◌, refl, Bool, true, false, some,
  String, List, [], ◌∷◌, arith, All, if◌then◌else◌, Option-cases, Bool-cases, inl, inr,
}
use dynamic_nft_krnl.Base.Int.{ℤ}
use dynamic_nft_krnl.Lootbox.{LootTableEntry}
use dynamic_nft_krnl.Store.{Store}
use dynamic_nft_krnl.Ledger.{consume}
use dynamic_nft_krnl.Me.Open.{is_trait, add_user_trait, add_all, unlock}

-- How often a wallet has a trait for a brand.
abbrev pub times_owned :
    String → String → LootTableEntry → List (String × String × String × String) → ℕ
times_owned brand wallet e [] = 0
times_owned brand wallet e (t ∷ ts) =
    (if is_trait brand wallet e t.0 t.1 t.2 t.3 then 1 else 0) + times_owned brand wallet e ts

same_trait :
    (brand wallet b w b' w' n v : String) (e f : LootTableEntry)
    → is_trait b w f brand wallet e.trait_name e.trait_value ≡ true
    → is_trait b w f b' w' n v ≡ is_trait brand wallet e b' w' n v
same_trait brand wallet b w b' w' n v e f h = ground (
  arith,
  eq_iff brand b,
  eq_iff wallet w,
  eq_iff e.trait_name f.trait_name,
  eq_iff e.trait_value f.trait_value,
)

here_lem :
    (same mine : Bool) (n : ℕ)
    → (same ≡ true → mine ≡ true)
    → (if mine then 1 else 0) + n
      ≡ (if same then max 1 ((if mine then 1 else 0) + n) else (if mine then 1 else 0) + n)
here_lem same mine n k = ground arith

later_lem :
    (same mine : Bool) (n m : ℕ)
    → (same ≡ true → mine ≡ false)
    → m ≡ (if same then max 1 n else n)
    → (if mine then 1 else 0) + m
      ≡ (if same then max 1 ((if mine then 1 else 0) + n) else (if mine then 1 else 0) + n)
later_lem same mine n m k e = ground arith

module _ (brand wallet : String) (e : LootTableEntry) where
  -- The row is added where it is missing, and nothing else changes.
  times_owned-add :
      (f : LootTableEntry) (b w : String) (ts : List (String × String × String × String))
      → times_owned b w f (add_user_trait brand wallet e ts) ≡ (
          if is_trait b w f brand wallet e.trait_name e.trait_value
          then max 1 (times_owned b w f ts)
          else times_owned b w f ts)
  unfolding add_user_trait
  times_owned-add f b w [] = ground arith
  times_owned-add f b w (t ∷ ts) =
      let same = is_trait b w f brand wallet e.trait_name e.trait_value in
      let mine = is_trait b w f t.0 t.1 t.2 t.3 in
      let one = same_trait brand wallet b w t.0 t.1 t.2 t.3 e f in
      elim (Bool-cases (is_trait brand wallet e t.0 t.1 t.2 t.3)) [
        | inl there ↦
            rw (there, add_user_trait)
              (here_lem same mine (times_owned b w f ts) (λ h. one h ∙ there))
        | inr other ↦
            rw (other, add_user_trait)
              (later_lem same mine (times_owned b w f ts)
                (times_owned b w f (add_user_trait brand wallet e ts)) (λ h. one h ∙ other)
                (times_owned-add f b w ts))
      ]

module _ (brand wallet : String) where
  add_all_grows :
      (es : List LootTableEntry) (f : LootTableEntry) (b w : String)
      (ts : List (String × String × String × String))
      → times_owned b w f ts ≤ times_owned b w f (add_all (add_user_trait brand wallet) es ts)
  unfolding add_all
  add_all_grows [] f b w ts = omega arith
  add_all_grows (e ∷ es) f b w ts = ground (
    arith,
    times_owned-add brand wallet e f b w ts,
    add_all_grows es f b w (add_user_trait brand wallet e ts),
  )

  add_owned :
      (e : LootTableEntry) (ts : List (String × String × String × String))
      → 1 ≤ times_owned brand wallet e (add_user_trait brand wallet e ts)
  add_owned e ts = ground (
    arith,
    times_owned-add brand wallet e e brand wallet ts,
    eq_refl brand,
    eq_refl wallet,
    eq_refl e.trait_name,
    eq_refl e.trait_value,
  )

  add_all_owned :
      (es : List LootTableEntry) (ts : List (String × String × String × String))
      → All (λ e. 1 ≤ times_owned brand wallet e (add_all (add_user_trait brand wallet) es ts)) es
  unfolding add_all
  add_all_owned [] ts = tt
  add_all_owned (e ∷ es) ts =
      let ts' = add_user_trait brand wallet e ts in
      (omega (arith, add_owned e ts, add_all_grows es e brand wallet ts'), add_all_owned es ts')

  add_all_unique :
      (es : List LootTableEntry) (f : LootTableEntry) (b w : String)
      (ts : List (String × String × String × String))
      → times_owned b w f ts ≤ 1
      → times_owned b w f (add_all (add_user_trait brand wallet) es ts) ≤ 1
  unfolding add_all
  add_all_unique [] f b w ts h = h
  add_all_unique (e ∷ es) f b w ts h =
      add_all_unique es f b w (add_user_trait brand wallet e ts)
        (ground (arith, times_owned-add brand wallet e f b w ts))

unlock_traits :
    (brand wallet : String) (n balance : ℤ) (picked : List LootTableEntry) (s t : Store)
    → unlock brand wallet n picked s ≡ some (balance, t)
    → t.user_traits ≡ add_all (add_user_trait brand wallet) picked s.user_traits
unfolding unlock
unlock_traits brand wallet n balance picked s t e =
    elim (Option-cases (consume brand wallet n s.ledgers)) [
      | inl gone ↦ absurd (none-ne-some (balance, t) (rw (gone, unlock) at e))
      | inr ((rest, l), consumed) ↦
          rw
            (sym (
              ap (λ p. p.1.user_traits)
                (some_injective _ (balance, t) (rw (consumed, unlock) at e))))
            refl
    ]

-- After the transaction of an opening the wallet has every trait that was picked; no wallet has
-- lost a trait of any brand, and none that was there at most once is there twice.
pub unlock_owned :
    (brand wallet : String) (n balance : ℤ) (picked : List LootTableEntry) (s t : Store)
    → unlock brand wallet n picked s ≡ some (balance, t)
    → All (λ e. 1 ≤ times_owned brand wallet e t.user_traits) picked
      × ((f : LootTableEntry) (b w : String)
          → (times_owned b w f s.user_traits ≤ times_owned b w f t.user_traits)
            × (times_owned b w f s.user_traits ≤ 1 → times_owned b w f t.user_traits ≤ 1))
unlock_owned brand wallet n balance picked s t e =
    rw (unlock_traits brand wallet n balance picked s t e) (
      add_all_owned brand wallet picked s.user_traits,
      λ f b w. (
        add_all_grows brand wallet picked f b w s.user_traits,
        add_all_unique brand wallet picked f b w s.user_traits,
      ),
    )
