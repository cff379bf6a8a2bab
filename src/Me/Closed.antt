-- ===== src/Me/Closed.antt =====
-- The handlers keep every property of the ledgers that the transactions keep.
use dynamic_nft_krnl.Base.{
  none-ne-some, some_injective, ◌≡◌, refl, sym, ap, inl, inr, some, String, List, Option-cases,
  Bool-cases,
}
use dynamic_nft_krnl.Base.Int.{ℤ}
use dynamic_nft_krnl.Lootbox.{LootTableEntry}
use dynamic_nft_krnl.Store.{Store}
use dynamic_nft_krnl.Js.{int}
use dynamic_nft_krnl.Mint.{
  MintState, minted, submitted, EnsureBaseNftMintResult, ensure_base_nft_minted, non_empty,
}
use dynamic_nft_krnl.Mint.Frame.{Kept-IsSame, ensure-Kept}
use dynamic_nft_krnl.Ledger.{
  PurchaseResult, bought, aborted, insufficient_xp, not_an_integer, purchase, consume,
}
use dynamic_nft_krnl.Base.Int.{pos, ◌≤ℤ◌}
use dynamic_nft_krnl.Store.{Ledgers}
use dynamic_nft_krnl.Ledger.Closed.{IsClosed}
use dynamic_nft_krnl.Me.Purchase.{cost, cost_pos, required_cost}
use dynamic_nft_krnl.Me.{MeEnv}
use dynamic_nft_krnl.Me.Open.{
  Draw, refused, drawn, prepare_open, unlock, submit_open, unlock_and_submit, open_with_token,
  open_after_mint, open_for_wallet,
}
use dynamic_nft_krnl.Me.Buy.{settle, buy_keys}

submit-ledgers :
    (env : MeEnv) (brand wallet token : String) (n balance : ℤ) (picked : List LootTableEntry)
    (s : Store)
    → (submit_open env brand wallet token n balance picked s).1.ledgers ≡ s.ledgers
unfolding submit_open
submit-ledgers env brand wallet token n balance picked s =
    elim (Bool-cases (env.encodes token picked)) [
      | inr odd ↦ rw (odd, submit_open) refl
      | inl fine ↦ rw (fine, submit_open) refl
    ]

module _ (inv : Ledgers → Type 0) (closed : IsClosed inv) where
  settle-kept :
      (brand wallet : String) (quantity price : ℤ) (s : Store) (r : PurchaseResult)
      → pos 1 ≤ℤ quantity
      → pos 1 ≤ℤ price
      → inv s.ledgers
      → purchase brand wallet quantity (int price) s.ledgers ≡ r
      → inv (settle r s).1.ledgers
  unfolding settle
  settle-kept brand wallet quantity price s (bought xp keys l) q p h e =
      closed.buy brand wallet quantity price s.ledgers l xp keys q p e h
  settle-kept brand wallet quantity price s (aborted (insufficient_xp a r)) q p h e = h
  settle-kept brand wallet quantity price s (aborted not_an_integer) q p h e = h

  -- Buying a positive number of keys.
  pub buy-kept :
      (env : MeEnv) (brand wallet : String) (quantity : ℤ) (s : Store)
      → pos 1 ≤ℤ quantity
      → inv s.ledgers
      → inv (buy_keys env brand wallet quantity s).1.ledgers
  unfolding buy_keys
  buy-kept env brand wallet quantity s q h =
      settle-kept brand wallet quantity (cost env brand quantity s) s _ q
        (cost_pos env brand quantity s q) h
        (ap (λ p. purchase brand wallet quantity p s.ledgers)
          (sym (required_cost env brand quantity s q)))

  unlock-kept :
      (brand wallet : String) (n balance : ℤ) (picked : List LootTableEntry) (s t : Store)
      → inv s.ledgers
      → unlock brand wallet n picked s ≡ some (balance, t)
      → inv t.ledgers
  unfolding unlock
  unlock-kept brand wallet n balance picked s t h e =
      elim (Option-cases (consume brand wallet n s.ledgers)) [
        | inl gone ↦ absurd (none-ne-some (balance, t) (rw (gone, unlock) at e))
        | inr ((rest, l), consumed) ↦
            rw
              (sym (
                ap (λ p. p.1.ledgers) (some_injective _ (balance, t) (rw (consumed, unlock) at e))))
              (closed.open_one brand wallet n rest s.ledgers l consumed h)
      ]

  unlocking-kept :
      (env : MeEnv) (brand wallet token : String) (n : ℤ) (picked : List LootTableEntry) (s : Store)
      → inv s.ledgers
      → inv (unlock_and_submit env brand wallet token n picked s).1.ledgers
  unfolding unlock_and_submit
  unlocking-kept env brand wallet token n picked s h =
      elim (Option-cases (unlock brand wallet n picked s)) [
        | inl gone ↦ rw (gone, unlock_and_submit) h
        | inr ((balance, t), taken) ↦
            rw (taken, submit-ledgers env brand wallet token n balance picked t, unlock_and_submit)
              (unlock-kept brand wallet n balance picked s t h taken)
      ]

  drawn-kept :
      (env : MeEnv) (brand wallet token : String) (s : Store) (d : Draw)
      → prepare_open env brand wallet s ≡ d
      → inv s.ledgers
      → inv (open_with_token env brand wallet token s).1.ledgers
  unfolding open_with_token
  drawn-kept env brand wallet token s (refused code why) e h = rw (e, open_with_token) h
  drawn-kept env brand wallet token s (drawn n picked) e h =
      rw (e, open_with_token) (unlocking-kept env brand wallet token n picked s h)

  after_mint-kept :
      (env : MeEnv) (brand wallet : String) (r : EnsureBaseNftMintResult) (s : Store)
      (m : MintState)
      → r.state ≡ m
      → inv s.ledgers
      → inv (open_after_mint env brand wallet r s).1.ledgers
  unfolding open_after_mint
  after_mint-kept env brand wallet r s submitted e h = rw (e, open_after_mint) h
  after_mint-kept env brand wallet r s minted e h = elim (Option-cases (non_empty r.token_id)) [
    | inl no_token ↦ rw (e, no_token, open_after_mint) h
    | inr (token, held) ↦
        rw (e, held, open_after_mint) (drawn-kept env brand wallet token s _ refl h)
  ]

  -- Opening a lootbox.
  pub open-kept :
      (env : MeEnv) (brand wallet : String) (s : Store)
      → inv s.ledgers
      → inv (open_for_wallet env brand wallet s).1.ledgers
  unfolding open_for_wallet
  open-kept env brand wallet s h =
      let m = ensure_base_nft_minted env.mint brand wallet s in
      let kept : inv m.1.ledgers =
        closed.same s.ledgers m.1.ledgers (Kept-IsSame s m.1 (ensure-Kept env.mint brand wallet s))
          h in
      elim (Option-cases m.0) [
        | inl thrown ↦ rw (thrown, open_for_wallet) kept
        | inr (r, done) ↦
            rw (done, open_for_wallet) (after_mint-kept env brand wallet r m.1 _ refl kept)
      ]
