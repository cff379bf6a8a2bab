-- ===== src/History.antt =====
-- Any sequence of the operations that write a wallet's experience and loot keys.
mod Tests
use dynamic_nft_krnl.Base.{ℕ, suc, ◌≡◌, String, List, [], ◌∷◌, arith}
use dynamic_nft_krnl.Base.Int.{ℤ, pos, ◌≤ℤ◌}
use dynamic_nft_krnl.Store.{Store, Ledgers}
use dynamic_nft_krnl.Ledger.{get_or_create_economy_ledger}
use dynamic_nft_krnl.Ledger.Synced.{
  IsSynced, credit-IsSynced, purchase-IsSynced, consume-IsSynced, get_or_create-IsSynced,
}
use dynamic_nft_krnl.Ledger.Balance.{
  IsSolvent, credit-IsSolvent, purchase-IsSolvent, consume-IsSolvent, get_or_create-IsSolvent,
}
use dynamic_nft_krnl.Ledger.Closed.{IsClosed, IsSame}
use dynamic_nft_krnl.Mint.{MintEnv, ensure_base_nft_minted}
use dynamic_nft_krnl.Mint.Frame.{ensure-Kept, Kept-IsSame}
use dynamic_nft_krnl.Zealy.Handler.{WebhookEnv, Delivery, receive}
use dynamic_nft_krnl.Zealy.Handler.Closed.{receive-kept}
use dynamic_nft_krnl.Me.{MeEnv}
use dynamic_nft_krnl.Me.Buy.{buy_keys}
use dynamic_nft_krnl.Me.Open.{open_for_wallet}
use dynamic_nft_krnl.Me.Closed.{buy-kept, open-kept}

-- One request that has passed its checks, with all that it takes from outside. The keys asked for
-- are one more than the number given.
pub data Operation : Type 0 where
  delivered : WebhookEnv → Delivery → Operation
  asked_for_keys : MeEnv → String → String → ℕ → Operation
  opening : MeEnv → String → String → Operation
  viewed : String → String → Operation
  entered : MintEnv → String → String → Operation

unfoldable pub perform : Operation → Store → Store
unfolding receive buy_keys open_for_wallet get_or_create_economy_ledger ensure_base_nft_minted
perform (delivered env d) s = (receive env d s).1
perform (asked_for_keys env brand wallet n) s = (buy_keys env brand wallet (pos (suc n)) s).1
perform (opening env brand wallet) s = (open_for_wallet env brand wallet s).1
perform (viewed brand wallet) s = record s {
  ledgers = (get_or_create_economy_ledger brand wallet s.ledgers).1;
}
perform (entered env brand wallet) s = (ensure_base_nft_minted env brand wallet s).1

unfoldable pub history : List Operation → Store → Store
unfolding perform
history [] s = s
history (o ∷ os) s = history os (perform o s)

module _ (inv : Ledgers → Type 0) (closed : IsClosed inv) where
  perform-kept : (o : Operation) (s : Store) → inv s.ledgers → inv (perform o s).ledgers
  unfolding perform
  perform-kept (delivered env d) s h = receive-kept inv closed env d s h
  perform-kept (asked_for_keys env brand wallet n) s h =
      buy-kept inv closed env brand wallet (pos (suc n)) s (omega arith) h
  perform-kept (opening env brand wallet) s h = open-kept inv closed env brand wallet s h
  perform-kept (viewed brand wallet) s h = closed.view brand wallet s.ledgers h
  perform-kept (entered env brand wallet) s h =
      closed.same s.ledgers _ (Kept-IsSame s _ (ensure-Kept env brand wallet s)) h

  history-kept : (os : List Operation) (s : Store) → inv s.ledgers → inv (history os s).ledgers
  unfolding history
  history-kept [] s h = h
  history-kept (o ∷ os) s h = history-kept os (perform o s) (perform-kept o s h)

same-IsSynced : (l l' : Ledgers) (b w : String) → IsSame l l' → IsSynced l b w → IsSynced l' b w
same-IsSynced l l' b w k h = record {
  loot = rw (k.loot_ledger, k.economy) h.loot;
  balance = rw (k.loot_balance, k.economy) h.balance;
  user = rw (k.user_keys_kept b w, k.economy) h.user;
}

IsSynced-IsClosed : (b w : String) → IsClosed (λ l. IsSynced l b w)
IsSynced-IsClosed b w = record {
  credit = λ brand wallet total delta l t d h. credit-IsSynced l b w h brand wallet total delta;
  buy = λ brand wallet quantity price l l' xp keys q p e h.
      purchase-IsSynced l b w h brand wallet quantity _ xp keys l' e;
  open_one = λ brand wallet n keys l l' e h. consume-IsSynced l b w h brand wallet n keys l' e;
  view = λ brand wallet l h. get_or_create-IsSynced l b w h brand wallet;
  same = λ l l' k h. same-IsSynced l l' b w k h;
}

-- Whatever webhooks, purchases, openings, visits and mints happen, for any brands and wallets, in
-- any order and with any outcome, the four ledgers that hold a wallet's loot keys show the same
-- number after them if they did so before.
pub history-IsSynced :
    (os : List Operation) (s : Store) (b w : String)
    → IsSynced s.ledgers b w
    → IsSynced (history os s).ledgers b w
history-IsSynced os s b w h = history-kept (λ l. IsSynced l b w) (IsSynced-IsClosed b w) os s h

-- No row of the economy ledger is negative.
abbrev pub AllSolvent : Ledgers → Type 0
AllSolvent l = (b w : String) → IsSolvent (l.economy b w)

AllSolvent-IsClosed : IsClosed AllSolvent
AllSolvent-IsClosed = record {
  credit = λ brand wallet total delta l t d h b w.
      credit-IsSolvent l b w (h b w) brand wallet (h brand wallet) total delta t d;
  buy = λ brand wallet quantity price l l' xp keys q p e h b w.
      purchase-IsSolvent l b w (h b w) brand wallet (h brand wallet) quantity price xp keys l'
        (omega (arith, q)) (omega (arith, p)) e;
  open_one = λ brand wallet n keys l l' e h b w.
      consume-IsSolvent l b w (h b w) brand wallet (h brand wallet) n keys l' e;
  view =
      λ brand wallet l h b w. get_or_create-IsSolvent l b w (h b w) brand wallet (h brand wallet);
  same = λ l l' k h b w. rw (k.economy) (h b w);
}

-- Nor does any row of the economy ledger go negative in such a history, in its experience, what was
-- spent of it, or its keys, if none was negative before: whatever Zealy reports and the rules hold.
pub history-AllSolvent :
    (os : List Operation) (s : Store) → AllSolvent s.ledgers → AllSolvent (history os s).ledgers
history-AllSolvent os s h = history-kept AllSolvent AllSolvent-IsClosed os s h
