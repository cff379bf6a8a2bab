-- ===== src/Ledger/Credited.antt =====
-- What the reward of a webhook writes to the five ledgers.
use dynamic_nft_krnl.Base.{
  ◌≡◌, refl, ◌∙◌, ap, false, Option, none, some, String, arith, same_key, same_key_refl, put_self,
}
use dynamic_nft_krnl.Base.Int.{ℤ, pos, ◌+ℤ◌, int_laws}
use dynamic_nft_krnl.Store.{EconomyLedger, Ledgers}
use dynamic_nft_krnl.Ledger.{credit_ledgers, credited}
use dynamic_nft_krnl.Ledger.Closed.{IsSame, user_xp}
use dynamic_nft_krnl.Ledger.Synced.{user_keys}

-- What the economy ledger held of a wallet; a row that is missing holds nothing.
abbrev pub held : (EconomyLedger → ℤ) → Option EconomyLedger → ℤ
held column none = pos 0
held column (some r) = column r

-- The five ledgers after a reward: the wallet has the total, the keys and what it had spent, and
-- other wallets what they had.
pub record IsCredited (brand wallet : String) (total delta : ℤ) (l l' : Ledgers) : Type 0 where
  pub economy :
      l'.economy brand wallet
      ≡ some (record {
        zealy_xp_total = total;
        xp_spent = held (λ r. r.xp_spent) (l.economy brand wallet);
        loot_keys_balance = held (λ r. r.loot_keys_balance) (l.economy brand wallet) +ℤ delta;
      })
  pub xp_ledger : l'.xp_ledger brand wallet ≡ some total
  pub loot_ledger :
      l'.loot_ledger brand wallet
      ≡ some (held (λ r. r.loot_keys_balance) (l.economy brand wallet) +ℤ delta)
  pub loot_balance :
      l'.loot_balance brand wallet
      ≡ some (held (λ r. r.loot_keys_balance) (l.economy brand wallet) +ℤ delta)
  pub user_total : user_xp (l'.user_ledger brand wallet) ≡ total
  pub user_balance :
      user_keys (l'.user_ledger brand wallet)
      ≡ held (λ r. r.loot_keys_balance) (l.economy brand wallet) +ℤ delta
  pub others :
      (b w : String)
      → same_key brand wallet b w ≡ false
      → (l'.economy b w ≡ l.economy b w)
        × (l'.xp_ledger b w ≡ l.xp_ledger b w)
        × (l'.loot_ledger b w ≡ l.loot_ledger b w)
        × (l'.loot_balance b w ≡ l.loot_balance b w)
        × (user_xp (l'.user_ledger b w) ≡ user_xp (l.user_ledger b w))
        × (user_keys (l'.user_ledger b w) ≡ user_keys (l.user_ledger b w))

zero_plus : (x : ℤ) → pos 0 +ℤ x ≡ x
zero_plus x = omega int_laws

-- The row is the one that is written out above.
credited_row :
    (total delta : ℤ) (o : Option EconomyLedger)
    → credited total delta o ≡ record {
      zealy_xp_total = total;
      xp_spent = held (λ r. r.xp_spent) o;
      loot_keys_balance = held (λ r. r.loot_keys_balance) o +ℤ delta;
    }
unfolding credited
credited_row total delta none = rw (zero_plus delta) refl
credited_row total delta (some r) = refl

pub credit-IsCredited :
    (brand wallet : String) (total delta : ℤ) (l : Ledgers)
    → IsCredited brand wallet total delta l (credit_ledgers brand wallet total delta l)
unfolding credit_ledgers
credit-IsCredited brand wallet total delta l =
    let row = credited_row total delta (l.economy brand wallet) in
    let balance = ap (λ r. r.loot_keys_balance) row in
    record {
      economy = put_self brand wallet _ l.economy ∙ ap (λ (r : EconomyLedger). some r) row;
      xp_ledger = ground (arith, same_key_refl brand wallet);
      loot_ledger = ground (arith, same_key_refl brand wallet, balance);
      loot_balance = ground (arith, same_key_refl brand wallet, balance);
      user_total = ground (arith, same_key_refl brand wallet);
      user_balance = ground (arith, same_key_refl brand wallet, balance);
      others = λ b w other. ground arith;
    }

-- Seen from a state with the same experience and keys.
pub after-IsCredited :
    (brand wallet : String) (total delta : ℤ) (l m n : Ledgers)
    → IsSame l m
    → IsCredited brand wallet total delta m n
    → IsCredited brand wallet total delta l n
after-IsCredited brand wallet total delta l m n h c = record {
  economy = rw (h.economy) at c.economy;
  xp_ledger = c.xp_ledger;
  loot_ledger = rw (h.economy) at c.loot_ledger;
  loot_balance = rw (h.economy) at c.loot_balance;
  user_total = c.user_total;
  user_balance = rw (h.economy) at c.user_balance;
  others = λ b w other.
      let (e, x, k, a, t, u) = c.others b w other in
      (
        e ∙ ap (λ f. f b w) h.economy,
        x ∙ ap (λ f. f b w) h.xp_ledger,
        k ∙ ap (λ f. f b w) h.loot_ledger,
        a ∙ ap (λ f. f b w) h.loot_balance,
        t ∙ h.user_xp_kept b w,
        u ∙ h.user_keys_kept b w,
      );
}
