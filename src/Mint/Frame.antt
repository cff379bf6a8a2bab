-- ===== src/Mint/Frame.antt =====
-- What a mint leaves alone.
use dynamic_nft_krnl.Base.{
  ◌≡◌, refl, String, arith, Option-cases, Bool-cases, inl, inr, same_key_lookup,
}
use dynamic_nft_krnl.Store.{Store}
use dynamic_nft_krnl.Ledger.Synced.{user_keys}
use dynamic_nft_krnl.Ledger.Closed.{IsSame, user_xp}
use dynamic_nft_krnl.Mint.{
  MintEnv, persist_minted_token, with_user, demo_mint, submit_mint, known_token, mint_unless_known,
  pending_mint, ledger_token, ensure_base_nft_minted,
}

-- Two states that differ in no experience, loot keys, event, reward, lootbox or unlocked trait.
pub record Kept (s t : Store) : Type 0 where
  pub economy : t.economy ≡ s.economy
  pub xp_ledger : t.xp_ledger ≡ s.xp_ledger
  pub loot_ledger : t.loot_ledger ≡ s.loot_ledger
  pub loot_balance : t.loot_balance ≡ s.loot_balance
  pub user_keys_kept :
      (b w : String) → user_keys (t.user_ledger b w) ≡ user_keys (s.user_ledger b w)
  pub user_xp_kept : (b w : String) → user_xp (t.user_ledger b w) ≡ user_xp (s.user_ledger b w)
  pub events : t.events ≡ s.events
  pub audits : t.audits ≡ s.audits
  pub lootbox_configs : t.lootbox_configs ≡ s.lootbox_configs
  pub user_traits : t.user_traits ≡ s.user_traits
  pub unlocked_traits : t.unlocked_traits ≡ s.unlocked_traits

persist-Kept :
    (brand wallet token : String) (s : Store) → Kept s (persist_minted_token brand wallet token s)
unfolding persist_minted_token
persist-Kept brand wallet token s = record {
  economy = refl;
  xp_ledger = refl;
  loot_ledger = refl;
  loot_balance = refl;
  user_keys_kept = λ b w. ground (arith, same_key_lookup brand wallet b w s.user_ledger);
  user_xp_kept = λ b w. ground (arith, same_key_lookup brand wallet b w s.user_ledger);
  events = refl;
  audits = refl;
  lootbox_configs = refl;
  user_traits = refl;
  unlocked_traits = refl;
}

submit-Kept :
    (env : MintEnv) (brand wallet : String) (s : Store) → Kept s (submit_mint env brand wallet s).1
unfolding submit_mint
submit-Kept env brand wallet s = record {
  economy = refl;
  xp_ledger = refl;
  loot_ledger = refl;
  loot_balance = refl;
  user_keys_kept = λ b w. refl;
  user_xp_kept = λ b w. refl;
  events = refl;
  audits = refl;
  lootbox_configs = refl;
  user_traits = refl;
  unlocked_traits = refl;
}

demo-Kept :
    (env : MintEnv) (brand wallet : String) (s : Store) → Kept s (demo_mint env brand wallet s).1
unfolding demo_mint persist_minted_token
demo-Kept env brand wallet s = record {
  economy = refl;
  xp_ledger = refl;
  loot_ledger = refl;
  loot_balance = refl;
  user_keys_kept = λ b w. ground (arith, same_key_lookup brand wallet b w s.user_ledger);
  user_xp_kept = λ b w. ground (arith, same_key_lookup brand wallet b w s.user_ledger);
  events = refl;
  audits = refl;
  lootbox_configs = refl;
  user_traits = refl;
  unlocked_traits = refl;
}

idle-Kept : (s : Store) → Kept s s
idle-Kept s = record {
  economy = refl;
  xp_ledger = refl;
  loot_ledger = refl;
  loot_balance = refl;
  user_keys_kept = λ b w. refl;
  user_xp_kept = λ b w. refl;
  events = refl;
  audits = refl;
  lootbox_configs = refl;
  user_traits = refl;
  unlocked_traits = refl;
}

unless_known-Kept :
    (env : MintEnv) (brand wallet : String) (s : Store)
    → Kept s (mint_unless_known env brand wallet s).1
unfolding mint_unless_known
unless_known-Kept env brand wallet s = elim (Option-cases (known_token brand wallet s)) [
  | inr (token, known) ↦ rw (known, mint_unless_known) (persist-Kept brand wallet token s)
  | inl unknown ↦ elim (Option-cases (pending_mint brand wallet s.runs)) [
    | inr (r, pending) ↦ rw (unknown, pending, mint_unless_known) (idle-Kept s)
    | inl idle ↦ elim (Bool-cases env.demo_mode) [
      | inl demo ↦ rw (unknown, idle, demo, mint_unless_known) (demo-Kept env brand wallet s)
      | inr live ↦ rw (unknown, idle, live, mint_unless_known) (submit-Kept env brand wallet s)
    ]
  ]
]

with_user-Kept :
    (brand wallet : String) (s t : Store) → Kept (with_user brand wallet s) t → Kept s t
with_user-Kept brand wallet s t k = record {
  economy = k.economy;
  xp_ledger = k.xp_ledger;
  loot_ledger = k.loot_ledger;
  loot_balance = k.loot_balance;
  user_keys_kept = k.user_keys_kept;
  user_xp_kept = k.user_xp_kept;
  events = k.events;
  audits = k.audits;
  lootbox_configs = k.lootbox_configs;
  user_traits = k.user_traits;
  unlocked_traits = k.unlocked_traits;
}

-- However a mint ends, it keeps everybody's experience and loot keys, the events, the rewards, the
-- lootboxes and the unlocked traits.
pub ensure-Kept :
    (env : MintEnv) (brand wallet : String) (s : Store)
    → Kept s (ensure_base_nft_minted env brand wallet s).1
unfolding ensure_base_nft_minted
ensure-Kept env brand wallet s =
    with_user-Kept brand wallet s _
      (elim (Option-cases (ledger_token (s.user_ledger brand wallet))) [
        | inr (token, held) ↦
            rw (held, ensure_base_nft_minted) (idle-Kept (with_user brand wallet s))
        | inl none_held ↦
            rw (none_held, ensure_base_nft_minted)
              (unless_known-Kept env brand wallet (with_user brand wallet s))
      ])

-- Seen from the ledgers.
pub Kept-IsSame : (s t : Store) → Kept s t → IsSame s.ledgers t.ledgers
Kept-IsSame s t k = record {
  economy = k.economy;
  xp_ledger = k.xp_ledger;
  loot_ledger = k.loot_ledger;
  loot_balance = k.loot_balance;
  user_keys_kept = k.user_keys_kept;
  user_xp_kept = k.user_xp_kept;
}
