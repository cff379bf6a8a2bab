-- ===== src/Me/Outcomes.antt =====
-- What the draw and the spending of an opening do.
use dynamic_nft_krnl.Base.{
  ℕ, ◌<◌, ◌≡◌, ◌⊎◌, inl, inr, Bool, true, false, none, some, String, List, arith, Option-cases,
  same_key_refl,
}
use dynamic_nft_krnl.Base.Int.{ℤ, pos, ◌≤ℤ◌, ◌-ℤ◌, max_ℤ, pos_part}
use dynamic_nft_krnl.Lootbox.{LootTableEntry, random_steps, normalize_loot_table_entries}
use dynamic_nft_krnl.Lootbox.Sample.{IsSample, sample_weighted_loot_entries-IsSample}
use dynamic_nft_krnl.Store.{Store, Ledgers, EconomyLedger}
use dynamic_nft_krnl.Krnl.Submit.{WorkflowSubmission}
use dynamic_nft_krnl.Ledger.{consume}
use dynamic_nft_krnl.Me.{MeEnv, Response, opened, internal_error}
use dynamic_nft_krnl.Me.Open.{
  drawn, config_of, keys_per_open, unlocked_keys, is_nil, draw_of, draw_entries, prepare_open,
}

taken_lem :
    (brand wallet : String) (n : ℤ) (l l' : Ledgers) (balance : ℤ) (r : EconomyLedger)
    → pos 1 ≤ℤ n
    → l.economy brand wallet ≡ some r
    → consume brand wallet n l ≡ some (balance, l')
    → (n ≤ℤ r.loot_keys_balance)
      × (balance ≡ r.loot_keys_balance -ℤ n)
      × (l'.economy brand wallet ≡ some (record r { loot_keys_balance = r.loot_keys_balance -ℤ n }))
unfolding consume ◌-ℤ◌
taken_lem brand wallet n l l' balance r p there e =
    (ground arith, ground arith, ground (arith, same_key_refl brand wallet))

pub consume_lem :
    (brand wallet : String) (n : ℤ) (l l' : Ledgers) (balance : ℤ)
    → pos 1 ≤ℤ n
    → consume brand wallet n l ≡ some (balance, l')
    → (r : EconomyLedger) × (l.economy brand wallet ≡ some r)
      × (n ≤ℤ r.loot_keys_balance)
      × (balance ≡ r.loot_keys_balance -ℤ n)
      × (l'.economy brand wallet ≡ some (record r { loot_keys_balance = r.loot_keys_balance -ℤ n }))
unfolding consume
consume_lem brand wallet n l l' balance p e = elim (Option-cases (l.economy brand wallet)) [
  | inl gone ↦ absurd (ground arith)
  | inr (r, there) ↦
      let (covered, rest, row) = taken_lem brand wallet n l l' balance r p there e in
      (r, there, covered, rest, row)
]

-- The wallet's keys were spent on traits that it did not have.
pub record IsSpent (env : MeEnv) (brand wallet : String) (s : Store) (out : Response × Store)
    : Type 0 where
  pub row : EconomyLedger
  pub picked : List LootTableEntry
  pub there : s.economy brand wallet ≡ some row
  pub covered : keys_per_open brand s ≤ℤ row.loot_keys_balance
  pub economy :
      out.1.economy brand wallet
      ≡ some (record row { loot_keys_balance = row.loot_keys_balance -ℤ keys_per_open brand s })
  pub sample :
      let c = config_of (s.lootbox_configs brand) in
      IsSample
        (normalize_loot_table_entries env.runtime c.loot_table)
        (pos_part (max_ℤ (pos 1) c.max_unlocks_per_open))
        (unlocked_keys brand wallet s.user_traits)
        picked
  pub some_picked : is_nil picked ≡ false
  pub answer :
      ((w : WorkflowSubmission) × (out.0
          ≡ opened w picked
              (keys_per_open brand s)
              (row.loot_keys_balance -ℤ keys_per_open brand s)))
      ⊎ (out.0 ≡ internal_error)

-- An opening that is not refused has come to the draw.
prepare_lem :
    (env : MeEnv) (brand wallet : String) (s : Store) (n : ℤ) (picked : List LootTableEntry)
    → prepare_open env brand wallet s ≡ drawn n picked
    → draw_entries env brand wallet s ≡ drawn n picked
unfolding prepare_open
prepare_lem env brand wallet s n picked e = ground arith

draw_lem :
    (n n' : ℤ) (picked picked' : List LootTableEntry)
    → draw_of n picked ≡ drawn n' picked'
    → (n' ≡ n) × (picked' ≡ picked) × (is_nil picked' ≡ false)
unfolding draw_of
draw_lem n n' picked picked' e = (ground arith, ground arith, ground arith)

pub drawn_lem :
    (env : MeEnv) (brand wallet : String) (s : Store) (n : ℤ) (picked : List LootTableEntry)
    → ((i : ℕ) → env.random i < random_steps)
    → prepare_open env brand wallet s ≡ drawn n picked
    → let c = config_of (s.lootbox_configs brand) in
      (n ≡ keys_per_open brand s)
      × IsSample
          (normalize_loot_table_entries env.runtime c.loot_table)
          (pos_part (max_ℤ (pos 1) c.max_unlocks_per_open))
          (unlocked_keys brand wallet s.user_traits)
          picked
      × (is_nil picked ≡ false)
unfolding draw_entries
drawn_lem env brand wallet s n picked range e =
    let c = config_of (s.lootbox_configs brand) in
    let (same, sampled, filled) =
      draw_lem _ n _ picked (prepare_lem env brand wallet s n picked e) in
    (
      same,
      rw sampled (
          sample_weighted_loot_entries-IsSample
            (normalize_loot_table_entries env.runtime c.loot_table)
            (max_ℤ (pos 1) c.max_unlocks_per_open) (unlocked_keys brand wallet s.user_traits) none
            env.random range),
      filled,
    )

abbrev pub is_opened : Response → Bool
is_opened (opened w picked keys balance) = true
is_opened r = false
