-- ===== src/Brands/Config/Outcome.antt =====
-- The ends of a request to set a lootbox.
use text.Mathlib.TextPositions.{eq_refl}
use dynamic_nft_krnl.Base.{
  ◌≡◌, refl, ◌∙◌, ap, Bool, true, not, ◌&&◌, Option, none, some, Option-cases, Bool-cases, inl, inr,
  String, List, [], ◌∷◌, All, arith, if◌then◌else◌,
}
use dynamic_nft_krnl.Base.Int.{ℤ, pos, ◌≤ℤ◌}
use dynamic_nft_krnl.Js.{
  Runtime, Number, whole, int, Value, undefined, null, bool, num, arr, obj, str, Fields, get,
  fields_of, elements, array_of, nullish, number_of, integer_from,
}
use dynamic_nft_krnl.Lootbox.{LootTableEntry, normalize_loot_table_entries}
use dynamic_nft_krnl.Store.{Store, LootboxConfig}
use dynamic_nft_krnl.Me.{Auth}
use dynamic_nft_krnl.Brands.{BrandsEnv, Answer, refused, saved, as_owner-cases}
use dynamic_nft_krnl.Brands.Config.{
  PostedEntry, posted_all, posted_entries, Checked, bad, good, check_entries, stored_table,
  Settings, write_config, save_config, is_bool, is_none_posted, is_none_listed, check_layers,
  from_one, Request, ill, fine, with_entries, check_request, set_checked, set_lootbox_config,
}
use dynamic_nft_krnl.Brands.Config.Stored.{
  IsKept, all_as_posted, IsTrimmed, IsGood, read_entries-stored, posted_entry-IsTrimmed,
  check_entries-IsGood,
}

-- What was refused changed nothing. What was saved is stored for the brand, with numbers from one on,
-- and read from the stored table it is, entry by entry, what the request posted.
abbrev pub IsStored :
    Runtime → Fields → String → Store → Answer (List LootTableEntry) × Store → Type 0
IsStored rt fs brand s (refused code m, s') = s' ≡ s
IsStored rt fs brand s (saved es, s') =
    (row : LootboxConfig) × (s'.lootbox_configs brand ≡ some row)
    × (normalize_loot_table_entries rt row.loot_table ≡ es)
    × (all_as_posted es ≡ posted_entries rt (get "lootTable" fs))
    × (pos 1 ≤ℤ row.xp_per_loot_key)
    × (pos 1 ≤ℤ row.loot_keys_per_open)
    × (pos 1 ≤ℤ row.max_unlocks_per_open)

abbrev IsFine : Runtime → Fields → Request → Type 0
IsFine rt fs (ill m) = Unit
IsFine rt fs (fine c) =
    All IsKept c.entries
    × (all_as_posted c.entries ≡ posted_entries rt (get "lootTable" fs))
    × (pos 1 ≤ℤ c.xp_per_loot_key)
    × (pos 1 ≤ℤ c.loot_keys_per_open)
    × (pos 1 ≤ℤ c.max_unlocks_per_open)

integer_from-positive : (x : Number) (n : ℤ) → integer_from (pos 1) x ≡ some n → pos 1 ≤ℤ n
unfolding integer_from
integer_from-positive x n h = ground arith

module _ (rt : Runtime) (fs : Fields) where
  posted_all-IsTrimmed : (vs : List Value) → All IsTrimmed (posted_all rt vs)
  unfolding posted_all
  posted_all-IsTrimmed [] = tt
  posted_all-IsTrimmed (v ∷ vs) = (posted_entry-IsTrimmed rt v, posted_all-IsTrimmed vs)

  posted_entries-IsTrimmed : (v : Value) → All IsTrimmed (posted_entries rt v)
  unfolding posted_entries
  posted_entries-IsTrimmed undefined = tt
  posted_entries-IsTrimmed null = tt
  posted_entries-IsTrimmed (bool b) = tt
  posted_entries-IsTrimmed (num n) = tt
  posted_entries-IsTrimmed (str s) = tt
  posted_entries-IsTrimmed (arr vs) = posted_all-IsTrimmed (elements vs)
  posted_entries-IsTrimmed (obj fs) = posted_all-IsTrimmed (array_of (get "entries" fs))

  from_one-positive : (v : Value) (d : _) (n : ℤ) → from_one rt v d ≡ some n → pos 1 ≤ℤ n
  unfolding from_one
  from_one-positive v d n h =
      integer_from-positive (number_of rt (nullish v (num (whole (int (pos d)))))) n h

  with_entries-IsFine :
      (enabled : Bool) (xp keys unlocks : ℤ) (c : Checked)
      → pos 1 ≤ℤ xp
      → pos 1 ≤ℤ keys
      → pos 1 ≤ℤ unlocks
      → IsGood (posted_entries rt (get "lootTable" fs)) c
      → IsFine rt fs (with_entries enabled xp keys unlocks c)
  with_entries-IsFine enabled xp keys unlocks (bad m) x k u h = tt
  with_entries-IsFine enabled xp keys unlocks (good es) x k u h = (h.0, h.1, x, k, u)

  check_request-IsFine : IsFine rt fs (check_request rt fs)
  unfolding check_request
  check_request-IsFine = elim (Option-cases (is_bool (nullish (get "enabled" fs) (bool true)))) [
    | inl odd ↦ rw (odd, IsFine) tt
    | inr (enabled, b) ↦ elim (Option-cases (from_one rt price 100)) [
      | inl odd ↦ rw (b, IsFine) (rw (odd, IsFine) tt)
      | inr (xp, x) ↦ elim (Option-cases (from_one rt (get "lootKeysPerOpen" fs) 1)) [
        | inl odd ↦ rw (b, IsFine) (rw (x, IsFine) (rw (odd, IsFine) tt))
        | inr (keys, k) ↦ elim (Option-cases (from_one rt (get "maxUnlocksPerOpen" fs) 1)) [
          | inl odd ↦ rw (b, IsFine) (rw (x, IsFine) (rw (k, IsFine) (rw (odd, IsFine) tt)))
          | inr (unlocks, u) ↦ elim (Bool-cases (enabled && is_none_posted posted)) [
            | inl empty ↦ rw (b, check_request) (rw x (rw k (rw u (rw (empty, IsFine) tt))))
            | inr listed ↦
                rw (b, check_request)
                  (rw x (
                    rw k (
                      rw u (
                        rw listed (
                          with_entries-IsFine enabled xp keys unlocks (check_entries posted)
                            (from_one-positive price 100 xp x)
                            (from_one-positive (get "lootKeysPerOpen" fs) 1 keys k)
                            (from_one-positive (get "maxUnlocksPerOpen" fs) 1 unlocks u)
                            (check_entries-IsGood posted
                              (posted_entries-IsTrimmed (get "lootTable" fs))))))))
          ]
        ]
      ]
    ]
  ]
    where
      price : Value
      price = nullish (get "xpPerKey" fs) (nullish (get "xpPerLootKey" fs) (get "xpCost" fs))

      posted : List PostedEntry
      posted = posted_entries rt (get "lootTable" fs)

module _ (env : BrandsEnv) (brand : String) (fs : Fields) (s : Store) where
  reads :
      (es : List LootTableEntry)
      → All IsKept es
      → normalize_loot_table_entries env.runtime (stored_table es) ≡ es
  unfolding normalize_loot_table_entries stored_table array_of get fields_of
  reads es kept = read_entries-stored env.runtime es kept

  save_config-IsStored :
      (c : Settings)
      → IsFine env.runtime fs (fine c)
      → IsStored env.runtime fs brand s (save_config env brand c s)
  unfolding save_config write_config
  save_config-IsStored c (kept, posted, xp, keys, unlocks) = missing (
      if c.enabled && not (is_none_listed c.entries)
      then check_layers env brand c.entries s
      else none)
    where
      row : LootboxConfig
      row = record {
        enabled = c.enabled;
        xp_per_loot_key = c.xp_per_loot_key;
        loot_keys_per_open = c.loot_keys_per_open;
        max_unlocks_per_open = c.max_unlocks_per_open;
        loot_table = stored_table c.entries;
      }

      missing :
          (o : Option String)
          → IsStored env.runtime fs brand s (elim o [
            | some m ↦ (refused 400 m, s)
            | none ↦ (
              saved (normalize_loot_table_entries env.runtime (stored_table c.entries)),
              write_config brand c s,
            )
          ])
      missing (some m) = refl
      missing none = (
        row,
        rw (eq_refl brand) refl,
        refl,
        ap all_as_posted (reads c.entries kept) ∙ posted,
        xp,
        keys,
        unlocks,
      )

  set_checked-IsStored :
      (auth : Auth) (r : Request)
      → IsFine env.runtime fs r
      → IsStored env.runtime fs brand s (set_checked env auth brand r s)
  unfolding set_checked
  set_checked-IsStored auth (ill m) h = refl
  set_checked-IsStored auth (fine c) h =
      as_owner-cases (IsStored env.runtime fs brand s) env auth brand s (save_config env brand c s)
        (λ code m. refl) (save_config-IsStored c h)

-- A request to set a brand's lootbox that is refused changes nothing. After one that is saved the
-- brand's lootbox costs one key and one unit of experience at least and opens one trait at least, and
-- the loot table that is read of the stored one, which the answer shows, is the one that was posted,
-- entry by entry: none is dropped and no weight changes.
pub set_lootbox_config-IsStored :
    (env : BrandsEnv) (auth : Auth) (brand : String) (body : Value) (s : Store)
    → IsStored env.runtime (fields_of body) brand s (set_lootbox_config env auth brand body s)
unfolding set_lootbox_config
set_lootbox_config-IsStored env auth brand body s =
    set_checked-IsStored env brand (fields_of body) s auth
      (check_request env.runtime (fields_of body))
      (check_request-IsFine env.runtime (fields_of body))
