-- ===== src/Lootbox.antt =====
-- apps/api/src/services/lootboxSamplingService.ts: the loot table, and the weighted draw of traits
-- that a wallet does not hold yet.
pub mod Pick
pub mod Sample
pub mod Missed
mod Tests
use Prim.Native.String
use text.Mathlib.Text.{◌==◌ as str_eq}
use dynamic_nft_krnl.Base.{
  ℕ, zero, suc, ◌+◌, ◌-◌, ◌*◌, ◌/◌, max, Bool, true, false, ◌||◌, Option, none, some, String, List,
  [], ◌∷◌, ◌++◌, if◌then◌else◌, ltb, leb, length, any,
}
use dynamic_nft_krnl.Base.Int.{ℤ, pos, pos_part}
use dynamic_nft_krnl.Base.Text.{is_empty, trim}
use dynamic_nft_krnl.Js.{
  Runtime, integer_from, Value, str, get, fields_of, array_of, nullish, text_of, number_of,
}

pub record LootTableEntry : Type 0 where
  pub trait_name : String
  pub trait_value : String
  pub weight : ℕ

unfoldable pub entry_of : String → String → Option ℤ → Option LootTableEntry
entry_of name value none = none
entry_of name value (some n) =
    if is_empty name || is_empty value
    then none
    else some (record { trait_name = name; trait_value = value; weight = pos_part n })

module _ (rt : Runtime) where
  -- `String(record.name ?? "").trim()`.
  unfoldable pub text_field : String → Value → String
  unfolding trim text_of nullish get fields_of
  text_field name raw = trim (text_of rt (nullish (get name (fields_of raw)) (str "")))

  -- One round of the loop: the entry pushed, if the raw one is usable.
  unfoldable pub read_entry : Value → Option LootTableEntry
  unfolding text_field entry_of integer_from number_of get fields_of
  read_entry raw =
      entry_of (text_field "traitName" raw) (text_field "traitValue" raw)
        (integer_from (pos 1) (number_of rt (get "weight" (fields_of raw))))

  unfoldable pub read_entries : List Value → List LootTableEntry
  unfolding read_entry
  read_entries [] = []
  read_entries (raw ∷ more) =
      let rest = read_entries more in elim (read_entry raw) [ none ↦ rest | some e ↦ e ∷ rest ]

  unfoldable pub normalize_loot_table_entries : Value → List LootTableEntry
  unfolding read_entries array_of get fields_of
  normalize_loot_table_entries input = read_entries (array_of (get "entries" (fields_of input)))

-- The key under which an entry counts as picked.
unfoldable pub key_of : LootTableEntry → String
key_of e = String.◌++◌ e.trait_name (String.◌++◌ "::" e.trait_value)

unfoldable pub has : String → List String → Bool
unfolding any
has k keys = any (str_eq k) keys

unfoldable pub total_weight : List LootTableEntry → ℕ
total_weight [] = 0
total_weight (e ∷ es) = e.weight + total_weight es

-- `entries[entries.length - 1] ?? null`.
unfoldable pub last_entry : List LootTableEntry → Option LootTableEntry
last_entry [] = none
last_entry (e ∷ []) = some e
last_entry (e ∷ f ∷ es) = last_entry (f ∷ es)

-- The loop of `pickOne` over the entries; `last` is returned when it runs through.
unfoldable pub pick_at : Option LootTableEntry → ℕ → List LootTableEntry → Option LootTableEntry
pick_at last roll [] = last
pick_at last roll (e ∷ es) =
    let later = pick_at last (roll - e.weight) es in if ltb roll e.weight then some e else later

-- `Math.random()` is a multiple of 2 ^ -53 below 1; `draw` is the multiple.
abbrev pub random_steps : ℕ
random_steps = 9007199254740992

unfoldable pub pick_one : List LootTableEntry → ℕ → Option LootTableEntry
unfolding total_weight last_entry pick_at
pick_one entries draw =
    let total = total_weight entries in
    if ltb 0 total then pick_at (last_entry entries) (draw * total / random_steps) entries else none

module _ (entries : List LootTableEntry) (count : ℕ) (excluded : List String) (random : ℕ → ℕ) where
  -- The `while` loop, by the attempts left; `n` draws were made before.
  unfoldable pub sample_loop : ℕ → ℕ → List String → List LootTableEntry → List LootTableEntry
  unfolding pick_one key_of has
  sample_loop zero n picked_keys picked = picked
  sample_loop (suc left) n picked_keys picked =
      let skipped = sample_loop left (n + 1) picked_keys picked in
      let taken = λ (e : LootTableEntry).
        sample_loop left (n + 1) (picked_keys ++ key_of e ∷ []) (picked ++ e ∷ []) in
      if ltb (length picked) count
      then (elim (pick_one entries (random n)) [
        | none ↦ picked
        | some e ↦
            if has (key_of e) excluded || has (key_of e) picked_keys then skipped else taken e
      ])
      else picked

pub max_attempts : ℕ → ℕ → Option ℕ → ℕ
max_attempts entries count none = max 20 (entries * count * 5)
max_attempts entries count (some n) = max n (max 20 (entries * count * 5))

unfoldable pub sample_weighted_loot_entries :
    List LootTableEntry → ℤ → List String → Option ℕ → (ℕ → ℕ) → List LootTableEntry
unfolding sample_loop max_attempts
sample_weighted_loot_entries entries count excluded attempts random =
    let wanted = pos_part count in
    if leb wanted 0 || leb (length entries) 0
    then []
    else sample_loop entries wanted excluded random (max_attempts (length entries) wanted attempts)
        0 [] []
