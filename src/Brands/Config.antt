-- ===== src/Brands/Config.antt =====
-- The lootbox of a brand: POST /brands/:brandId/lootbox/config of apps/api/src/routes/brands.ts.
pub mod Stored
pub mod Outcome
use Prim.Native.String
use text.Mathlib.Text.{◌==◌ as str_eq}
use dynamic_nft_krnl.Base.{
  ℕ, Bool, true, false, not, ◌&&◌, ◌||◌, Option, none, some, String, List, [], ◌∷◌, if◌then◌else◌,
  any,
}
use dynamic_nft_krnl.Base.Int.{ℤ, pos, pos_part}
use dynamic_nft_krnl.Base.Text.{is_empty, trim}
use dynamic_nft_krnl.Js.{
  Runtime, Number, whole, int, Value, undefined, null, bool, num, str, arr, obj, Values, nil, cons,
  Fields, end, field, get, fields_of, elements, array_of, nullish, text_of, number_of, integer_from,
}
use dynamic_nft_krnl.Lootbox.{LootTableEntry, normalize_loot_table_entries, has}
use dynamic_nft_krnl.Store.{Store, LootboxConfig, NftConfig}
use dynamic_nft_krnl.Mint.{non_empty}
use dynamic_nft_krnl.Me.{Auth}
use dynamic_nft_krnl.Brands.{BrandsEnv, Answer, refused, saved, as_owner}

-- An entry as it is posted, before its weight is checked.
pub record PostedEntry : Type 0 where
  pub trait_name : String
  pub trait_value : String
  pub weight : Number

unfoldable pub posted_entry : Runtime → Value → PostedEntry
unfolding get fields_of nullish trim text_of number_of
posted_entry rt v =
    let fs = fields_of v in
    record {
      trait_name =
          trim (text_of rt (nullish (get "traitName" fs) (nullish (get "traitKey" fs) (str ""))));
      trait_value = trim (text_of rt (nullish (get "traitValue" fs) (str "")));
      weight = number_of rt (get "weight" fs);
    }

unfoldable pub posted_all : Runtime → List Value → List PostedEntry
unfolding posted_entry
posted_all rt [] = []
posted_all rt (v ∷ vs) = posted_entry rt v ∷ posted_all rt vs

-- The table is posted as an array, or as an object with one.
unfoldable pub posted_entries : Runtime → Value → List PostedEntry
unfolding posted_all array_of elements get fields_of
posted_entries rt (arr vs) = posted_all rt (elements vs)
posted_entries rt (obj fs) = posted_all rt (array_of (get "entries" fs))
posted_entries rt undefined = []
posted_entries rt null = []
posted_entries rt (bool b) = []
posted_entries rt (num n) = []
posted_entries rt (str s) = []

-- The entries with their weights, or what is wrong with the first that is wrong.
pub data Checked : Type 0 where
  bad : String → Checked
  good : List LootTableEntry → Checked

abbrev pub and_entry : PostedEntry → ℤ → Checked → Checked
and_entry p n (bad m) = bad m
and_entry p n (good es) =
    good
      (record { trait_name = p.trait_name; trait_value = p.trait_value; weight = pos_part n } ∷ es)

unfoldable pub check_entries : List PostedEntry → Checked
unfolding integer_from
check_entries [] = good []
check_entries (p ∷ ps) =
    let rest = check_entries ps in
    if is_empty p.trait_name || is_empty p.trait_value
    then bad "Each loot table entry needs traitName/traitKey and traitValue"
    else elim (integer_from (pos 1) p.weight) [
      | none ↦ bad "Each loot table entry weight must be >= 1"
      | some n ↦ and_entry p n rest
    ]

-- `lootTable: { entries }`.
unfoldable pub stored_entries : List LootTableEntry → Values
stored_entries [] = nil
stored_entries (e ∷ es) =
    cons
      (obj (
        field "traitName" (str e.trait_name) (
          field "traitValue" (str e.trait_value)
            (field "weight" (num (whole (int (pos e.weight)))) end))))
      (stored_entries es)

unfoldable pub stored_table : List LootTableEntry → Value
unfolding stored_entries
stored_table es = obj (field "entries" (arr (stored_entries es)) end)

-- The key of an entry's layer.
abbrev state_key : LootTableEntry → String
state_key e = String.◌++◌ e.trait_name (String.◌++◌ ":" e.trait_value)

unfoldable pub is_missing_layer : List String → LootTableEntry → Bool
unfolding has
is_missing_layer layers e = not (has (state_key e) layers)

abbrev pack_of : Option NftConfig → Option String
pack_of none = none
pack_of (some c) = non_empty c.active_asset_pack_id

-- Whether every entry of a lootbox that is enabled has a layer in the active pack.
unfoldable pub check_layers : BrandsEnv → String → List LootTableEntry → Store → Option String
unfolding is_missing_layer any
check_layers env brand es s = elim (pack_of (s.nft_configs brand)) [
  | none ↦ some "Active asset pack is required. Set activeAssetPackId in NFT contract config."
  | some pack ↦
      if any (is_missing_layer (env.layers brand pack)) es
      then some "Loot table entries must have uploaded layer images in the active asset pack."
      else none
]

-- What was checked of the request.
pub record Settings : Type 0 where
  pub enabled : Bool
  pub xp_per_loot_key : ℤ
  pub loot_keys_per_open : ℤ
  pub max_unlocks_per_open : ℤ
  pub entries : List LootTableEntry

abbrev pub is_none_listed : List LootTableEntry → Bool
is_none_listed [] = true
is_none_listed (e ∷ es) = false

unfoldable pub write_config : String → Settings → Store → Store
unfolding stored_table
write_config brand c s =
    let row : LootboxConfig = record {
      enabled = c.enabled;
      xp_per_loot_key = c.xp_per_loot_key;
      loot_keys_per_open = c.loot_keys_per_open;
      max_unlocks_per_open = c.max_unlocks_per_open;
      loot_table = stored_table c.entries;
    } in
    record s { lootbox_configs = λ b. if str_eq brand b then some row else s.lootbox_configs b }

-- The settings are saved; the answer reads the entries back from the stored table.
unfoldable pub save_config :
    BrandsEnv → String → Settings → Store → Answer (List LootTableEntry) × Store
unfolding check_layers write_config normalize_loot_table_entries stored_table
save_config env brand c s =
    let missing : Option String =
      if c.enabled && not (is_none_listed c.entries)
      then check_layers env brand c.entries s
      else none in
    elim missing [
      | some m ↦ (refused 400 m, s)
      | none ↦ (
        saved (normalize_loot_table_entries env.runtime (stored_table c.entries)),
        write_config brand c s,
      )
    ]

abbrev pub is_bool : Value → Option Bool
is_bool (bool b) = some b
is_bool undefined = none
is_bool null = none
is_bool (num n) = none
is_bool (str s) = none
is_bool (arr vs) = none
is_bool (obj fs) = none

-- A number of the request, or else the one that is given.
unfoldable pub from_one : Runtime → Value → ℕ → Option ℤ
unfolding integer_from number_of nullish
from_one rt v default =
    integer_from (pos 1) (number_of rt (nullish v (num (whole (int (pos default))))))

-- The checks of the request that come before the database is asked.
pub data Request : Type 0 where
  ill : String → Request
  fine : Settings → Request

abbrev with_entries : Bool → ℤ → ℤ → ℤ → Checked → Request
with_entries enabled xp keys unlocks (bad m) = ill m
with_entries enabled xp keys unlocks (good es) = fine (record {
  enabled = enabled;
  xp_per_loot_key = xp;
  loot_keys_per_open = keys;
  max_unlocks_per_open = unlocks;
  entries = es;
})

abbrev pub is_none_posted : List PostedEntry → Bool
is_none_posted [] = true
is_none_posted (p ∷ ps) = false

unfoldable pub check_request : Runtime → Fields → Request
unfolding get from_one nullish check_entries posted_entries
check_request rt fs = elim (is_bool (nullish (get "enabled" fs) (bool true))) [
  | none ↦ ill "enabled must be boolean"
  | some enabled ↦
      elim (from_one rt
        (nullish (get "xpPerKey" fs) (nullish (get "xpPerLootKey" fs) (get "xpCost" fs))) 100) [
          | none ↦ ill "xpPerLootKey must be >= 1"
          | some xp ↦ elim (from_one rt (get "lootKeysPerOpen" fs) 1) [
            | none ↦ ill "lootKeysPerOpen must be >= 1"
            | some keys ↦ elim (from_one rt (get "maxUnlocksPerOpen" fs) 1) [
              | none ↦ ill "maxUnlocksPerOpen must be >= 1"
              | some unlocks ↦
                  let posted = posted_entries rt (get "lootTable" fs) in
                  if enabled && is_none_posted posted
                  then ill "lootTable.entries must be non-empty when enabled"
                  else with_entries enabled xp keys unlocks (check_entries posted)
            ]
          ]
        ]
]

unfoldable pub set_checked :
    BrandsEnv → Auth → String → Request → Store → Answer (List LootTableEntry) × Store
unfolding as_owner save_config
set_checked env auth brand (ill m) s = (refused 400 m, s)
set_checked env auth brand (fine c) s = as_owner env auth brand s (save_config env brand c s)

unfoldable pub set_lootbox_config :
    BrandsEnv → Auth → String → Value → Store → Answer (List LootTableEntry) × Store
unfolding check_request set_checked fields_of
set_lootbox_config env auth brand body s =
    set_checked env auth brand (check_request env.runtime (fields_of body)) s
