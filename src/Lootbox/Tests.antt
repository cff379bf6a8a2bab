-- ===== src/Lootbox/Tests.antt =====
-- Runs of the sampling service, and its theorems at concrete inputs.
use dynamic_nft_krnl.Base.{ℕ, ◌<◌, ◌≡◌, refl, true, none, some, [], ◌∷◌, arith, ◌+◌}
use dynamic_nft_krnl.Base.Int.{pos}
use dynamic_nft_krnl.Js.{Runtime, whole, int, nan, Value, num, str, arr, obj, nil, cons, end, field}
use dynamic_nft_krnl.Lootbox.{
  LootTableEntry, key_of, has, total_weight, last_entry, pick_at, pick_one, random_steps,
  normalize_loot_table_entries, sample_weighted_loot_entries,
}
use dynamic_nft_krnl.Lootbox.Pick.{pick_at_weight}
use dynamic_nft_krnl.Lootbox.Sample.{IsSample, sample_weighted_loot_entries-IsSample}
use dynamic_nft_krnl.Lootbox.Missed.{sample_missed}

-- Reads no text as a number, and leaves case alone.
abbrev plain : Runtime
plain = record {
  read_number = λ s. whole nan;
  show_number = λ n. "0";
  to_lower = λ s. s;
  to_upper = λ s. s;
}

abbrev gold : LootTableEntry
gold = record { trait_name = "hat"; trait_value = "gold"; weight = 1 }

abbrev grey : LootTableEntry
grey = record { trait_name = "hat"; trait_value = "grey"; weight = 9 }

abbrev stored : Value
stored = obj (
    field "entries"
      (arr (
        cons
          (obj (
            field "traitName" (str " hat ")
              (field "traitValue" (str "gold") (field "weight" (num (whole (int (pos 1)))) end))))
          (cons (obj (field "traitName" (str "hat") end)) nil)))
      end)

reads : normalize_loot_table_entries plain stored ≡ gold ∷ []
unfolding normalize_loot_table_entries
reads = refl

-- A generator that always returns one half.
abbrev one_half : ℕ → ℕ
one_half i = 4503599627370496

samples : sample_weighted_loot_entries (gold ∷ grey ∷ []) (pos 1) [] none one_half ≡ grey ∷ []
unfolding sample_weighted_loot_entries
samples = refl

-- Two selections that differ can share a key.
keys_collide :
    key_of (record { trait_name = "a::b"; trait_value = "c"; weight = 1 })
    ≡ key_of (record { trait_name = "a"; trait_value = "b::c"; weight = 1 })
unfolding key_of
keys_collide = refl

in_range : (i : ℕ) → one_half i < random_steps
in_range i = omega arith

pick_at_weight_example :
    pick_at (last_entry (gold ∷ grey ∷ [])) (total_weight (gold ∷ []) + 4) (gold ∷ grey ∷ [])
    ≡ some grey
pick_at_weight_example = pick_at_weight (gold ∷ []) [] grey 4 (omega arith)

sample_weighted_loot_entries-IsSample_example :
    IsSample
      (gold ∷ grey ∷ [])
      1
      []
      (sample_weighted_loot_entries (gold ∷ grey ∷ []) (pos 1) [] none one_half)
sample_weighted_loot_entries-IsSample_example =
    sample_weighted_loot_entries-IsSample (gold ∷ grey ∷ []) (pos 1) [] none one_half in_range

sample_missed_example : has (key_of grey) ("hat::grey" ∷ []) ≡ true
unfolding sample_weighted_loot_entries pick_one
sample_missed_example =
    sample_missed (gold ∷ grey ∷ []) (pos 1) ("hat::grey" ∷ []) none one_half 3 grey (omega arith)
      (ground arith) in_range refl (omega arith) refl
