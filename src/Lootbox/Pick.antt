-- ===== src/Lootbox/Pick.antt =====
-- `pickOne`: a draw lands on each entry in proportion to its weight.
use dynamic_nft_krnl.Base.{
  ℕ, ◌+◌, ◌-◌, ◌*◌, ◌/◌, ◌<◌, ◌≡◌, Option, none, some, List, [], ◌∷◌, ◌++◌, arith, ◌⊎◌, ◌≢◌, ◌↔◌,
}
use dynamic_nft_krnl.Lootbox.{
  LootTableEntry, total_weight, last_entry, pick_at, pick_one, random_steps,
}

-- The entry stands in the list.
abbrev pub Listed : LootTableEntry → List LootTableEntry → Type 0
Listed e [] = ⊥
Listed e (x ∷ xs) = (e ≡ x) ⊎ Listed e xs

total_weight-append :
    (before after : List LootTableEntry)
    → total_weight (before ++ after) ≡ total_weight before + total_weight after
unfolding total_weight
total_weight-append [] after = omega arith
total_weight-append (x ∷ before) after = omega (arith, total_weight-append before after)

pick_at_hit :
    (last : Option LootTableEntry) (before after : List LootTableEntry) (e : LootTableEntry) (k : ℕ)
    → k < e.weight
    → pick_at last (total_weight before + k) (before ++ e ∷ after) ≡ some e
unfolding pick_at total_weight
pick_at_hit last [] after e k h = ground arith
pick_at_hit last (x ∷ before) after e k h =
    let left : x.weight + total_weight before + k - x.weight ≡ total_weight before + k =
      omega arith in
    ground (arith, pick_at_hit last before after e k h, left)

-- The rolls that choose an entry are the `weight` many from the total weight before it on: each of
-- them, and so one in `total_weight` for every unit of weight, picks that entry.
pub pick_at_weight :
    (before after : List LootTableEntry) (e : LootTableEntry) (k : ℕ)
    → k < e.weight
    → pick_at (last_entry (before ++ e ∷ after)) (total_weight before + k) (before ++ e ∷ after)
      ≡ some e
pick_at_weight before after e k h = pick_at_hit _ before after e k h

roll_bound :
    (draw total : ℕ) → draw < random_steps → 0 < total → draw * total / random_steps < total
roll_bound draw total d t = grind arith

pick_at-Listed :
    (last : Option LootTableEntry) (roll : ℕ) (entries : List LootTableEntry) (e : LootTableEntry)
    → roll < total_weight entries
    → pick_at last roll entries ≡ some e
    → Listed e entries × (0 < e.weight)
unfolding pick_at total_weight
pick_at-Listed last roll [] e h p = absurd (omega arith)
pick_at-Listed last roll (x ∷ xs) e h p = ground (arith, pick_at-Listed last (roll - x.weight) xs e)

pick_at_total :
    (last : Option LootTableEntry) (roll : ℕ) (entries : List LootTableEntry)
    → roll < total_weight entries
    → pick_at last roll entries ≢ none
unfolding pick_at total_weight
pick_at_total last roll [] h = absurd (omega arith)
pick_at_total last roll (x ∷ xs) h = ground (arith, pick_at_total last (roll - x.weight) xs)

-- A draw of the random generator picks an entry of the table, and one whose weight is not zero: the
-- entry that stands in for a roll past the end is never needed.
pub pick_one-Listed :
    (entries : List LootTableEntry) (draw : ℕ) (e : LootTableEntry)
    → draw < random_steps
    → pick_one entries draw ≡ some e
    → Listed e entries × (0 < e.weight)
unfolding pick_one
pick_one-Listed entries draw e d p = ground (
  arith,
  roll_bound draw (total_weight entries) d,
  pick_at-Listed (last_entry entries) (draw * total_weight entries / random_steps) entries e,
)

-- Nothing is picked exactly when the table has no weight at all.
pub pick_one-eq-none_iff :
    (entries : List LootTableEntry) (draw : ℕ)
    → draw < random_steps
    → (pick_one entries draw ≡ none) ↔ (total_weight entries ≡ 0)
unfolding pick_one
pick_one-eq-none_iff entries draw d = ground (
  arith,
  roll_bound draw (total_weight entries) d,
  pick_at_total (last_entry entries) (draw * total_weight entries / random_steps) entries,
)
