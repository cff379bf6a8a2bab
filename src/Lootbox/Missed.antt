-- ===== src/Lootbox/Missed.antt =====
-- When nothing is sampled: every draw hit a trait that was excluded.
use dynamic_nft_krnl.Base.{
  ℕ, zero, suc, ◌+◌, ◌<◌, ◌≤◌, ◌≡◌, ◌≢◌, inl, inr, true, false, ◌||◌, Option, none, some, String,
  List, [], ◌∷◌, ◌++◌, arith, length, length-append, ltb, leb, Option-cases, Bool-cases, ap,
}
use dynamic_nft_krnl.Base.Int.{ℤ, pos_part}
use dynamic_nft_krnl.Lootbox.{
  LootTableEntry, key_of, has, pick_one, random_steps, sample_loop, sample_weighted_loot_entries,
  max_attempts, total_weight,
}
use dynamic_nft_krnl.Lootbox.Pick.{pick_one-eq-none_iff}
use native.Mathlib.Nat.{add-zero, zero-add}

wanted :
    (entries : List LootTableEntry) (count : ℕ)
    → 0 < count
    → 0 < total_weight entries
    → (leb count 0 || leb (length entries) 0) ≡ false
unfolding total_weight
wanted [] count c w = absurd (omega arith)
wanted (x ∷ xs) count c w = ground arith

module _ (entries : List LootTableEntry) (count : ℕ) (excluded : List String) (random : ℕ → ℕ) where
  loop_grows :
      (left n : ℕ) (keys : List String) (picked : List LootTableEntry)
      → length picked ≤ length (sample_loop entries count excluded random left n keys picked)
  unfolding sample_loop
  loop_grows zero n keys picked = omega arith
  loop_grows (suc left) n keys picked = elim (Bool-cases (ltb (length picked) count)) [
    | inr full ↦ rw (full, sample_loop) (omega arith)
    | inl room ↦ elim (Option-cases (pick_one entries (random n))) [
      | inl nothing ↦ rw (room, nothing, sample_loop) (omega arith)
      | inr (e, found) ↦ elim (Bool-cases (has (key_of e) excluded || has (key_of e) keys)) [
        | inl skip ↦ rw (room, found, skip, sample_loop) (loop_grows left (n + 1) keys picked)
        | inr take ↦
            rw (room, found, take, sample_loop)
              (omega (
                arith,
                length-append picked (e ∷ []),
                loop_grows left (n + 1) (keys ++ key_of e ∷ []) (picked ++ e ∷ []),
              ))
      ]
    ]
  ]

  -- One round of an empty result: the entry drawn was excluded, and the rest is empty too.
  step_missed :
      (left n : ℕ) (e : LootTableEntry)
      → 0 < count
      → sample_loop entries count excluded random (suc left) n [] [] ≡ []
      → pick_one entries (random n) ≡ some e
      → (has (key_of e) excluded ≡ true)
        × (sample_loop entries count excluded random left (n + 1) [] [] ≡ [])
  unfolding sample_loop
  step_missed left n e c r found =
      let room : ltb 0 count ≡ true = ground arith in
      elim (Bool-cases (has (key_of e) excluded)) [
        | inl out ↦ (out, rw (room, found, out, sample_loop) at r)
        | inr allowed ↦
            let grown = loop_grows left (n + 1) (key_of e ∷ []) (e ∷ []) in
            let shrunk = (rw (room, found, allowed, sample_loop) at r) in
            absurd (omega (arith, ap length shrunk))
      ]

  loop_missed :
      (left n i : ℕ) (e : LootTableEntry)
      → 0 < count
      → ((k : ℕ) → pick_one entries (random k) ≢ none)
      → sample_loop entries count excluded random left n [] [] ≡ []
      → i < left
      → pick_one entries (random (n + i)) ≡ some e
      → has (key_of e) excluded ≡ true
  loop_missed zero n i e c weighty r lt p = absurd (omega arith)
  loop_missed (suc left) n zero e c weighty r lt p =
      (step_missed left n e c r (rw (add-zero n) at p)).0
  loop_missed (suc left) n (suc i) e c weighty r lt p =
      elim (Option-cases (pick_one entries (random n))) [
        | inl nothing ↦ absurd (weighty n nothing)
        | inr (f, found) ↦
            let next : n + suc i ≡ n + 1 + i = omega arith in
            loop_missed left (n + 1) i e c weighty (step_missed left n f c r found).1 (omega arith)
              (rw next at p)
      ]

-- When nothing is sampled from a table of some weight though something was asked for, every one of
-- the attempts drew an entry that is excluded.
pub sample_missed :
    (entries : List LootTableEntry) (count : ℤ) (excluded : List String) (attempts : Option ℕ)
    (random : ℕ → ℕ) (i : ℕ) (e : LootTableEntry)
    → 0 < pos_part count
    → 0 < total_weight entries
    → ((k : ℕ) → random k < random_steps)
    → sample_weighted_loot_entries entries count excluded attempts random ≡ []
    → i < max_attempts (length entries) (pos_part count) attempts
    → pick_one entries (random i) ≡ some e
    → has (key_of e) excluded ≡ true
unfolding sample_weighted_loot_entries
sample_missed entries count excluded attempts random i e c weighty in_range r lt p =
    let none_wanted : (leb (pos_part count) 0 || leb (length entries) 0) ≡ false =
      wanted entries (pos_part count) c weighty in
    let picks : (k : ℕ) → pick_one entries (random k) ≢ none = λ k nothing.
      absurd (omega (arith, (pick_one-eq-none_iff entries (random k) (in_range k)).0 nothing)) in
    loop_missed entries (pos_part count) excluded random
      (max_attempts (length entries) (pos_part count) attempts) 0 i e c picks
      (rw (none_wanted, sample_weighted_loot_entries) at r) lt (rw zero-add p)
