-- ===== src/Lootbox/Sample.antt =====
-- The sampling loop: what it returns, for every stream of random numbers.
use text.Mathlib.Text.{◌==◌ as str_eq}
use text.Mathlib.TextEquality.{eq_iff}
use dynamic_nft_krnl.Base.{
  ℕ, zero, suc, ◌+◌, ◌<◌, ◌≤◌, ◌≡◌, refl, false, ◌||◌, Option, String, List, [], ◌∷◌, ◌++◌, map, ap,
  arith, inl, inr, All, All-append, length, length-append, ltb, leb, Option-cases, Bool-cases,
}
use dynamic_nft_krnl.Base.Int.{ℤ, pos_part}
use dynamic_nft_krnl.Lootbox.{
  LootTableEntry, key_of, has, pick_one, random_steps, sample_loop, sample_weighted_loot_entries,
  max_attempts,
}
use dynamic_nft_krnl.Lootbox.Pick.{Listed, pick_one-Listed}

-- No two of the entries have the same key.
abbrev pub Distinct : List LootTableEntry → Type 0
Distinct [] = Unit
Distinct (e ∷ es) = (has (key_of e) (map key_of es) ≡ false) × Distinct es

has-nil : (k : String) → has k [] ≡ false
unfolding has
has-nil k = refl

has-cons : (k j : String) (ks : List String) → has k (j ∷ ks) ≡ (str_eq k j || has k ks)
unfolding has
has-cons k j ks = refl

has-append : (k j : String) (ks : List String) → has k (ks ++ j ∷ []) ≡ (has k ks || str_eq k j)
unfolding has
has-append k j [] = ground arith
has-append k j (i ∷ ks) = ground (arith, has-append k j ks)

map-append_one :
    (es : List LootTableEntry) (e : LootTableEntry)
    → map key_of (es ++ e ∷ []) ≡ map key_of es ++ key_of e ∷ []
map-append_one [] e = refl
map-append_one (x ∷ es) e = ap (◌∷◌ (key_of x)) (map-append_one es e)

Distinct-append :
    (es : List LootTableEntry) (e : LootTableEntry)
    → Distinct es
    → has (key_of e) (map key_of es) ≡ false
    → Distinct (es ++ e ∷ [])
Distinct-append [] e d h = (has-nil (key_of e), tt)
Distinct-append (x ∷ es) e d h = ground (
  arith,
  map-append_one es e,
  has-append (key_of x) (key_of e) (map key_of es),
  has-cons (key_of e) (key_of x) (map key_of es),
  eq_iff (key_of x) (key_of e),
  eq_iff (key_of e) (key_of x),
  Distinct-append es e d.1,
)

module _ (entries : List LootTableEntry) (count : ℕ) (excluded : List String) where
  -- What is picked so far: entries of the table, of some weight, none of them excluded, with
  -- different keys, and no more than asked for.
  pub record IsSample (picked : List LootTableEntry) : Type 0 where
    pub listed : All (λ e. Listed e entries × (0 < e.weight)) picked
    pub fresh : All (λ e. has (key_of e) excluded ≡ false) picked
    pub distinct : Distinct picked
    pub bounded : length picked ≤ count

  append-IsSample :
      (picked : List LootTableEntry) (e : LootTableEntry)
      → IsSample picked
      → Listed e entries × (0 < e.weight)
      → has (key_of e) excluded ≡ false
      → has (key_of e) (map key_of picked) ≡ false
      → length picked < count
      → IsSample (picked ++ e ∷ [])
  append-IsSample picked e s l x d b = record {
    listed = All-append _ picked (e ∷ []) s.listed (l, tt);
    fresh = All-append _ picked (e ∷ []) s.fresh (x, tt);
    distinct = Distinct-append picked e s.distinct d;
    bounded = omega (arith, length-append picked (e ∷ []));
  }

  module _ (random : ℕ → ℕ) (in_range : (i : ℕ) → random i < random_steps) where
    loop-IsSample :
        (left n : ℕ) (picked : List LootTableEntry)
        → IsSample picked
        → IsSample (sample_loop entries count excluded random left n (map key_of picked) picked)
    unfolding sample_loop
    loop-IsSample zero n picked s = s
    loop-IsSample (suc left) n picked s = elim (Bool-cases (ltb (length picked) count)) [
      | inr full ↦ rw (full, sample_loop) s
      | inl room ↦ elim (Option-cases (pick_one entries (random n))) [
        | inl nothing ↦ rw (room, nothing, sample_loop) s
        | inr (e, found) ↦ elim (Bool-cases (has (key_of e) excluded)) [
          | inl out ↦ rw (room, found, out, sample_loop) (loop-IsSample left (n + 1) picked s)
          | inr allowed ↦ elim (Bool-cases (has (key_of e) (map key_of picked))) [
            | inl again ↦
                rw (room, found, allowed, again, sample_loop) (loop-IsSample left (n + 1) picked s)
            | inr new ↦
                rw (room, found, allowed, new, sample_loop, ← map-append_one picked e)
                  (loop-IsSample left (n + 1) (picked ++ e ∷ []) (
                    append-IsSample picked e s
                      (pick_one-Listed entries (random n) e (in_range n) found) allowed new
                      (ground arith)))
          ]
        ]
      ]
    ]

empty-IsSample :
    (entries : List LootTableEntry) (count : ℕ) (excluded : List String)
    → IsSample entries count excluded []
empty-IsSample entries count excluded = record {
  listed = tt;
  fresh = tt;
  distinct = tt;
  bounded = omega arith;
}

-- Whatever the random numbers are, what is sampled stands in the table with some weight, is not
-- excluded, has no key twice and is no more than the count asked for.
pub sample_weighted_loot_entries-IsSample :
    (entries : List LootTableEntry) (count : ℤ) (excluded : List String) (attempts : Option ℕ)
    (random : ℕ → ℕ)
    → ((i : ℕ) → random i < random_steps)
    → IsSample entries
        (pos_part count)
        excluded
        (sample_weighted_loot_entries entries count excluded attempts random)
unfolding sample_weighted_loot_entries
sample_weighted_loot_entries-IsSample entries count excluded attempts random in_range =
    elim (Bool-cases (leb (pos_part count) 0 || leb (length entries) 0)) [
      | inl none_wanted ↦
          rw (none_wanted, sample_weighted_loot_entries)
            (empty-IsSample entries (pos_part count) excluded)
      | inr wanted ↦
          rw (wanted, sample_weighted_loot_entries)
            (loop-IsSample entries (pos_part count) excluded random in_range
              (max_attempts (length entries) (pos_part count) attempts) 0 []
              (empty-IsSample entries (pos_part count) excluded))
    ]
