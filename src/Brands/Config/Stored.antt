-- ===== src/Brands/Config/Stored.antt =====
-- A lootbox that was set, and what is read of its stored table.
use dynamic_nft_krnl.Base.{
  ◌≡◌, ◌≤◌, refl, ◌∙◌, ap, Bool, false, ◌||◌, some, Option-cases, Bool-cases, inl, inr, String,
  List, [], ◌∷◌, All, arith,
}
use dynamic_nft_krnl.Base.Int.{ℤ, pos, pos_part}
use dynamic_nft_krnl.Base.Text.{is_empty, trim, trim-trim}
use dynamic_nft_krnl.Js.{
  Runtime, Number, whole, int, Value, num, obj, str, end, field, get, fields_of, elements, text_of,
  nullish, number_of, integer_from,
}
use dynamic_nft_krnl.Lootbox.{LootTableEntry, entry_of, text_field, read_entry, read_entries}
use dynamic_nft_krnl.Brands.Config.{
  PostedEntry, posted_entry, Checked, bad, good, and_entry, check_entries, stored_entries,
}

-- A usable entry: both names are filled in, and the weight is a positive integer.
abbrev IsUsable : LootTableEntry → Type 0
IsUsable e = (is_empty e.trait_name ≡ false) × (is_empty e.trait_value ≡ false) × (1 ≤ e.weight)

-- An entry that the handler stores: usable, and with names that are trimmed.
abbrev pub IsKept : LootTableEntry → Type 0
IsKept e = IsUsable e × (trim e.trait_name ≡ e.trait_name) × (trim e.trait_value ≡ e.trait_value)

-- The entry as it was posted.
abbrev pub as_posted : LootTableEntry → PostedEntry
as_posted e = record {
  trait_name = e.trait_name;
  trait_value = e.trait_value;
  weight = whole (int (pos e.weight));
}

abbrev pub all_as_posted : List LootTableEntry → List PostedEntry
all_as_posted [] = []
all_as_posted (e ∷ es) = as_posted e ∷ all_as_posted es

module _ (rt : Runtime) where
  read-stored :
      (e : LootTableEntry)
      → IsKept e
      → entry_of e.trait_name e.trait_value (integer_from (pos 1) (whole (int (pos e.weight))))
        ≡ some e
  unfolding entry_of integer_from
  read-stored e (usable, name, value) = ground arith

  read_entry-stored :
      (e : LootTableEntry)
      → IsKept e
      → read_entry rt (
          obj (
            field "traitName" (str e.trait_name) (
              field "traitValue"
                (str e.trait_value)
                (field "weight" (num (whole (int (pos e.weight)))) end))))
        ≡ some e
  unfolding read_entry text_field text_of nullish get fields_of number_of
  read_entry-stored e k =
      let n = integer_from (pos 1) (whole (int (pos e.weight))) in
      ap (λ (u : String). entry_of u (trim e.trait_value) n) k.1
      ∙ ap (λ (u : String). entry_of e.trait_name u n) k.2
      ∙ read-stored e k

  pub read_entries-stored :
      (es : List LootTableEntry)
      → All IsKept es
      → read_entries rt (elements (stored_entries es)) ≡ es
  unfolding read_entries stored_entries elements
  read_entries-stored [] k = refl
  read_entries-stored (e ∷ es) k =
      rw (read_entry-stored e k.0, read_entries)
        (ap (λ (r : List LootTableEntry). e ∷ r) (read_entries-stored es k.1))

  -- The names that are read of the request are trimmed.
  pub posted_entry-IsTrimmed :
      (v : Value)
      → (trim (posted_entry rt v).trait_name ≡ (posted_entry rt v).trait_name)
        × (trim (posted_entry rt v).trait_value ≡ (posted_entry rt v).trait_value)
  unfolding posted_entry
  posted_entry-IsTrimmed v = (
    trim-trim (
        text_of rt (
          nullish (get "traitName" (fields_of v))
            (nullish (get "traitKey" (fields_of v)) (str "")))),
    trim-trim (text_of rt (nullish (get "traitValue" (fields_of v)) (str ""))),
  )

-- A list of posted entries whose names are trimmed.
abbrev pub IsTrimmed : PostedEntry → Type 0
IsTrimmed p = (trim p.trait_name ≡ p.trait_name) × (trim p.trait_value ≡ p.trait_value)

-- What passes the checks is kept whole, as it was posted.
abbrev pub IsGood : List PostedEntry → Checked → Type 0
IsGood ps (bad m) = Unit
IsGood ps (good es) = All IsKept es × (all_as_posted es ≡ ps)

pub integer_from-one :
    (x : Number) (n : ℤ)
    → integer_from (pos 1) x ≡ some n
    → (whole (int (pos (pos_part n))) ≡ x) × (1 ≤ pos_part n)
unfolding integer_from
integer_from-one x n h = ground arith

or_false : (a b : Bool) → a || b ≡ false → (a ≡ false) × (b ≡ false)
or_false a b h = ground arith

and_entry-IsGood :
    (p : PostedEntry) (n : ℤ) (ps : List PostedEntry) (c : Checked)
    → IsTrimmed p
    → is_empty p.trait_name || is_empty p.trait_value ≡ false
    → integer_from (pos 1) p.weight ≡ some n
    → IsGood ps c
    → IsGood (p ∷ ps) (and_entry p n c)
and_entry-IsGood p n ps (bad m) trimmed named weighed h = tt
and_entry-IsGood p n ps (good es) trimmed named weighed h =
    let w = integer_from-one p.weight n weighed in
    let bare = or_false (is_empty p.trait_name) (is_empty p.trait_value) named in
    (
      (((bare.0, bare.1, w.1), trimmed.0, trimmed.1), h.0),
      ap (λ (x : Number). record p { weight = x } ∷ all_as_posted es) w.0
          ∙ ap (λ (qs : List PostedEntry). p ∷ qs) h.1,
    )

pub check_entries-IsGood : (ps : List PostedEntry) → All IsTrimmed ps → IsGood ps (check_entries ps)
unfolding check_entries
check_entries-IsGood [] h = (tt, refl)
check_entries-IsGood (p ∷ ps) h =
    elim (Bool-cases (is_empty p.trait_name || is_empty p.trait_value)) [
      | inl blank ↦ rw (blank, IsGood) tt
      | inr named ↦ elim (Option-cases (integer_from (pos 1) p.weight)) [
        | inl wrong ↦ rw (named, IsGood) (rw (wrong, IsGood) tt)
        | inr (n, weighed) ↦
            rw (named, check_entries)
              (rw weighed (
                and_entry-IsGood p n ps (check_entries ps) h.0 named weighed
                  (check_entries-IsGood ps h.1)))
      ]
    ]
