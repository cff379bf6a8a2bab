-- ===== src/Access/Paths.antt =====
-- The brand in a path is found again.
use Prim.Native.Char.{code}
use Prim.Native.String
use Prim.Native.String.append
use dynamic_nft_krnl.Base.{
  ℕ, ◌≡◌, refl, sym, ◌∙◌, ap, Bool, true, false, Option, none, some, Option-cases, Bool-cases, inl,
  inr, String, List, [], ◌∷◌, arith, ◌==◌,
}
use dynamic_nft_krnl.Base.Text.{is_empty, strip_prefix}
use dynamic_nft_krnl.Access.BrandPath.{
  fits, uuid_places, take_places, is_uuid, before_query, same_letter, route_brand_id,
}

strip_prefix-append :
    (same : ℕ → ℕ → Bool)
    → ((c : ℕ) → same c c ≡ true)
    → (p s : String) → strip_prefix same p (String.◌++◌ p s) ≡ some s
unfolding strip_prefix
strip_prefix-append same h String.[] s = rw (append.nil s) refl
strip_prefix-append same h (String.◌∷◌ c p) s =
    rw (append.cons c p s) (rw (h (code c)) (strip_prefix-append same h p s))

same_letter_refl : (c : ℕ) → same_letter c c ≡ true
same_letter_refl c = ground arith

-- The text has a character for each place, and no other.
abbrev Fits : List Bool → String → Type 0
Fits [] String.[] = Unit
Fits [] (String.◌∷◌ c s) = ⊥
Fits (b ∷ bs) String.[] = ⊥
Fits (b ∷ bs) (String.◌∷◌ c s) = (fits b (code c) ≡ true) × Fits bs s

abbrev takes_all : Option (String × String) → Bool
takes_all none = false
takes_all (some r) = is_empty r.1

false-ne-true : false ≡ true → ⊥
false-ne-true e = cc

takes_all-Fits : (bs : List Bool) (s : String) → takes_all (take_places bs s) ≡ true → Fits bs s
unfolding take_places
takes_all-Fits [] String.[] h = tt
takes_all-Fits [] (String.◌∷◌ c s) h = false-ne-true h
takes_all-Fits (b ∷ bs) String.[] h = false-ne-true h
takes_all-Fits (b ∷ bs) (String.◌∷◌ c s) h = elim (Bool-cases (fits b (code c))) [
  | inr wrong ↦ absurd (false-ne-true (rw wrong at h))
  | inl right ↦ elim (Option-cases (take_places bs s)) [
    | inl nothing ↦ absurd (false-ne-true (rw (nothing, take_places) at (rw right at h)))
    | inr (r, e) ↦
        (right, takes_all-Fits bs s (rw (e, takes_all) (rw (e, take_places) at (rw right at h))))
  ]
]

-- Such a text is taken, whatever follows it.
take_places-append :
    (bs : List Bool) (s t : String) → Fits bs s → take_places bs (String.◌++◌ s t) ≡ some (s, t)
unfolding take_places
take_places-append [] String.[] t h = rw (append.nil t) refl
take_places-append [] (String.◌∷◌ c s) t h = absurd h
take_places-append (b ∷ bs) String.[] t h = absurd h
take_places-append (b ∷ bs) (String.◌∷◌ c s) t h =
    rw (append.cons c s t) (rw h.0 (rw (take_places-append bs s t h.1) refl))

fits-no_query : (b : Bool) (c : ℕ) → fits b c ≡ true → (c == b'?') ≡ false
fits-no_query true c h = ground arith
fits-no_query false c h = ground arith

-- It holds no question mark.
before_query-places :
    (bs : List Bool) (s t : String)
    → Fits bs s
    → before_query (String.◌++◌ s t) ≡ String.◌++◌ s (before_query t)
unfolding before_query
before_query-places [] String.[] t h =
    ap before_query (append.nil t) ∙ sym (append.nil (before_query t))
before_query-places [] (String.◌∷◌ c s) t h = absurd h
before_query-places (b ∷ bs) String.[] t h = absurd h
before_query-places (b ∷ bs) (String.◌∷◌ c s) t h = rw (append.cons c s t) (
    rw (fits-no_query b (code c) h.0) (
      ap (λ u. String.◌∷◌ c u) (before_query-places bs s t h.1)
      ∙ sym (append.cons c s (before_query t))))

abbrev HasNoQuery : String → Type 0
HasNoQuery String.[] = Unit
HasNoQuery (String.◌∷◌ c s) = ((code c == b'?') ≡ false) × HasNoQuery s

-- What stands before a query, behind a text without a question mark.
before_query-append :
    (p t : String) → HasNoQuery p → before_query (String.◌++◌ p t) ≡ String.◌++◌ p (before_query t)
unfolding before_query
before_query-append String.[] t h =
    ap before_query (append.nil t) ∙ sym (append.nil (before_query t))
before_query-append (String.◌∷◌ c p) t h = rw (append.cons c p t) (
    rw h.0 (
      ap (λ u. String.◌∷◌ c u) (before_query-append p t h.1)
      ∙ sym (append.cons c p (before_query t))))

abbrev pub brand_path : String → String → String
brand_path id rest = String.◌++◌ "/api/brands/" (String.◌++◌ id (String.◌++◌ "/" rest))

prefix-HasNoQuery : HasNoQuery "/api/brands/"
prefix-HasNoQuery = ground arith

brand_path-before :
    (id rest : String)
    → Fits uuid_places id
    → before_query (brand_path id rest)
      ≡ String.◌++◌ "/api/brands/" (String.◌++◌ id (String.◌∷◌ "/" (before_query rest)))
unfolding before_query
brand_path-before id rest h =
    before_query-append "/api/brands/" (String.◌++◌ id (String.◌++◌ "/" rest)) prefix-HasNoQuery
    ∙ ap (λ u. String.◌++◌ "/api/brands/" u)
        (before_query-places uuid_places id (String.◌++◌ "/" rest) h
          ∙ ap (λ u. String.◌++◌ id u) (rw (append.cons "/" "" rest) (rw (append.nil rest) refl)))

-- In a path that is written as /api/brands/, a uuid that is not percent-encoded, a slash and whatever
-- follows, the uuid is found as the brand's id.
pub route_brand_id-path :
    (id rest : String) → is_uuid id ≡ true → route_brand_id (brand_path id rest) ≡ some id
unfolding route_brand_id is_uuid
route_brand_id-path id rest h =
    let uuid : Fits uuid_places id = takes_all-Fits uuid_places id h in
    rw (brand_path-before id rest uuid, route_brand_id)
      (rw (strip_prefix-append same_letter same_letter_refl "/api/brands/" _, route_brand_id)
        (rw (take_places-append uuid_places id _ uuid, route_brand_id) refl))
