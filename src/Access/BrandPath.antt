-- ===== src/Access/BrandPath.antt =====
-- Ids and paths: isUuid and the brand that a path names, in apps/api/src/middleware/requirePortal.ts.
use Prim.Native.Char.{code}
use dynamic_nft_krnl.Base.{
  ℕ, ◌+◌, Bool, true, false, ◌&&◌, ◌||◌, Option, none, some, String, List, [], ◌∷◌, if◌then◌else◌,
  leb, ◌==◌,
}
use dynamic_nft_krnl.Base.Text.{is_empty, strip_prefix}

-- `[0-9a-f]` without regard to case.
abbrev pub is_hex : ℕ → Bool
is_hex c = (leb b'0' c && leb c b'9') || (leb b'a' c && leb c b'f') || (leb b'A' c && leb c b'F')

abbrev groups : List Bool → List Bool → List Bool
groups [] rest = rest
groups (b ∷ bs) rest = b ∷ groups bs rest

abbrev pub four : List Bool
four = true ∷ true ∷ true ∷ true ∷ []

-- The places of a UUID: digits, and dashes.
abbrev pub uuid_places : List Bool
uuid_places = groups four (
    groups four (
      false
      ∷ groups four (
          false
          ∷ groups four
              (false ∷ groups four (false ∷ groups four (groups four (groups four [])))))))

abbrev pub fits : Bool → ℕ → Bool
fits true c = is_hex c
fits false c = c == b'-'

-- The text at the front that fits the places, and what follows it.
unfoldable pub take_places : List Bool → String → Option (String × String)
take_places [] s = some (String.[], s)
take_places (b ∷ bs) String.[] = none
take_places (b ∷ bs) (String.◌∷◌ c s) =
    let rest : Option (String × String) = elim (take_places bs s) [
      | none ↦ none
      | some r ↦ some (String.◌∷◌ c r.0, r.1)
    ] in
    if fits b (code c) then rest else none

unfoldable pub is_uuid : String → Bool
unfolding take_places
is_uuid s = elim (take_places uuid_places s) [ none ↦ false | some r ↦ is_empty r.1 ]

-- `url.split("?")[0]`.
unfoldable pub before_query : String → String
before_query String.[] = String.[]
before_query (String.◌∷◌ c s) =
    let rest = before_query s in if code c == b'?' then String.[] else String.◌∷◌ c rest

abbrev lower_letter : ℕ → ℕ
lower_letter c = if leb b'A' c && leb c b'Z' then c + 32 else c

-- Without regard to case.
abbrev pub same_letter : ℕ → ℕ → Bool
same_letter a b = lower_letter a == lower_letter b

-- `(?:\/|$)`.
abbrev ends_segment : String → Bool
ends_segment String.[] = true
ends_segment (String.◌∷◌ c s) = code c == b'/'

-- The brand that a path names: `/^\/api\/brands\/(uuid)(?:\/|$)/i`.
unfoldable pub route_brand_id : String → Option String
unfolding before_query strip_prefix take_places
route_brand_id url = elim (strip_prefix same_letter "/api/brands/" (before_query url)) [
  | none ↦ none
  | some s ↦ elim (take_places uuid_places s) [
    | none ↦ none
    | some (id, rest) ↦ if ends_segment rest then some id else none
  ]
]
