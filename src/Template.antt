-- ===== src/Template.antt =====
-- apps/api/src/services/workflowTemplateService.ts: the placeholders of a workflow's template, and
-- their replacement by variables.
pub mod Inside
mod Tests
use Prim.Native.Char.{Char, code}
use Prim.Native.String
use text.Mathlib.Text.{◌==◌ as str_eq}
use dynamic_nft_krnl.Base.{
  ℕ, zero, suc, ◌+◌, ◌-◌, Bool, true, false, ◌&&◌, ◌||◌, not, Option, none, some, String, List, [],
  ◌∷◌, if◌then◌else◌, leb, ◌==◌, any, keep,
}
use dynamic_nft_krnl.Base.Text.{is_empty, is_space}
use dynamic_nft_krnl.Js.{Runtime, Number}
use dynamic_nft_krnl.Json.{escaped, quoted}

-- A variable; `other` is what an object inherits.
pub data Variable : Type 0 where
  words : String → Variable
  number : Number → Variable
  flag : Bool → Variable
  other : Variable

abbrev pub Variables : Type 0
Variables = String → Option Variable

abbrev inherited_names : List String
inherited_names =
    "constructor" ∷ "toString" ∷ "toLocaleString" ∷ "valueOf" ∷ "hasOwnProperty" ∷ "isPrototypeOf"
    ∷ "propertyIsEnumerable" ∷ "__proto__" ∷ "__defineGetter__" ∷ "__defineSetter__"
    ∷ "__lookupGetter__" ∷ "__lookupSetter__" ∷ []

-- `variables[key]`, where `key in variables`.
unfoldable pub variable_of : Variables → String → Option Variable
unfolding any
variable_of vs key = elim (vs key) [
  | some v ↦ some v
  | none ↦ if any (str_eq key) inherited_names then some other else none
]

-- `[A-Za-z0-9_.-]`.
unfoldable pub is_key_char : ℕ → Bool
is_key_char c =
    (leb b'A' c && leb c b'Z')
    || (leb b'a' c && leb c b'z')
    || (leb b'0' c && leb c b'9')
    || c == b'_'
    || c == b'.'
    || c == b'-'

-- What follows one character, and two of it.
after_one : ℕ → String → Option String
after_one c String.[] = none
after_one c (String.◌∷◌ d s) = if code d == c then some s else none

unfoldable pub after_two : ℕ → String → Option String
unfolding after_one
after_two c String.[] = none
after_two c (String.◌∷◌ d s) = if code d == c then after_one c s else none

-- The white space at the front: how much, and what follows it.
unfoldable pub spaces : String → ℕ × String
spaces String.[] = (0, String.[])
spaces (String.◌∷◌ c s) =
    let rest = spaces s in if is_space (code c) then (suc rest.0, rest.1) else (0, String.◌∷◌ c s)

-- The key at the front: its characters, how many, and what follows it.
unfoldable pub key_at : String → String × ℕ × String
key_at String.[] = (String.[], 0, String.[])
key_at (String.◌∷◌ c s) =
    let rest = key_at s in
    if is_key_char (code c)
    then (String.◌∷◌ c rest.0, suc rest.1, rest.2)
    else (String.[], 0, String.◌∷◌ c s)

-- The match of `{{\s*([A-Za-z0-9_.-]+)\s*}}` at the front of a text: its key, and how many
-- characters it takes. No part can take what the next needs.
unfoldable pub match_at : String → Option (String × ℕ)
unfolding after_two spaces key_at is_key_char is_space
match_at s = elim (after_two b'{' s) [
  | none ↦ none
  | some s1 ↦
      let before = spaces s1 in
      let key = key_at before.1 in
      let behind = spaces key.2 in
      if is_empty key.0 then none else elim (after_two b'}' behind.1) [
        | none ↦ none
        | some s2 ↦ some (key.0, 4 + before.0 + key.1 + behind.0)
      ]
]

-- The keys of the matches, from left to right; the number counts what is left of a match.
keys_from : ℕ → String → List String
unfolding match_at
keys_from n String.[] = []
keys_from (suc n) (String.◌∷◌ c s) = keys_from n s
keys_from zero (String.◌∷◌ c s) = elim (match_at (String.◌∷◌ c s)) [
  | none ↦ keys_from zero s
  | some (key, n) ↦ key ∷ keys_from (n - 1) s
]

-- Each key once.
unfoldable pub unique : List String → List String → List String
unfolding any
unique seen [] = []
unique seen (k ∷ ks) =
    let skipped = unique seen ks in
    let taken = unique (k ∷ seen) ks in if any (str_eq k) seen then skipped else k ∷ taken

unfoldable pub collect_placeholders : String → List String
unfolding keys_from unique
collect_placeholders template = unique [] (keys_from zero template)

-- The text without its first characters.
unfoldable pub skip : ℕ → String → String
skip zero s = s
skip (suc n) String.[] = String.[]
skip (suc n) (String.◌∷◌ c s) = skip n s

abbrev pub is_quote : Option Char → Bool
is_quote none = false
is_quote (some c) = code c == b'"'

abbrev pub first_char : String → Option Char
first_char String.[] = none
first_char (String.◌∷◌ c s) = some c

-- What stands in for a placeholder, between quotes or not; `none` is an exception.
unfoldable pub replacement : Runtime → Variable → Bool → Option String
replacement rt (words v) surrounded = some (if surrounded then escaped v else quoted v)
replacement rt (number n) surrounded = some (rt.show_number n)
replacement rt (flag b) surrounded = some (if b then "true" else "false")
replacement rt other surrounded = none

abbrev pub prepend : Option String → Option String → Option String
prepend none rest = none
prepend (some t) none = none
prepend (some t) (some rest) = some (String.◌++◌ t rest)

-- The character before, what is left of a match that was replaced, and the text from here on. A match
-- without a variable stays: its first character is copied, and so is the rest of it.
unfoldable pub replace_from : Runtime → Variables → Option Char → ℕ → Bool → String → Option String
unfolding match_at variable_of skip replacement escaped quoted
replace_from rt vs prev n copies String.[] = some ""
replace_from rt vs prev (suc n) copies (String.◌∷◌ c s) =
    let rest = replace_from rt vs (some c) n copies s in
    if copies then prepend (some (String.◌∷◌ c String.[])) rest else rest
replace_from rt vs prev zero copies (String.◌∷◌ c s) = elim (match_at (String.◌∷◌ c s)) [
  | none ↦ prepend (some (String.◌∷◌ c String.[])) (replace_from rt vs (some c) zero false s)
  | some (key, n) ↦ elim (variable_of vs key) [
    | none ↦ prepend (some (String.◌∷◌ c String.[])) (replace_from rt vs (some c) (n - 1) true s)
    | some v ↦
        prepend
          (replacement rt v (is_quote prev && is_quote (first_char (skip n (String.◌∷◌ c s)))))
          (replace_from rt vs (some c) (n - 1) false s)
  ]
]

unfoldable pub replace_placeholders : Runtime → Variables → String → Option String
unfolding replace_from
replace_placeholders rt vs template = replace_from rt vs none zero false template

-- How rendering a template's text ends.
pub data Rendering : Type 0 where
  missing_variables : List String → Rendering
  invalid_variable : Rendering
  rendered : String → Rendering

abbrev is_missing : Variables → String → Bool
is_missing vs key = elim (variable_of vs key) [ none ↦ true | some v ↦ false ]

-- `renderTemplateAtPath` up to the parsing of what it rendered.
unfoldable pub render_template : Runtime → Variables → String → Rendering
unfolding collect_placeholders replace_placeholders keep
render_template rt vs template = elim (keep (is_missing vs) (collect_placeholders template)) [
  | k ∷ ks ↦ missing_variables (k ∷ ks)
  | [] ↦ elim (replace_placeholders rt vs template) [
    | none ↦ invalid_variable
    | some t ↦ rendered t
  ]
]
