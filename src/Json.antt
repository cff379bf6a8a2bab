-- ===== src/Json.antt =====
-- `JSON.stringify` on values without cycles, and the length and the start of a text in the
-- language's units.
pub mod Quoted
use Prim.Native.Char.{Char, code}
use Prim.Native.String
use dynamic_nft_krnl.Base.{
  ℕ, ◌+◌, ◌-◌, Bool, true, false, Option, none, some, String, if◌then◌else◌, ltb, ◌==◌, ◌≡◌, refl,
}
use dynamic_nft_krnl.Base.Text.{is_empty}
use dynamic_nft_krnl.Js.{
  Runtime, Number, whole, frac, nan, pos_inf, neg_inf, int, Value, undefined, null, bool, num, str,
  arr, obj, Values, nil, cons, Fields, end, field,
}

unfoldable pub hex_digit : ℕ → Char
hex_digit n =
    if n == 0
    then "0"
    else if n == 1
    then "1"
    else if n == 2
    then "2"
    else if n == 3
    then "3"
    else if n == 4
    then "4"
    else if n == 5
    then "5"
    else if n == 6
    then "6"
    else if n == 7
    then "7"
    else if n == 8
    then "8"
    else if n == 9
    then "9"
    else if n == 10
    then "a"
    else if n == 11
    then "b"
    else if n == 12
    then "c"
    else if n == 13
    then "d"
    else if n == 14
    then "e"
    else "f"

abbrev pub two : Char → Char → String → String
two c d s = String.◌∷◌ c (String.◌∷◌ d s)

-- `\u00xy`.
abbrev pub control : Char → Char → String → String
control x y s = two "\\" "u" (two "0" "0" (two x y s))

-- What stands for a character between the quotes.
unfoldable pub escape_char : Char → String → String
unfolding hex_digit
escape_char c rest =
    if code c == 34
    then two "\\" "\"" rest
    else if code c == 92
    then two "\\" "\\" rest
    else if code c == 8
    then two "\\" "b" rest
    else if code c == 9
    then two "\\" "t" rest
    else if code c == 10
    then two "\\" "n" rest
    else if code c == 12
    then two "\\" "f" rest
    else if code c == 13
    then two "\\" "r" rest
    else if ltb (code c) 16
    then control "0" (hex_digit (code c)) rest
    else if ltb (code c) 32
    then control "1" (hex_digit (code c - 16)) rest
    else String.◌∷◌ c rest

-- The text of a string without its quotes.
unfoldable pub escaped : String → String
unfolding escape_char
escaped String.[] = String.[]
escaped (String.◌∷◌ c s) = escape_char c (escaped s)

unfoldable pub quoted : String → String
unfolding escaped
quoted s = String.◌++◌ "\"" (String.◌++◌ (escaped s) "\"")

is_undefined : Value → Bool
is_undefined undefined = true
is_undefined null = false
is_undefined (bool b) = false
is_undefined (num n) = false
is_undefined (str s) = false
is_undefined (arr vs) = false
is_undefined (obj fs) = false

-- A separator, unless nothing stands before.
after : Bool → String → String
after true s = s
after false s = String.◌++◌ "," s

module _ (rt : Runtime) where
  number_text : Number → String
  number_text (whole nan) = "null"
  number_text (whole pos_inf) = "null"
  number_text (whole neg_inf) = "null"
  number_text (whole (int n)) = rt.show_number (whole (int n))
  number_text (frac n f) = rt.show_number (frac n f)

  unfoldable mutual
    unfolding number_text quoted after is_undefined

    -- An undefined value in a list stands as null; a field with it is left out.
    json_of : Value → String
    json_of undefined = "null"
    json_of null = "null"
    json_of (bool b) = if b then "true" else "false"
    json_of (num n) = number_text n
    json_of (str s) = quoted s
    json_of (arr vs) = String.◌++◌ "[" (items_json true vs)
    json_of (obj fs) = String.◌++◌ "{" (fields_json true fs)

    items_json : Bool → Values → String
    items_json first nil = "]"
    items_json first (cons v vs) = after first (String.◌++◌ (json_of v) (items_json false vs))

    fields_json : Bool → Fields → String
    fields_json first end = "}"
    fields_json first (field k v fs) =
        let skipped = fields_json first fs in
        let shown = after first (
          String.◌++◌ (quoted k)
            (String.◌++◌ ":" (String.◌++◌ (json_of v) (fields_json false fs)))) in
        if is_undefined v then skipped else shown

  -- `JSON.stringify(v)`; nothing for undefined.
  unfoldable pub stringify : Value → Option String
  unfolding json_of is_undefined
  stringify v = if is_undefined v then none else some (json_of v)

-- `s.length`: a character above U+FFFF counts as two.
unfoldable pub units : String → ℕ
units String.[] = 0
units (String.◌∷◌ c s) = (if ltb (code c) 0x10000 then 1 else 2) + units s

-- `s.slice(0, n)`; a character that the end would cut in two is left out.
unfoldable pub first_units : ℕ → String → String
first_units n String.[] = String.[]
first_units n (String.◌∷◌ c s) =
    let w = if ltb (code c) 0x10000 then 1 else 2 in
    let rest = first_units (n - w) s in if ltb n w then String.[] else String.◌∷◌ c rest
