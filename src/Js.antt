-- ===== src/Js.antt =====
-- The parts of the language's runtime that the code uses: numbers, dynamic values and conversions.
-- A number is NaN, an infinity, an integer, or a fraction given by its floor and by what it exceeds
-- the floor by, in units of 2 ^ -1074, less one; integers are exact.
use Prim.Native.Nat.{ℕ}
use Prim.Native.String
use text.Mathlib.Text.{◌==◌}
use dynamic_nft_krnl.Base.{
  Bool, true, false, not, Option, none, some, String, List, [], ◌∷◌, if◌then◌else◌, ltb,
}
use dynamic_nft_krnl.Base.Int.{ℤ, pos, ◌-ℤ◌, ◌*ℤ◌, ltb_ℤ, max_ℤ}
use dynamic_nft_krnl.Base.Text.{is_empty}

pub data Whole : Type 0 where
  nan pos_inf neg_inf : Whole
  int : ℤ → Whole

pub data Number : Type 0 where
  whole : Whole → Number
  frac : ℤ → ℕ → Number

-- `Math.floor`.
unfoldable pub floor : Number → Whole
floor (whole w) = w
floor (frac n f) = int n

-- `Math.max` of two values that are no fractions.
unfoldable pub max_whole : Whole → Whole → Whole
max_whole nan b = nan
max_whole pos_inf nan = nan
max_whole pos_inf b = pos_inf
max_whole neg_inf b = b
max_whole (int a) nan = nan
max_whole (int a) pos_inf = pos_inf
max_whole (int a) neg_inf = int a
max_whole (int a) (int b) = int (max_ℤ a b)

-- A product of an infinity, by the sign of the other factor.
inf_times : ℤ → Whole
inf_times a = if ltb_ℤ a (pos 0) then neg_inf else if ltb_ℤ (pos 0) a then pos_inf else nan

negate : Whole → Whole
negate nan = nan
negate pos_inf = neg_inf
negate neg_inf = pos_inf
negate (int a) = int (pos 0 -ℤ a)

-- `a * b`, `a - b` and `a < b`.
unfoldable pub times : Whole → Whole → Whole
unfolding inf_times negate
times nan b = nan
times pos_inf nan = nan
times pos_inf pos_inf = pos_inf
times pos_inf neg_inf = neg_inf
times pos_inf (int b) = inf_times b
times neg_inf nan = nan
times neg_inf pos_inf = neg_inf
times neg_inf neg_inf = pos_inf
times neg_inf (int b) = negate (inf_times b)
times (int a) nan = nan
times (int a) pos_inf = inf_times a
times (int a) neg_inf = negate (inf_times a)
times (int a) (int b) = int (a *ℤ b)

unfoldable pub minus : Whole → Whole → Whole
minus nan b = nan
minus pos_inf nan = nan
minus pos_inf pos_inf = nan
minus pos_inf b = pos_inf
minus neg_inf nan = nan
minus neg_inf neg_inf = nan
minus neg_inf b = neg_inf
minus (int a) nan = nan
minus (int a) pos_inf = neg_inf
minus (int a) neg_inf = pos_inf
minus (int a) (int b) = int (a -ℤ b)

unfoldable pub less : Whole → Whole → Bool
less nan b = false
less pos_inf b = false
less neg_inf nan = false
less neg_inf neg_inf = false
less neg_inf b = true
less (int a) nan = false
less (int a) pos_inf = true
less (int a) neg_inf = false
less (int a) (int b) = ltb_ℤ a b

-- The integer that passes `Number.isFinite(x) && Number.isInteger(x) && x >= low`.
unfoldable pub integer_from : ℤ → Number → Option ℤ
integer_from low (whole (int n)) = if ltb_ℤ n low then none else some n
integer_from low (whole nan) = none
integer_from low (whole pos_inf) = none
integer_from low (whole neg_inf) = none
integer_from low (frac n f) = none

-- Values of type `unknown`. An object lists each of its keys once.
mutual
  pub data Value : Type 0 where
    undefined null : Value
    bool : Bool → Value
    num : Number → Value
    str : String → Value
    arr : Values → Value
    obj : Fields → Value

  pub data Values : Type 0 where
    nil : Values
    cons : Value → Values → Values

  pub data Fields : Type 0 where
    end : Fields
    field : String → Value → Fields → Fields

-- What the runtime does with text: number syntax both ways, and Unicode case mapping.
pub record Runtime : Type 0 where
  pub read_number : String → Number
  pub show_number : Number → String
  pub to_lower : String → String
  pub to_upper : String → String

-- `record[key]`.
unfoldable pub get : String → Fields → Value
get k end = undefined
get k (field j v fs) = if j == k then v else get k fs

-- The fields of a value that is a plain object; any other value has none of the names asked for.
unfoldable pub fields_of : Value → Fields
fields_of (obj fs) = fs
fields_of v = end

unfoldable pub elements : Values → List Value
elements nil = []
elements (cons v vs) = v ∷ elements vs

-- `typeof v === "string" ? v : undefined`.
abbrev pub if_text : Value → Option String
if_text (str s) = some s
if_text undefined = none
if_text null = none
if_text (bool b) = none
if_text (num n) = none
if_text (arr vs) = none
if_text (obj fs) = none

-- `Array.isArray(v) ? v : []`.
unfoldable pub array_of : Value → List Value
unfolding elements
array_of (arr vs) = elements vs
array_of v = []

is_zero : Number → Bool
is_zero (whole (int (pos n))) = not (ltb 0 n)
is_zero n = false

is_nan : Number → Bool
is_nan (whole nan) = true
is_nan n = false

-- Whether a condition passes on the value.
unfoldable pub truthy : Value → Bool
unfolding is_zero is_nan
truthy undefined = false
truthy null = false
truthy (bool b) = b
truthy (num n) = if is_zero n then false else not (is_nan n)
truthy (str s) = not (is_empty s)
truthy (arr vs) = true
truthy (obj fs) = true

-- `a || b` and `a ?? b`.
unfoldable pub or_value : Value → Value → Value
unfolding truthy
or_value a b = if truthy a then a else b

unfoldable pub nullish : Value → Value → Value
nullish undefined b = b
nullish null b = b
nullish v b = v

module _ (rt : Runtime) where
  unfoldable mutual
    -- `String(v)`.
    pub text_of : Value → String
    text_of undefined = "undefined"
    text_of null = "null"
    text_of (bool b) = if b then "true" else "false"
    text_of (num n) = rt.show_number n
    text_of (str s) = s
    text_of (arr vs) = join vs
    text_of (obj fs) = "[object Object]"

    -- The elements joined by commas; a missing one is left empty.
    join : Values → String
    join nil = ""
    join (cons v vs) = String.◌++◌ (item v) (join_more vs)

    join_more : Values → String
    join_more nil = ""
    join_more (cons v vs) = String.◌++◌ "," (String.◌++◌ (item v) (join_more vs))

    item : Value → String
    item undefined = ""
    item null = ""
    item (bool b) = if b then "true" else "false"
    item (num n) = rt.show_number n
    item (str s) = s
    item (arr vs) = join vs
    item (obj fs) = "[object Object]"

  -- `Number(v)`.
  unfoldable pub number_of : Value → Number
  unfolding text_of
  number_of undefined = whole nan
  number_of null = whole (int (pos 0))
  number_of (bool b) = whole (int (if b then pos 1 else pos 0))
  number_of (num n) = n
  number_of (str s) = rt.read_number s
  number_of (arr vs) = rt.read_number (text_of (arr vs))
  number_of (obj fs) = whole nan
