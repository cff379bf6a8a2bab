-- ===== src/Poller/Found.antt =====
-- What the poller reads in a node's answer: steps, a transaction's hash, and traits.
use Prim.Native.String
use text.Mathlib.Text.{◌==◌ as str_eq}
use dynamic_nft_krnl.Base.{
  ℕ, suc, Bool, true, false, ◌&&◌, ◌||◌, Option, none, some, String, List, [], ◌∷◌, ◌++◌,
  if◌then◌else◌, any, length, ◌==◌,
}
use dynamic_nft_krnl.Base.Int.{pos}
use dynamic_nft_krnl.Base.Text.{is_empty}
use dynamic_nft_krnl.Js.{
  Runtime, whole, int, Value, undefined, null, bool, num, str, arr, obj, Fields, end, field, get,
  fields_of, elements, nullish, or_value, truthy, text_of,
}
use dynamic_nft_krnl.Json.{stringify}
use dynamic_nft_krnl.Store.{UnlockedTrait}
use dynamic_nft_krnl.Me.Activate.{Selection, is_of}
use dynamic_nft_krnl.Krnl.Node.{part, looks_like_tx_hash}
use dynamic_nft_krnl.Krnl.Message.{steps_of, list_in}

-- `extractSteps`; undefined where there is no list.
unfoldable pub extract_steps : Value → Value
unfolding truthy steps_of list_in
extract_steps raw =
    let steps = steps_of raw in
    if truthy raw then elim (list_in steps) [ none ↦ undefined | some vs ↦ steps ] else undefined

first_hash : List Value → Option String
unfolding looks_like_tx_hash
first_hash [] = none
first_hash (v ∷ vs) =
    let later = first_hash vs in elim (looks_like_tx_hash v) [ none ↦ later | some h ↦ some h ]

hashes_of_steps : List Value → List Value
unfolding get fields_of
hashes_of_steps [] = []
hashes_of_steps (step ∷ steps) =
    part "txHash" step
    ∷ part "transactionHash" step
    ∷ part "transactionHash" (part "receipt" step)
    ∷ hashes_of_steps steps

-- `extractTxHash`.
unfoldable pub extract_tx_hash : Value → Option String
unfolding truthy first_hash get fields_of hashes_of_steps steps_of list_in
extract_tx_hash raw =
    if truthy raw
    then first_hash (
        part "txHash" raw
        ∷ part "transactionHash" raw
        ∷ part "txHash" (part "result" raw)
        ∷ part "transactionHash" (part "result" raw)
        ∷ part "transactionHash" (part "receipt" raw)
        ∷ part "txHash" (part "execution" raw)
        ∷ part "txHash" (part "run" raw)
        ∷ elim (list_in (steps_of raw)) [ none ↦ [] | some vs ↦ hashes_of_steps vs ])
    else none

-- `run.krnlExecutionHash || statusResponse?.txHash || extractTxHash(raw)`.
unfoldable pub found_hash : Option String → Value → Value → Value
unfolding or_value extract_tx_hash
found_hash (some h) told raw = str h
found_hash none told raw =
    or_value told (elim (extract_tx_hash raw) [ none ↦ undefined | some h ↦ str h ])

text_or_empty : Option String → String
text_or_empty none = ""
text_or_empty (some s) = s

unfoldable pub normalize_trait_value : Runtime → Value → String
unfolding text_of stringify text_or_empty
normalize_trait_value rt undefined = ""
normalize_trait_value rt null = ""
normalize_trait_value rt (str s) = s
normalize_trait_value rt (bool b) = text_of rt (bool b)
normalize_trait_value rt (num n) = text_of rt (num n)
normalize_trait_value rt (arr vs) = text_or_empty (stringify rt (arr vs))
normalize_trait_value rt (obj fs) = text_or_empty (stringify rt (obj fs))

abbrev is_nullish : Value → Bool
is_nullish undefined = true
is_nullish null = true
is_nullish (bool b) = false
is_nullish (num n) = false
is_nullish (str s) = false
is_nullish (arr vs) = false
is_nullish (obj fs) = false

-- A trait by name and value, unless one of them is missing.
trait_of : Runtime → Value → Value → List Selection
unfolding normalize_trait_value
trait_of rt key value =
    if is_nullish key || is_nullish value
    then []
    else record {
      trait_key = normalize_trait_value rt key;
      trait_value = normalize_trait_value rt value;
    }
      ∷ []

traits_in_pairs : Runtime → List Value → List Selection
unfolding trait_of get fields_of nullish
traits_in_pairs rt [] = []
traits_in_pairs rt (t ∷ ts) =
    trait_of rt (nullish (part "key" t) (part "traitKey" t))
      (nullish (part "value" t) (part "traitValue" t))
    ++ traits_in_pairs rt ts

-- Two lists of one length, a name and its value at each place.
traits_in_lists : Runtime → List Value → List Value → List Selection
unfolding normalize_trait_value
traits_in_lists rt [] vs = []
traits_in_lists rt (k ∷ ks) [] = []
traits_in_lists rt (k ∷ ks) (v ∷ vs) =
    record { trait_key = normalize_trait_value rt k; trait_value = normalize_trait_value rt v }
    ∷ traits_in_lists rt ks vs

keyed_traits : Runtime → Option (List Value) → Option (List Value) → List Selection
unfolding traits_in_lists
keyed_traits rt none vs = []
keyed_traits rt (some ks) none = []
keyed_traits rt (some ks) (some vs) =
    if length ks == length vs then traits_in_lists rt ks vs else []

-- The traits that one source names.
traits_in_source : Runtime → Value → List Selection
unfolding get fields_of nullish or_value list_in traits_in_pairs keyed_traits
traits_in_source rt source =
    let payload =
      nullish (part "result" source)
        (nullish (part "output" source) (nullish (part "data" source) source)) in
    let pairs =
      or_value (part "traits" payload)
        (or_value (part "unlockedTraits" payload) (part "traitUpdates" payload)) in
    let named : List Selection = elim (list_in pairs) [
      | none ↦ []
      | some ts ↦ traits_in_pairs rt ts
    ] in
    named
    ++ keyed_traits rt (list_in (or_value (part "traitKeys" payload) (part "trait_keys" payload)))
        (list_in (or_value (part "traitValues" payload) (part "trait_values" payload)))

traits_in_sources : Runtime → List Value → List Selection
unfolding traits_in_source
traits_in_sources rt [] = []
traits_in_sources rt (v ∷ vs) = traits_in_source rt v ++ traits_in_sources rt vs

abbrev pub trait_id : Selection → String
trait_id s = String.◌++◌ s.trait_key (String.◌++◌ "::" s.trait_value)

-- Each trait once, without those that are blank.
unfoldable pub unique_traits : List String → List Selection → List Selection
unfolding any
unique_traits seen [] = []
unique_traits seen (s ∷ ss) =
    let skipped = unique_traits seen ss in
    let taken = unique_traits (trait_id s ∷ seen) ss in
    if is_empty s.trait_key || is_empty s.trait_value || any (str_eq (trait_id s)) seen
    then skipped
    else s ∷ taken

unfoldable pub extract_unlocked_traits : Runtime → Value → Value → List Selection
unfolding truthy list_in traits_in_sources unique_traits
extract_unlocked_traits rt raw steps =
    let more : List Value = elim (list_in steps) [ none ↦ [] | some vs ↦ vs ] in
    unique_traits [] (traits_in_sources rt (if truthy raw then raw ∷ more else more))

abbrev pub has_trait : String → String → Selection → List UnlockedTrait → Bool
has_trait brand wallet s [] = false
has_trait brand wallet s (t ∷ ts) =
    (is_of brand wallet t && str_eq t.trait_key s.trait_key && str_eq t.trait_value s.trait_value)
    || has_trait brand wallet s ts

-- `createMany` with `skipDuplicates`.
unfoldable pub add_unlocked :
    String → String → List Selection → List UnlockedTrait → List UnlockedTrait
add_unlocked brand wallet [] ts = ts
add_unlocked brand wallet (s ∷ ss) ts = add_unlocked brand wallet ss (
    if has_trait brand wallet s ts
    then ts
    else record {
      brand_id = brand;
      wallet = wallet;
      trait_key = s.trait_key;
      trait_value = s.trait_value;
      is_active = false;
    }
      ∷ ts)

-- The selections of the run's own workflow that have a name and a value.
selections_in : Runtime → List Value → List Selection
unfolding normalize_trait_value get fields_of nullish
selections_in rt [] = []
selections_in rt (t ∷ ts) =
    let s : Selection = record {
      trait_key = normalize_trait_value rt (nullish (part "traitKey" t) (part "key" t));
      trait_value = normalize_trait_value rt (nullish (part "traitValue" t) (part "value" t));
    } in
    let rest = selections_in rt ts in
    if is_empty s.trait_key || is_empty s.trait_value then rest else s ∷ rest

unfoldable pub selected_traits : Runtime → Value → List Selection
unfolding get fields_of list_in selections_in
selected_traits rt workflow = elim (list_in (part "selectedTraits" (part "metadata" workflow))) [
  | none ↦ []
  | some vs ↦ selections_in rt vs
]

-- The fields of a list, or of a text, under their positions.
indexed : Runtime → ℕ → List Value → Fields
indexed rt i [] = end
indexed rt i (v ∷ vs) = field (rt.show_number (whole (int (pos i)))) v (indexed rt (suc i) vs)

letters : String → List Value
letters String.[] = []
letters (String.◌∷◌ c s) = str (String.◌∷◌ c String.[]) ∷ letters s

-- `...value`; a character above U+FFFF counts as one.
spread : Runtime → Value → Fields
unfolding indexed elements letters
spread rt (obj fs) = fs
spread rt (arr vs) = indexed rt 0 (elements vs)
spread rt (str s) = indexed rt 0 (letters s)
spread rt undefined = end
spread rt null = end
spread rt (bool b) = end
spread rt (num n) = end

put_field : String → Value → Fields → Fields
put_field k v end = field k v end
put_field k v (field j w fs) =
    let rest = put_field k v fs in if str_eq j k then field j v fs else field j w rest

-- `{ ...raw, txStatus }`, where a receipt was found now.
unfoldable pub with_tx_status : Runtime → Option Bool → Value → Value → Value
unfolding put_field spread
with_tx_status rt none raw kept = kept
with_tx_status rt (some b) raw kept =
    obj (put_field "txStatus" (str (if b then "success" else "reverted")) (spread rt raw))
