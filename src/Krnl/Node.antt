-- ===== src/Krnl/Node.antt =====
-- apps/api/src/services/krnlNodeClient.ts: where the node's answers have a
-- status and a hash.
pub mod Runs
use Prim.Native.Char.{code}
use text.Mathlib.Text.{◌==◌ as str_eq}
use dynamic_nft_krnl.Base.{
  ℕ, zero, suc, Bool, false, ◌&&◌, ◌||◌, not, Option, none, some, String, List, [], ◌∷◌,
  if◌then◌else◌, leb, ◌==◌, any,
}
use dynamic_nft_krnl.Base.Int.{pos}
use dynamic_nft_krnl.Base.Text.{trim}
use dynamic_nft_krnl.Js.{
  Runtime, whole, int, Value, undefined, null, bool, num, str, arr, obj, Values, nil, cons, Fields,
  end, field, get, fields_of, or_value, nullish, truthy,
}

-- What the language and the connection give: `JSON.parse`, and the answer to one request, with
-- `response.ok` and the body that was read; `none` where the request throws.
pub record NodeEnv : Type 0 where
  pub runtime : Runtime
  pub parse_json : String → Option Value
  pub rpc_answer : String → Option (Bool × Value)
  pub http_answer : String → Option (Bool × Value)

unfoldable pub is_hex : ℕ → Bool
is_hex c = (leb b'0' c && leb c b'9') || (leb b'a' c && leb c b'f') || (leb b'A' c && leb c b'F')

-- The first characters, if so many are there and each is a hexadecimal digit.
hex_digits : ℕ → String → Option String
unfolding is_hex
hex_digits zero s = some ""
hex_digits (suc n) String.[] = none
hex_digits (suc n) (String.◌∷◌ c s) =
    let rest : Option String = elim (hex_digits n s) [
      | none ↦ none
      | some r ↦ some (String.◌∷◌ c r)
    ] in
    if is_hex (code c) then rest else none

-- `0x` and 64 digits at the front of a text.
hash_at : String → Option String
unfolding hex_digits
hash_at String.[] = none
hash_at (String.◌∷◌ c String.[]) = none
hash_at (String.◌∷◌ c (String.◌∷◌ d s)) =
    if code c == b'0' && code d == b'x'
    then elim (hex_digits 64 s) [ none ↦ none | some r ↦ some (String.◌∷◌ c (String.◌∷◌ d r)) ]
    else none

-- `value.match(/0x[a-fA-F0-9]{64}/)`.
hash_in : String → Option String
unfolding hash_at
hash_in String.[] = none
hash_in (String.◌∷◌ c s) =
    let later = hash_in s in elim (hash_at (String.◌∷◌ c s)) [ none ↦ later | some h ↦ some h ]

-- The text, if it is a transaction hash.
unfoldable pub looks_like_tx_hash : Value → Option String
unfolding hash_at
looks_like_tx_hash (str s) = elim (hash_at s) [
  | none ↦ none
  | some h ↦ if str_eq h s then some s else none
]
looks_like_tx_hash undefined = none
looks_like_tx_hash null = none
looks_like_tx_hash (bool b) = none
looks_like_tx_hash (num n) = none
looks_like_tx_hash (arr vs) = none
looks_like_tx_hash (obj fs) = none

abbrev first_found : Option String → Option String → Option String
first_found none b = b
first_found (some a) b = some a

unfoldable mutual
  unfolding looks_like_tx_hash get or_value

  pub find_tx_hash_deep : Value → Option String
  find_tx_hash_deep undefined = none
  find_tx_hash_deep null = none
  find_tx_hash_deep (bool b) = none
  find_tx_hash_deep (num n) = none
  find_tx_hash_deep (str s) = looks_like_tx_hash (str s)
  find_tx_hash_deep (arr vs) = find_in_items vs
  find_tx_hash_deep (obj fs) =
      first_found (looks_like_tx_hash (or_value (get "txHash" fs) (get "transactionHash" fs)))
        (find_in_fields fs)

  find_in_items : Values → Option String
  find_in_items nil = none
  find_in_items (cons v vs) = first_found (find_tx_hash_deep v) (find_in_items vs)

  find_in_fields : Fields → Option String
  find_in_fields end = none
  find_in_fields (field k v fs) = first_found (find_tx_hash_deep v) (find_in_fields fs)

unfoldable pub extract_tx_hash_from_result_string : NodeEnv → String → Option String
unfolding hash_in find_tx_hash_deep
extract_tx_hash_from_result_string env s = elim (hash_in s) [
  | some h ↦ some h
  | none ↦ elim (env.parse_json s) [ none ↦ none | some v ↦ find_tx_hash_deep v ]
]

-- `a || b || …`, where the last one stands if none passes.
abbrev pub first_truthy : List Value → Value
first_truthy [] = undefined
first_truthy (v ∷ []) = v
first_truthy (v ∷ w ∷ vs) = let rest = first_truthy (w ∷ vs) in or_value v rest

-- `value?.name`.
abbrev pub part : String → Value → Value
part name v = get name (fields_of v)

unfoldable pub extract_status_value : Value → Value
unfolding get fields_of or_value
extract_status_value raw = first_truthy (
    part "status" raw
    ∷ part "state" raw
    ∷ part "workflowStatus" raw
    ∷ part "status" (part "data" raw)
    ∷ part "state" (part "data" raw)
    ∷ part "workflowStatus" (part "data" raw)
    ∷ part "status" (part "result" raw)
    ∷ part "state" (part "result" raw)
    ∷ part "workflowStatus" (part "result" raw)
    ∷ [])

unfoldable pub extract_tx_hash : Value → Value
unfolding get fields_of or_value
extract_tx_hash raw = first_truthy (
    part "txHash" raw
    ∷ part "transactionHash" raw
    ∷ part "tx_hash" raw
    ∷ part "txHash" (part "result" raw)
    ∷ part "transactionHash" (part "result" raw)
    ∷ part "tx_hash" (part "result" raw)
    ∷ part "txHash" (part "data" raw)
    ∷ part "transactionHash" (part "data" raw)
    ∷ part "tx_hash" (part "data" raw)
    ∷ [])

pub data NodeState : Type 0 where
  pending processing success failure : NodeState

unfoldable pub normalize_status : Runtime → String → NodeState
unfolding any trim
normalize_status rt raw =
    let value = trim (rt.to_lower raw) in
    if any (str_eq value) ("pending" ∷ "queued" ∷ [])
    then pending
    else if any (str_eq value) ("processing" ∷ "running" ∷ "in_progress" ∷ [])
    then processing
    else if any (str_eq value) ("success" ∷ "succeeded" ∷ "completed" ∷ "complete" ∷ [])
    then success
    else if any (str_eq value) ("failed" ∷ "error" ∷ [])
    then failure
    else pending

-- `rawStatus ? normalizeStatus(rawStatus) : "PENDING"`; `none` where the status is no text.
unfoldable pub state_of : Runtime → Value → Option NodeState
unfolding normalize_status truthy
state_of rt (str s) = some (if truthy (str s) then normalize_status rt s else pending)
state_of rt undefined = some pending
state_of rt null = some pending
state_of rt (bool b) = if truthy (bool b) then none else some pending
state_of rt (num n) = if truthy (num n) then none else some pending
state_of rt (arr vs) = none
state_of rt (obj fs) = none
