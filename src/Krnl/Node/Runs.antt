-- ===== src/Krnl/Node/Runs.antt =====
-- The status of a run, by RPC and by HTTP: getRunStatus and getRunStatusHttp.
use Prim.Native.Char.{code}
use text.Mathlib.Text.{◌==◌ as str_eq}
use dynamic_nft_krnl.Base.{
  ℕ, Bool, false, ◌&&◌, ◌||◌, not, Option, none, some, String, if◌then◌else◌, leb, ◌==◌,
}
use dynamic_nft_krnl.Base.Int.{pos}
use dynamic_nft_krnl.Js.{
  whole, int, Value, undefined, null, bool, num, str, arr, obj, Fields, end, field, get, fields_of,
  nullish, truthy,
}
use dynamic_nft_krnl.Krnl.Node.{
  find_tx_hash_deep, NodeEnv, extract_tx_hash_from_result_string, part, extract_status_value,
  extract_tx_hash, NodeState, state_of, pending, processing, failure,
}

-- What is read of an answer; its `code` and `error` are not used by the callers.
pub record NodeStatus : Type 0 where
  pub state : NodeState
  pub tx_hash : Value
  pub raw : Value

abbrev or_undefined : Option String → Value
or_undefined none = undefined
or_undefined (some s) = str s

-- The hash in the usual places, or else in a field: inside its text, or anywhere below it.
unfoldable pub hash_of_answer : NodeEnv → Value → Value → Value
unfolding extract_tx_hash extract_tx_hash_from_result_string find_tx_hash_deep truthy
hash_of_answer env payload inner =
    let direct = extract_tx_hash payload in
    if truthy direct
    then direct
    else or_undefined (elim inner [
      | str s ↦ extract_tx_hash_from_result_string env s
      | undefined ↦ none
      | null ↦ none
      | bool b ↦ none
      | num n ↦ none
      | arr vs ↦ find_tx_hash_deep (arr vs)
      | obj fs ↦ find_tx_hash_deep (obj fs)
    ])

-- `"error" in raw`, for an object.
unfoldable pub has_field : String → Fields → Bool
has_field k end = false
has_field k (field j v fs) = str_eq j k || has_field k fs

-- A code that is an integer from 0 to 6, as one; 7 for any other value.
unfoldable pub small_code : Value → ℕ
small_code (num (whole (int (pos n)))) = if leb n 6 then n else 7
small_code v = 7

-- The part of `getRunStatus` after the code was read.
unfoldable pub status_by_code : NodeEnv → ℕ → Value → Option NodeStatus
unfolding state_of extract_status_value hash_of_answer get fields_of
status_by_code env code payload =
    let read : Option NodeStatus = elim (state_of env.runtime (extract_status_value payload)) [
      | none ↦ none
      | some st ↦ some (record {
        state = st;
        tx_hash = hash_of_answer env payload (part "result" payload);
        raw = payload;
      })
    ] in
    if code == 0
    then some (record { state = pending; tx_hash = undefined; raw = payload })
    else if code == 1
    then some (record { state = processing; tx_hash = undefined; raw = payload })
    else if leb 3 code && leb code 6
    then some (record { state = failure; tx_hash = undefined; raw = payload })
    else read

-- `getRunStatus`; `none` is an exception.
unfoldable pub get_run_status : NodeEnv → String → Option NodeStatus
unfolding has_field fields_of get nullish small_code status_by_code
get_run_status env id = elim (env.rpc_answer id) [
  | none ↦ none
  | some (is_ok, raw) ↦
      if not is_ok || has_field "error" (fields_of raw)
      then none
      else (let payload = nullish (part "result" raw) raw in
          status_by_code env (small_code (part "code" payload)) payload)
]

-- `getRunStatusHttp`: the status as it is written in the answer, the hash and the answer.
unfoldable pub get_run_status_http : NodeEnv → String → Option (Value × Value × Value)
unfolding fields_of get nullish extract_status_value hash_of_answer
get_run_status_http env id = elim (env.http_answer id) [
  | none ↦ none
  | some (is_ok, raw) ↦
      if is_ok
      then (let payload = nullish (part "result" raw) raw in
          some (extract_status_value payload, hash_of_answer env payload payload, payload))
      else none
]
