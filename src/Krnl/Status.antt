-- ===== src/Krnl/Status.antt =====
-- apps/api/src/services/krnlService.ts: the status of a run, from whichever way of asking the node
-- applies to it.
use dynamic_nft_krnl.Base.{
  ℕ, Bool, true, false, ◌||◌, Option, none, some, String, List, [], ◌∷◌, if◌then◌else◌, ◌==◌,
}
use dynamic_nft_krnl.Base.Int.{pos}
use dynamic_nft_krnl.Base.Text.{includes, is_empty}
use dynamic_nft_krnl.Js.{
  Runtime, Number, whole, int, Value, undefined, null, bool, num, str, arr, obj, end, field, get,
  fields_of, number_of,
}
use dynamic_nft_krnl.Store.{RunStatus, queued, running, succeeded, failed}
use dynamic_nft_krnl.Krnl.Submit.{normalize_krnl_returned_intent_id}
use dynamic_nft_krnl.Krnl.Node.{
  NodeEnv, NodeState, pending, processing, success, failure, first_truthy, part,
}
use dynamic_nft_krnl.Krnl.Node.Runs.{small_code, get_run_status, get_run_status_http}

-- A status as the API tells it; `none` is "unknown".
pub record Tracking : Type 0 where
  pub status : Option RunStatus
  pub tx_hash : Value
  pub error : Value
  pub raw : Value

unfoldable pub status_of_state : NodeState → RunStatus
status_of_state pending = queued
status_of_state processing = running
status_of_state success = succeeded
status_of_state failure = failed

-- What `raw` says of an error, in the answer itself and in its result.
unfoldable pub errors_in : Value → List Value → Value
unfolding get fields_of
errors_in raw more = first_truthy (
    part "error" raw
    ∷ part "errorMessage" raw
    ∷ part "err" raw
    ∷ part "error" (part "result" raw)
    ∷ part "errorMessage" (part "result" raw)
    ∷ part "err" (part "result" raw)
    ∷ more)

unfoldable pub get_krnl_run_status : NodeEnv → String → Option Tracking
unfolding get_run_status status_of_state errors_in
get_krnl_run_status env id = elim (get_run_status env id) [
  | none ↦ none
  | some n ↦ some (record {
    status = some (status_of_state n.state);
    tx_hash = n.tx_hash;
    error =
        errors_in n.raw
          (part "error" (part "data" n.raw) ∷ part "errorMessage" (part "data" n.raw) ∷ []);
    raw = n.raw;
  })
]

-- The status that a code stands for.
unfoldable pub status_of_code : ℕ → Option RunStatus
status_of_code n =
    if n == 0
    then some queued
    else if n == 1
    then some running
    else if n == 2
    then some succeeded
    else if n == 3
    then some failed
    else none

-- The status that a text stands for, in lower case.
unfoldable pub status_of_text : String → Option RunStatus
unfolding includes
status_of_text value =
    if includes value "pending" || includes value "queued"
    then some queued
    else if includes value "running" || includes value "processing"
    then some running
    else if includes value "success" || includes value "complete"
    then some succeeded
    else if includes value "failed" || includes value "error"
    then some failed
    else none

text_or_empty : Value → String
text_or_empty (str s) = s
text_or_empty undefined = ""
text_or_empty null = ""
text_or_empty (bool b) = ""
text_or_empty (num n) = ""
text_or_empty (arr vs) = ""
text_or_empty (obj fs) = ""

abbrev pub or_status : Option RunStatus → Option RunStatus → Option RunStatus
or_status none b = b
or_status (some a) b = some a

unfoldable pub get_krnl_run_status_http : NodeEnv → String → Option Tracking
unfolding get_run_status_http status_of_code small_code status_of_text text_or_empty errors_in get
    fields_of
get_krnl_run_status_http env id = elim (get_run_status_http env id) [
  | none ↦ none
  | some (raw_status, hash, raw) ↦ some (record {
    status =
        or_status (status_of_code (small_code (part "code" raw)))
          (status_of_text (env.runtime.to_lower (text_or_empty raw_status)));
    tx_hash = hash;
    error = errors_in raw [];
    raw = raw;
  })
]

is_four : Number → Bool
is_four (whole (int (pos n))) = n == 4
is_four n = false

-- `Number(status.raw?.code) === 4`.
unfoldable pub is_wrong_krnl_rpc_id : Runtime → Tracking → Bool
unfolding is_four number_of get fields_of
is_wrong_krnl_rpc_id rt t = is_four (number_of rt (part "code" t.raw))

-- By which ids a run can be asked for.
pub record References : Type 0 where
  pub request_id : Option String
  pub krnl_intent_id : Option String
  pub tx_intent_id : Option String

-- `x` under a condition: it is there and not empty.
abbrev filled : Option String → Option String
filled none = none
filled (some s) = if is_empty s then none else some s

or_null : Option String → Value
or_null none = null
or_null (some s) = str s

-- The node's answer by RPC, or by HTTP where it says that the id is not one of its own.
unfoldable pub by_rpc_or_http : NodeEnv → Option String → String → Option Tracking
unfolding get_krnl_run_status get_krnl_run_status_http is_wrong_krnl_rpc_id
by_rpc_or_http env request id = elim (get_krnl_run_status env id) [
  | none ↦ none
  | some t ↦
      if is_wrong_krnl_rpc_id env.runtime t
      then elim request [ none ↦ some t | some r ↦ get_krnl_run_status_http env r ]
      else some t
]

-- `resolveKrnlTrackingStatus`; `none` is an exception.
unfoldable pub resolve_krnl_tracking_status : NodeEnv → Bool → References → Option Tracking
unfolding normalize_krnl_returned_intent_id by_rpc_or_http get_krnl_run_status_http or_null
resolve_krnl_tracking_status env true refs = some (record {
  status = some queued;
  tx_hash = undefined;
  error = undefined;
  raw = obj (
      field "demo" (bool true) (
        field "requestId" (or_null refs.request_id) (
          field "krnlIntentId" (or_null (normalize_krnl_returned_intent_id refs.krnl_intent_id))
            (field "txIntentId" (or_null refs.tx_intent_id) end))));
})
resolve_krnl_tracking_status env false refs =
    elim (normalize_krnl_returned_intent_id refs.krnl_intent_id) [
      | some id ↦ by_rpc_or_http env (filled refs.request_id) id
      | none ↦ elim (filled refs.request_id) [
        | some r ↦ get_krnl_run_status_http env r
        | none ↦ elim (filled refs.tx_intent_id) [
          | some id ↦ by_rpc_or_http env none id
          | none ↦ none
        ]
      ]
    ]
