-- ===== src/Krnl/Message.antt =====
-- The message of a failed run: `buildKrnlErrorMessage` of apps/api/src/services/krnlService.ts, which
-- krnlRunPoller.ts repeats as `buildErrorMessage`.
use Prim.Native.String
use dynamic_nft_krnl.Base.{Option, none, some, String, List, [], ◌∷◌, if◌then◌else◌, ltb}
use dynamic_nft_krnl.Base.Text.{includes, is_empty, trim}
use dynamic_nft_krnl.Js.{
  Runtime, Value, undefined, null, bool, num, str, arr, obj, get, fields_of, elements, or_value,
  nullish, truthy, text_of,
}
use dynamic_nft_krnl.Json.{stringify, units, first_units}
use dynamic_nft_krnl.Krnl.Node.{first_truthy, part}

-- `raw.steps || raw.result?.steps || raw.data?.steps`.
unfoldable pub steps_of : Value → Value
unfolding get fields_of or_value
steps_of raw =
    first_truthy
      (part "steps" raw ∷ part "steps" (part "result" raw) ∷ part "steps" (part "data" raw) ∷ [])

-- `typeof v === "string" && v.trim()`, trimmed.
unfoldable pub trimmed_text : Value → Option String
unfolding trim
trimmed_text (str s) = let t = trim s in if is_empty t then none else some t
trimmed_text undefined = none
trimmed_text null = none
trimmed_text (bool b) = none
trimmed_text (num n) = none
trimmed_text (arr vs) = none
trimmed_text (obj fs) = none

first_step_error : List Value → Option String
unfolding get fields_of or_value trimmed_text
first_step_error [] = none
first_step_error (step ∷ steps) =
    let later = first_step_error steps in
    elim (trimmed_text (
      first_truthy (
        part "error" step
        ∷ part "err" step
        ∷ part "error" (part "result" step)
        ∷ part "err" (part "result" step)
        ∷ part "message" step
        ∷ []))) [ none ↦ later | some m ↦ some m ]

-- The elements, where `Array.isArray(v)`.
unfoldable pub list_in : Value → Option (List Value)
unfolding elements
list_in (arr vs) = some (elements vs)
list_in undefined = none
list_in null = none
list_in (bool b) = none
list_in (num n) = none
list_in (str s) = none
list_in (obj fs) = none

unfoldable pub extract_step_error : Value → Option String
unfolding truthy steps_of list_in first_step_error
extract_step_error raw =
    if truthy raw
    then elim (list_in (steps_of raw)) [ none ↦ none | some steps ↦ first_step_error steps ]
    else none

-- A text of more than 1000 units is cut, and says so.
unfoldable pub shortened : String → String
unfolding units first_units
shortened s = if ltb 1000 (units s) then String.◌++◌ (first_units 1000 s) "..." else s

abbrev not_deployed : String
not_deployed = "AA20 account not deployed"

shortened_value : Value → Value
unfolding shortened
shortened_value (str s) = str (shortened s)
shortened_value undefined = undefined
shortened_value null = null
shortened_value (bool b) = bool b
shortened_value (num n) = num n
shortened_value (arr vs) = arr vs
shortened_value (obj fs) = obj fs

-- The message that the answer itself holds, if any.
unfoldable pub message_in : Runtime → Value → Option String
unfolding get fields_of nullish trimmed_text stringify truthy
message_in rt raw =
    let result = part "result" raw in
    let err =
      nullish (part "err" raw)
        (nullish (part "err" result) (nullish (part "error" raw) (part "error" result))) in
    elim (trimmed_text err) [
      | some m ↦ some m
      | none ↦ elim (trimmed_text result) [
        | some m ↦ some m
        | none ↦ if truthy result then stringify rt result else none
      ]
    ]

text_or : Option String → String
text_or none = "undefined"
text_or (some s) = s

-- The fallback is any value, since the node's `error` is one; a message that is no text cannot be
-- written to its column.
unfoldable pub build_krnl_error_message : Runtime → Value → Value → Value
unfolding truthy extract_step_error shortened message_in text_of text_or stringify includes
    shortened_value
build_krnl_error_message rt raw fallback =
    if truthy raw
    then elim (extract_step_error raw) [
      | some e ↦ str (shortened e)
      | none ↦
          let message : Value = elim (message_in rt raw) [ none ↦ fallback | some m ↦ str m ] in
          let combined =
            String.◌++◌ (text_of rt message) (String.◌++◌ " " (text_or (stringify rt raw))) in
          if includes combined not_deployed
          then str "Platform executor account not deployed. Bootstrap required."
          else shortened_value message
    ]
    else fallback
