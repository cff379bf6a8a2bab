-- ===== src/Krnl/Writes.antt =====
-- What the loops of apps/api/src/services/krnlService.ts that wait for a run write to it, and how
-- they end.
use text.Mathlib.Text.{◌==◌ as str_eq}
use dynamic_nft_krnl.Base.{Bool, true, false, not, Option, none, some, String, if◌then◌else◌}
use dynamic_nft_krnl.Js.{Runtime, Value, str, nullish}
use dynamic_nft_krnl.Store.{RunStatus, queued, running, succeeded, failed}
use dynamic_nft_krnl.Krnl.Submit.{first_some}
use dynamic_nft_krnl.Krnl.Status.{Tracking}
use dynamic_nft_krnl.Krnl.Message.{build_krnl_error_message}
use dynamic_nft_krnl.Krnl.Row.{TrackedRun, with_answer, text_column, Hash, no_hash, not_text, hash}

-- How waiting ends; `out_of_fuel` is none of the code's ends.
pub data PollEnd : Type 0 where
  -- `ok: true`, with the hash.
  got_hash : String → PollEnd
  -- The run failed, with its message.
  run_failed : String → PollEnd
  -- The time is up, in the state last seen.
  timed_out : RunStatus → PollEnd
  -- An exception: of the node, or of a write that the database refuses.
  threw : PollEnd
  out_of_fuel : PollEnd

-- What the loop keeps between rounds: the hash it stored, and the status it saw last (`none` is
-- "unknown", or nothing yet).
pub record Seen : Type 0 where
  pub stored_hash : Option String
  pub last_status : Option RunStatus

abbrev pub is_succeeded : Option RunStatus → Bool
is_succeeded none = false
is_succeeded (some queued) = false
is_succeeded (some running) = false
is_succeeded (some succeeded) = true
is_succeeded (some failed) = false

abbrev pub is_failed : Option RunStatus → Bool
is_failed none = false
is_failed (some queued) = false
is_failed (some running) = false
is_failed (some succeeded) = false
is_failed (some failed) = true

abbrev same_status : RunStatus → RunStatus → Bool
same_status queued queued = true
same_status queued running = false
same_status queued succeeded = false
same_status queued failed = false
same_status running queued = false
same_status running running = true
same_status running succeeded = false
same_status running failed = false
same_status succeeded queued = false
same_status succeeded running = false
same_status succeeded succeeded = true
same_status succeeded failed = false
same_status failed queued = false
same_status failed running = false
same_status failed succeeded = false
same_status failed failed = true

abbrev pub is_status : RunStatus → Option RunStatus → Bool
is_status s none = false
is_status s (some t) = same_status s t

-- `status === "queued" ? "queued" : "running"`.
abbrev pub open_status : RunStatus → RunStatus
open_status queued = queued
open_status running = running
open_status succeeded = running
open_status failed = running

-- The writes of the loops.
unfoldable pub fail_run : String → Value → TrackedRun → TrackedRun
unfolding with_answer
fail_run message raw r = record (with_answer raw r) {
  status = failed;
  error = some message;
  is_completed = true;
}

-- The hash, and the transaction's hash unless one is given already.
store_hash : String → Option String → Value → TrackedRun → TrackedRun
unfolding with_answer
store_hash h kept raw r = record (with_answer raw r) {
  krnl_execution_hash = some h;
  tx_hash = first_some kept (some h);
}

show_status : RunStatus → Value → TrackedRun → TrackedRun
unfolding with_answer
show_status st raw r = record (with_answer raw r) { status = open_status st }

-- A failed answer: the run is closed with its message, if that is a text.
abbrev pub end_with : Option String → Tracking → TrackedRun → PollEnd × TrackedRun
unfolding fail_run
end_with none t r = (threw, r)
end_with (some m) t r = (run_failed m, fail_run m t.raw r)

unfoldable pub end_failed : Runtime → Tracking → TrackedRun → PollEnd × TrackedRun
unfolding build_krnl_error_message nullish fail_run
end_failed rt t r =
    end_with
      (text_column (build_krnl_error_message rt t.raw (nullish t.error (str "KRNL run failed")))) t
      r

-- Whether the answer brings a hash that is not stored yet.
abbrev pub is_new : String → Option String → Bool
is_new h none = true
is_new h (some g) = not (str_eq h g)

-- The status is written when it is known and another than the last.
abbrev shows_status : Option RunStatus → Seen → Bool
shows_status none seen = false
shows_status (some st) seen = not (is_status st seen.last_status)

-- A status is shown and remembered.
unfoldable pub note_status : Option RunStatus → Value → Seen → TrackedRun → Seen × TrackedRun
unfolding show_status
note_status none raw seen r = (seen, r)
note_status (some st) raw seen r =
    if is_status st seen.last_status
    then (seen, r)
    else (record seen { last_status = some st }, show_status st raw r)

-- The hash that an answer brings is stored; `none` where it is no text.
unfoldable pub note_hash :
    Hash → Option String → Value → Seen → TrackedRun → Option (Seen × TrackedRun)
unfolding store_hash
note_hash no_hash kept raw seen r = some (seen, r)
note_hash not_text kept raw seen r = none
note_hash (hash h) kept raw seen r =
    if is_new h seen.stored_hash
    then some (record seen { stored_hash = some h }, store_hash h kept raw r)
    else some (seen, r)

-- A run whose transaction is on the chain is closed as succeeded.
unfoldable pub succeed_on_chain : String → Value → TrackedRun → TrackedRun
unfolding with_answer
succeed_on_chain h raw r = record (with_answer raw r) {
  status = succeeded;
  chain_tx_hash = some h;
  tx_hash = some h;
  is_completed = true;
}

-- One that has a hash, whether or not that is on the chain.
unfoldable pub succeed_with_hash : String → Value → TrackedRun → TrackedRun
unfolding with_answer
succeed_with_hash h raw r = record (with_answer raw r) {
  status = succeeded;
  tx_hash = some h;
  is_completed = true;
}
