-- ===== src/Krnl/Poll.antt =====
-- `pollUntilTxHash`, `pollUntilTxHashStrict` and `pollUntilTxHashByIntent` of
-- apps/api/src/services/krnlService.ts: loops that wait for a run's transaction. A world gives, for
-- each round, the clock at its test, what the node answers, whether a receipt is found for a hash,
-- and what others write to the run since the round before.
use dynamic_nft_krnl.Base.{
  ℕ, zero, suc, ◌+◌, Bool, true, false, ◌||◌, not, Option, none, some, String, if◌then◌else◌, ltb,
}
use dynamic_nft_krnl.Base.Text.{is_empty}
use dynamic_nft_krnl.Js.{Value}
use dynamic_nft_krnl.Store.{RunStatus, queued, running, succeeded, failed}
use dynamic_nft_krnl.Krnl.Submit.{first_some}
use dynamic_nft_krnl.Krnl.Node.{NodeEnv}
use dynamic_nft_krnl.Krnl.Status.{Tracking, References, resolve_krnl_tracking_status}
use dynamic_nft_krnl.Krnl.Row.{TrackedRun, no_hash, not_text, hash, hash_of_value}
use dynamic_nft_krnl.Krnl.Writes.{
  PollEnd, Seen, is_succeeded, is_failed, end_failed, note_status, note_hash, succeed_on_chain,
  succeed_with_hash, got_hash, run_failed, timed_out, threw, out_of_fuel,
}

-- One round of the loop.
pub record Round : Type 0 where
  pub now : ℕ
  pub node : NodeEnv
  pub has_receipt : String → Bool
  pub others : TrackedRun → TrackedRun

pub record World : Type 0 where
  pub demo_mode : Bool
  pub rounds : ℕ → Round

-- How a round ends: with an end of the loop, or it goes on.
pub data Turn : Type 0 where
  ends : PollEnd → TrackedRun → Turn
  goes_on : Seen → TrackedRun → Turn

-- The hash with which an answer closes the run: it says succeeded, and passes the test.
unfoldable pub closing_hash : (String → Bool) → Tracking → Option String
unfolding hash_of_value
closing_hash test t =
    if is_succeeded t.status
    then elim (hash_of_value t.tx_hash) [
      | no_hash ↦ none
      | not_text ↦ none
      | hash h ↦ if test h then some h else none
    ]
    else none

-- `pollUntilTxHash` does not show the status "succeeded"; the other loop does, as running.
abbrev pub hides : Option RunStatus → Option RunStatus
hides none = none
hides (some queued) = some queued
hides (some running) = some running
hides (some succeeded) = none
hides (some failed) = some failed

-- The rest of a round, once the hash is stored.
unfoldable pub close_or_note :
    (String → Bool)
    → (String → Value → TrackedRun → TrackedRun)
    → Option RunStatus
    → Tracking
    → Option (Seen × TrackedRun)
    → TrackedRun
    → Turn
unfolding closing_hash note_status
close_or_note test succeed shown t none r = ends threw r
close_or_note test succeed shown t (some (seen, r')) r = elim (closing_hash test t) [
  | some h ↦ ends (got_hash h) (succeed h t.raw r')
  | none ↦ (let n = note_status shown t.raw seen r' in goes_on n.0 n.1)
]

abbrev pub end_turn : PollEnd × TrackedRun → Turn
end_turn e = ends e.0 e.1

-- A round of `pollUntilTxHash`, after the node was asked. `kept` is `workflow.txHash`, read before
-- the loop.
unfoldable pub turn : Option String → Round → Option Tracking → Seen → TrackedRun → Turn
unfolding end_failed note_hash hash_of_value close_or_note succeed_on_chain
turn kept round answer seen r = elim answer [
  | none ↦ ends threw r
  | some t ↦
      if is_failed t.status
      then end_turn (end_failed round.node.runtime t r)
      else close_or_note round.has_receipt succeed_on_chain (hides t.status) t
          (note_hash (hash_of_value t.tx_hash) kept t.raw seen r) r
]

-- A round of `pollUntilTxHashByIntent`: no receipt is asked for.
unfoldable pub turn_by_intent : Round → Option Tracking → Seen → TrackedRun → Turn
unfolding end_failed note_hash hash_of_value close_or_note succeed_with_hash
turn_by_intent round answer seen r = elim answer [
  | none ↦ ends threw r
  | some t ↦
      if is_failed t.status
      then end_turn (end_failed round.node.runtime t r)
      else close_or_note (λ h. true) succeed_with_hash t.status t
          (note_hash (hash_of_value t.tx_hash) none t.raw seen r) r
]

-- The end of `pollUntilTxHash` when its time is up.
abbrev pub waiting_as : Option RunStatus → RunStatus
waiting_as none = queued
waiting_as (some queued) = queued
waiting_as (some running) = running
waiting_as (some succeeded) = queued
waiting_as (some failed) = queued

abbrev pub asked : World → References → ℕ → Option Tracking
asked w refs i = resolve_krnl_tracking_status (w.rounds i).node w.demo_mode refs

abbrev pub continue : (Seen → TrackedRun → PollEnd × TrackedRun) → Turn → PollEnd × TrackedRun
continue loop (ends e r) = (e, r)
continue loop (goes_on seen r) = loop seen r

-- The loop, from a round on.
unfoldable pub poll_loop :
    World → References → Option String → ℕ → ℕ → ℕ → Seen → TrackedRun → PollEnd × TrackedRun
unfolding turn resolve_krnl_tracking_status
poll_loop w refs kept timeout_at i zero seen r =
    if ltb (w.rounds i).now timeout_at
    then (out_of_fuel, r)
    else (timed_out (waiting_as seen.last_status), (w.rounds i).others r)
poll_loop w refs kept timeout_at i (suc fuel) seen r =
    let r' = (w.rounds i).others r in
    let next =
      continue (poll_loop w refs kept timeout_at (suc i) fuel)
        (turn kept (w.rounds i) (asked w refs i) seen r') in
    if ltb (w.rounds i).now timeout_at then next else (timed_out (waiting_as seen.last_status), r')

abbrev is_filled : Option String → Bool
is_filled none = false
is_filled (some s) = not (is_empty s)

abbrev pub has_reference : Option String → Option String → Option String → Bool
has_reference a b c = is_filled a || (is_filled b || is_filled c)

-- The ids of a run; a given intent id stands in for a missing one.
abbrev pub references : TrackedRun → Option String → References
references r intent = record {
  request_id = r.request_id;
  krnl_intent_id = r.intent_id;
  tx_intent_id = first_some r.tx_intent_id intent;
}

unfoldable pub poll_until_tx_hash : World → ℕ → ℕ → ℕ → TrackedRun → PollEnd × TrackedRun
unfolding poll_loop
poll_until_tx_hash w start timeout fuel r =
    if has_reference r.request_id (first_some r.tx_intent_id none) r.intent_id
    then poll_loop w (references r none) r.tx_hash (start + timeout) zero fuel
        (record { stored_hash = r.krnl_execution_hash; last_status = some r.status }) r
    else (threw, r)

-- The last write of `pollUntilTxHashByIntent`.
unfoldable pub time_out : TrackedRun → TrackedRun
time_out r = record r {
  status = failed;
  error = some "Timed out waiting for KRNL txHash";
  is_completed = true;
}

unfoldable pub poll_loop_by_intent :
    World → References → ℕ → ℕ → ℕ → Seen → TrackedRun → PollEnd × TrackedRun
unfolding turn_by_intent time_out resolve_krnl_tracking_status
poll_loop_by_intent w refs timeout_at i zero seen r =
    if ltb (w.rounds i).now timeout_at
    then (out_of_fuel, r)
    else (timed_out failed, time_out ((w.rounds i).others r))
poll_loop_by_intent w refs timeout_at i (suc fuel) seen r =
    let r' = (w.rounds i).others r in
    let next =
      continue (poll_loop_by_intent w refs timeout_at (suc i) fuel)
        (turn_by_intent (w.rounds i) (asked w refs i) seen r') in
    if ltb (w.rounds i).now timeout_at then next else (timed_out failed, time_out r')

unfoldable pub poll_until_tx_hash_by_intent :
    World → Option String → ℕ → ℕ → ℕ → TrackedRun → PollEnd × TrackedRun
unfolding poll_loop_by_intent
poll_until_tx_hash_by_intent w intent start timeout fuel r =
    if has_reference r.request_id (first_some r.tx_intent_id intent) r.intent_id
    then poll_loop_by_intent w (references r intent) (start + timeout) zero fuel
        (record { stored_hash = none; last_status = none }) r
    else (threw, r)

-- `pollUntilTxHashStrict`: the hash, or an exception.
unfoldable pub strict : PollEnd → Option String
strict (got_hash h) = some h
strict (run_failed m) = none
strict (timed_out st) = none
strict threw = none
strict out_of_fuel = none
