-- ===== src/Krnl/Rounds.antt =====
-- How a round of waiting for a run ends, and what it leaves of the run.
use dynamic_nft_krnl.Base.{
  ℕ, ◌≡◌, refl, Bool, true, false, Option, none, some, String, arith, if◌then◌else◌, Option-cases,
  Bool-cases, inl, inr,
}
use dynamic_nft_krnl.Js.{Runtime, Value, str, nullish}
use dynamic_nft_krnl.Store.{RunStatus, queued, running, succeeded, failed}
use dynamic_nft_krnl.Mint.{is_open}
use dynamic_nft_krnl.Krnl.Status.{Tracking}
use dynamic_nft_krnl.Krnl.Row.{
  TrackedRun, Hash, hash_of_value, no_hash, not_text, hash, text_column,
}
use dynamic_nft_krnl.Krnl.Message.{build_krnl_error_message}
use dynamic_nft_krnl.Krnl.Poll.{
  Round, World, Turn, ends, goes_on, turn, turn_by_intent, time_out, closing_hash, close_or_note,
  hides, end_turn, waiting_as,
}
use dynamic_nft_krnl.Krnl.Writes.{
  PollEnd, got_hash, run_failed, timed_out, threw, out_of_fuel, Seen, end_failed, note_hash,
  note_status, succeed_on_chain, succeed_with_hash, open_status, end_with, is_new, fail_run,
  is_failed,
}

abbrev pub IsOpenRun : TrackedRun → Type 0
IsOpenRun r = (is_open r.status ≡ true) × (r.is_completed ≡ false)

-- What an end of `pollUntilTxHash` says of the run: with a hash the run is closed by it, and its
-- receipt was found in some round.
abbrev pub IsReported : World → PollEnd → TrackedRun → Type 0
IsReported w (got_hash h) r =
    (r.status ≡ succeeded)
    × (r.is_completed ≡ true)
    × (r.chain_tx_hash ≡ some h)
    × (r.tx_hash ≡ some h)
    × ((i : ℕ) × ((w.rounds i).has_receipt h ≡ true))
IsReported w (run_failed m) r = (r.status ≡ failed) × (r.is_completed ≡ true) × (r.error ≡ some m)
IsReported w (timed_out st) r = (is_open st ≡ true) × IsOpenRun r
IsReported w threw r = IsOpenRun r
IsReported w out_of_fuel r = ⊥

open_status-open : (st : RunStatus) → is_open (open_status st) ≡ true
open_status-open queued = refl
open_status-open running = refl
open_status-open succeeded = refl
open_status-open failed = refl

note_status-IsOpen :
    (shown : Option RunStatus) (raw : Value) (seen : Seen) (r : TrackedRun)
    → IsOpenRun r
    → IsOpenRun (note_status shown raw seen r).1
unfolding note_status
note_status-IsOpen none raw seen r o = o
note_status-IsOpen (some st) raw seen r o = ground (arith, open_status-open st)

-- The hash is stored in an open run.
IsNoted : Option (Seen × TrackedRun) → Type 0
IsNoted none = Unit
IsNoted (some (seen, r)) = IsOpenRun r

note_hash-IsNoted :
    (h : Hash) (kept : Option String) (raw : Value) (seen : Seen) (r : TrackedRun)
    → IsOpenRun r
    → IsNoted (note_hash h kept raw seen r)
unfolding note_hash IsNoted
note_hash-IsNoted no_hash kept raw seen r o = o
note_hash-IsNoted not_text kept raw seen r o = tt
note_hash-IsNoted (hash h) kept raw seen r o = elim (Bool-cases (is_new h seen.stored_hash)) [
  | inl new ↦ rw (new, note_hash) o
  | inr old ↦ rw (old, note_hash) o
]

closing_hash-passes :
    (test : String → Bool) (t : Tracking) (h : String)
    → closing_hash test t ≡ some h
    → test h ≡ true
unfolding closing_hash
closing_hash-passes test t h e = ground arith

-- A round's end is as promised, and one that goes on leaves the run open.
abbrev pub IsTurn : (PollEnd → TrackedRun → Type 0) → Turn → Type 0
IsTurn P (ends e r) = P e r
IsTurn P (goes_on seen r) = IsOpenRun r

-- A round keeps a promise about its end, if closing the run by a hash or a failure and an exception
-- keep it.
module _ (P : PollEnd → TrackedRun → Type 0) (test : String → Bool)
    (succeed : String → Value → TrackedRun → TrackedRun)
    (closed : (h : String) (raw : Value) (r : TrackedRun)
      → test h ≡ true
      → P (got_hash h) (succeed h raw r))
    (broken : (m : String) (raw : Value) (r : TrackedRun) → P (run_failed m) (fail_run m raw r))
    (thrown : (r : TrackedRun) → IsOpenRun r → P threw r) where
  close_or_note-Promised :
      (shown : Option RunStatus) (t : Tracking) (n : Option (Seen × TrackedRun)) (r : TrackedRun)
      → IsNoted n
      → IsOpenRun r
      → IsTurn P (close_or_note test succeed shown t n r)
  unfolding close_or_note IsNoted
  close_or_note-Promised shown t none r noted o = thrown r o
  close_or_note-Promised shown t (some (seen, r')) r noted o =
      elim (Option-cases (closing_hash test t)) [
        | inl none_yet ↦ rw (none_yet, close_or_note) (note_status-IsOpen shown t.raw seen r' noted)
        | inr (h, e) ↦ rw (e, close_or_note) (closed h t.raw r' (closing_hash-passes test t h e))
      ]

  end_failed-Promised :
      (rt : Runtime) (t : Tracking) (r : TrackedRun)
      → IsOpenRun r
      → IsTurn P (end_turn (end_failed rt t r))
  unfolding end_failed
  end_failed-Promised rt t r o =
      elim (text_column
          (build_krnl_error_message rt t.raw (nullish t.error (str "KRNL run failed"))))
        as (λ m. IsTurn P (end_turn (end_with m t r))) [
          | none ↦ thrown r o
          | some m ↦ broken m t.raw r
        ]

  round-Promised :
      (rt : Runtime) (shown : Option RunStatus) (kept : Option String) (t : Tracking) (seen : Seen)
      (r : TrackedRun)
      → IsOpenRun r
      → IsTurn P (
          if is_failed t.status
          then end_turn (end_failed rt t r)
          else close_or_note test succeed shown t
              (note_hash (hash_of_value t.tx_hash) kept t.raw seen r)
              r)
  round-Promised rt shown kept t seen r o = elim (Bool-cases (is_failed t.status)) [
    | inl bad ↦ rw bad (end_failed-Promised rt t r o)
    | inr good ↦ rw good (
        close_or_note-Promised shown t (note_hash (hash_of_value t.tx_hash) kept t.raw seen r) r
          (note_hash-IsNoted (hash_of_value t.tx_hash) kept t.raw seen r o) o)
  ]

succeed_on_chain-IsReported :
    (w : World) (i : ℕ) (h : String) (raw : Value) (r : TrackedRun)
    → (w.rounds i).has_receipt h ≡ true
    → IsReported w (got_hash h) (succeed_on_chain h raw r)
unfolding succeed_on_chain
succeed_on_chain-IsReported w i h raw r p = (refl, refl, refl, refl, (i, p))

fail_run-IsReported :
    (w : World) (m : String) (raw : Value) (r : TrackedRun)
    → IsReported w (run_failed m) (fail_run m raw r)
unfolding fail_run
fail_run-IsReported w m raw r = (refl, refl, refl)

pub turn-IsReported :
    (w : World) (i : ℕ) (kept : Option String) (answer : Option Tracking) (seen : Seen)
    (r : TrackedRun)
    → IsOpenRun r
    → IsTurn (IsReported w) (turn kept (w.rounds i) answer seen r)
unfolding turn
turn-IsReported w i kept none seen r o = o
turn-IsReported w i kept (some t) seen r o =
    round-Promised (IsReported w) (w.rounds i).has_receipt succeed_on_chain
      (succeed_on_chain-IsReported w i) (fail_run-IsReported w) (λ q p. p) (w.rounds i).node.runtime
      (hides t.status) kept t seen r o

-- What an end of `pollUntilTxHashByIntent` says of the run: it is closed, but for an exception of the
-- node or of a write.
abbrev pub IsSettled : PollEnd → TrackedRun → Type 0
IsSettled (got_hash h) r = (r.status ≡ succeeded) × (r.is_completed ≡ true) × (r.tx_hash ≡ some h)
IsSettled (run_failed m) r = (r.status ≡ failed) × (r.is_completed ≡ true) × (r.error ≡ some m)
IsSettled (timed_out st) r =
    (r.status ≡ failed)
    × (r.is_completed ≡ true)
    × (r.error ≡ some "Timed out waiting for KRNL txHash")
IsSettled threw r = IsOpenRun r
IsSettled out_of_fuel r = ⊥

succeed_with_hash-IsSettled :
    (h : String) (raw : Value) (r : TrackedRun) → IsSettled (got_hash h) (succeed_with_hash h raw r)
unfolding succeed_with_hash
succeed_with_hash-IsSettled h raw r = (refl, refl, refl)

fail_run-IsSettled :
    (m : String) (raw : Value) (r : TrackedRun) → IsSettled (run_failed m) (fail_run m raw r)
unfolding fail_run
fail_run-IsSettled m raw r = (refl, refl, refl)

pub turn_by_intent-IsSettled :
    (round : Round) (answer : Option Tracking) (seen : Seen) (r : TrackedRun)
    → IsOpenRun r
    → IsTurn IsSettled (turn_by_intent round answer seen r)
unfolding turn_by_intent
turn_by_intent-IsSettled round none seen r o = o
turn_by_intent-IsSettled round (some t) seen r o =
    round-Promised IsSettled (λ h. true) succeed_with_hash
      (λ h raw q p. succeed_with_hash-IsSettled h raw q) fail_run-IsSettled (λ q p. p)
      round.node.runtime t.status none t seen r o

pub time_out-IsSettled : (st : RunStatus) (r : TrackedRun) → IsSettled (timed_out st) (time_out r)
unfolding time_out
time_out-IsSettled st r = (refl, refl, refl)

pub waiting_as-open : (st : Option RunStatus) → is_open (waiting_as st) ≡ true
waiting_as-open none = refl
waiting_as-open (some queued) = refl
waiting_as-open (some running) = refl
waiting_as-open (some succeeded) = refl
waiting_as-open (some failed) = refl
