-- ===== src/Krnl/Waited.antt =====
-- How waiting for a run's transaction ends, and that it ends.
use dynamic_nft_krnl.Base.{
  ℕ, zero, suc, ◌+◌, ◌*◌, ◌≤◌, ◌≡◌, false, Option, none, some, String, arith, ltb, Bool-cases, inl,
  inr,
}
use dynamic_nft_krnl.Store.{failed}
use dynamic_nft_krnl.Krnl.Status.{References}
use dynamic_nft_krnl.Krnl.Submit.{first_some}
use dynamic_nft_krnl.Krnl.Row.{TrackedRun}
use dynamic_nft_krnl.Krnl.Poll.{
  World, Turn, ends, goes_on, turn, turn_by_intent, asked, poll_loop, poll_loop_by_intent,
  poll_until_tx_hash, poll_until_tx_hash_by_intent, continue, references, has_reference,
}
use dynamic_nft_krnl.Krnl.Writes.{PollEnd, Seen}
use dynamic_nft_krnl.Krnl.Rounds.{
  IsOpenRun, IsReported, IsTurn, turn-IsReported, IsSettled, turn_by_intent-IsSettled,
  time_out-IsSettled, waiting_as-open,
}

late : (now end_at : ℕ) → end_at ≤ now → ltb now end_at ≡ false
late now end_at h = ground arith

later_enough :
    (now next end_at fuel interval : ℕ)
    → now + interval ≤ next
    → end_at ≤ now + suc fuel * interval
    → end_at ≤ next + fuel * interval
later_enough now next end_at fuel interval h k = grind arith

continue-IsTurn :
    (P : PollEnd → TrackedRun → Type 0) (loop : Seen → TrackedRun → PollEnd × TrackedRun)
    → ((seen : Seen) (r : TrackedRun) → IsOpenRun r → P (loop seen r).0 (loop seen r).1)
    → (t : Turn) → IsTurn P t
    → P (continue loop t).0 (continue loop t).1
continue-IsTurn P loop kept (ends e r) h = h
continue-IsTurn P loop kept (goes_on seen r) h = kept seen r h

-- Other requests and workers leave an open run open, and rounds are an interval apart.
module _ (w : World) (interval : ℕ)
    (kind : (i : ℕ) (r : TrackedRun) → IsOpenRun r → IsOpenRun ((w.rounds i).others r))
    (ticks : (i : ℕ) → (w.rounds i).now + interval ≤ (w.rounds (suc i)).now) where
  poll_loop-IsReported :
      (refs : References) (kept : Option String) (end_at i fuel : ℕ) (seen : Seen) (r : TrackedRun)
      → end_at ≤ (w.rounds i).now + fuel * interval
      → IsOpenRun r
      → IsReported w
          (poll_loop w refs kept end_at i fuel seen r).0
          (poll_loop w refs kept end_at i fuel seen r).1
  unfolding poll_loop
  poll_loop-IsReported refs kept end_at i zero seen r h o =
      rw (late (w.rounds i).now end_at (omega arith)) (waiting_as-open seen.last_status, kind i r o)
  poll_loop-IsReported refs kept end_at i (suc fuel) seen r h o =
      elim (Bool-cases (ltb (w.rounds i).now end_at)) [
        | inr over ↦ rw over (waiting_as-open seen.last_status, kind i r o)
        | inl early ↦ rw early (
            continue-IsTurn (IsReported w) (poll_loop w refs kept end_at (suc i) fuel)
              (λ s q. poll_loop-IsReported refs kept end_at (suc i) fuel s q (
                later_enough (w.rounds i).now (w.rounds (suc i)).now end_at fuel interval (ticks i)
                  h))
              (turn kept (w.rounds i) (asked w refs i) seen ((w.rounds i).others r))
              (turn-IsReported w i kept (asked w refs i) seen ((w.rounds i).others r) (kind i r o)))
      ]

  poll_loop_by_intent-IsSettled :
      (refs : References) (end_at i fuel : ℕ) (seen : Seen) (r : TrackedRun)
      → end_at ≤ (w.rounds i).now + fuel * interval
      → IsOpenRun r
      → IsSettled
          (poll_loop_by_intent w refs end_at i fuel seen r).0
          (poll_loop_by_intent w refs end_at i fuel seen r).1
  unfolding poll_loop_by_intent
  poll_loop_by_intent-IsSettled refs end_at i zero seen r h o =
      rw (late (w.rounds i).now end_at (omega arith))
        (time_out-IsSettled failed ((w.rounds i).others r))
  poll_loop_by_intent-IsSettled refs end_at i (suc fuel) seen r h o =
      elim (Bool-cases (ltb (w.rounds i).now end_at)) [
        | inr over ↦ rw over (time_out-IsSettled failed ((w.rounds i).others r))
        | inl early ↦ rw early (
            continue-IsTurn IsSettled (poll_loop_by_intent w refs end_at (suc i) fuel)
              (λ s q. poll_loop_by_intent-IsSettled refs end_at (suc i) fuel s q (
                later_enough (w.rounds i).now (w.rounds (suc i)).now end_at fuel interval (ticks i)
                  h))
              (turn_by_intent (w.rounds i) (asked w refs i) seen ((w.rounds i).others r))
              (turn_by_intent-IsSettled (w.rounds i) (asked w refs i) seen ((w.rounds i).others r)
                (kind i r o)))
      ]

  module _ (start timeout fuel : ℕ) (begun : start ≤ (w.rounds zero).now)
      (enough : timeout ≤ fuel * interval) (r : TrackedRun) (o : IsOpenRun r) where
    -- Waiting for an open run, which others leave open and whose rounds are the interval apart at
    -- least, ends after at most as many rounds as the interval has room in the time. With a hash
    -- the run is closed as succeeded with that hash on the chain, and its receipt was found; with a
    -- failure it is closed as failed with the message; else, when the time is up, every id is
    -- missing or the node or a write throws, it is left open.
    pub poll_until_tx_hash-IsReported :
        IsReported w
          (poll_until_tx_hash w start timeout fuel r).0
          (poll_until_tx_hash w start timeout fuel r).1
    unfolding poll_until_tx_hash
    poll_until_tx_hash-IsReported =
        elim (Bool-cases
          (has_reference r.request_id (first_some r.tx_intent_id none) r.intent_id)) [
            | inl there ↦ rw there (
                poll_loop-IsReported (references r none) r.tx_hash (start + timeout) zero fuel
                  (record { stored_hash = r.krnl_execution_hash; last_status = some r.status }) r
                  (omega arith) o)
            | inr missing ↦ rw missing o
          ]

    -- Under the same conditions waiting by an intent's id ends too, and unless the node or a write
    -- throws or every id is missing it closes the run: as succeeded with the hash, or as failed
    -- with the message of the failure or of the time that is up.
    pub poll_until_tx_hash_by_intent-IsSettled :
        (intent : Option String)
        → IsSettled
            (poll_until_tx_hash_by_intent w intent start timeout fuel r).0
            (poll_until_tx_hash_by_intent w intent start timeout fuel r).1
    unfolding poll_until_tx_hash_by_intent
    poll_until_tx_hash_by_intent-IsSettled intent =
        elim (Bool-cases
          (has_reference r.request_id (first_some r.tx_intent_id intent) r.intent_id)) [
            | inl there ↦ rw there (
                poll_loop_by_intent-IsSettled (references r intent) (start + timeout) zero fuel
                  (record { stored_hash = none; last_status = none }) r (omega arith) o)
            | inr missing ↦ rw missing o
          ]
