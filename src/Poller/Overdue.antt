-- ===== src/Poller/Overdue.antt =====
-- The timeout of a run.
use dynamic_nft_krnl.Base.{
  ℕ, ◌-◌, ◌<◌, ◌≡◌, ◌≢◌, refl, sym, ◌∙◌, inl, inr, Bool-cases, none, some, List, [], ◌∷◌, All, true,
  false, arith, ltb,
}
use dynamic_nft_krnl.Store.{UnlockedTrait, failed}
use dynamic_nft_krnl.Krnl.Row.{TrackedRun}
use dynamic_nft_krnl.Krnl.Status.{Tracking, resolve_krnl_tracking_status}
use dynamic_nft_krnl.Krnl.Poll.{references, has_reference}
use dynamic_nft_krnl.Poller.Moves.{false-ne-true}
use dynamic_nft_krnl.Poller.{
  PollerEnv, run_timeout_ms, Handled, aborted, written, time_out_run, handle_answer, handle_run,
}
use dynamic_nft_krnl.Poller.Round.{is_polled, go_on, poll_rows}

-- A run that a poll is to give up: it is polled, older than twenty minutes, has an id to ask for, and
-- the node answers.
pub record IsOverdue (env : PollerEnv) (r : TrackedRun) : Type 0 where
  pub polled : is_polled env.now r ≡ true
  pub old : run_timeout_ms < env.now - r.created_at
  pub referenced : has_reference r.request_id r.tx_intent_id r.intent_id ≡ true
  pub answer : Tracking
  pub answered : resolve_krnl_tracking_status env.node false (references r none) ≡ some answer

-- The run is closed as failed with a message, and keeps the rest of its row but for its completion.
pub record IsGivenUp (r q : TrackedRun) : Type 0 where
  pub is_failed : q.status ≡ failed
  pub message : q.error ≡ some "Workflow timed out"
  pub is_closed : q.is_completed ≡ true
  pub rest : record q { status = r.status; error = r.error; is_completed = r.is_completed } ≡ r

time_out_run-IsGivenUp : (r : TrackedRun) → IsGivenUp r (time_out_run r)
unfolding time_out_run
time_out_run-IsGivenUp r = record {
  is_failed = refl;
  message = refl;
  is_closed = refl;
  rest = refl;
}

lt→ltb : (a b : ℕ) → a < b → ltb a b ≡ true
lt→ltb a b h = ground arith

written-eq : (q p : TrackedRun) (us ts : List UnlockedTrait) → written q us ≡ written p ts → q ≡ p
written-eq q p us ts e = cc

not-polled : (env : PollerEnv) (r : TrackedRun) → is_polled env.now r ≡ false → IsOverdue env r → ⊥
not-polled env r e d = false-ne-true (is_polled env.now r) d.polled e

module _ (env : PollerEnv) where
  -- It is failed, and gives out nothing, whatever the answer says.
  pub handle_run-overdue :
      (r : TrackedRun) (ts : List UnlockedTrait)
      → IsOverdue env r
      → handle_run env r ts ≡ written (time_out_run r) ts
  unfolding handle_run handle_answer
  handle_run-overdue r ts d =
      let late : ltb run_timeout_ms (env.now - r.created_at) ≡ true = lt→ltb _ _ d.old in
      rw d.referenced (rw (d.answered, handle_answer) (rw late refl))

  -- The overdue runs among the rows are timed out.
  abbrev pub AllTimedOut : List TrackedRun → List TrackedRun → Type 0
  AllTimedOut [] [] = Unit
  AllTimedOut [] (q ∷ qs) = ⊥
  AllTimedOut (r ∷ rs) [] = ⊥
  AllTimedOut (r ∷ rs) (q ∷ qs) = (IsOverdue env r → IsGivenUp r q) × AllTimedOut rs qs

  -- The database takes every write of the poll.
  abbrev pub IsAccepted : TrackedRun → Type 0
  IsAccepted r = (ts : List UnlockedTrait) → handle_run env r ts ≢ aborted

  go_on-AllTimedOut :
      (others : List UnlockedTrait → List TrackedRun × List UnlockedTrait) (r : TrackedRun)
      (rs : List TrackedRun) (ts : List UnlockedTrait) (h : Handled)
      → IsAccepted r
      → handle_run env r ts ≡ h
      → ((us : List UnlockedTrait) → AllTimedOut rs (others us).0)
      → AllTimedOut (r ∷ rs) (go_on others r rs ts h).0
  go_on-AllTimedOut others r rs ts aborted accepted e later = absurd (accepted ts e)
  go_on-AllTimedOut others r rs ts (written q us) accepted e later = (
    (λ d.
        rw (written-eq q (time_out_run r) us ts (sym e ∙ handle_run-overdue r ts d))
          (time_out_run-IsGivenUp r)),
    later us,
  )

  -- A poll in which the database takes every write closes each run as failed, with a message and
  -- the rest of its row as it was, that is polled, older than twenty minutes, has an id to ask for
  -- and for which the node's answer is read, also one that the node says has succeeded. A run whose
  -- request throws is not spoken of.
  pub poll_rows-AllTimedOut :
      (rs : List TrackedRun) (ts : List UnlockedTrait)
      → All IsAccepted rs
      → AllTimedOut rs (poll_rows env rs ts).0
  unfolding poll_rows
  poll_rows-AllTimedOut [] ts accepted = tt
  poll_rows-AllTimedOut (r ∷ rs) ts accepted = elim (Bool-cases (is_polled env.now r)) [
    | inr left ↦
        rw left ((λ d. absurd (not-polled env r left d)), poll_rows-AllTimedOut rs ts accepted.1)
    | inl polled ↦ rw polled (
        go_on-AllTimedOut (poll_rows env rs) r rs ts (handle_run env r ts) accepted.0 refl
          (λ us. poll_rows-AllTimedOut rs us accepted.1))
  ]
