-- ===== src/Poller/Tests.antt =====
-- Polls at concrete runs.
use text.Mathlib.TextEquality.{eq_iff}
use dynamic_nft_krnl.Base.{
  ◌≡◌, ◌≢◌, refl, Bool, true, false, Option, none, some, String, List, [], ◌∷◌, arith,
}
use dynamic_nft_krnl.Store.{UnlockedTrait}
use dynamic_nft_krnl.Krnl.Row.{TrackedRun}
use dynamic_nft_krnl.Krnl.Status.{resolve_krnl_tracking_status}
use dynamic_nft_krnl.Me.Active.{IsSingle}
use dynamic_nft_krnl.Poller.{PollerEnv, Handled, aborted, written, time_out_run}
use dynamic_nft_krnl.Poller.Round.{poll_rows, poll_once}
use dynamic_nft_krnl.Poller.Moves.Rows.{AllLater}
use dynamic_nft_krnl.Poller.Polls.{polls, polls-AllLater}
use dynamic_nft_krnl.Poller.Overdue.{
  IsOverdue, AllTimedOut, handle_run-overdue, poll_rows-AllTimedOut,
}
use dynamic_nft_krnl.Poller.Active.{poll_rows-IsSingle}
use dynamic_nft_krnl.Fixtures.{node_saying, success_answer, a_hash, open_run}

-- Half a minute, and half an hour, after the run was submitted.
abbrev soon : PollerEnv
soon = record { now = 31000; node = node_saying success_answer; receipt = λ h. some true }

abbrev late : PollerEnv
late = record soon { now = 1801000 }

abbrev hat : List UnlockedTrait
hat =
    record {
      brand_id = "acme";
      wallet = "0xa";
      trait_key = "hat";
      trait_value = "grey";
      is_active = false;
    }
    ∷ []

abbrev first_chain_hash : List TrackedRun → Option String
first_chain_hash [] = none
first_chain_hash (r ∷ rs) = r.chain_tx_hash

abbrev activity : List UnlockedTrait → List Bool
activity [] = []
activity (t ∷ ts) = t.is_active ∷ activity ts

succeeds : first_chain_hash (poll_once soon (open_run ∷ [], hat)).0 ≡ some a_hash
unfolding poll_once
succeeds = refl

wears : activity (poll_once soon (open_run ∷ [], hat)).1 ≡ true ∷ []
unfolding poll_once
wears = refl

polls-AllLater_example : AllLater (open_run ∷ []) (polls (soon ∷ late ∷ []) (open_run ∷ [], hat)).0
polls-AllLater_example = polls-AllLater (soon ∷ late ∷ []) (open_run ∷ []) hat

overdue : IsOverdue late open_run
unfolding resolve_krnl_tracking_status
overdue = record {
  polled = refl;
  old = omega arith;
  referenced = refl;
  answer = _;
  answered = refl;
}

not-aborted :
    (h : Handled) (r : TrackedRun) (ts : List UnlockedTrait) → h ≡ written r ts → h ≢ aborted
not-aborted h r ts e a = cc

-- The node says that the run has succeeded, and it is failed.
poll_rows-AllTimedOut_example :
    AllTimedOut late (open_run ∷ []) (poll_rows late (open_run ∷ []) hat).0
poll_rows-AllTimedOut_example = poll_rows-AllTimedOut late (open_run ∷ []) hat (
  (λ ts. not-aborted _ (time_out_run open_run) ts (handle_run-overdue late open_run ts overdue)),
  tt,
)

grey_hat : IsSingle hat
grey_hat b w k v v' p q = ground (arith, eq_iff "grey" v, eq_iff "grey" v')

poll_rows-IsSingle_example : IsSingle (poll_rows soon (open_run ∷ []) hat).1
poll_rows-IsSingle_example = poll_rows-IsSingle soon (open_run ∷ []) hat grey_hat
