-- ===== src/Poller/Round.antt =====
-- One poll: pollOnce of apps/api/src/services/krnlRunPoller.ts.
use dynamic_nft_krnl.Base.{ℕ, ◌+◌, Bool, ◌&&◌, List, [], ◌∷◌, if◌then◌else◌, leb}
use dynamic_nft_krnl.Store.{UnlockedTrait}
use dynamic_nft_krnl.Mint.{is_open}
use dynamic_nft_krnl.Krnl.Row.{TrackedRun}
use dynamic_nft_krnl.Poller.{PollerEnv, polled_ms, Handled, handle_run, aborted, written}

-- The query: runs of the last day that are open.
abbrev pub is_polled : ℕ → TrackedRun → Bool
is_polled now r = leb now (r.created_at + polled_ms) && is_open r.status

abbrev pub and_row :
    TrackedRun → List TrackedRun × List UnlockedTrait → List TrackedRun × List UnlockedTrait
and_row r rest = (r ∷ rest.0, rest.1)

-- After one run: the others, unless an exception ended the poll.
abbrev pub go_on :
    (List UnlockedTrait → List TrackedRun × List UnlockedTrait)
    → TrackedRun
    → List TrackedRun
    → List UnlockedTrait
    → Handled
    → List TrackedRun × List UnlockedTrait
go_on others r rs ts aborted = (r ∷ rs, ts)
go_on others r rs ts (written q ts') = and_row q (others ts')

-- The runs in the order of the query; each is known by its id. An exception leaves the rest as it is.
unfoldable pub poll_rows :
    PollerEnv → List TrackedRun → List UnlockedTrait → List TrackedRun × List UnlockedTrait
unfolding handle_run
poll_rows env [] ts = ([], ts)
poll_rows env (r ∷ rs) ts =
    let skipped = and_row r (poll_rows env rs ts) in
    let handled = go_on (poll_rows env rs) r rs ts (handle_run env r ts) in
    if is_polled env.now r then handled else skipped

-- `pollOnce`. The poller does not run in demo mode.
unfoldable pub poll_once :
    PollerEnv → List TrackedRun × List UnlockedTrait → List TrackedRun × List UnlockedTrait
unfolding poll_rows
poll_once env s = poll_rows env s.0 s.1
