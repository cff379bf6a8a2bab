-- ===== src/Poller/Polls.antt =====
-- Any number of polls, one after the other.
use dynamic_nft_krnl.Base.{◌∙◌, ap, inl, inr, Bool-cases, List, [], ◌∷◌}
use dynamic_nft_krnl.Store.{UnlockedTrait}
use dynamic_nft_krnl.Mint.{is_open, non_empty}
use dynamic_nft_krnl.Krnl.Row.{TrackedRun}
use dynamic_nft_krnl.Poller.{PollerEnv}
use dynamic_nft_krnl.Poller.Round.{poll_rows, poll_once}
use dynamic_nft_krnl.Poller.Moves.{IsLater}
use dynamic_nft_krnl.Poller.Moves.Rows.{AllLater, AllLater-refl, poll_rows-AllLater}

IsLater-trans : (r q p : TrackedRun) → IsLater r q → IsLater q p → IsLater r p
IsLater-trans r q p a b = record {
  same_id = b.same_id ∙ a.same_id;
  same_brand = b.same_brand ∙ a.same_brand;
  same_wallet = b.same_wallet ∙ a.same_wallet;
  closed_stays = λ c.
      b.closed_stays (ap (λ (t : TrackedRun). is_open t.status) (a.closed_stays c) ∙ c)
      ∙ a.closed_stays c;
  hash_kept = λ h e. b.hash_kept h (ap non_empty (a.hash_kept h e) ∙ e) ∙ a.hash_kept h e;
  closed_completed = λ o c. elim (Bool-cases (is_open q.status)) [
    | inl open_yet ↦ b.closed_completed open_yet c
    | inr closed ↦
        ap (λ (t : TrackedRun). t.is_completed) (b.closed_stays closed)
        ∙ a.closed_completed o closed
  ];
}

AllLater-trans : (rs qs ps : List TrackedRun) → AllLater rs qs → AllLater qs ps → AllLater rs ps
AllLater-trans [] [] [] a b = tt
AllLater-trans [] [] (p ∷ ps) a b = absurd b
AllLater-trans [] (q ∷ qs) ps a b = absurd a
AllLater-trans (r ∷ rs) [] ps a b = absurd a
AllLater-trans (r ∷ rs) (q ∷ qs) [] a b = absurd b
AllLater-trans (r ∷ rs) (q ∷ qs) (p ∷ ps) a b =
    (IsLater-trans r q p a.0 b.0, AllLater-trans rs qs ps a.1 b.1)

-- The polls of an interval timer, each with its own time, node and chain.
unfoldable pub polls :
    List PollerEnv → List TrackedRun × List UnlockedTrait → List TrackedRun × List UnlockedTrait
unfolding poll_once
polls [] s = s
polls (env ∷ envs) s = polls envs (poll_once env s)

-- However many polls there are, and whatever the node and the chain say, no run is lost and each
-- keeps its id, its brand and its wallet, a hash on the chain once it has one, and all of its
-- columns once it is closed; a run that they close is completed.
pub polls-AllLater :
    (envs : List PollerEnv) (rs : List TrackedRun) (ts : List UnlockedTrait)
    → AllLater rs (polls envs (rs, ts)).0
unfolding polls poll_once
polls-AllLater [] rs ts = AllLater-refl rs
polls-AllLater (env ∷ envs) rs ts =
    AllLater-trans rs (poll_rows env rs ts).0 (polls envs (poll_rows env rs ts)).0
      (poll_rows-AllLater env rs ts)
      (polls-AllLater envs (poll_rows env rs ts).0 (poll_rows env rs ts).1)
