-- ===== src/Poller/Moves/Rows.antt =====
-- What polls do to the rows, one by one.
use dynamic_nft_krnl.Base.{
  ℕ, ◌-◌, ◌≡◌, refl, true, false, Option, none, some, List, [], ◌∷◌, arith, ltb, Bool-cases, inl,
  inr,
}
use dynamic_nft_krnl.Js.{Runtime}
use dynamic_nft_krnl.Store.{UnlockedTrait}
use dynamic_nft_krnl.Mint.{is_open}
use dynamic_nft_krnl.Krnl.Row.{TrackedRun}
use dynamic_nft_krnl.Krnl.Status.{Tracking, resolve_krnl_tracking_status}
use dynamic_nft_krnl.Krnl.Poll.{references, has_reference}
use dynamic_nft_krnl.Poller.{
  PollerEnv, run_timeout_ms, Handled, aborted, written, Next, next_of, is_changed, updated,
  update_or_abort, handle_answer, write_next, handle_run,
}
use dynamic_nft_krnl.Poller.Round.{is_polled, go_on, poll_rows}
use dynamic_nft_krnl.Poller.Moves.{
  updated-IsNext, time_out_run-IsLater, IsLater, false-ne-true, IsNext,
}

-- A run is later than itself.
pub IsLater-refl : (r : TrackedRun) → IsLater r r
IsLater-refl r = record {
  same_id = refl;
  same_brand = refl;
  same_wallet = refl;
  closed_stays = λ c. refl;
  hash_kept = λ h e. refl;
  closed_completed = λ o c. absurd (false-ne-true (is_open r.status) o c);
}

abbrev IsHandled : TrackedRun → Handled → Type 0
IsHandled r aborted = Unit
IsHandled r (written q ts) = IsLater r q

update_or_abort-IsHandled :
    (rt : Runtime) (n : Next) (r : TrackedRun) (ts : List UnlockedTrait) (u : Option TrackedRun)
    → IsNext r u
    → IsHandled r (update_or_abort rt n r ts u)
unfolding update_or_abort
update_or_abort-IsHandled rt n r ts none h = tt
update_or_abort-IsHandled rt n r ts (some q) h = h

write_next-IsHandled :
    (rt : Runtime) (n : Next) (r : TrackedRun) (ts : List UnlockedTrait)
    → is_open r.status ≡ true
    → IsHandled r (write_next rt n r ts)
unfolding write_next
write_next-IsHandled rt n r ts o = elim (Bool-cases (is_changed rt n r)) [
  | inr same ↦ rw (same, write_next) (IsLater-refl r)
  | inl changed ↦
      rw (changed, write_next)
        (update_or_abort-IsHandled rt n r ts (updated rt n r) (updated-IsNext r o rt n))
]

answered-IsHandled :
    (env : PollerEnv) (r : TrackedRun) (ts : List UnlockedTrait) (answer : Option Tracking)
    → is_open r.status ≡ true
    → IsHandled r (handle_answer env r ts answer)
unfolding handle_answer
answered-IsHandled env r ts none o = IsLater-refl r
answered-IsHandled env r ts (some t) o =
    elim (Bool-cases (ltb run_timeout_ms (env.now - r.created_at))) [
      | inl old ↦ rw old (time_out_run-IsLater r o)
      | inr young ↦ rw young (write_next-IsHandled env.node.runtime (next_of env t r) r ts o)
    ]

handle_run-IsHandled :
    (env : PollerEnv) (r : TrackedRun) (ts : List UnlockedTrait)
    → is_open r.status ≡ true
    → IsHandled r (handle_run env r ts)
unfolding handle_run
handle_run-IsHandled env r ts o =
    elim (Bool-cases (has_reference r.request_id r.tx_intent_id r.intent_id)) [
      | inr missing ↦ rw missing (IsLater-refl r)
      | inl there ↦ rw there (
          answered-IsHandled env r ts
            (resolve_krnl_tracking_status env.node false (references r none)) o)
    ]

pub polled-open : (now : ℕ) (r : TrackedRun) → is_polled now r ≡ true → is_open r.status ≡ true
polled-open now r h = ground arith

-- The rows, one by one.
abbrev pub AllLater : List TrackedRun → List TrackedRun → Type 0
AllLater [] [] = Unit
AllLater [] (q ∷ qs) = ⊥
AllLater (r ∷ rs) [] = ⊥
AllLater (r ∷ rs) (q ∷ qs) = IsLater r q × AllLater rs qs

pub AllLater-refl : (rs : List TrackedRun) → AllLater rs rs
AllLater-refl [] = tt
AllLater-refl (r ∷ rs) = (IsLater-refl r, AllLater-refl rs)

go_on-AllLater :
    (others : List UnlockedTrait → List TrackedRun × List UnlockedTrait) (r : TrackedRun)
    (rs : List TrackedRun) (ts : List UnlockedTrait) (h : Handled)
    → IsHandled r h
    → ((us : List UnlockedTrait) → AllLater rs (others us).0)
    → AllLater (r ∷ rs) (go_on others r rs ts h).0
go_on-AllLater others r rs ts aborted h later = AllLater-refl (r ∷ rs)
go_on-AllLater others r rs ts (written q us) h later = (h, later us)

pub poll_rows-AllLater :
    (env : PollerEnv) (rs : List TrackedRun) (ts : List UnlockedTrait)
    → AllLater rs (poll_rows env rs ts).0
unfolding poll_rows
poll_rows-AllLater env [] ts = tt
poll_rows-AllLater env (r ∷ rs) ts = elim (Bool-cases (is_polled env.now r)) [
  | inr left ↦ rw left (IsLater-refl r, poll_rows-AllLater env rs ts)
  | inl polled ↦ rw polled (
      go_on-AllLater (poll_rows env rs) r rs ts (handle_run env r ts)
        (handle_run-IsHandled env r ts (polled-open env.now r polled))
        (λ us. poll_rows-AllLater env rs us))
]
