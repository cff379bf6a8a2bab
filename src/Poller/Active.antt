-- ===== src/Poller/Active.antt =====
-- What polls do to the traits.
use dynamic_nft_krnl.Base.{
  inl, inr, Bool-cases, false, String, List, [], ◌∷◌, Option, none, some, arith, ltb, ◌-◌,
}
use dynamic_nft_krnl.Js.{Runtime}
use dynamic_nft_krnl.Store.{
  UnlockedTrait, RunType, set_metadata_uri, mint_base_nft, open_lootbox, set_active_traits,
  quest_reward,
}
use dynamic_nft_krnl.Me.Activate.{Selection}
use dynamic_nft_krnl.Me.Active.{IsSingle, all-IsSingle}
use dynamic_nft_krnl.Krnl.Row.{TrackedRun}
use dynamic_nft_krnl.Krnl.Status.{Tracking, resolve_krnl_tracking_status}
use dynamic_nft_krnl.Krnl.Poll.{references, has_reference}
use dynamic_nft_krnl.Krnl.Writes.{is_succeeded}
use dynamic_nft_krnl.Poller.Found.{
  has_trait, add_unlocked, extract_unlocked_traits, selected_traits,
}
use dynamic_nft_krnl.Poller.{
  PollerEnv, run_timeout_ms, Handled, aborted, written, Next, next_of, brings, give_out, is_changed,
  updated, update_or_abort, write_next, handle_answer, handle_run,
}
use dynamic_nft_krnl.Poller.Round.{is_polled, go_on, poll_rows}

-- A trait that is unlocked is not active yet.
add_unlocked-IsSingle :
    (brand wallet : String) (ss : List Selection) (ts : List UnlockedTrait)
    → IsSingle ts
    → IsSingle (add_unlocked brand wallet ss ts)
unfolding add_unlocked
add_unlocked-IsSingle brand wallet [] ts h = h
add_unlocked-IsSingle brand wallet (s ∷ ss) ts h = elim (Bool-cases (has_trait brand wallet s ts)) [
  | inl there ↦ rw there (add_unlocked-IsSingle brand wallet ss ts h)
  | inr new ↦ rw new (
      add_unlocked-IsSingle brand wallet ss _
        (λ b w k v v' p q. h b w k v v' (ground arith) (ground arith)))
]

brings-IsSingle :
    (rt : Runtime) (n : Next) (r : TrackedRun) (t : RunType) (ts : List UnlockedTrait)
    → IsSingle ts
    → IsSingle (brings rt n r t ts)
unfolding brings
brings-IsSingle rt n r open_lootbox ts h =
    add_unlocked-IsSingle r.brand_id r.wallet (extract_unlocked_traits rt n.raw n.next_steps) ts h
brings-IsSingle rt n r set_active_traits ts h =
    all-IsSingle r.brand_id r.wallet (selected_traits rt r.rendered_workflow) ts h
brings-IsSingle rt n r set_metadata_uri ts h = h
brings-IsSingle rt n r mint_base_nft ts h = h
brings-IsSingle rt n r quest_reward ts h = h

give_out-IsSingle :
    (rt : Runtime) (n : Next) (r : TrackedRun) (ts : List UnlockedTrait)
    → IsSingle ts
    → IsSingle (give_out rt n r ts)
unfolding give_out
give_out-IsSingle rt n r ts h = elim (Bool-cases (is_succeeded (some n.mapped))) [
  | inr other ↦ rw other h
  | inl won ↦ rw won (brings-IsSingle rt n r r.run_type ts h)
]

abbrev KeepsSingle : Handled → Type 0
KeepsSingle aborted = Unit
KeepsSingle (written q ts) = IsSingle ts

update_or_abort-KeepsSingle :
    (rt : Runtime) (n : Next) (r : TrackedRun) (ts : List UnlockedTrait) (u : Option TrackedRun)
    → IsSingle ts
    → KeepsSingle (update_or_abort rt n r ts u)
unfolding update_or_abort
update_or_abort-KeepsSingle rt n r ts none h = tt
update_or_abort-KeepsSingle rt n r ts (some q) h = give_out-IsSingle rt n r ts h

write_next-KeepsSingle :
    (rt : Runtime) (n : Next) (r : TrackedRun) (ts : List UnlockedTrait)
    → IsSingle ts
    → KeepsSingle (write_next rt n r ts)
unfolding write_next
write_next-KeepsSingle rt n r ts h = elim (Bool-cases (is_changed rt n r)) [
  | inr same ↦ rw same h
  | inl changed ↦ rw changed (update_or_abort-KeepsSingle rt n r ts (updated rt n r) h)
]

answered-KeepsSingle :
    (env : PollerEnv) (r : TrackedRun) (ts : List UnlockedTrait) (answer : Option Tracking)
    → IsSingle ts
    → KeepsSingle (handle_answer env r ts answer)
unfolding handle_answer
answered-KeepsSingle env r ts none h = h
answered-KeepsSingle env r ts (some t) h =
    elim (Bool-cases (ltb run_timeout_ms (env.now - r.created_at))) [
      | inl old ↦ rw old h
      | inr young ↦ rw young (write_next-KeepsSingle env.node.runtime (next_of env t r) r ts h)
    ]

handle_run-KeepsSingle :
    (env : PollerEnv) (r : TrackedRun) (ts : List UnlockedTrait)
    → IsSingle ts
    → KeepsSingle (handle_run env r ts)
unfolding handle_run
handle_run-KeepsSingle env r ts h =
    elim (Bool-cases (has_reference r.request_id r.tx_intent_id r.intent_id)) [
      | inr missing ↦ rw missing h
      | inl there ↦ rw there (
          answered-KeepsSingle env r ts
            (resolve_krnl_tracking_status env.node false (references r none)) h)
    ]

go_on-IsSingle :
    (others : List UnlockedTrait → List TrackedRun × List UnlockedTrait) (r : TrackedRun)
    (rs : List TrackedRun) (ts : List UnlockedTrait) (h : Handled)
    → IsSingle ts
    → KeepsSingle h
    → ((us : List UnlockedTrait) → IsSingle us → IsSingle (others us).1)
    → IsSingle (go_on others r rs ts h).1
go_on-IsSingle others r rs ts aborted single kept later = single
go_on-IsSingle others r rs ts (written q us) single kept later = later us kept

-- A poll, whatever it finds and however it ends, keeps it so that every wallet has at most one
-- value of each trait active for a brand.
pub poll_rows-IsSingle :
    (env : PollerEnv) (rs : List TrackedRun) (ts : List UnlockedTrait)
    → IsSingle ts
    → IsSingle (poll_rows env rs ts).1
unfolding poll_rows
poll_rows-IsSingle env [] ts h = h
poll_rows-IsSingle env (r ∷ rs) ts h = elim (Bool-cases (is_polled env.now r)) [
  | inr left ↦ rw left (poll_rows-IsSingle env rs ts h)
  | inl polled ↦ rw polled (
      go_on-IsSingle (poll_rows env rs) r rs ts (handle_run env r ts) h
        (handle_run-KeepsSingle env r ts h) (λ us. poll_rows-IsSingle env rs us))
]
