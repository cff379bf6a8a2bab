-- ===== src/Poller.antt =====
-- apps/api/src/services/krnlRunPoller.ts: what the worker writes of an open workflow run from what
-- the node and the chain say of it, and what a run that succeeded brings.
pub mod Round
pub mod Found
pub mod Moves
pub mod Active
pub mod Polls
pub mod Overdue
mod Tests
use text.Mathlib.Text.{◌==◌ as str_eq}
use dynamic_nft_krnl.Base.{
  ℕ, ◌+◌, ◌-◌, ◌*◌, Bool, true, false, ◌&&◌, ◌||◌, not, Option, none, some, String, List, [], ◌∷◌,
  if◌then◌else◌, ltb, leb, or_else,
}
use dynamic_nft_krnl.Base.Text.{is_empty}
use dynamic_nft_krnl.Js.{Runtime, Value, undefined, null, str, nullish, or_value}
use dynamic_nft_krnl.Json.{stringify}
use dynamic_nft_krnl.Store.{
  UnlockedTrait, RunType, set_metadata_uri, mint_base_nft, open_lootbox, set_active_traits,
  quest_reward, RunStatus, queued, running, succeeded, failed,
}
use dynamic_nft_krnl.Mint.{is_open, non_empty}
use dynamic_nft_krnl.Me.Activate.{activate_all}
use dynamic_nft_krnl.Krnl.Node.{NodeEnv}
use dynamic_nft_krnl.Krnl.Status.{Tracking, resolve_krnl_tracking_status}
use dynamic_nft_krnl.Krnl.Message.{build_krnl_error_message}
use dynamic_nft_krnl.Krnl.Row.{
  TrackedRun, text_column, Hash, no_hash, not_text, hash, hash_of_value,
}
use dynamic_nft_krnl.Krnl.Poll.{references, has_reference}
use dynamic_nft_krnl.Krnl.Writes.{is_succeeded, is_failed, is_status}
use dynamic_nft_krnl.Poller.Found.{
  extract_steps, found_hash, extract_unlocked_traits, add_unlocked, selected_traits, with_tx_status,
}

-- What a poll takes from outside: the time in milliseconds, the node, and for a hash whether the
-- chain has its receipt, and if so whether the transaction succeeded.
pub record PollerEnv : Type 0 where
  pub now : ℕ
  pub node : NodeEnv
  pub receipt : String → Option Bool

-- Twenty minutes, and a day.
abbrev pub run_timeout_ms : ℕ
run_timeout_ms = 20 * 60 * 1000

abbrev pub polled_ms : ℕ
polled_ms = 24 * 60 * 60 * 1000

-- What becomes of one run: it and the traits are as written, or an exception ends the poll.
pub data Handled : Type 0 where
  aborted : Handled
  written : TrackedRun → List UnlockedTrait → Handled

-- The hash of the transaction on the chain, and whether that succeeded, if a receipt was found now.
pub record Chained : Type 0 where
  pub chain_hash : Option String
  pub tx_succeeded : Option Bool

unfoldable pub look_up_receipt : PollerEnv → Option String → Hash → Chained
look_up_receipt env (some h) found = record { chain_hash = some h; tx_succeeded = none }
look_up_receipt env none no_hash = record { chain_hash = none; tx_succeeded = none }
look_up_receipt env none not_text = record { chain_hash = none; tx_succeeded = none }
look_up_receipt env none (hash h) = elim (env.receipt h) [
  | none ↦ record { chain_hash = none; tx_succeeded = none }
  | some b ↦ record { chain_hash = some h; tx_succeeded = some b }
]

-- The row of a run whose time is up.
unfoldable pub time_out_run : TrackedRun → TrackedRun
time_out_run r = record r {
  status = failed;
  error = some "Workflow timed out";
  is_completed = true;
}

-- What the answer makes of a run, before it is written.
pub record Next : Type 0 where
  pub mapped : RunStatus
  pub found : Hash
  pub chained : Chained
  pub next_error : Value
  pub raw : Value
  pub next_steps : Value

unfoldable pub next_of : PollerEnv → Tracking → TrackedRun → Next
unfolding found_hash extract_steps build_krnl_error_message nullish hash_of_value look_up_receipt
next_of env t r =
    let raw = nullish t.raw null in
    let found = hash_of_value (found_hash (non_empty r.krnl_execution_hash) t.tx_hash raw) in
    record {
      mapped = or_else t.status r.status;
      found = found;
      chained = look_up_receipt env (non_empty r.chain_tx_hash) found;
      next_error =
          build_krnl_error_message env.node.runtime raw (nullish t.error (str "KRNL run failed"));
      raw = raw;
      next_steps = extract_steps raw;
    }

abbrev same_text : Option String → Option String → Bool
same_text none none = true
same_text none (some b) = false
same_text (some a) none = false
same_text (some a) (some b) = str_eq a b

abbrev is_hash : Hash → Bool
is_hash no_hash = false
is_hash not_text = true
is_hash (hash h) = true

abbrev is_there : Option String → Bool
is_there none = false
is_there (some s) = true

-- `executionHashChanged` and `chainHashChanged`.
abbrev pub has_new_hash : Next → TrackedRun → Bool
has_new_hash n r = is_hash n.found && not (is_there (non_empty r.krnl_execution_hash))

abbrev pub has_new_chain_hash : Next → TrackedRun → Bool
has_new_chain_hash n r =
    is_there (non_empty n.chained.chain_hash) && not (is_there (non_empty r.chain_tx_hash))

abbrev is_other_error : Value → Option String → Bool
is_other_error v old = elim (text_column v) [
  | none ↦ true
  | some e ↦ not (str_eq (or_else old "") e)
]

-- Whether anything is to be written.
unfoldable pub is_changed : Runtime → Next → TrackedRun → Bool
unfolding stringify
is_changed rt n r =
    not (is_status r.status (some n.mapped))
    || has_new_hash n r
    || has_new_chain_hash n r
    || (is_failed (some n.mapped) && is_other_error n.next_error r.error)
    || not (same_text (stringify rt r.krnl_status) (stringify rt n.raw))
    || not (same_text (stringify rt r.steps) (stringify rt (nullish n.next_steps null)))

-- The execution's hash in the update; `none` where the database refuses one that is no text.
unfoldable pub with_execution_hash : Hash → Bool → TrackedRun → Option TrackedRun
with_execution_hash h false r = some r
with_execution_hash no_hash true r = some r
with_execution_hash not_text true r = none
with_execution_hash (hash h) true r =
    some
      (record r { krnl_execution_hash = some h; tx_hash = some (or_else (non_empty r.tx_hash) h) })

-- The hash on the chain in the update.
unfoldable pub with_chain_hash : Option String → Bool → TrackedRun → TrackedRun
with_chain_hash h false r = r
with_chain_hash none true r = r
with_chain_hash (some h) true r = record r { chain_tx_hash = some h; tx_hash = some h }

-- The end of the run, if its status is one; `none` where the message is no text.
unfoldable pub with_end : RunStatus → Option String → TrackedRun → Option TrackedRun
with_end queued m r = some r
with_end running m r = some r
with_end succeeded m r = some (record r { is_completed = true })
with_end failed none r = none
with_end failed (some m) r = some (record r { is_completed = true; error = some m })

-- The status and the answer in the update, and its end.
unfoldable pub with_status : Runtime → Next → TrackedRun → Option TrackedRun → Option TrackedRun
unfolding with_chain_hash with_end with_tx_status nullish
with_status rt n r none = none
with_status rt n r (some q) =
    with_end n.mapped (text_column n.next_error)
      (record (with_chain_hash n.chained.chain_hash (has_new_chain_hash n r) q) {
        status = n.mapped;
        krnl_status =
            if is_succeeded (some n.mapped)
            then with_tx_status rt n.chained.tx_succeeded n.raw (nullish n.raw r.krnl_status)
            else nullish n.raw r.krnl_status;
        steps = nullish n.next_steps r.steps;
      })

-- `updateData`, applied to the row.
unfoldable pub updated : Runtime → Next → TrackedRun → Option TrackedRun
unfolding with_execution_hash with_status
updated rt n r = with_status rt n r (with_execution_hash n.found (has_new_hash n r) r)

-- What a run brings its wallet by its type: traits that are unlocked, or traits that are active.
unfoldable pub brings :
    Runtime → Next → TrackedRun → RunType → List UnlockedTrait → List UnlockedTrait
unfolding extract_unlocked_traits add_unlocked selected_traits activate_all
brings rt n r open_lootbox ts =
    add_unlocked r.brand_id r.wallet (extract_unlocked_traits rt n.raw n.next_steps) ts
brings rt n r set_active_traits ts =
    activate_all r.brand_id r.wallet (selected_traits rt r.rendered_workflow) ts
brings rt n r set_metadata_uri ts = ts
brings rt n r mint_base_nft ts = ts
brings rt n r quest_reward ts = ts

-- Only a run that succeeded brings something.
unfoldable pub give_out : Runtime → Next → TrackedRun → List UnlockedTrait → List UnlockedTrait
unfolding brings
give_out rt n r ts = if is_succeeded (some n.mapped) then brings rt n r r.run_type ts else ts

-- The row and the traits are written in one transaction.
unfoldable pub update_or_abort :
    Runtime → Next → TrackedRun → List UnlockedTrait → Option TrackedRun → Handled
unfolding give_out
update_or_abort rt n r ts none = aborted
update_or_abort rt n r ts (some q) = written q (give_out rt n r ts)

unfoldable pub write_next : Runtime → Next → TrackedRun → List UnlockedTrait → Handled
unfolding is_changed updated update_or_abort
write_next rt n r ts =
    if is_changed rt n r then update_or_abort rt n r ts (updated rt n r) else written r ts

-- What an answer makes of a run; `none` is an exception of the node.
unfoldable pub handle_answer :
    PollerEnv → TrackedRun → List UnlockedTrait → Option Tracking → Handled
unfolding next_of write_next time_out_run
handle_answer env r ts none = written r ts
handle_answer env r ts (some t) =
    if ltb run_timeout_ms (env.now - r.created_at)
    then written (time_out_run r) ts
    else write_next env.node.runtime (next_of env t r) r ts

-- One open run.
unfoldable pub handle_run : PollerEnv → TrackedRun → List UnlockedTrait → Handled
unfolding resolve_krnl_tracking_status handle_answer
handle_run env r ts =
    if has_reference r.request_id r.tx_intent_id r.intent_id
    then handle_answer env r ts (resolve_krnl_tracking_status env.node false (references r none))
    else written r ts
