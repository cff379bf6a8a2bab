-- ===== src/Poller/Moves.antt =====
-- What a poll does to a run.
pub mod Rows
use dynamic_nft_krnl.Base.{
  ℕ, ◌-◌, ◌≡◌, refl, ap, Bool, true, false, Option, none, some, String, List, [], ◌∷◌, arith, ltb,
  Bool-cases, inl, inr,
}
use dynamic_nft_krnl.Js.{Runtime}
use dynamic_nft_krnl.Store.{UnlockedTrait, RunStatus, queued, running, succeeded, failed}
use dynamic_nft_krnl.Mint.{is_open, non_empty}
use dynamic_nft_krnl.Krnl.Row.{TrackedRun, Hash, no_hash, not_text, hash, text_column}
use dynamic_nft_krnl.Krnl.Status.{Tracking, resolve_krnl_tracking_status}
use dynamic_nft_krnl.Krnl.Poll.{references, has_reference}
use dynamic_nft_krnl.Poller.{
  PollerEnv, run_timeout_ms, Handled, aborted, written, time_out_run, Next, next_of, has_new_hash,
  has_new_chain_hash, is_changed, with_execution_hash, with_chain_hash, with_end, with_status,
  updated, update_or_abort, handle_answer, write_next, handle_run,
}
use dynamic_nft_krnl.Poller.Round.{is_polled, go_on, poll_rows}

-- What a run may become: it keeps its id, its brand and wallet and a hash on the chain, it stays as
-- it is once it is closed, and it is completed when it is closed.
pub record IsLater (r q : TrackedRun) : Type 0 where
  pub same_id : q.id ≡ r.id
  pub same_brand : q.brand_id ≡ r.brand_id
  pub same_wallet : q.wallet ≡ r.wallet
  pub closed_stays : is_open r.status ≡ false → q ≡ r
  pub hash_kept :
      (h : String) → non_empty r.chain_tx_hash ≡ some h → q.chain_tx_hash ≡ r.chain_tx_hash
  pub closed_completed : is_open r.status ≡ true → is_open q.status ≡ false → q.is_completed ≡ true

pub false-ne-true : (b : Bool) → b ≡ true → b ≡ false → ⊥
false-ne-true b p q = cc

-- What an update is to be, for a run that is open.
record IsMoved (r q : TrackedRun) : Type 0 where
  same_id : q.id ≡ r.id
  same_brand : q.brand_id ≡ r.brand_id
  same_wallet : q.wallet ≡ r.wallet
  hash_kept : (h : String) → non_empty r.chain_tx_hash ≡ some h → q.chain_tx_hash ≡ r.chain_tx_hash

abbrev IsPart : TrackedRun → Option TrackedRun → Type 0
IsPart r none = Unit
IsPart r (some q) = IsMoved r q

with_execution_hash-IsPart :
    (h : Hash) (b : Bool) (r : TrackedRun) → IsPart r (with_execution_hash h b r)
unfolding with_execution_hash
with_execution_hash-IsPart h false r = record {
  same_id = refl;
  same_brand = refl;
  same_wallet = refl;
  hash_kept = λ h e. refl;
}
with_execution_hash-IsPart no_hash true r = record {
  same_id = refl;
  same_brand = refl;
  same_wallet = refl;
  hash_kept = λ h e. refl;
}
with_execution_hash-IsPart not_text true r = tt
with_execution_hash-IsPart (hash h) true r = record {
  same_id = refl;
  same_brand = refl;
  same_wallet = refl;
  hash_kept = λ h e. refl;
}

with_chain_hash-IsMoved :
    (c : Option String) (b : Bool) (r q : TrackedRun)
    → (b ≡ true → (h : String) → non_empty r.chain_tx_hash ≡ some h → ⊥)
    → IsMoved r q
    → IsMoved r (with_chain_hash c b q)
unfolding with_chain_hash
with_chain_hash-IsMoved c false r q new m = m
with_chain_hash-IsMoved none true r q new m = m
with_chain_hash-IsMoved (some c) true r q new m = record {
  same_id = m.same_id;
  same_brand = m.same_brand;
  same_wallet = m.same_wallet;
  hash_kept = λ h e. absurd (new refl h e);
}

-- The hash on the chain is written only where there is none.
chain_hash_new :
    (n : Next) (r : TrackedRun)
    → has_new_chain_hash n r ≡ true
    → (h : String) → non_empty r.chain_tx_hash ≡ some h
    → ⊥
chain_hash_new n r new h e = ground arith

abbrev pub IsNext : TrackedRun → Option TrackedRun → Type 0
IsNext r none = Unit
IsNext r (some q) = IsLater r q

-- An open run that is written with a status is later, if it is completed with a last one.
module _ (r : TrackedRun) (o : is_open r.status ≡ true) where
  written-IsLater :
      (q : TrackedRun)
      → IsMoved r q
      → (is_open q.status ≡ false → q.is_completed ≡ true)
      → IsLater r q
  written-IsLater q m completed = record {
    same_id = m.same_id;
    same_brand = m.same_brand;
    same_wallet = m.same_wallet;
    closed_stays = λ c. absurd (false-ne-true (is_open r.status) o c);
    hash_kept = m.hash_kept;
    closed_completed = λ p c. completed c;
  }

  with_end-IsNext :
      (st : RunStatus) (m : Option String) (q : TrackedRun)
      → IsMoved r q
      → q.status ≡ st
      → IsNext r (with_end st m q)
  unfolding with_end
  with_end-IsNext queued m q moved e =
      written-IsLater q moved (λ c. absurd (false-ne-true (is_open q.status) (ap is_open e) c))
  with_end-IsNext running m q moved e =
      written-IsLater q moved (λ c. absurd (false-ne-true (is_open q.status) (ap is_open e) c))
  with_end-IsNext succeeded m q moved e =
      written-IsLater (record q { is_completed = true })
        (record {
          same_id = moved.same_id;
          same_brand = moved.same_brand;
          same_wallet = moved.same_wallet;
          hash_kept = moved.hash_kept;
        })
        (λ c. refl)
  with_end-IsNext failed none q moved e = tt
  with_end-IsNext failed (some m) q moved e =
      written-IsLater (record q { is_completed = true; error = some m })
        (record {
          same_id = moved.same_id;
          same_brand = moved.same_brand;
          same_wallet = moved.same_wallet;
          hash_kept = moved.hash_kept;
        })
        (λ c. refl)

  with_status-IsNext :
      (rt : Runtime) (n : Next) (part : Option TrackedRun)
      → IsPart r part
      → IsNext r (with_status rt n r part)
  unfolding with_status
  with_status-IsNext rt n none p = tt
  with_status-IsNext rt n (some q) p =
      let chained =
        with_chain_hash-IsMoved n.chained.chain_hash (has_new_chain_hash n r) r q
          (chain_hash_new n r) p in
      with_end-IsNext n.mapped (text_column n.next_error) _
        (record {
          same_id = chained.same_id;
          same_brand = chained.same_brand;
          same_wallet = chained.same_wallet;
          hash_kept = chained.hash_kept;
        })
        refl

  pub updated-IsNext : (rt : Runtime) (n : Next) → IsNext r (updated rt n r)
  unfolding updated
  updated-IsNext rt n =
      with_status-IsNext rt n (with_execution_hash n.found (has_new_hash n r) r)
        (with_execution_hash-IsPart n.found (has_new_hash n r) r)

  pub time_out_run-IsLater : IsLater r (time_out_run r)
  unfolding time_out_run
  time_out_run-IsLater =
      written-IsLater
        (record r { status = failed; error = some "Workflow timed out"; is_completed = true })
        (record { same_id = refl; same_brand = refl; same_wallet = refl; hash_kept = λ h e. refl })
        (λ c. refl)
