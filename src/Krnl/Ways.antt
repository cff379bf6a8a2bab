-- ===== src/Krnl/Ways.antt =====
-- The two ways to ask the node for a run's status, on the same answer.
use dynamic_nft_krnl.Base.{
  ℕ, zero, suc, ◌≤◌, ◌≡◌, refl, true, false, Option, none, some, String, arith, if◌then◌else◌, ◌==◌,
}
use dynamic_nft_krnl.Js.{Value, undefined, fields_of, nullish}
use dynamic_nft_krnl.Store.{RunStatus, queued, running, succeeded, failed}
use dynamic_nft_krnl.Krnl.Node.{NodeEnv, part, extract_status_value}
use dynamic_nft_krnl.Krnl.Node.Runs.{small_code, has_field}
use dynamic_nft_krnl.Krnl.Status.{
  Tracking, status_of_code, get_krnl_run_status, get_krnl_run_status_http,
}

-- The states that the node's codes stand for.
abbrev pub meant : ℕ → RunStatus
meant zero = queued
meant (suc zero) = running
meant (suc (suc zero)) = succeeded
meant (suc (suc (suc n))) = failed

abbrev pub status_in : Option Tracking → Option RunStatus
status_in none = none
status_in (some t) = t.status

module _ (env : NodeEnv) (id request : String) (raw : Value)
    (by_rpc : env.rpc_answer id ≡ some (true, raw))
    (by_http : env.http_answer request ≡ some (true, raw))
    (no_error : has_field "error" (fields_of raw) ≡ false)
    (silent : extract_status_value (nullish (part "result" raw) raw) ≡ undefined) where
  abbrev Coded : ℕ → Type 0
  Coded c = small_code (part "code" (nullish (part "result" raw) raw)) ≡ c

  by_http_code :
      (c : ℕ) → Coded c → c ≤ 3 → status_in (get_krnl_run_status_http env request) ≡ some (meant c)
  unfolding get_krnl_run_status_http status_of_code
  by_http_code zero e h = rw (by_http, status_in) (rw (e, status_in) refl)
  by_http_code (suc zero) e h = rw (by_http, status_in) (rw (e, status_in) refl)
  by_http_code (suc (suc zero)) e h = rw (by_http, status_in) (rw (e, status_in) refl)
  by_http_code (suc (suc (suc zero))) e h = rw (by_http, status_in) (rw (e, status_in) refl)
  by_http_code (suc (suc (suc (suc c)))) e h = absurd (omega arith)

  by_rpc_code :
      (c : ℕ)
      → Coded c
      → c ≤ 3
      → status_in (get_krnl_run_status env id) ≡ (if c == 2 then some queued else some (meant c))
  unfolding get_krnl_run_status status_of_code
  by_rpc_code zero e h = rw (by_rpc, status_in) (rw (no_error, status_in) (rw (e, status_in) refl))
  by_rpc_code (suc zero) e h =
      rw (by_rpc, status_in) (rw (no_error, status_in) (rw (e, status_in) refl))
  by_rpc_code (suc (suc zero)) e h =
      rw (by_rpc, status_in)
        (rw (no_error, status_in) (rw (e, status_in) (rw (silent, status_in) refl)))
  by_rpc_code (suc (suc (suc zero))) e h =
      rw (by_rpc, status_in) (rw (no_error, status_in) (rw (e, status_in) refl))
  by_rpc_code (suc (suc (suc (suc c)))) e h = absurd (omega arith)

  -- An answer that has no status text and a code up to 3 is read over HTTP by its code, 0 as
  -- queued, 1 as running, 2 as succeeded and 3 as failed; over RPC, where it must have no error, it
  -- is read alike, but that 2 is read as queued.
  pub status_by_rpc_and_http :
      (c : ℕ)
      → small_code (part "code" (nullish (part "result" raw) raw)) ≡ c
      → c ≤ 3
      → (status_in (get_krnl_run_status_http env request) ≡ some (meant c))
        × (status_in (get_krnl_run_status env id)
            ≡ (if c == 2 then some queued else some (meant c)))
  status_by_rpc_and_http c e h = (by_http_code c e h, by_rpc_code c e h)
