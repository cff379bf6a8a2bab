-- ===== src/Krnl/Tests.antt =====
-- Tracking and waiting at concrete answers.
use dynamic_nft_krnl.Base.{◌*◌, ◌≡◌, refl, true, false, none, some, arith, if◌then◌else◌, leb}
use dynamic_nft_krnl.Js.{fields_of, nullish, get}
use dynamic_nft_krnl.Store.{succeeded, queued, running}
use dynamic_nft_krnl.Krnl.Node.{extract_status_value}
use dynamic_nft_krnl.Krnl.Node.Runs.{small_code, has_field}
use dynamic_nft_krnl.Krnl.Status.{get_krnl_run_status, get_krnl_run_status_http}
use dynamic_nft_krnl.Krnl.Poll.{World, poll_until_tx_hash, poll_until_tx_hash_by_intent}
use dynamic_nft_krnl.Krnl.Writes.{got_hash, timed_out}
use dynamic_nft_krnl.Krnl.Waited.{
  poll_until_tx_hash-IsReported, poll_until_tx_hash_by_intent-IsSettled,
}
use dynamic_nft_krnl.Krnl.Rounds.{IsReported, IsSettled}
use dynamic_nft_krnl.Krnl.Ways.{status_in, status_by_rpc_and_http}
use dynamic_nft_krnl.Fixtures.{node_saying, with_code, success_answer, a_hash, open_run}

-- A round every two seconds; the node says that the run has succeeded from the third on.
abbrev third_time : World
third_time = record {
  demo_mode = false;
  rounds = λ i. record {
    now = 2000 * i;
    node = node_saying (if leb 2 i then success_answer else with_code 1);
    has_receipt = λ h. true;
    others = λ r. r;
  };
}

waits : (poll_until_tx_hash third_time 0 300000 150 open_run).0 ≡ got_hash a_hash
unfolding poll_until_tx_hash
waits = refl

gives_up : (poll_until_tx_hash third_time 0 4000 2 open_run).0 ≡ timed_out running
unfolding poll_until_tx_hash
gives_up = refl

closes :
    (poll_until_tx_hash_by_intent third_time none 0 4000 2 open_run).1.error
    ≡ some "Timed out waiting for KRNL txHash"
unfolding poll_until_tx_hash_by_intent
closes = refl

poll_until_tx_hash-IsReported_example :
    IsReported third_time
      (poll_until_tx_hash third_time 0 300000 150 open_run).0
      (poll_until_tx_hash third_time 0 300000 150 open_run).1
poll_until_tx_hash-IsReported_example =
    poll_until_tx_hash-IsReported third_time 2000 (λ i r o. o) (λ i. omega arith) 0 300000 150
      (omega arith) (omega arith) open_run (refl, refl)

poll_until_tx_hash_by_intent-IsSettled_example :
    IsSettled
      (poll_until_tx_hash_by_intent third_time none 0 4000 2 open_run).0
      (poll_until_tx_hash_by_intent third_time none 0 4000 2 open_run).1
poll_until_tx_hash_by_intent-IsSettled_example =
    poll_until_tx_hash_by_intent-IsSettled third_time 2000 (λ i r o. o) (λ i. omega arith) 0 4000 2
      (omega arith) (omega arith) open_run (refl, refl) none

-- The node's code for a success, without a status text.
status_by_rpc_and_http_example :
    (status_in (get_krnl_run_status_http (node_saying (with_code 2)) "request-7") ≡ some succeeded)
    × (status_in (get_krnl_run_status (node_saying (with_code 2)) "intent-7") ≡ some queued)
unfolding fields_of nullish get
status_by_rpc_and_http_example =
    status_by_rpc_and_http (node_saying (with_code 2)) "intent-7" "request-7" (with_code 2) refl
      refl (unfold has_field in refl) (unfold extract_status_value in refl) 2
      (unfold small_code in refl) (omega arith)
