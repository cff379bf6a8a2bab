-- ===== src/Krnl/Submit.antt =====
-- `submitWorkflow` of krnlService.ts, for a run that does not exist yet: what it writes to the
-- table of runs for each way in which the submission can end.
use dynamic_nft_krnl.Base.{Option, none, some, String, List, ◌∷◌, if◌then◌else◌}
use dynamic_nft_krnl.Base.Text.{is_empty, trim}
use dynamic_nft_krnl.Store.{WorkflowRun, RunType, queued, failed}

-- `a ?? b`.
abbrev pub first_some : Option String → Option String → Option String
first_some none b = b
first_some (some a) b = some a

unfoldable pub normalize_krnl_returned_intent_id : Option String → Option String
unfolding trim
normalize_krnl_returned_intent_id none = none
normalize_krnl_returned_intent_id (some s) =
    let trimmed = trim s in if is_empty trimmed then none else some trimmed

-- How rendering the template and posting it to the node ended. `unrendered`: the template, the
-- brand or the variables were refused, and no run is recorded.
pub data Answer : Type 0 where
  unrendered : String → Answer
  accepted : String → Option String → Option String → Answer
  rejected : String → Option String → Option String → Answer

pub record SubmitArgs : Type 0 where
  pub run_id : String
  pub brand_id : String
  pub wallet : String
  pub run_type : RunType
  -- The intent's id in the rendered workflow.
  pub payload_intent_id : Option String

pub record WorkflowSubmission : Type 0 where
  pub workflow_run_id : String
  pub request_id : Option String
  pub intent_id : Option String
  pub tx_intent_id : Option String
  pub krnl_intent_id : Option String

unfoldable pub submit_workflow :
    SubmitArgs → Answer → List WorkflowRun → Option WorkflowSubmission × List WorkflowRun
unfolding normalize_krnl_returned_intent_id
submit_workflow a (unrendered message) runs = (none, runs)
submit_workflow a (accepted request tx_intent krnl_intent) runs =
    let resolved = first_some tx_intent a.payload_intent_id in
    let normalized = normalize_krnl_returned_intent_id krnl_intent in
    (
      some (record {
        workflow_run_id = a.run_id;
        request_id = some request;
        intent_id = first_some resolved normalized;
        tx_intent_id = resolved;
        krnl_intent_id = normalized;
      }),
      record {
        id = a.run_id;
        brand_id = a.brand_id;
        wallet = a.wallet;
        run_type = a.run_type;
        status = queued;
        request_id = some request;
        tx_intent_id = resolved;
        intent_id = normalized;
        error = none;
      }
          ∷ runs,
    )
submit_workflow a (rejected message request krnl_intent) runs = (
  none,
  record {
    id = a.run_id;
    brand_id = a.brand_id;
    wallet = a.wallet;
    run_type = a.run_type;
    status = failed;
    request_id = request;
    tx_intent_id = a.payload_intent_id;
    intent_id = normalize_krnl_returned_intent_id krnl_intent;
    error = some message;
  }
      ∷ runs,
)
