-- ===== src/Krnl/Row.antt =====
-- The columns of a workflow run that tracking reads and writes (apps/api/prisma/schema.prisma); a
-- JSON column that is not set holds null.
use dynamic_nft_krnl.Base.{ℕ, Bool, Option, none, some, String, if◌then◌else◌}
use dynamic_nft_krnl.Js.{
  Value, undefined, null, bool, num, str, arr, obj, get, fields_of, nullish, truthy,
}
use dynamic_nft_krnl.Store.{RunType, RunStatus}
use dynamic_nft_krnl.Krnl.Node.{part}

pub record TrackedRun : Type 0 where
  pub id : String
  pub brand_id : String
  pub wallet : String
  pub run_type : RunType
  pub request_id : Option String
  pub tx_intent_id : Option String
  pub intent_id : Option String
  -- In milliseconds.
  pub created_at : ℕ
  -- `renderedWorkflowJson`.
  pub rendered_workflow : Value
  pub status : RunStatus
  pub krnl_execution_hash : Option String
  pub chain_tx_hash : Option String
  pub tx_hash : Option String
  pub error : Option String
  pub krnl_status : Value
  pub steps : Value
  -- Whether `completedAt` is set.
  pub is_completed : Bool

-- `krnlStatusJson: raw ?? undefined` and `stepsJson: raw?.steps ?? undefined`: an undefined value
-- leaves the column.
unfoldable pub with_answer : Value → TrackedRun → TrackedRun
unfolding get fields_of nullish
with_answer raw r = record r {
  krnl_status = nullish raw r.krnl_status;
  steps = nullish (part "steps" raw) r.steps;
}

-- A value as the text of a column; any other value is refused, and the write throws.
abbrev pub text_column : Value → Option String
text_column (str s) = some s
text_column undefined = none
text_column null = none
text_column (bool b) = none
text_column (num n) = none
text_column (arr vs) = none
text_column (obj fs) = none

-- A transaction hash as the node gave it.
pub data Hash : Type 0 where
  no_hash not_text : Hash
  hash : String → Hash

abbrev hash_of_text : Option String → Hash
hash_of_text none = not_text
hash_of_text (some s) = hash s

unfoldable pub hash_of_value : Value → Hash
unfolding truthy
hash_of_value v = if truthy v then hash_of_text (text_column v) else no_hash
