-- ===== src/Closure/Runtime/Commit.antt =====
-- `commit_execution`, `record_submit_intent` and `release_before_submission` of `ClosureRuntime`.
use foundry_pay.Base.{
  Bool, true, false, not, ◌||◌, Option, none, some, List, [], ◌∷◌, ◌==◌, leb, Text, lit, text_eq,
  Result, ok, err, reject, ◌>>=◌, ◌>>◌, reject_if, if◌then◌else◌, on_result, on_option,
}
use foundry_pay.Python.Value.{Value, Fields, bool, obj, at}
use foundry_pay.Python.Json.{sort_keys, json_eq}
use foundry_pay.Python.Datetime.{Datetime, instant}
use foundry_pay.Canonical.Json.{Host}
use foundry_pay.Channel.Checks.{keys}
use foundry_pay.Closure.Checks.{
  check_closed_fields, expect, hash, identifier, pubkey, time, utc_time, format_time, dict,
}
use foundry_pay.Closure.Table.{
  RefundState, validated, execution_committed, submitted, needs_recovery, reconciling, completed,
  rejected_before_submission, failed_before_submission, explicitly_cancelled_before_authorization,
  Refund, ClosureDb,
}
use foundry_pay.Closure.Runtime.{Step, Plan, refuse, keep, write, transact}

-- `_EXECUTION_COMMITMENT_FIELDS`
unfoldable pub execution_commitment_fields : List Text
execution_commitment_fields = keys (
    "type" ∷ "protocol_version" ∷ "refund_request_hash" ∷ "refund_projection_hash"
    ∷ "execution_request_id" ∷ "execution_commitment_hash" ∷ "prepared_message_hash" ∷ "executor_id"
    ∷ "expected_signer" ∷ "expires_at" ∷ [])

-- The columns that the commitment fills.
pub record Commitment : Type 0 where
  pub document : Value
  pub refund_request_hash : Text
  pub refund_projection_hash : Text
  pub execution_commitment_hash : Text
  pub prepared_message_hash : Text
  pub execution_request_id : Text
  pub executor_id : Text
  pub expected_signer : Text

-- The checks of `commit_execution` before its transaction.
unfoldable pub check_commitment : Fields → Option Datetime → Result Commitment
check_commitment m now = do
  check_closed_fields m "execution_commitment" execution_commitment_fields
      execution_commitment_fields
  expect (at (lit "type") m) "refund_execution_commitment" "invalid_execution_commitment"
      "commitment.type"
  expect (at (lit "protocol_version") m) "1.0.0" "invalid_protocol_version"
      "commitment.protocol_version"
  request ← hash (at (lit "refund_request_hash") m) "commitment.refund_request_hash"
  projection ← hash (at (lit "refund_projection_hash") m) "commitment.refund_projection_hash"
  commitment ← hash (at (lit "execution_commitment_hash") m) "commitment.execution_commitment_hash"
  message ← hash (at (lit "prepared_message_hash") m) "commitment.prepared_message_hash"
  execution ← identifier (at (lit "execution_request_id") m) "commitment.execution_request_id"
  executor ← identifier (at (lit "executor_id") m) "commitment.executor_id"
  signer ← pubkey (at (lit "expected_signer") m) "commitment.expected_signer"
  expires ← time (at (lit "expires_at") m) "commitment.expires_at"
  current ← utc_time now
  reject_if (leb (instant expires) (instant current)) "execution_commitment_expired"
      "commitment.expires_at"
  ok (record {
    document = sort_keys (obj m);
    refund_request_hash = request;
    refund_projection_hash = projection;
    execution_commitment_hash = commitment;
    prepared_message_hash = message;
    execution_request_id = execution;
    executor_id = executor;
    expected_signer = signer;
  })

-- `row[column] != serialized`, for a JSON column
abbrev pub same_json : Option Value → Value → Bool
same_json none v = false
same_json (some w) v = json_eq w v

-- `SET commitment_json = ?, ...`
unfoldable pub set_commitment : Commitment → Refund → Refund
set_commitment c r = record r {
  commitment = some c.document;
  execution_request_id = some c.execution_request_id;
  execution_commitment_hash = some c.execution_commitment_hash;
  prepared_message_hash = some c.prepared_message_hash;
  executor_id = some c.executor_id;
  expected_signer = some c.expected_signer;
}

-- The transaction of `commit_execution`, on the row that it reads.
unfoldable pub plan_commitment : Commitment → Fields → Refund → RefundState → Plan
plan_commitment c m r execution_committed =
    if same_json r.commitment c.document
    then keep
    else refuse (reject "execution_commitment_conflict" "commitment")
plan_commitment c m r validated =
    if not (text_eq c.refund_request_hash r.request_hash)
      || not (text_eq c.refund_projection_hash r.projection_hash)
    then refuse (reject "execution_commitment_mismatch" "commitment")
    else write execution_committed (set_commitment c) m none
plan_commitment c m r s = refuse (reject "commitment_state_invalid" "refund.state")

-- The transaction of `record_submit_intent`
unfoldable pub plan_submission : RefundState → Plan
plan_submission submitted = keep
plan_submission needs_recovery = keep
plan_submission reconciling = keep
plan_submission completed = keep
plan_submission execution_committed =
    write submitted (λ r. record r { submit_intent_count = 1 })
      (dict (("submit_intent_persisted", bool true) ∷ [])) none
plan_submission s = refuse (reject "submit_state_invalid" "refund.state")

-- `state not in _RELEASING_STATES - {"completed"}`
unfoldable pub release_state : Text → Option RefundState
release_state s =
    if text_eq s (lit "rejected_before_submission")
    then some rejected_before_submission
    else if text_eq s (lit "failed_before_submission")
    then some failed_before_submission
    else if text_eq s (lit "explicitly_cancelled_before_authorization")
    then some explicitly_cancelled_before_authorization
    else none

-- The transaction of `release_before_submission`
unfoldable pub plan_release : RefundState → Refund → RefundState → Plan
plan_release s r validated =
    if r.submit_intent_count == 0
    then write s (λ r. r) (dict (("released", bool true) ∷ [])) none
    else refuse (reject "release_after_submission_forbidden" "refund")
plan_release s r _ = refuse (reject "release_after_submission_forbidden" "refund")

module _ (h : Host) (i : Text) where
  unfoldable pub commit_execution : Fields → Option Datetime → ClosureDb → Step
  commit_execution m now db =
      on_result (check_commitment m now) (λ e. (err e, db))
        (λ c. transact h i (format_time now) (λ t r. plan_commitment c m r r.state) db)

  unfoldable pub record_submit_intent : Option Datetime → ClosureDb → Step
  record_submit_intent now db = transact h i (format_time now) (λ t r. plan_submission r.state) db

  unfoldable pub release_before_submission : Text → Option Datetime → ClosureDb → Step
  release_before_submission state now db =
      on_option (release_state state) (err (reject "invalid_release_state" "state"), db)
        (λ s. transact h i (format_time now) (λ t r. plan_release s r r.state) db)
