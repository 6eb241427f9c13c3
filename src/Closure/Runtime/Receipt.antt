-- ===== src/Closure/Runtime/Receipt.antt =====
-- `record_technical_receipt` of `ClosureRuntime`.
use foundry_pay.Base.{
  Bool, true, false, not, ◌&&◌, ◌||◌, Option, none, some, List, [], ◌∷◌, ◌==◌, Text, lit, text_eq,
  Result, err, reject, ◌>>◌, reject_if, if◌then◌else◌, on_result,
}
use foundry_pay.Python.Value.{
  Value, Fields, pos, negsuc, null, bool, int, float, str, arr, obj, nil, end, at,
}
use foundry_pay.Python.Json.{sort_keys}
use foundry_pay.Python.Datetime.{Datetime}
use foundry_pay.Canonical.Json.{Host}
use foundry_pay.Channel.Checks.{keys}
use foundry_pay.Channel.Snapshot.{is_text}
use foundry_pay.Binding.Checks.{check_member}
use foundry_pay.Closure.Checks.{
  check_closed_fields, validate_hash, expect, hash, identifier, time, format_time,
}
use foundry_pay.Closure.Table.{
  RefundState, submitted, needs_recovery, reconciling, needs_review, Refund, ClosureDb,
}
use foundry_pay.Closure.Runtime.{Step, Plan, refuse, keep, write, transact}
use foundry_pay.Closure.Runtime.Commit.{same_json}

-- `_TECHNICAL_RECEIPT_REQUIRED`
unfoldable pub technical_receipt_required : List Text
technical_receipt_required = keys (
    "type" ∷ "protocol_version" ∷ "refund_id" ∷ "refund_request_hash" ∷ "execution_request_id"
    ∷ "execution_commitment_hash" ∷ "outcome" ∷ "signature_status" ∷ "technical_status"
    ∷ "observed_at" ∷ "receipt_hash" ∷ [])

-- `_TECHNICAL_RECEIPT_FIELDS`
unfoldable pub technical_receipt_fields : List Text
technical_receipt_fields = lit "transaction_signature" ∷ technical_receipt_required

-- `bool(value)`; a float is false if all its bits but the sign are zero.
unfoldable pub truthy : Value → Bool
truthy null = false
truthy (bool b) = b
truthy (int (pos n)) = not (n == 0)
truthy (int (negsuc n)) = true
truthy (float bits) = not (bits == 0 || bits == 9_223_372_036_854_775_808)
truthy (str []) = false
truthy (str (c ∷ s)) = true
truthy (arr nil) = false
truthy (arr xs) = true
truthy (obj end) = false
truthy (obj m) = true

-- `isinstance(value, str) and value`
abbrev pub is_full_text : Value → Bool
is_full_text (str (c ∷ s)) = true
is_full_text v = false

-- `value is not None and (not isinstance(value, str) or not value)` does not hold.
abbrev pub is_optional_text : Value → Bool
is_optional_text null = true
is_optional_text v = is_full_text v

-- The parameter of a text column, for a text or None
abbrev pub column : Value → Option Text
column (str s) = some s
column v = none

-- `row[column] == value`
unfoldable pub same_column : Option Text → Value → Bool
same_column none null = true
same_column (some s) (str t) = text_eq s t
same_column _ _ = false

module _ (h : Host) where
  -- The checks of `record_technical_receipt` before its transaction.
  unfoldable pub check_receipt : Fields → Result (Unit {0})
  check_receipt m = do
    check_closed_fields m "technical_receipt" technical_receipt_required technical_receipt_fields
    validate_hash h m "receipt_hash"
    expect (at (lit "type") m) "technical_refund_receipt" "invalid_technical_receipt" "receipt.type"
    expect (at (lit "protocol_version") m) "1.0.0" "invalid_protocol_version"
        "receipt.protocol_version"
    identifier (at (lit "refund_id") m) "receipt.refund_id"
    identifier (at (lit "execution_request_id") m) "receipt.execution_request_id"
    hash (at (lit "refund_request_hash") m) "receipt.refund_request_hash"
    hash (at (lit "execution_commitment_hash") m) "receipt.execution_commitment_hash"
    time (at (lit "observed_at") m) "receipt.observed_at"
    reject_if (not (is_full_text (at (lit "technical_status") m))) "invalid_technical_status"
        "receipt.technical_status"

-- The receipt against the row.
unfoldable pub check_receipt_links : Text → Fields → Refund → Result (Unit {0})
check_receipt_links i m r = do
  reject_if (not (r.submit_intent_count == 1)) "submit_intent_missing" "refund"
  reject_if (not (is_text (at (lit "refund_id") m) i)) "technical_receipt_mismatch"
      "receipt.refund_id"
  reject_if (not (is_text (at (lit "refund_request_hash") m) r.request_hash))
      "technical_receipt_mismatch" "receipt"
  reject_if (not (same_column r.execution_request_id (at (lit "execution_request_id") m)))
      "technical_receipt_mismatch" "receipt"
  reject_if (not (same_column r.execution_commitment_hash (at (lit "execution_commitment_hash") m)))
      "technical_receipt_mismatch" "receipt"

-- The outcome and the signature that the receipt states.
unfoldable pub check_outcome : Fields → Result (Unit {0})
check_outcome m = do
  let outcome = at (lit "outcome") m
  let signature = at (lit "transaction_signature") m
  let status = at (lit "signature_status") m
  check_member outcome (keys ("accepted" ∷ "rejected" ∷ "unknown" ∷ [])) "invalid_technical_outcome"
      "receipt.outcome"
  check_member status (keys ("known" ∷ "unknown" ∷ [])) "invalid_signature_status"
      "receipt.signature_status"
  reject_if (is_text status (lit "known") && not (truthy signature)) "technical_signature_missing"
      "receipt"
  reject_if (not (is_optional_text signature)) "invalid_transaction_signature" "receipt"
  reject_if (is_text outcome (lit "accepted") && not (is_text status (lit "known")))
      "accepted_signature_unknown" "receipt.signature_status"

-- The state that an outcome leads to.
unfoldable pub outcome_state : Value → RefundState
outcome_state outcome =
    if is_text outcome (lit "unknown")
    then needs_recovery
    else if is_text outcome (lit "accepted")
    then reconciling
    else needs_review

-- `SET technical_receipt_json = ?, transaction_signature = ?`
unfoldable pub set_receipt : Fields → Refund → Refund
set_receipt m r = record r {
  technical_receipt = some (sort_keys (obj m));
  transaction_signature = column (at (lit "transaction_signature") m);
}

unfoldable pub check_first_receipt : Text → Fields → Refund → Result (Unit {0})
check_first_receipt i m r = do check_receipt_links i m r; check_outcome m

unfoldable pub plan_first_receipt : Text → Fields → Refund → RefundState → Plan
plan_first_receipt i m r submitted =
    on_result (check_first_receipt i m r) (λ e. refuse e)
      (λ _. write (outcome_state (at (lit "outcome") m)) (set_receipt m) m none)
plan_first_receipt i m r s = refuse (reject "technical_receipt_state_invalid" "refund.state")

-- The transaction of `record_technical_receipt`: a second receipt has to be the first.
unfoldable pub plan_receipt : Text → Fields → Refund → Option Value → Plan
plan_receipt i m r none = plan_first_receipt i m r r.state
plan_receipt i m r (some w) =
    if same_json (some w) (sort_keys (obj m))
    then keep
    else refuse (reject "technical_receipt_conflict" "receipt")

unfoldable pub record_technical_receipt : Host → Text → Fields → Option Datetime → ClosureDb → Step
record_technical_receipt h i m now db =
    on_result (check_receipt h m) (λ e. (err e, db))
      (λ _. transact h i (format_time now) (λ t r. plan_receipt i m r r.technical_receipt) db)
