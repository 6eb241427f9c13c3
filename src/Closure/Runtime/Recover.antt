-- ===== src/Closure/Runtime/Recover.antt =====
-- `record_recovered_signature` and `record_provider_divergence` of `ClosureRuntime`.
use foundry_pay.Base.{
  Bool, true, false, Option, none, some, List, [], ◌∷◌, ◌==◌, ltb, Text, lit, text_eq, text_lt,
  length, Result, ok, err, reject, ◌>>=◌, ◌>>◌, reject_if, if◌then◌else◌, on_result,
}
use foundry_pay.Python.Value.{Value, Items, Fields, pos, int, str, arr, nil, cons}
use foundry_pay.Python.Datetime.{Datetime}
use foundry_pay.Canonical.Json.{Host}
use foundry_pay.Closure.Checks.{hash, identifier, format_time, dict}
use foundry_pay.Closure.Table.{
  RefundState, needs_recovery, reconciling, needs_review, disputed, Refund, ClosureDb,
}
use foundry_pay.Closure.Runtime.{Step, Plan, refuse, keep, write, transact}
use foundry_pay.Closure.Runtime.Receipt.{same_column}

abbrev pub is_empty : Text → Bool
is_empty [] = true
is_empty (c ∷ s) = false

-- The checks of `record_recovered_signature` before its transaction.
unfoldable pub check_recovery : Text → Value → Result (Unit {0})
check_recovery signature response_hash = do
  reject_if (is_empty signature) "recovered_signature_missing" "transaction_signature"
  hash response_hash "status_response_hash"
  ok tt

unfoldable pub recovery_payload : Value → Fields
recovery_payload response_hash = dict (
    ("recovery", str (lit "signature_located"))
    ∷ ("status_response_hash", response_hash)
    ∷ ("submit_intent_count", int (pos 1))
    ∷ ("automatic_second_submission_count", int (pos 0))
    ∷ [])

-- The transaction of `record_recovered_signature`
unfoldable pub plan_recovery : Text → Value → Refund → RefundState → Plan
plan_recovery signature response_hash r reconciling =
    if same_column r.transaction_signature (str signature)
    then keep
    else refuse (reject "recovery_signature_conflict" "transaction_signature")
plan_recovery signature response_hash r needs_recovery =
    if r.submit_intent_count == 1
    then write reconciling (λ r. record r { transaction_signature = some signature })
        (recovery_payload response_hash) none
    else refuse (reject "submit_intent_missing" "refund")
plan_recovery signature response_hash r s = refuse (reject "recovery_state_invalid" "refund.state")

-- A text put in its place among sorted ones, once.
unfoldable pub insert_text : Text → List Text → List Text
insert_text s [] = s ∷ []
insert_text s (t ∷ ts) =
    let rest = insert_text s ts in
    if text_eq s t then t ∷ ts else if text_lt s t then s ∷ t ∷ ts else t ∷ rest

-- `sorted({_identifier(value, "provider_id") for value in values})`
unfoldable pub normalized : List Value → Result (List Text)
normalized [] = ok []
normalized (v ∷ vs) = do
  s ← identifier v "provider_id"
  rest ← normalized vs
  ok (insert_text s rest)

abbrev pub text_items : List Text → Items
text_items [] = nil
text_items (s ∷ ss) = cons (str s) (text_items ss)

-- The checks of `record_provider_divergence` before its transaction.
unfoldable pub check_divergence : List Value → Result (List Text)
check_divergence provider_ids = do
  ids ← normalized provider_ids
  reject_if (ltb (length ids) 2) "provider_divergence_unproven" "provider_ids"
  ok ids

-- `{"provider_ids": normalized}`
unfoldable pub divergence : List Text → Plan
divergence ids = write disputed (λ r. r) (dict (("provider_ids", arr (text_items ids)) ∷ [])) none

-- The transaction of `record_provider_divergence`
unfoldable pub plan_divergence : List Text → RefundState → Plan
plan_divergence ids needs_recovery = divergence ids
plan_divergence ids reconciling = divergence ids
plan_divergence ids needs_review = divergence ids
plan_divergence ids s = refuse (reject "divergence_state_invalid" "refund.state")

module _ (h : Host) (i : Text) where
  unfoldable pub record_recovered_signature : Text → Value → Option Datetime → ClosureDb → Step
  record_recovered_signature signature response_hash now db =
      on_result (check_recovery signature response_hash) (λ e. (err e, db))
        (λ _.
          transact h i (format_time now) (λ t r. plan_recovery signature response_hash r r.state)
            db)

  unfoldable pub record_provider_divergence : List Value → Option Datetime → ClosureDb → Step
  record_provider_divergence provider_ids now db =
      on_result (check_divergence provider_ids) (λ e. (err e, db))
        (λ ids. transact h i (format_time now) (λ t r. plan_divergence ids r.state) db)
