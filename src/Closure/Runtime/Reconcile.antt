-- ===== src/Closure/Runtime/Reconcile.antt =====
-- `reconcile` of `ClosureRuntime`. Two of its branches write the row and then raise.
use foundry_pay.Base.{
  ℕ, Bool, false, not, ◌&&◌, Option, none, some, List, [], ◌∷◌, ltb, max, String, str_append, Text,
  lit, text_eq, Result, ok, err, reject, type_error, ◌>>◌, reject_if, if◌then◌else◌, on_result,
}
use foundry_pay.Python.Value.{Value, Items, Fields, pos, int, str, arr, nil, cons, at, py_eq}
use foundry_pay.Python.Unicode.{int_of_digits}
use foundry_pay.Python.Datetime.{Datetime}
use foundry_pay.Canonical.Json.{Host}
use foundry_pay.Canonical.Record.{members}
use foundry_pay.Channel.Checks.{keys}
use foundry_pay.Channel.Snapshot.{is_text}
use foundry_pay.Closure.Checks.{
  check_closed_fields, validate_hash, with_hash, expect, hash, identifier, pubkey, time,
  format_time, amount, is_natural, validate_domain, dict,
}
use foundry_pay.Closure.Table.{
  RefundState, needs_recovery, reconciling, needs_review, completed, Refund, ClosureDb, Scope,
  scope_of, in_scope, is_completed,
}
use foundry_pay.Closure.Runtime.{Step, Plan, refuse, keep, write, transact}
use foundry_pay.Closure.Runtime.Receipt.{is_full_text, same_column}

-- `RefundObservationVerifier`; `verify` is false where it raises.
pub record RefundObservationVerifier : Type 0 where
  pub source_id : Text
  pub verify : Fields → Bool

-- `_OBSERVATION_FIELDS`
unfoldable pub observation_fields : List Text
observation_fields = keys (
    "type" ∷ "protocol_version" ∷ "domain" ∷ "source_id" ∷ "refund_id" ∷ "channel_id"
    ∷ "channel_account" ∷ "epoch" ∷ "mint" ∷ "destination" ∷ "refund_request_hash"
    ∷ "refund_projection_hash" ∷ "funded_total_base_units" ∷ "activated_total_base_units"
    ∷ "settled_total_base_units" ∷ "refunded_total_before_base_units"
    ∷ "refunded_total_after_base_units" ∷ "vault_balance_before_base_units"
    ∷ "vault_balance_after_base_units" ∷ "transaction_signature" ∷ "observed_at"
    ∷ "observation_hash" ∷ [])

-- The amounts of an observation
unfoldable pub check_amounts : List String → Fields → Result (Unit {0})
check_amounts [] m = ok tt
check_amounts (f ∷ fs) m = do
  amount (at (lit f) m) (str_append "observation." f) false
  check_amounts fs m

module _ (h : Host) where
  -- The shape of an observation
  unfoldable pub check_observation : Fields → Result (Unit {0})
  check_observation m = do
    check_closed_fields m "observation" observation_fields observation_fields
    validate_hash h m "observation_hash"
    expect (at (lit "type") m) "channel_refund_observation" "invalid_observation" "observation.type"
    expect (at (lit "protocol_version") m) "1.0.0" "invalid_protocol_version"
        "observation.protocol_version"
    identifier (at (lit "source_id") m) "observation.source_id"
    identifier (at (lit "refund_id") m) "observation.refund_id"
    validate_domain (at (lit "domain") m) "observation.domain"
    identifier (at (lit "channel_id") m) "observation.channel_id"
    pubkey (at (lit "channel_account") m) "observation.channel_account"
    reject_if (not (is_natural (at (lit "epoch") m))) "invalid_epoch" "observation.epoch"
    pubkey (at (lit "mint") m) "observation.mint"
    pubkey (at (lit "destination") m) "observation.destination"
    hash (at (lit "refund_request_hash") m) "observation.refund_request_hash"
    hash (at (lit "refund_projection_hash") m) "observation.refund_projection_hash"
    time (at (lit "observed_at") m) "observation.observed_at"
    reject_if (not (is_full_text (at (lit "transaction_signature") m)))
        "invalid_transaction_signature" "observation.transaction_signature"
    check_amounts
        ("funded_total_base_units" ∷ "activated_total_base_units" ∷ "settled_total_base_units"
          ∷ "refunded_total_before_base_units" ∷ "refunded_total_after_base_units"
          ∷ "vault_balance_before_base_units" ∷ "vault_balance_after_base_units" ∷ [])
        m

  -- All of `reconcile` before its transaction
  unfoldable pub check_verified : Fields → RefundObservationVerifier → Result (Unit {0})
  check_verified m v = do
    check_observation m
    reject_if (not (is_text (at (lit "source_id") m) v.source_id)) "observation_verifier_mismatch"
        "observation.source_id"
    reject_if (not (v.verify m)) "observation_unverified" "observation.observation_hash"

-- `MAX(refunded_after)` over the other completed refunds of the scope; NULL where there is none
unfoldable pub raise_to : ℕ → Option ℕ → Option ℕ
raise_to n none = some n
raise_to n (some m) = some (max n m)

unfoldable pub other_high_water : Scope → Text → List Refund → Option ℕ
other_high_water s i [] = none
other_high_water s i (r ∷ rs) =
    let rest = other_high_water s i rs in
    if in_scope s r && is_completed r.state && not (text_eq r.refund_id i)
    then raise_to r.refunded_after rest
    else rest

-- `int(value)`, for an amount of a stored projection
unfoldable pub number : Value → Result ℕ
number (str s) = int_of_digits s
number v = err type_error

-- `high_water is not None and before < high_water`
abbrev pub overlaps : ℕ → Option ℕ → Bool
overlaps before none = false
overlaps before (some high) = ltb before high

abbrev pub number_or_zero : Option ℕ → ℕ
number_or_zero none = 0
number_or_zero (some n) = n

-- `expected`, by its keys in order
unfoldable pub expected : Text → Refund → List (String × Value)
expected i r =
    let channel = members (at (lit "channel") r.request) in
    ("activated_total_base_units", at (lit "activated_total_base_units") r.projection)
    ∷ ("channel_account", at (lit "channel_account") channel)
    ∷ ("channel_id", at (lit "channel_id") channel)
    ∷ ("destination", at (lit "destination") r.request)
    ∷ ("domain", at (lit "domain") r.request)
    ∷ ("epoch", at (lit "epoch") channel)
    ∷ ("funded_total_base_units", at (lit "funded_total_base_units") r.projection)
    ∷ ("mint", at (lit "mint") channel)
    ∷ ("refund_id", str i)
    ∷ ("refund_projection_hash", str r.projection_hash)
    ∷ ("refund_request_hash", str r.request_hash)
    ∷ ("refunded_total_after_base_units", at (lit "refunded_total_after_base_units") r.projection)
    ∷ ("refunded_total_before_base_units", at (lit "refunded_total_before_base_units") r.projection)
    ∷ ("settled_total_base_units", at (lit "settled_total_base_units") r.projection)
    ∷ ("vault_balance_after_base_units", at (lit "vault_balance_after_base_units") r.projection)
    ∷ ("vault_balance_before_base_units", at (lit "vault_balance_before_base_units") r.projection)
    ∷ []

-- `sorted(mismatches)`
unfoldable pub mismatches : List (String × Value) → Fields → Items
mismatches [] m = nil
mismatches ((k, v) ∷ rest) m =
    let others = mismatches rest m in
    if py_eq (at (lit k) m) v then others else cons (str (lit k)) others

-- `receipt_unsigned`
unfoldable pub reconciled_document : Text → Fields → Refund → Text → Fields
reconciled_document i m r t =
    let channel = members (at (lit "channel") r.request) in
    dict (
      ("type", str (lit "reconciled_channel_refund"))
      ∷ ("protocol_version", str (lit "1.0.0"))
      ∷ ("refund_id", str i)
      ∷ ("refund_request_hash", str r.request_hash)
      ∷ ("refund_projection_hash", str r.projection_hash)
      ∷ ("channel_id", at (lit "channel_id") channel)
      ∷ ("channel_account", at (lit "channel_account") channel)
      ∷ ("epoch", at (lit "epoch") channel)
      ∷ ("mint", at (lit "mint") channel)
      ∷ ("destination", at (lit "destination") r.request)
      ∷ ("reason", at (lit "reason") r.request)
      ∷ ("amount_base_units", at (lit "requested_base_units") r.request)
      ∷ ("activated_total_base_units", at (lit "activated_total_base_units") r.projection)
      ∷ ("settled_total_base_units", at (lit "settled_total_base_units") r.projection)
      ∷ (
        "refunded_total_before_base_units",
        at (lit "refunded_total_before_base_units") r.projection,
      )
      ∷ ("refunded_total_after_base_units", at (lit "refunded_total_after_base_units") r.projection)
      ∷ ("vault_balance_before_base_units", at (lit "vault_balance_before_base_units") r.projection)
      ∷ ("vault_balance_after_base_units", at (lit "vault_balance_after_base_units") r.projection)
      ∷ ("transaction_signature", at (lit "transaction_signature") m)
      ∷ ("observation_hashes", arr (cons (at (lit "observation_hash") m) nil))
      ∷ ("reconciliation_status", str (lit "reference_observation_matched"))
      ∷ ("completed_at", str t)
      ∷ [])

-- `UPDATE refunds SET state = 'needs_review' ...`, its event, and the rejection after the commit
unfoldable pub review : Fields → String → String → Plan
review payload code name = write needs_review (λ r. r) payload (some (reject code name))

unfoldable pub overlap_payload : ℕ → ℕ → Fields
overlap_payload before high = dict (
    ("reason", str (lit "overlapping_refund_interval"))
    ∷ ("projected_refunded_before", int (pos before))
    ∷ ("reconciled_refunded_high_water", int (pos high))
    ∷ [])

module _ (h : Host) (i : Text) where
  -- The completion, once every expected value is observed.
  unfoldable pub plan_completion : Fields → Text → Refund → Items → Plan
  plan_completion m t r (cons k ks) =
      review (dict (("mismatches", arr (cons k ks)) ∷ [])) "reconciliation_mismatch" "observation"
  plan_completion m t r nil =
      if same_column r.transaction_signature (at (lit "transaction_signature") m)
      then on_result (with_hash h (reconciled_document i m r t) "receipt_hash") (λ e. refuse e)
          (λ receipt.
            write completed (λ r. record r { reconciled_receipt = some receipt }) receipt none)
      else refuse (reject "reconciliation_signature_mismatch" "observation")

  -- The interval of the projection against the completed refunds.
  unfoldable pub plan_interval : Fields → Option ℕ → Text → Refund → ℕ → Plan
  plan_interval m high t r before =
      if overlaps before high
      then review (overlap_payload before (number_or_zero high)) "overlapping_refund_interval"
          "projection.refunded_total_before_base_units"
      else plan_completion m t r (mismatches (expected i r) m)

  unfoldable pub plan_open : Fields → List Refund → Text → Refund → Plan
  plan_open m refunds t r =
      on_result (number (at (lit "refunded_total_before_base_units") r.projection)) (λ e. refuse e)
        (plan_interval m (other_high_water (scope_of r) i refunds) t r)

  -- The transaction of `reconcile`
  unfoldable pub plan_reconciliation : Fields → List Refund → Text → Refund → RefundState → Plan
  plan_reconciliation m refunds t r completed = keep
  plan_reconciliation m refunds t r reconciling = plan_open m refunds t r
  plan_reconciliation m refunds t r needs_recovery = plan_open m refunds t r
  plan_reconciliation m refunds t r s =
      refuse (reject "reconciliation_state_invalid" "refund.state")

  unfoldable pub reconcile : Fields → RefundObservationVerifier → Option Datetime → ClosureDb → Step
  reconcile m v now db =
      on_result (check_verified h m v) (λ e. (err e, db))
        (λ _.
          transact h i (format_time now) (λ t r. plan_reconciliation m db.refunds t r r.state) db)
