-- ===== src/Closure/Snapshots.antt =====
-- `_validate_freeze_snapshot` and `_validate_request_snapshot`.
use foundry_pay.Base.{
  ℕ, Bool, true, not, List, [], ◌∷◌, leb, ltb, ◌==◌, bool_ne, String, Text, lit, Result, ok, ◌>>=◌,
  ◌>>◌, reject_if, ◌&&◌,
}
use foundry_pay.Python.Value.{Fields, at, py_eq}
use foundry_pay.Python.Datetime.{instant}
use foundry_pay.Canonical.Json.{Host}
use foundry_pay.Channel.Checks.{keys}
use foundry_pay.Channel.Snapshot.{nat_of}
use foundry_pay.Closure.Checks.{
  check_closed_fields, validate_hash, expect, validate_domain, validate_channel_reference, time,
  hash, is_natural,
}
use foundry_pay.Closure.Totals.{Totals, read_totals, check_totals}

-- `_FREEZE_SNAPSHOT_FIELDS`
unfoldable pub freeze_snapshot_fields : List Text
freeze_snapshot_fields = keys (
    "type" ∷ "protocol_version" ∷ "domain" ∷ "channel" ∷ "closure_id" ∷ "request_snapshot_hash"
    ∷ "channel_snapshot_hash" ∷ "funded_total_base_units" ∷ "activated_total_base_units"
    ∷ "settled_total_base_units" ∷ "refunded_total_base_units" ∷ "vault_balance_base_units"
    ∷ "outstanding_right_base_units" ∷ "excess_refundable_base_units" ∷ "latest_activated_sequence"
    ∷ "latest_activated_voucher_hash" ∷ "claim_deadline" ∷ "frozen_at"
    ∷ "unresolved_operation_count" ∷ "channel_status" ∷ "closure_phase" ∷ "freeze_snapshot_hash"
    ∷ [])

-- `_CLOSURE_REQUEST_FIELDS`
unfoldable pub closure_request_fields : List Text
closure_request_fields = keys (
    "type" ∷ "protocol_version" ∷ "domain" ∷ "channel" ∷ "closure_id" ∷ "idempotency_key"
    ∷ "channel_snapshot_hash" ∷ "requested_at" ∷ "claim_deadline" ∷ "status" ∷ "request_hash" ∷ [])

-- `_REQUEST_SNAPSHOT_FIELDS`
unfoldable pub request_snapshot_fields : List Text
request_snapshot_fields = keys (
    "type" ∷ "protocol_version" ∷ "domain" ∷ "channel" ∷ "closure_id" ∷ "closure_request_hash"
    ∷ "channel_snapshot_hash" ∷ "funded_total_base_units" ∷ "activated_total_base_units"
    ∷ "settled_total_base_units" ∷ "refunded_total_base_units" ∷ "vault_balance_base_units"
    ∷ "outstanding_right_base_units" ∷ "unallocated_capacity_base_units"
    ∷ "latest_activated_sequence" ∷ "latest_activated_voucher_hash" ∷ "requested_at"
    ∷ "claim_deadline" ∷ "pre_deadline_refundable_base_units" ∷ "channel_status" ∷ "closure_phase"
    ∷ "request_snapshot_hash" ∷ [])

-- The fields of the request that the snapshot repeats, under their names in the snapshot.
abbrev pub request_links : List (String × String)
request_links =
    ("closure_request_hash", "request_hash")
    ∷ ("domain", "domain")
    ∷ ("channel", "channel")
    ∷ ("closure_id", "closure_id")
    ∷ ("channel_snapshot_hash", "channel_snapshot_hash")
    ∷ ("requested_at", "requested_at")
    ∷ ("claim_deadline", "claim_deadline")
    ∷ []

-- `mismatches` is empty.
unfoldable pub linked : List (String × String) → Fields → Fields → Bool
linked [] request snapshot = true
linked ((mine, theirs) ∷ rest) request snapshot =
    py_eq (at (lit mine) snapshot) (at (lit theirs) request) && linked rest request snapshot

-- The lifecycle of the freeze snapshot and the count of its open operations.
unfoldable pub check_frozen : Fields → Result (Unit {0})
check_frozen m = do
  expect (at (lit "channel_status") m) "closing" "freeze_lifecycle_forbidden"
      "freeze_snapshot.channel_status"
  expect (at (lit "closure_phase") m) "ready_to_finalize" "freeze_phase_invalid"
      "freeze_snapshot.closure_phase"
  frozen ← time (at (lit "frozen_at") m) "freeze_snapshot.frozen_at"
  deadline ← time (at (lit "claim_deadline") m) "freeze_snapshot.claim_deadline"
  reject_if (ltb (instant frozen) (instant deadline)) "claim_window_open"
      "freeze_snapshot.frozen_at"
  reject_if (not (is_natural (at (lit "unresolved_operation_count") m)))
      "invalid_unresolved_operation_count" "freeze_snapshot.unresolved_operation_count"

-- The sequence and the hash of the latest activated voucher.
unfoldable pub check_sequence : Fields → ℕ → Result (Unit {0})
check_sequence m activated = do
  reject_if (not (is_natural (at (lit "latest_activated_sequence") m))) "invalid_activated_sequence"
      "snapshot_at_request.latest_activated_sequence"
  hash (at (lit "latest_activated_voucher_hash") m)
      "snapshot_at_request.latest_activated_voucher_hash"
  reject_if (bool_ne (nat_of (at (lit "latest_activated_sequence") m) == 0) (activated == 0))
      "activation_state_inconsistent" "snapshot_at_request"

-- The lifecycle of the snapshot at the request, and its window.
unfoldable pub check_requested : Fields → Result (Unit {0})
check_requested m = do
  expect (at (lit "channel_status") m) "closing" "request_snapshot_lifecycle_invalid"
      "channel_status"
  expect (at (lit "closure_phase") m) "claim_window" "request_snapshot_phase_invalid"
      "closure_phase"
  expect (at (lit "pre_deadline_refundable_base_units") m) "0" "pre_deadline_refund_forbidden"
      "pre_deadline_refundable_base_units"
  deadline ← time (at (lit "claim_deadline") m) "snapshot_at_request.claim_deadline"
  requested ← time (at (lit "requested_at") m) "snapshot_at_request.requested_at"
  reject_if (leb (instant deadline) (instant requested)) "close_window_invalid"
      "snapshot_at_request"

module _ (h : Host) where
  unfoldable pub validate_freeze_snapshot : Fields → Result Totals
  validate_freeze_snapshot m = do
    check_closed_fields m "freeze_snapshot" freeze_snapshot_fields freeze_snapshot_fields
    validate_hash h m "freeze_snapshot_hash"
    expect (at (lit "type") m) "closure_snapshot_at_freeze" "invalid_freeze_snapshot"
        "freeze_snapshot.type"
    expect (at (lit "protocol_version") m) "1.0.0" "invalid_protocol_version"
        "freeze_snapshot.protocol_version"
    validate_domain (at (lit "domain") m) "freeze_snapshot.domain"
    validate_channel_reference (at (lit "channel") m) "freeze_snapshot.channel"
    t ← read_totals m "freeze." "excess_refundable_base_units" "excess_refundable"
    check_totals t "freeze_snapshot" "excess_refundable_mismatch"
    check_frozen m
    ok t

  unfoldable pub validate_request_snapshot : Fields → Fields → Result Totals
  validate_request_snapshot request m = do
    check_closed_fields request "closure_request" closure_request_fields closure_request_fields
    check_closed_fields m "snapshot_at_request" request_snapshot_fields request_snapshot_fields
    validate_hash h request "request_hash"
    validate_hash h m "request_snapshot_hash"
    expect (at (lit "type") request) "channel_closure_request" "invalid_closure_request"
        "closure_request.type"
    expect (at (lit "protocol_version") request) "1.0.0" "invalid_protocol_version"
        "closure_request.protocol_version"
    validate_domain (at (lit "domain") request) "closure_request.domain"
    validate_channel_reference (at (lit "channel") request) "closure_request.channel"
    expect (at (lit "type") m) "closure_snapshot_at_request" "invalid_request_snapshot"
        "snapshot_at_request.type"
    expect (at (lit "protocol_version") m) "1.0.0" "invalid_protocol_version"
        "snapshot_at_request.protocol_version"
    reject_if (not (linked request_links request m)) "request_snapshot_link_mismatch"
        "snapshot_at_request"
    expect (at (lit "status") request) "requested" "invalid_closure_request"
        "closure_request.status"
    check_requested m
    t ← read_totals m "request_snapshot." "unallocated_capacity_base_units" "unallocated"
    check_totals t "snapshot_at_request" "unallocated_capacity_mismatch"
    check_sequence m t.activated
    ok t
