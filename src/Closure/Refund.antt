-- ===== src/Closure/Refund.antt =====
-- `make_refund_request` and `project_refund`.
pub mod Covered
pub mod Amounts
use foundry_pay.Base.{
  ℕ, ◌+◌, ◌-◌, Bool, true, false, not, ◌&&◌, ◌||◌, Option, List, [], ◌∷◌, leb, ltb, ◌==◌, String,
  Text, lit, text_in, Result, ok, err, ◌>>=◌, ◌>>◌, reject_if, if◌then◌else◌,
}
use foundry_pay.Python.Value.{ℤ, Value, Fields, pos, negsuc, null, bool, int, str, obj, at, py_eq}
use foundry_pay.Python.Datetime.{Datetime, instant, strftime}
use foundry_pay.Canonical.Json.{Host}
use foundry_pay.Canonical.Record.{members}
use foundry_pay.Channel.Checks.{keys}
use foundry_pay.Channel.Snapshot.{is_text, nat_of}
use foundry_pay.Binding.Checks.{check_member}
use foundry_pay.Closure.Checks.{
  check_closed_fields, validate_hash, with_hash, validate_domain, validate_channel_reference, time,
  utc_time, pubkey, identifier, amount, operation_states, count_ambiguous, dict, decimal,
}
use foundry_pay.Closure.Totals.{Totals}
use foundry_pay.Closure.Snapshots.{closure_request_fields, validate_freeze_snapshot}

-- `_REFUND_REASONS`
unfoldable pub refund_reasons : List Text
refund_reasons = keys ("post_claim_window_unallocated" ∷ "final_close" ∷ [])

-- `_REFUND_REQUEST_FIELDS`
unfoldable pub refund_request_fields : List Text
refund_request_fields = keys (
    "type" ∷ "protocol_version" ∷ "domain" ∷ "channel" ∷ "closure_id" ∷ "refund_id"
    ∷ "idempotency_key" ∷ "reason" ∷ "destination" ∷ "requested_base_units" ∷ "freeze_snapshot_hash"
    ∷ "created_at" ∷ "expires_at" ∷ "request_hash" ∷ [])

-- `a[name] != b[name]`, with the code and the name of its rejection
unfoldable pub check_same : String → Fields → Fields → String → String → Result (Unit {0})
check_same key a b code name = reject_if (not (py_eq (at (lit key) a) (at (lit key) b))) code name

-- `requested_base_units <= 0`
abbrev pub not_positive : ℤ → Bool
not_positive (pos n) = n == 0
not_positive (negsuc n) = true

abbrev pub natural : ℤ → ℕ
natural (pos n) = n
natural (negsuc n) = 0

abbrev pub is_none : Value → Bool
is_none null = true
is_none v = false

module _ (h : Host) where
  unfoldable pub make_refund_request :
      Fields
      → Fields
      → Value
      → Value
      → Value
      → ℤ
      → Option Datetime
      → Option Datetime
      → Result Fields
  make_refund_request request freeze refund_id key reason requested now expires_at = do
    check_closed_fields request "closure_request" closure_request_fields closure_request_fields
    validate_hash h request "request_hash"
    validate_freeze_snapshot h freeze
    reject_if (is_none (at (lit "request_snapshot_hash") freeze)) "freeze_snapshot_invalid"
        "freeze_snapshot"
    check_same "closure_id" freeze request "closure_link_mismatch" "freeze_snapshot.closure_id"
    check_same "domain" freeze request "domain_mismatch" "freeze_snapshot.domain"
    check_same "channel" freeze request "channel_reference_mismatch" "freeze_snapshot.channel"
    check_member reason refund_reasons "invalid_refund_reason" "reason"
    reject_if (not_positive requested) "amount_must_be_positive" "requested_base_units"
    created ← utc_time now
    expiry ← utc_time expires_at
    reject_if (leb (instant expiry) (instant created)) "refund_request_expired" "expires_at"
    identifier refund_id "refund_id"
    identifier key "idempotency_key"
    with_hash h
        (dict (
          ("type", str (lit "refund_request"))
          ∷ ("protocol_version", str (lit "1.0.0"))
          ∷ ("domain", at (lit "domain") request)
          ∷ ("channel", at (lit "channel") request)
          ∷ ("closure_id", at (lit "closure_id") request)
          ∷ ("refund_id", refund_id)
          ∷ ("idempotency_key", key)
          ∷ ("reason", reason)
          ∷ ("destination", at (lit "sender") (members (at (lit "channel") request)))
          ∷ ("requested_base_units", decimal (natural requested))
          ∷ ("freeze_snapshot_hash", at (lit "freeze_snapshot_hash") freeze)
          ∷ ("created_at", str (strftime created))
          ∷ ("expires_at", str (strftime expiry))
          ∷ []))
        "request_hash"

-- What the request has to share with the snapshot; the refund goes to the sender.
unfoldable pub check_refund_links : Fields → Fields → Result (Unit {0})
check_refund_links request freeze = do
  check_same "freeze_snapshot_hash" request freeze "freeze_snapshot_mismatch" "refund_request"
  check_same "domain" request freeze "domain_mismatch" "refund_request.domain"
  check_same "channel" request freeze "channel_reference_mismatch" "refund_request.channel"
  check_same "closure_id" request freeze "closure_link_mismatch" "refund_request.closure_id"
  reject_if
      (not (
        py_eq (at (lit "destination") request)
          (at (lit "sender") (members (at (lit "channel") freeze)))))
      "refund_destination_substitution" "refund_request.destination"
  validate_domain (at (lit "domain") request) "refund_request.domain"
  validate_channel_reference (at (lit "channel") request) "refund_request.channel"
  pubkey (at (lit "destination") request) "refund_request.destination"
  ok tt

-- The clock against the deadline and the request's window.
unfoldable pub check_refund_window : Fields → Fields → Datetime → Result (Unit {0})
check_refund_window request freeze current = do
  deadline ← time (at (lit "claim_deadline") freeze) "claim_deadline"
  reject_if (ltb (instant current) (instant deadline)) "claim_window_open" "now"
  expires ← time (at (lit "expires_at") request) "refund_request.expires_at"
  reject_if (leb (instant expires) (instant current)) "refund_request_expired" "now"
  created ← time (at (lit "created_at") request) "refund_request.created_at"
  reject_if (ltb (instant current) (instant created)) "refund_request_not_started" "now"

-- No operation is open, neither in the snapshot nor now.
unfoldable pub check_resolved : Fields → List Text → Result (Unit {0})
check_resolved freeze states = do
  known ← operation_states states
  reject_if
      (not (nat_of (at (lit "unresolved_operation_count") freeze) == 0)
        || not (count_ambiguous known == 0))
      "unresolved_economic_operation" "operation_states"

-- The requested amount against what is spare, and against the vault.
unfoldable pub check_refund_amount : Totals → Bool → ℕ → Result (Unit {0})
check_refund_amount t final requested = do
  reject_if (ltb (t.funded - t.refunded - t.activated) requested) "refund_exceeds_unallocated"
      "requested_base_units"
  reject_if (ltb t.vault requested) "refund_exceeds_vault" "requested_base_units"
  reject_if (final && not (requested == t.vault)) "final_close_requires_full_vault"
      "requested_base_units"

-- The reason and the amount of the request.
unfoldable pub read_refund : Fields → Totals → Result ℕ
read_refund request t = do
  let reason = at (lit "reason") request
  check_member reason refund_reasons "invalid_refund_reason" "refund_request.reason"
  let final = is_text reason (lit "final_close")
  reject_if (final && not (t.activated - t.settled == 0)) "outstanding_right_reserved"
      "refund_request.reason"
  requested ←
      amount (at (lit "requested_base_units") request) "refund_request.requested_base_units" true
  check_refund_amount t final requested
  ok requested

-- The document of a projection, with the numbers that it states.
pub record RefundProjection : Type 0 where
  pub document : Fields
  pub requested : ℕ
  pub maximum : ℕ
  pub refunded_before : ℕ
  pub refunded_after : ℕ
  pub vault_after : ℕ
  pub outstanding_right : ℕ

unfoldable pub projection_document : Fields → Fields → Totals → ℕ → Datetime → Fields
projection_document request freeze t requested current = dict (
    ("type", str (lit "refund_projection"))
    ∷ ("protocol_version", str (lit "1.0.0"))
    ∷ ("refund_request_hash", at (lit "request_hash") request)
    ∷ ("freeze_snapshot_hash", at (lit "freeze_snapshot_hash") freeze)
    ∷ ("reason", at (lit "reason") request)
    ∷ ("funded_total_base_units", decimal t.funded)
    ∷ ("activated_total_base_units", decimal t.activated)
    ∷ ("settled_total_base_units", decimal t.settled)
    ∷ ("refunded_total_before_base_units", decimal t.refunded)
    ∷ ("refunded_total_after_base_units", decimal (t.refunded + requested))
    ∷ ("vault_balance_before_base_units", decimal t.vault)
    ∷ ("vault_balance_after_base_units", decimal (t.vault - requested))
    ∷ ("outstanding_right_base_units", decimal (t.activated - t.settled))
    ∷ ("maximum_refundable_base_units", decimal (t.funded - t.refunded - t.activated))
    ∷ ("requested_base_units", decimal requested)
    ∷ ("unresolved_operation_count", int (pos 0))
    ∷ ("eligible", bool true)
    ∷ ("projected_at", str (strftime current))
    ∷ [])

unfoldable pub project_refund :
    Host → Fields → Fields → Option Datetime → List Text → Result RefundProjection
project_refund h request freeze now states = do
  check_closed_fields request "refund_request" refund_request_fields refund_request_fields
  validate_hash h request "request_hash"
  t ← validate_freeze_snapshot h freeze
  check_refund_links request freeze
  current ← utc_time now
  check_refund_window request freeze current
  check_resolved freeze states
  requested ← read_refund request t
  document ← with_hash h (projection_document request freeze t requested current) "projection_hash"
  ok (record {
    document = document;
    requested = requested;
    maximum = t.funded - t.refunded - t.activated;
    refunded_before = t.refunded;
    refunded_after = t.refunded + requested;
    vault_after = t.vault - requested;
    outstanding_right = t.activated - t.settled;
  })
