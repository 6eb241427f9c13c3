-- ===== src/Closure/Runtime/Register.antt =====
-- `register_refund` of `ClosureRuntime`: the reservation of a refund.
use foundry_pay.Base.{
  ℕ, ◌+◌, Option, none, some, List, [], ◌∷◌, ◌++◌, ltb, Text, lit, text_eq, Result, ok, err, reject,
  Failure, overflow_error, database_error, ◌>>=◌, ◌>>◌, reject_if, if◌then◌else◌, on_result,
  on_option,
}
use foundry_pay.Python.Value.{Value, Fields, str, at}
use foundry_pay.Python.Datetime.{Datetime}
use foundry_pay.Canonical.Json.{Host}
use foundry_pay.Canonical.Record.{members}
use foundry_pay.Channel.Snapshot.{nat_of}
use foundry_pay.Closure.Checks.{identifier, format_time}
use foundry_pay.Closure.Refund.{RefundProjection, project_refund}
use foundry_pay.Closure.Table.{
  validated, Refund, ClosureDb, Scope, scope_of, reserved, high_water, find_repeated, integer_max,
  sql_text, next_event, insert_event,
}
use foundry_pay.Closure.Runtime.{Step, record_of, get_refund}

-- The text of a field that has been validated as one.
abbrev pub text : Value → Text
text (str s) = s
text v = []

-- A request with its projection, and the columns that both give.
pub record Registration : Type 0 where
  pub request : Fields
  pub projected : RefundProjection
  pub new_id : Text
  pub new_channel : Text
  pub new_epoch : ℕ
  pub key : Option Text
  pub snapshot_hash : Text
  pub now_text : Text

-- `register_refund` before its transaction, with the first parameters of the query
unfoldable pub prepare_registration :
    Host → Fields → Fields → Option Datetime → List Text → Result Registration
prepare_registration h request freeze now states = do
  p ← project_refund h request freeze now states
  i ← identifier (at (lit "refund_id") request) "refund_id"
  let channel = members (at (lit "channel") request)
  t ← format_time now
  key ← sql_text (at (lit "idempotency_key") request)
  ok (record {
    request = request;
    projected = p;
    new_id = i;
    new_channel = text (at (lit "channel_id") channel);
    new_epoch = nat_of (at (lit "epoch") channel);
    key = key;
    snapshot_hash = text (at (lit "freeze_snapshot_hash") freeze);
    now_text = t;
  })

unfoldable pub new_refund : Registration → Text → Text → Refund
new_refund g key closure_id = record {
  refund_id = g.new_id;
  channel_id = g.new_channel;
  epoch = g.new_epoch;
  closure_id = closure_id;
  idempotency_key = key;
  request_hash = text (at (lit "request_hash") g.request);
  request = g.request;
  projection_hash = text (at (lit "projection_hash") g.projected.document);
  projection = g.projected.document;
  freeze_snapshot_hash = g.snapshot_hash;
  requested_amount = g.projected.requested;
  maximum_refundable = g.projected.maximum;
  refunded_before = g.projected.refunded_before;
  refunded_after = g.projected.refunded_after;
  state = validated;
  commitment = none;
  execution_request_id = none;
  execution_commitment_hash = none;
  prepared_message_hash = none;
  executor_id = none;
  expected_signer = none;
  submit_intent_count = 0;
  technical_receipt = none;
  transaction_signature = none;
  reconciled_receipt = none;
  created_at = g.now_text;
  updated_at = g.now_text;
}

-- An integer of 64 bits, or the exception that a greater one raises
unfoldable pub fits_column : ℕ → Failure → Result (Unit {0})
fits_column n e = if ltb integer_max n then err e else ok tt

-- The reservations and the completed refunds of the scope. The sum of a column overflows as an
-- integer of 64 bits.
unfoldable pub check_capacity : Refund → Scope → List Refund → Result (Unit {0})
check_capacity r s refunds = do
  fits_column (reserved s refunds) database_error
  reject_if (ltb r.refunded_before (high_water s refunds)) "stale_freeze_snapshot"
      "freeze_snapshot.refunded_total_base_units"
  reject_if (ltb r.maximum_refundable (reserved s refunds + r.requested_amount))
      "aggregate_refund_exceeds_unallocated" "requested_base_units"

-- The amounts as parameters of the insertion
unfoldable pub check_columns : Refund → Result (Unit {0})
check_columns r = do
  fits_column r.requested_amount overflow_error
  fits_column r.maximum_refundable overflow_error
  fits_column r.refunded_before overflow_error
  fits_column r.refunded_after overflow_error

abbrev pub not_null : Option Text → Result Text
not_null none = err database_error
not_null (some t) = ok t

module _ (h : Host) where
  -- The checks and the insertion of a refund that is not there
  unfoldable pub insert_refund : Registration → ClosureDb → Result ClosureDb
  insert_refund g db = do
    parameter ← sql_text (at (lit "closure_id") g.request)
    closure_id ← not_null parameter
    key ← not_null g.key
    let r = new_refund g key closure_id
    check_capacity r (scope_of r) db.refunds
    check_columns r
    e ← next_event h g.new_id validated g.projected.document g.now_text db.events
    events ← insert_event e db.events
    ok (record { refunds = db.refunds ++ (r ∷ []); events = events })

  unfoldable pub register_new : Registration → ClosureDb → Step
  register_new g db =
      on_result (insert_refund g db) (λ e. (err e, db)) (λ db'. (get_refund g.new_id db', db'))

  -- A request that is there already is answered by its row.
  unfoldable pub register_again : Registration → Refund → ClosureDb → Step
  register_again g r db =
      if text_eq r.request_hash (text (at (lit "request_hash") g.request))
      then (ok (record_of r), db)
      else (err (reject "idempotency_conflict" "idempotency_key"), db)

  unfoldable pub register_refund : Fields → Fields → Option Datetime → List Text → ClosureDb → Step
  register_refund request freeze now states db =
      on_result (prepare_registration h request freeze now states) (λ e. (err e, db))
        (λ g.
          on_option (find_repeated g.new_id g.new_channel g.new_epoch g.key db.refunds)
            (register_new g db) (λ r. register_again g r db))
