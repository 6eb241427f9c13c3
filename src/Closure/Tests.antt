-- ===== src/Closure/Tests.antt =====
-- Runs of the closure's checks and of its runtime, and their theorems at concrete inputs.
use foundry_pay.Base.{
  Failure, some, ◌≡◌, refl, ◌⊎◌, ◌↔◌, ◌+◌, ◌≤◌, none, true, List, lit, [], ◌∷◌, map, ok, err,
  reject, overflow_error, value_error, All, on_result,
}
use foundry_pay.Python.Value.{str, end}
use foundry_pay.Closure.Sample.{
  host, now, freeze, first_freeze, request, receipt, observation, observer, empty,
}
use foundry_pay.Closure.Checks.{amount}
use foundry_pay.Closure.Totals.{Totals, check_totals}
use foundry_pay.Closure.Totals.Laws.{Balances, check_totals-Balances}
use foundry_pay.Closure.Refund.{RefundProjection, project_refund}
use foundry_pay.Closure.Refund.Covered.{IsCovered, project_refund-IsCovered}
use foundry_pay.Closure.Table.{
  RefundState, validated, completed, needs_review, Refund, RefundEvent, ClosureDb, scope_of,
  reserved, find_refund,
}
use foundry_pay.Closure.Runtime.Change.{Change}
use foundry_pay.Closure.Runtime.Calls.{receiving, reconciling_with, Call-Change}
use foundry_pay.Closure.Runtime.Reached.{Counted, submit_once}
use foundry_pay.Closure.Runtime.Reserved.{reserved_within}
use foundry_pay.Closure.Runtime.Intervals.{completed_disjoint}
use foundry_pay.Closure.Runtime.Journalled.{Current, journal-Current}
use foundry_pay.Closure.Runtime.Chained.{Linked, journal-Linked}
use foundry_pay.Closure.Runtime.Register.{register_refund}
use foundry_pay.Closure.Runtime.Reconcile.{reconcile}
use foundry_pay.Closure.Runs.{
  registered, committed, received, first_observed, reconciled, reconciled_again, both_registered,
  committed-Reached, both-Reached, sent, both_registered-Reached,
}
use foundry_pay.Closure.Runtime.{RefundRecord, record_of}
use foundry_pay.Closure.Runtime.Commit.{record_submit_intent, release_before_submission}
use foundry_pay.Closure.Runtime.Receipt.{record_technical_receipt}
use foundry_pay.Closure.Runtime.Released.{begin, then_call, never_released}
use foundry_pay.Closure.Runtime.Frees.{release_frees}
use foundry_pay.Closure.Running.{closure_running}

abbrev states : ClosureDb → List RefundState
states db = map (λ (r : Refund). r.state) db.refunds

both_complete : states reconciled_again ≡ completed ∷ completed ∷ []
unfolding closure_running
both_complete = refl

-- Of the capacity of 150, 90 are left, and a request for more is refused.
reservation_full :
    (register_refund host (request "refund-02" "9" "91") first_freeze now [] registered).0
    ≡ err (reject "aggregate_refund_exceeds_unallocated" "requested_base_units")
unfolding closure_running
reservation_full = refl

-- A snapshot from before the completed refund is refused.
stale_freeze :
    (register_refund host (request "refund-02" "9" "40") first_freeze now [] reconciled).0
    ≡ err (reject "stale_freeze_snapshot" "freeze_snapshot.refunded_total_base_units")
unfolding closure_running
stale_freeze = refl

-- An observation that disagrees sends the refund to review, and the call raises.
disagreement :
    states
      (reconcile host
        (lit "refund-1")
        (observation "refund-1" "8" "50" "111" "350" "290")
        observer
        now
        received).1
    ≡ needs_review ∷ []
unfolding closure_running
disagreement = refl

-- Arabic-Indic digits are read as an amount, and a superscript raises an exception of its own.
foreign_digits : amount (str (0x661 ∷ 0x662 ∷ [])) "amount" true ≡ ok 12
unfolding closure_running
foreign_digits = refl

superscript_digit : amount (str (0xb2 ∷ [])) "amount" true ≡ err value_error
unfolding closure_running
superscript_digit = refl

-- An amount that the validation accepts may be too great for a column.
too_wide :
    register_refund host
      (request "refund-1" "8" "60")
      (freeze "10000000000000000000" "50" "9999999999999999850" "9999999999999999650")
      now
      []
      empty
    ≡ (err overflow_error, empty)
unfolding closure_running
too_wide = refl

abbrev totals : Totals
totals = record {
  funded = 500;
  activated = 300;
  settled = 100;
  refunded = 50;
  vault = 350;
  outstanding = 200;
  spare = 150;
}

check_totals-Balances_example :
    (check_totals totals "freeze_snapshot" "excess_refundable_mismatch" ≡ ok tt) ↔ Balances totals
check_totals-Balances_example =
    check_totals-Balances totals "freeze_snapshot" "excess_refundable_mismatch"

abbrev no_projection : RefundProjection
no_projection = record {
  document = end;
  requested = 0;
  maximum = 0;
  refunded_before = 0;
  refunded_after = 0;
  vault_after = 0;
  outstanding_right = 0;
}

abbrev projected : RefundProjection
projected =
    on_result (project_refund host (request "refund-1" "8" "60") first_freeze now [])
      (λ e. no_projection) (λ p. p)

first_is_projected :
    project_refund host (request "refund-1" "8" "60") first_freeze now [] ≡ ok projected
unfolding closure_running
first_is_projected = refl

project_refund-IsCovered_example :
    IsCovered host (request "refund-1" "8" "60") first_freeze now [] projected
project_refund-IsCovered_example =
    project_refund-IsCovered host (request "refund-1" "8" "60") first_freeze now [] projected
      first_is_projected

Call-Change_example :
    Change host received (reconcile host (lit "refund-1") first_observed observer now received).1
Call-Change_example =
    Call-Change host received (reconcile host (lit "refund-1") first_observed observer now received)
      (reconciling_with (lit "refund-1") first_observed observer now)

submit_once_example : All Counted reconciled_again.refunds
submit_once_example = submit_once host reconciled_again both-Reached

abbrev no_refund : Refund
no_refund = record {
  refund_id = [];
  channel_id = [];
  epoch = 0;
  closure_id = [];
  idempotency_key = [];
  request_hash = [];
  request = end;
  projection_hash = [];
  projection = end;
  freeze_snapshot_hash = [];
  requested_amount = 0;
  maximum_refundable = 0;
  refunded_before = 0;
  refunded_after = 0;
  state = validated;
  commitment = none;
  execution_request_id = none;
  execution_commitment_hash = none;
  prepared_message_hash = none;
  executor_id = none;
  expected_signer = none;
  submit_intent_count = 0;
  technical_receipt = none;
  transaction_signature = none;
  reconciled_receipt = none;
  created_at = [];
  updated_at = [];
}

abbrev first_of : List Refund → Refund
first_of [] = no_refund
first_of (r ∷ rs) = r

abbrev second_of : List Refund → Refund
second_of [] = no_refund
second_of (r ∷ rs) = first_of rs

reserved_within_example :
    reserved (scope_of (second_of both_registered.refunds)) (first_of both_registered.refunds ∷ [])
      + (second_of both_registered.refunds).requested_amount
    ≤ (second_of both_registered.refunds).maximum_refundable
unfolding closure_running
reserved_within_example =
    reserved_within host both_registered (first_of both_registered.refunds ∷ []) []
      (second_of both_registered.refunds) both_registered-Reached refl refl

completed_disjoint_example :
    ((first_of reconciled_again.refunds).refunded_after ≤ 110)
    ⊎ ((second_of reconciled_again.refunds).refunded_after ≤ 50)
unfolding closure_running
completed_disjoint_example =
    completed_disjoint host reconciled_again [] [] [] (first_of reconciled_again.refunds)
      (second_of reconciled_again.refunds) 50 110 both-Reached refl refl refl refl refl refl

journal-Current_example : All (Current reconciled_again.events) reconciled_again.refunds
journal-Current_example = journal-Current host reconciled_again both-Reached

abbrev no_event : RefundEvent
no_event = record {
  subject = [];
  sequence = 0;
  new_state = validated;
  event = end;
  previous_event_hash = [];
  event_hash = [];
  recorded_at = [];
}

abbrev event_at : List RefundEvent → RefundEvent
event_at [] = no_event
event_at (e ∷ es) = e

abbrev later_events : List RefundEvent → List RefundEvent
later_events [] = []
later_events (e ∷ es) = es

journal-Linked_example :
    Linked host (event_at committed.events ∷ []) (event_at (later_events committed.events))
unfolding closure_running
journal-Linked_example =
    journal-Linked host committed (event_at committed.events ∷ []) []
      (event_at (later_events committed.events)) committed-Reached refl

abbrev sent_record : RefundRecord
sent_record = record_of (first_of sent.refunds)

first_is_sent : record_submit_intent host (lit "refund-1") now committed ≡ (ok sent_record, sent)
unfolding closure_running
first_is_sent = refl

never_released_example :
    (z : Failure) × (release_before_submission host
        (lit "refund-1")
        (lit "failed_before_submission")
        now
        received
      ≡ (err z, received))
never_released_example =
    never_released host (lit "refund-1") now committed sent_record sent received
      (lit "failed_before_submission") now first_is_sent
      (then_call sent
        (record_technical_receipt host (lit "refund-1") (receipt "refund-1" "8") now sent) begin
        (receiving (lit "refund-1") (receipt "refund-1" "8") now))

abbrev first_released : ClosureDb
first_released =
    (release_before_submission host (lit "refund-1") (lit "rejected_before_submission") now
      both_registered).1

first_is_found :
    find_refund (lit "refund-1") both_registered.refunds ≡ some (first_of both_registered.refunds)
unfolding closure_running
first_is_found = refl

first_is_released :
    release_before_submission host
      (lit "refund-1")
      (lit "rejected_before_submission")
      now
      both_registered
    ≡ (ok (record_of (first_of first_released.refunds)), first_released)
unfolding closure_running
first_is_released = refl

release_frees_example :
    reserved (scope_of (first_of both_registered.refunds)) first_released.refunds
      + (first_of both_registered.refunds).requested_amount
    ≡ reserved (scope_of (first_of both_registered.refunds)) both_registered.refunds
release_frees_example =
    release_frees host (lit "refund-1") (lit "rejected_before_submission") now both_registered
      first_released (first_of both_registered.refunds)
      (record_of (first_of first_released.refunds)) first_is_found first_is_released
