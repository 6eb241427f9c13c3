-- ===== src/Closure/Runtime/Change.antt =====
-- What `ClosureRuntime` promises of its tables: the changes that one call may make to them.
use foundry_pay.Base.{
  ◌≡◌, ◌⊎◌, ℕ, ◌+◌, ◌≤◌, Bool, true, false, none, List, [], ◌∷◌, ◌++◌, Text, Result, ok,
  if◌then◌else◌,
}
use foundry_pay.Python.Value.{Fields, obj, at}
use foundry_pay.Canonical.Json.{Host, sha256_canonical_json}
use foundry_pay.Base.{lit}
use foundry_pay.Closure.Table.{
  RefundState, validated, execution_committed, submitted, needs_recovery, reconciling, needs_review,
  disputed, completed, rejected_before_submission, failed_before_submission,
  explicitly_cancelled_before_authorization, Refund, RefundEvent, ClosureDb, Scope, scope_of,
  reserved, is_completed, find_refund, last_event, next_sequence, previous_hash, has_event_hash,
}
use foundry_pay.Closure.Runtime.Reconcile.{other_high_water, number, overlaps}

-- The changes of state of a refund: it is committed, submitted once, and then observed, and only a
-- refund that is not submitted may be released.
abbrev pub may : RefundState → RefundState → Bool
may validated execution_committed = true
may validated rejected_before_submission = true
may validated failed_before_submission = true
may validated explicitly_cancelled_before_authorization = true
may execution_committed submitted = true
may submitted needs_recovery = true
may submitted reconciling = true
may submitted needs_review = true
may needs_recovery reconciling = true
may needs_recovery needs_review = true
may needs_recovery disputed = true
may needs_recovery completed = true
may reconciling needs_review = true
may reconciling disputed = true
may reconciling completed = true
may needs_review disputed = true
may _ _ = false

abbrev pub is_submitted : RefundState → Bool
is_submitted submitted = true
is_submitted s = false

-- What a refund keeps for good.
pub record Terms : Type 0 where
  pub identity : Text
  pub scope : Scope
  pub amount : ℕ
  pub limit : ℕ
  pub interval_end : ℕ
  pub document : Fields

abbrev pub terms_of : Refund → Terms
terms_of r = record {
  identity = r.refund_id;
  scope = scope_of r;
  amount = r.requested_amount;
  limit = r.maximum_refundable;
  interval_end = r.refunded_after;
  document = r.projection;
}

-- The total that a refund's projection starts from
abbrev pub start_of : Fields → Result ℕ
start_of projection = number (at (lit "refunded_total_before_base_units") projection)

-- The interval of a refund does not start below the end of another completed one in its scope.
pub record Clear (refunds : List Refund) (r : Refund) : Type 0 where
  pub start : ℕ
  pub starts : start_of r.projection ≡ ok start
  pub above : overlaps start (other_high_water (scope_of r) r.refund_id refunds) ≡ false

-- How a row changes.
pub record Evolves (refunds : List Refund) (r r' : Refund) : Type 0 where
  pub moves : may r.state r'.state ≡ true
  pub keeps : terms_of r' ≡ terms_of r
  pub counts : r'.submit_intent_count ≡ (if is_submitted r'.state then 1 else r.submit_intent_count)
  pub completes : (is_completed r'.state ≡ false) ⊎ Clear refunds r

-- The event of a row, linked to the last one of the same refund.
pub record Follows (h : Host) (r : Refund) (e : RefundEvent) (events : List RefundEvent)
    : Type 0 where
  pub about : e.subject ≡ r.refund_id
  pub same_state : e.new_state ≡ r.state
  pub same_time : e.recorded_at ≡ r.updated_at
  pub numbered : e.sequence ≡ next_sequence (last_event r.refund_id events)
  pub linked : e.previous_event_hash ≡ previous_hash (last_event r.refund_id events)
  pub hashed : sha256_canonical_json h (obj e.event) ≡ ok e.event_hash
  pub fresh : has_event_hash e.event_hash events ≡ false

-- A call leaves the tables as they are, or moves one refund, or adds one that fits; a change comes
-- with its event.
pub data Change (h : Host) (db : ClosureDb) : ClosureDb → Type 0 where
  stays : Change h db db
  evolves :
      (before after : List Refund) (r r' : Refund) (e : RefundEvent)
      → db.refunds ≡ before ++ (r ∷ after)
      → Evolves db.refunds r r'
      → Follows h r' e db.events
      → Change h db (record { refunds = before ++ (r' ∷ after); events = db.events ++ (e ∷ []) })
  registers :
      (r : Refund) (e : RefundEvent)
      → find_refund r.refund_id db.refunds ≡ none
      → r.state ≡ validated
      → r.submit_intent_count ≡ 0
      → reserved (scope_of r) db.refunds + r.requested_amount ≤ r.maximum_refundable
      → Follows h r e db.events
      → Change h db (record { refunds = db.refunds ++ (r ∷ []); events = db.events ++ (e ∷ []) })
