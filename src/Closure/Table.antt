-- ===== src/Closure/Table.antt =====
-- The two tables of `ClosureRuntime`, their queries, and the journal entry that goes with each write.
-- A JSON column is given by the value that its text encodes.
pub mod Rows
use foundry_pay.Base.{
  ℕ, suc, ◌+◌, ◌^◌, Bool, true, false, not, ◌&&◌, ◌||◌, Option, none, some, List, [], ◌∷◌, ◌++◌,
  leb, ltb, ◌==◌, max, if◌then◌else◌, String, Text, lit, text_eq, Result, ok, err, reject,
  database_error, ◌>>=◌, ◌>>◌, reject_if, on_option,
}
use foundry_pay.Python.Value.{Value, Fields, pos, negsuc, null, bool, int, str, obj}
use foundry_pay.Python.Decimal.{text_of_nat}
use foundry_pay.Canonical.Json.{Host, sha256_canonical_json}
use foundry_pay.Voucher.Context.{zero_hash}
use foundry_pay.Closure.Checks.{dict}

pub data RefundState : Type 0 where
  validated execution_committed submitted needs_recovery reconciling needs_review disputed completed
        rejected_before_submission failed_before_submission
        explicitly_cancelled_before_authorization :
      RefundState

-- A row of `refunds`
pub record Refund : Type 0 where
  pub refund_id : Text
  pub channel_id : Text
  pub epoch : ℕ
  pub closure_id : Text
  pub idempotency_key : Text
  pub request_hash : Text
  pub request : Fields
  pub projection_hash : Text
  pub projection : Fields
  pub freeze_snapshot_hash : Text
  pub requested_amount : ℕ
  pub maximum_refundable : ℕ
  pub refunded_before : ℕ
  pub refunded_after : ℕ
  pub state : RefundState
  pub commitment : Option Value
  pub execution_request_id : Option Text
  pub execution_commitment_hash : Option Text
  pub prepared_message_hash : Option Text
  pub executor_id : Option Text
  pub expected_signer : Option Text
  pub submit_intent_count : ℕ
  pub technical_receipt : Option Value
  pub transaction_signature : Option Text
  pub reconciled_receipt : Option Fields
  pub created_at : Text
  pub updated_at : Text

-- A row of `refund_events`
pub record RefundEvent : Type 0 where
  pub subject : Text
  pub sequence : ℕ
  pub new_state : RefundState
  pub event : Fields
  pub previous_event_hash : Text
  pub event_hash : Text
  pub recorded_at : Text

pub record ClosureDb : Type 0 where
  pub refunds : List Refund
  pub events : List RefundEvent

unfoldable pub state_text : RefundState → Text
state_text validated = lit "validated"
state_text execution_committed = lit "execution_committed"
state_text submitted = lit "submitted"
state_text needs_recovery = lit "needs_recovery"
state_text reconciling = lit "reconciling"
state_text needs_review = lit "needs_review"
state_text disputed = lit "disputed"
state_text completed = lit "completed"
state_text rejected_before_submission = lit "rejected_before_submission"
state_text failed_before_submission = lit "failed_before_submission"
state_text explicitly_cancelled_before_authorization =
    lit "explicitly_cancelled_before_authorization"

-- The states that the query for reservations leaves out.
abbrev pub is_releasing : RefundState → Bool
is_releasing completed = true
is_releasing rejected_before_submission = true
is_releasing failed_before_submission = true
is_releasing explicitly_cancelled_before_authorization = true
is_releasing s = false

abbrev pub is_completed : RefundState → Bool
is_completed completed = true
is_completed s = false

-- The largest integer that a column holds; sqlite3 raises `OverflowError` on a greater parameter.
abbrev pub integer_max : ℕ
integer_max = 9_223_372_036_854_775_807

-- A JSON value as the parameter of a text column, `none` for NULL: an integer is converted, a container
-- is refused, and a float is not there, since the canonical form of the document refuses it.
unfoldable pub sql_text : Value → Result (Option Text)
sql_text null = ok none
sql_text (str s) = ok (some s)
sql_text (int (pos n)) = ok (some (text_of_nat n))
sql_text (int (negsuc n)) = ok (some (b'-' ∷ text_of_nat (suc n)))
sql_text (bool true) = ok (some (lit "1"))
sql_text (bool false) = ok (some (lit "0"))
sql_text v = err database_error

-- `WHERE refund_id = ?`
unfoldable pub find_refund : Text → List Refund → Option Refund
find_refund i [] = none
find_refund i (r ∷ rs) = if text_eq r.refund_id i then some r else find_refund i rs

-- `UPDATE refunds SET ... WHERE refund_id = ?`: the primary key is that of one row at most.
unfoldable pub update_refund : Text → (Refund → Refund) → List Refund → List Refund
update_refund i f [] = []
update_refund i f (r ∷ rs) =
    let rest = update_refund i f rs in if text_eq r.refund_id i then f r ∷ rs else r ∷ rest

-- `column = ?`: nothing is equal to NULL.
abbrev pub column_is : Text → Option Text → Bool
column_is t none = false
column_is t (some u) = text_eq t u

-- `refund_id = ? OR (channel_id = ? AND epoch = ? AND idempotency_key = ?)`; the first such row in the
-- order of insertion stands for the one that the database fetches.
unfoldable pub is_repeated : Text → Text → ℕ → Option Text → Refund → Bool
is_repeated i channel epoch key r =
    text_eq r.refund_id i
    || (text_eq r.channel_id channel && r.epoch == epoch && column_is r.idempotency_key key)

unfoldable pub find_repeated : Text → Text → ℕ → Option Text → List Refund → Option Refund
find_repeated i channel epoch key [] = none
find_repeated i channel epoch key (r ∷ rs) =
    if is_repeated i channel epoch key r then some r else find_repeated i channel epoch key rs

-- The closure that a refund belongs to.
pub record Scope : Type 0 where
  pub channel : Text
  pub in_epoch : ℕ
  pub closure : Text

abbrev pub scope_of : Refund → Scope
scope_of r = record { channel = r.channel_id; in_epoch = r.epoch; closure = r.closure_id }

unfoldable pub in_scope : Scope → Refund → Bool
in_scope s r =
    text_eq r.channel_id s.channel && r.epoch == s.in_epoch && text_eq r.closure_id s.closure

-- What a row reserves in a scope.
unfoldable pub share : Scope → Refund → ℕ
share s r = if in_scope s r && not (is_releasing r.state) then r.requested_amount else 0

-- `COALESCE(SUM(requested_amount), 0)` over the reservations of a scope
unfoldable pub reserved : Scope → List Refund → ℕ
reserved s [] = 0
reserved s (r ∷ rs) = share s r + reserved s rs

-- `COALESCE(MAX(refunded_after), 0)` over the completed refunds of a scope
unfoldable pub high_water : Scope → List Refund → ℕ
high_water s [] = 0
high_water s (r ∷ rs) =
    let rest = high_water s rs in
    if in_scope s r && is_completed r.state then max r.refunded_after rest else rest

-- `ORDER BY sequence DESC LIMIT 1`, over the events of one refund
unfoldable pub later_event : RefundEvent → Option RefundEvent → Option RefundEvent
later_event e none = some e
later_event e (some b) = if ltb e.sequence b.sequence then some b else some e

unfoldable pub last_event : Text → List RefundEvent → Option RefundEvent
last_event i [] = none
last_event i (e ∷ es) =
    let best = last_event i es in if text_eq e.subject i then later_event e best else best

abbrev pub next_sequence : Option RefundEvent → ℕ
next_sequence none = 1
next_sequence (some e) = e.sequence + 1

abbrev pub previous_hash : Option RefundEvent → Text
previous_hash none = zero_hash
previous_hash (some e) = e.event_hash

-- `event_hash TEXT NOT NULL UNIQUE`
unfoldable pub has_event_hash : Text → List RefundEvent → Bool
has_event_hash t [] = false
has_event_hash t (e ∷ es) = text_eq e.event_hash t || has_event_hash t es

unfoldable pub event_document : Text → ℕ → RefundState → Fields → Text → Text → Text → Fields
event_document i sequence s payload payload_hash previous recorded_at = dict (
    ("type", str (lit "refund_journal_entry"))
    ∷ ("protocol_version", str (lit "1.0.0"))
    ∷ ("refund_id", str i)
    ∷ ("sequence", int (pos sequence))
    ∷ ("state", str (state_text s))
    ∷ ("event_type", str (state_text s))
    ∷ ("payload", obj payload)
    ∷ ("payload_hash", str payload_hash)
    ∷ ("previous_event_hash", str previous)
    ∷ ("recorded_at", str recorded_at)
    ∷ [])

-- `_event`
unfoldable pub next_event :
    Host → Text → RefundState → Fields → Text → List RefundEvent → Result RefundEvent
next_event h i s payload recorded_at events = do
  let previous = last_event i events
  payload_hash ← sha256_canonical_json h (obj payload)
  let document =
      event_document i (next_sequence previous) s payload payload_hash (previous_hash previous)
        recorded_at
  digest ← sha256_canonical_json h (obj document)
  ok (record {
    subject = i;
    sequence = next_sequence previous;
    new_state = s;
    event = document;
    previous_event_hash = previous_hash previous;
    event_hash = digest;
    recorded_at = recorded_at;
  })

-- The insertion of the entry fails where its hash is there already.
unfoldable pub insert_event : RefundEvent → List RefundEvent → Result (List RefundEvent)
insert_event e events =
    if has_event_hash e.event_hash events then err database_error else ok (events ++ (e ∷ []))
