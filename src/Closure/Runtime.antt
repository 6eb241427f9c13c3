-- ===== src/Closure/Runtime.antt =====
-- The transactions of `ClosureRuntime`. A method takes the two tables, and returns its result and the
-- tables that it leaves; one that raises before its commit leaves them as they were.
pub mod Change
pub mod Transact
pub mod Refines
pub mod Calls
pub mod Reached
pub mod Reserved
pub mod HighWater
pub mod Intervals
pub mod Journalled
pub mod Chained
pub mod Released
pub mod Frees
pub mod Register
pub mod Commit
pub mod Receipt
pub mod Reconcile
pub mod Recover
use foundry_pay.Base.{
  ℕ, Option, none, some, List, Text, Result, ok, err, reject, Failure, ◌>>=◌, ◌>>◌, on_result,
  on_option,
}
use foundry_pay.Python.Value.{Value, Fields, str}
use foundry_pay.Canonical.Json.{Host}
use foundry_pay.Closure.Checks.{identifier}
use foundry_pay.Closure.Table.{
  RefundState, Refund, RefundEvent, ClosureDb, find_refund, update_refund, next_event, insert_event,
}

-- `RefundRecord`
pub record RefundRecord : Type 0 where
  pub refund_id : Text
  pub request_hash : Text
  pub projection_hash : Text
  pub state : RefundState
  pub submit_intent_count : ℕ
  pub transaction_signature : Option Text
  pub reconciled_receipt : Option Fields

-- What a call returns or raises, and the tables that it leaves.
abbrev pub Step : Type 0
Step = Result RefundRecord × ClosureDb

-- `_record`
unfoldable pub record_of : Refund → RefundRecord
record_of r = record {
  refund_id = r.refund_id;
  request_hash = r.request_hash;
  projection_hash = r.projection_hash;
  state = r.state;
  submit_intent_count = r.submit_intent_count;
  transaction_signature = r.transaction_signature;
  reconciled_receipt = r.reconciled_receipt;
}

-- `_row`
unfoldable pub read_row : Text → List Refund → Result Refund
read_row i refunds = do
  identifier (str i) "refund_id"
  on_option (find_refund i refunds) (err (reject "refund_not_found" "refund_id")) ok

-- `get`
unfoldable pub get_refund : Text → ClosureDb → Result RefundRecord
get_refund i db = do r ← read_row i db.refunds; ok (record_of r)

-- What a method decides on the row that it has read: to raise and roll back, to commit nothing and
-- return the row, or to write the row and an event; then it returns the row, or raises a failure.
pub data Plan : Type 0 where
  refuse : Failure → Plan
  keep : Plan
  write : RefundState → (Refund → Refund) → Fields → Option Failure → Plan

-- `SET state = ?, ..., updated_at = ?`
abbrev pub set_columns : RefundState → (Refund → Refund) → Text → Refund → Refund
set_columns s f t r = record (f r) { state = s; updated_at = t }

-- The value that ends a method after its commit.
unfoldable pub finish : Text → Option Failure → ClosureDb → Step
finish i none db = (get_refund i db, db)
finish i (some e) db = (err e, db)

-- The update of the row and the insertion of the event, in one transaction
unfoldable pub write_row :
    Text → RefundState → (Refund → Refund) → Text → RefundEvent → ClosureDb → Result ClosureDb
write_row i s f t e db = do
  events ← insert_event e db.events
  ok (record { refunds = update_refund i (set_columns s f t) db.refunds; events = events })

module _ (h : Host) (i : Text) where
  unfoldable pub carry_out : Plan → Text → Refund → ClosureDb → Step
  carry_out (refuse e) t r db = (err e, db)
  carry_out keep t r db = (ok (record_of r), db)
  carry_out (write s f payload raised) t r db =
      on_result (do e ← next_event h i s payload t db.events; write_row i s f t e db)
        (λ e. (err e, db)) (finish i raised)

  -- A method from its time stamp on: it reads the row and carries out what it decides.
  unfoldable pub transact : Result Text → (Text → Refund → Plan) → ClosureDb → Step
  transact stamp plan db =
      on_result stamp (λ e. (err e, db))
        (λ t.
          on_result (read_row i db.refunds) (λ e. (err e, db)) (λ r. carry_out (plan t r) t r db))
