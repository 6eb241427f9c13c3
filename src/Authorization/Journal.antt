-- ===== src/Authorization/Journal.antt =====
-- `AuthorizationJournal`: each method takes the rows of its table and returns its outcome and the rows
-- that it leaves. A method's writes are one transaction of `with connection`, which is rolled back
-- when the body raises. An authorization's JSON text is represented by the value that it encodes.
pub mod Rows
pub mod Moves
pub mod SingleUse
pub mod Disjoint
use foundry_pay.Base.{
  ℕ, Bool, true, false, not, ◌&&◌, ◌||◌, Option, none, some, List, [], ◌∷◌, ◌++◌, map,
  if◌then◌else◌, lit, Text, text_eq, text_lt, on_option,
}
use foundry_pay.Python.Value.{Value}
use foundry_pay.Python.Pattern.{is_identifier}
use foundry_pay.Python.Datetime.{Datetime, strftime}

-- `AuthorizationInvalid` and its siblings; `naive_datetime` is the `ValueError` of `_utc`.
pub data AuthorizationError : Type 0 where
  authorization_invalid authorization_conflict authorization_expired authorization_replay
        naive_datetime :
      AuthorizationError

pub data Outcome (A : Type 0) : Type 0 where
  returned : A → Outcome A
  raised : AuthorizationError → Outcome A

pub data State : Type 0 where
  issued consumed expired : State

-- The fields of an authorization that the journal reads, and the whole of it.
pub record Authorization : Type 0 where
  pub id : Text
  pub request : Text
  pub issued_time : Text
  pub expiry : Text
  pub body : Value

-- A row of `execution_authorizations`
pub record Row : Type 0 where
  pub authorization_id : Text
  pub execution_request_id : Text
  pub obligation_id : Text
  pub input_fingerprint : Text
  pub authorization : Value
  pub state : State
  pub issued_at : Text
  pub expires_at : Text
  pub consumed_at : Option Text

-- `_format_timestamp`, of a time given in UTC; `none` is a time without a zone.
unfoldable pub format_timestamp : Option Datetime → Outcome Text
format_timestamp none = raised naive_datetime
format_timestamp (some t) = returned (strftime t)

abbrev pub is_issued : State → Bool
is_issued issued = true
is_issued s = false

-- `SELECT * ... WHERE authorization_id = ?`
unfoldable pub find : Text → List Row → Option Row
find i [] = none
find i (r ∷ rs) = if text_eq r.authorization_id i then some r else find i rs

-- `expires_at <= ?`
unfoldable pub is_over : Text → Row → Bool
is_over now r = not (text_lt now r.expires_at)

-- The update at the head of `issue`, on one row.
unfoldable pub expire : Text → Row → Row
expire now r = if is_issued r.state && is_over now r then record r { state = expired } else r

-- The update of one row by its key.
unfoldable pub at_key : Text → (Row → Row) → Row → Row
at_key i f r = if text_eq r.authorization_id i then f r else r

-- The rows of the query for an active authorization.
unfoldable pub is_active : Text → Text → Text → Row → Bool
is_active now request obligation r =
    is_issued r.state
    && text_lt now r.expires_at
    && (text_eq r.execution_request_id request || text_eq r.obligation_id obligation)

unfoldable pub any_active : Text → Text → Text → List Row → Bool
any_active now request obligation [] = false
any_active now request obligation (r ∷ rs) =
    is_active now request obligation r || any_active now request obligation rs

abbrev pub Step : Type 0 → Type 0
Step A = Outcome A × List Row

-- `with connection`: the writes of a body that raises are undone.
abbrev pub transaction : {A : Type 0} → List Row → Step A → Step A
transaction rows (returned a, rows') = (returned a, rows')
transaction rows (raised e, rows') = (raised e, rows)

-- An outcome that is a text, and what goes on with it.
abbrev pub with_text : {A : Type 0} → List Row → Outcome Text → (Text → Step A) → Step A
with_text rows (raised e) f = (raised e, rows)
with_text rows (returned t) f = f t

unfoldable pub new_row : Authorization → Text → Text → Row
new_row a obligation fingerprint = record {
  authorization_id = a.id;
  execution_request_id = a.request;
  obligation_id = obligation;
  input_fingerprint = fingerprint;
  authorization = a.body;
  state = issued;
  issued_at = a.issued_time;
  expires_at = a.expiry;
  consumed_at = none;
}

-- `issue` on an authorization that is there already.
unfoldable pub issue_again : Text → Row → State → List Row → Step Value
issue_again fingerprint r s rows =
    if not (text_eq r.input_fingerprint fingerprint)
    then (raised authorization_conflict, rows)
    else elim s [
      | issued ↦ (returned r.authorization, rows)
      | consumed ↦ (raised authorization_replay, rows)
      | expired ↦ (raised authorization_expired, rows)
    ]

unfoldable pub issue_body : Authorization → Text → Text → Text → List Row → Step Value
issue_body a obligation fingerprint now rows =
    let rows' = map (expire now) rows in
    on_option (find a.id rows')
      (if any_active now a.request obligation rows'
        then (raised authorization_conflict, rows')
        else (returned a.body, rows' ++ (new_row a obligation fingerprint ∷ [])))
      (λ r. issue_again fingerprint r r.state rows')

unfoldable pub issue : Authorization → Text → Text → Option Datetime → List Row → Step Value
issue a obligation fingerprint now rows =
    with_text rows (format_timestamp now)
      (λ t. transaction rows (issue_body a obligation fingerprint t rows))

-- The update of a row that is consumed.
abbrev pub mark : Text → Row → Row
mark now r = record r { state = consumed; consumed_at = some now }

-- The update of a row that has expired.
abbrev pub lapse : Row → Row
lapse r = record r { state = expired }

-- `consume` on a row, by its state.
unfoldable pub consume_row : Text → Row → State → List Row → Step Value
consume_row now r consumed rows = (raised authorization_replay, rows)
consume_row now r expired rows =
    (raised authorization_expired, map (at_key r.authorization_id lapse) rows)
consume_row now r issued rows =
    if is_over now r
    then (raised authorization_expired, map (at_key r.authorization_id lapse) rows)
    else (returned r.authorization, map (at_key r.authorization_id (mark now)) rows)

unfoldable pub consume_body : Text → Text → List Row → Step Value
consume_body i now rows =
    on_option (find i rows) (raised authorization_invalid, rows)
      (λ r. consume_row now r r.state rows)

unfoldable pub consume : Text → Option Datetime → List Row → Step Value
consume i now rows =
    if is_identifier i
    then with_text rows (format_timestamp now) (λ t. transaction rows (consume_body i t rows))
    else (raised authorization_invalid, rows)

unfoldable pub state_row : Text → Row → List Row → Step State
state_row now r rows =
    if is_issued r.state && is_over now r
    then (returned expired, map (at_key r.authorization_id lapse) rows)
    else (returned r.state, rows)

-- `AuthorizationJournal.state`
unfoldable pub journal_state : Text → Option Datetime → List Row → Step State
journal_state i now rows =
    if is_identifier i
    then with_text rows (format_timestamp now) (λ t.
      transaction rows
        (on_option (find i rows) (raised authorization_invalid, rows) (λ r. state_row t r rows)))
    else (raised authorization_invalid, rows)
