-- ===== src/Voucher/Ledger.antt =====
-- `ReferenceVoucherLedger` from `verify_issued` on: each method takes the ledger and returns its result
-- and the ledger that it leaves. A method that raises before its commit leaves the ledger as it was.
pub mod Invariant
pub mod Lifecycle
pub mod Reach
use foundry_pay.Base.{
  ℕ, Bool, true, false, not, Option, none, some, List, [], ◌∷◌, ◌++◌, ltb, leb, drop, if◌then◌else◌,
  lit, String, str_eq, Text, text_eq, Result, ok, err, Failure, reject, ◌>>=◌, ◌>>◌, reject_if,
  on_result, on_option,
}
use foundry_pay.Python.Value.{Value, Fields, pos, int, str, obj, at, end, field}
use foundry_pay.Python.Pattern.{is_identifier}
use foundry_pay.Python.Datetime.{Datetime, instant, strftime}
use foundry_pay.Python.Json.{sort_keys, is_finite, json_eq}
use foundry_pay.Canonical.Json.{Host, canonical_json_bytes, sha256_raw_bytes}
use foundry_pay.Canonical.Record.{members}
use foundry_pay.Voucher.Checks.{string, timestamp, utc}
use foundry_pay.Voucher.Context.{VoucherContext, Limits, validate_context}
use foundry_pay.Voucher.Verify.{SignatureVerifier, VerifiedVoucher, verify_voucher}
use foundry_pay.Voucher.Record.{
  VoucherRecord, record_of, Step, time_text, domain_key, transition, read_back,
}
use foundry_pay.Voucher.Table.{
  State, issued, verified, activation_requested, rejected, Row, Event, Ledger, find_row, update_row,
  latest,
}

abbrev pub first : Option (ℕ × ℕ) → Option ℕ
first none = none
first (some p) = some p.0

abbrev pub second : Option (ℕ × ℕ) → Option ℕ
second none = none
second (some p) = some p.1

abbrev pub error_text : Option String → String
error_text none = "None"
error_text (some e) = e

-- `column == value`, for a column that may be null
abbrev pub same : Option Text → Text → Bool
same none t = false
same (some s) t = text_eq s t

-- The columns that a verified voucher fills in.
unfoldable pub fill : Text → VerifiedVoucher → Row → Row
fill key v r =
    let payload = members (at (lit "payload") (members r.voucher)) in
    record r {
      voucher_hash = some v.voucher_hash;
      domain_key = some key;
      channel_id = some (at (lit "channel_id") payload);
      epoch = some (at (lit "epoch") payload);
      sequence = some v.sequence;
      cumulative_total = some v.cumulative_authorized;
      expires_at = some (strftime v.expires_at);
    }

-- `except VoucherValidationError`: a failed verifier keeps the state, another rejection rejects.
unfoldable pub record_failure : Text → State → Text → Failure → Ledger → Step
record_failure id s t (reject code name) l =
    if str_eq code "journal_time_regressed"
    then (err (reject code name), l)
    else if str_eq code "signature_verifier_failed"
    then (err (reject code name), transition id s (some code) t (λ r. r) l)
    else (err (reject code name), transition id rejected (some code) t (λ r. r) l)
record_failure id s t e l = (err e, l)

-- The clock may not go back behind the row's last event.
unfoldable pub check_clock : Row → Datetime → Result (Unit {0})
check_clock r now = do
  t ← timestamp (str r.updated_at) "persisted.updated_at"
  n ← utc now "observed_at"
  reject_if (ltb (instant n) (instant t)) "journal_time_regressed" "observed_at"

module _ (h : Host) (verifier : SignatureVerifier) where
  -- The `try` block of `verify_issued`: the domain and the verified voucher.
  unfoldable pub try_verify :
      Row → List Row → VoucherContext → Datetime → Result (Text × VerifiedVoucher)
  try_verify r rows x now = do
    t ← timestamp (str r.updated_at) "persisted.updated_at"
    n ← utc now "now"
    reject_if (ltb (instant n) (instant t)) "journal_time_regressed" "now"
    validate_context x
    key ← domain_key h x
    let newest = latest key r.submission_id rows
    v ← verify_voucher h verifier r.voucher x now (first newest) (second newest)
    ok (key, v)

  unfoldable pub verify_row : Row → Text → VoucherContext → Datetime → Ledger → Step
  verify_row r t x now l =
      on_result (try_verify r l.rows x now) (λ e. record_failure r.submission_id issued t e l)
        (λ w.
          let l' = transition r.submission_id verified none t (fill w.0 w.1) l in
          (read_back r.submission_id l', l'))

  unfoldable pub verify_found : Row → State → Text → VoucherContext → Datetime → Ledger → Step
  verify_found r verified t x now l = (ok (record_of r), l)
  verify_found r activation_requested t x now l = (ok (record_of r), l)
  verify_found r rejected t x now l = (err (reject (error_text r.error_code) "submission_id"), l)
  verify_found r issued t x now l = verify_row r t x now l

  unfoldable pub verify_at : Text → Text → VoucherContext → Datetime → Ledger → Step
  verify_at id t x now l =
      on_option (find_row id l.rows) (err (reject "submission_not_found" "submission_id"), l)
        (λ r. verify_found r r.state t x now l)

  unfoldable pub verify_issued : Text → VoucherContext → Datetime → Ledger → Step
  verify_issued id x now l =
      on_result (time_text now) (λ e. (err e, l)) (λ t. verify_at id t x now l)

  -- The `try` block of `request_activation`.
  unfoldable pub try_activate : Row → VoucherContext → Datetime → Result (Unit {0})
  try_activate r x now = do
    validate_context x
    key ← domain_key h x
    reject_if (not (same r.domain_key key)) "activation_context_changed" "context"
    current ← verify_voucher h verifier r.voucher x now none none
    reject_if (not (same r.voucher_hash current.voucher_hash)) "persisted_voucher_mismatch"
        "voucher_hash"

  unfoldable pub activate_row : Row → Text → VoucherContext → Datetime → Ledger → Step
  activate_row r t x now l =
      on_result (try_activate r x now) (λ e. record_failure r.submission_id verified t e l)
        (λ _.
          let l' = transition r.submission_id activation_requested none t (λ q. q) l in
          (read_back r.submission_id l', l'))

  unfoldable pub activate_found : Row → State → Text → VoucherContext → Datetime → Ledger → Step
  activate_found r activation_requested t x now l = (ok (record_of r), l)
  activate_found r verified t x now l =
      on_result (check_clock r now) (λ e. (err e, l)) (λ _. activate_row r t x now l)
  activate_found r _ t x now l = (err (reject "activation_request_forbidden" "state"), l)

  unfoldable pub activate_at : Text → Text → VoucherContext → Datetime → Ledger → Step
  activate_at id t x now l =
      on_option (find_row id l.rows) (err (reject "submission_not_found" "submission_id"), l)
        (λ r. activate_found r r.state t x now l)

  unfoldable pub request_activation : Text → VoucherContext → Datetime → Ledger → Step
  request_activation id x now l =
      on_result (time_text now) (λ e. (err e, l)) (λ t. activate_at id t x now l)

-- `get`
unfoldable pub get_record : Text → Ledger → Result VoucherRecord
get_record id l =
    on_option (find_row id l.rows) (err (reject "submission_not_found" "submission_id"))
      (λ r. ok (record_of r))

-- `events`, by `event_id`
unfoldable pub events_of : Text → List Event → List Event
events_of id [] = []
events_of id (e ∷ es) =
    let rest = events_of id es in if text_eq e.submission id then e ∷ rest else rest
