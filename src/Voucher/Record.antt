-- ===== src/Voucher/Record.antt =====
-- The records, the scope and the transitions of `ReferenceVoucherLedger`, and its `record_issued`. A
-- method takes the ledger and returns its result and the ledger that it leaves.
use foundry_pay.Base.{
  ℕ, not, Option, none, [], ◌∷◌, ◌++◌, drop, if◌then◌else◌, lit, String, Text, Result, ok, err,
  Failure, reject, value_error, ◌&&◌, ◌>>=◌, ◌>>◌, reject_if, on_result, on_option,
}
use foundry_pay.Python.Value.{Value, str, obj, end, field}
use foundry_pay.Python.Pattern.{is_identifier}
use foundry_pay.Python.Datetime.{Datetime, strftime}
use foundry_pay.Python.Json.{sort_keys, is_finite, has_short_ints, is_bindable, json_eq}
use foundry_pay.Canonical.Json.{Host, canonical_json_bytes, sha256_raw_bytes}
use foundry_pay.Voucher.Checks.{string, utc}
use foundry_pay.Voucher.Context.{VoucherContext}
use foundry_pay.Voucher.Table.{State, issued, Row, Ledger, find_row, update_row}

-- `VoucherRecord`
pub record VoucherRecord : Type 0 where
  pub record_id : Text
  pub record_state : State
  pub record_hash : Option Text
  pub record_sequence : Option ℕ
  pub record_total : Option ℕ
  pub record_error : Option String

-- `_record`
unfoldable pub record_of : Row → VoucherRecord
record_of r = record {
  record_id = r.submission_id;
  record_state = r.state;
  record_hash = r.voucher_hash;
  record_sequence = r.sequence;
  record_total = r.cumulative_total;
  record_error = r.error_code;
}

abbrev pub Step : Type 0
Step = Result VoucherRecord × Ledger

-- `_time`
unfoldable pub time_text : Datetime → Result Text
time_text t = do checked ← utc t "observed_at"; ok (strftime checked)

-- `_domain_key`; `removeprefix` takes the algorithm's name off.
unfoldable pub identity : VoucherContext → Value
identity x = obj (
    field (lit "domain") (str (lit "foundry.channels.voucher-ledger-scope")) (
      field (lit "protocol_version") (str (lit "1.0.0")) (
        field (lit "environment") x.environment (
          field (lit "network") x.network (
            field (lit "genesis_hash") x.genesis_hash (
              field (lit "program_id") x.program_id (
                field (lit "channel_id") x.channel_id (
                  field (lit "channel_account") x.channel_account (
                    field (lit "epoch") x.epoch (
                      field (lit "sender") x.sender (
                        field (lit "recipient_claim_pubkey") x.recipient_claim_pubkey
                          (field (lit "mint") x.mint end))))))))))))

unfoldable pub domain_key : Host → VoucherContext → Result Text
domain_key h x = do
  bytes ← canonical_json_bytes h (identity x)
  ok (drop 7 (sha256_raw_bytes h bytes))

-- A row with a new state, error and time, and the event that goes with it.
unfoldable pub transition : Text → State → Option String → Text → (Row → Row) → Ledger → Ledger
transition id s e t f l = record {
  rows = update_row id (λ r. record (f r) { state = s; error_code = e; updated_at = t }) l.rows;
  events =
      l.events
      ++ (record { submission = id; new_state = s; event_error = e; observed_at = t } ∷ []);
}

-- The row that the last query of a method reads back.
unfoldable pub read_back : Text → Ledger → Result VoucherRecord
read_back id l =
    on_option (find_row id l.rows) (err Failure.assertion_error) (λ r. ok (record_of r))

abbrev pub new_row : Text → Value → Text → Row
new_row id v t = record {
  submission_id = id;
  voucher = v;
  state = issued;
  voucher_hash = none;
  domain_key = none;
  channel_id = none;
  epoch = none;
  sequence = none;
  cumulative_total = none;
  expires_at = none;
  error_code = none;
  created_at = t;
  updated_at = t;
}

-- The transaction of `record_issued`, which is rolled back when the insertion raises.
unfoldable pub insert_issued : Text → Value → Text → Ledger → Step
insert_issued id serialized t l =
    on_option (find_row id l.rows)
      (let l' : Ledger = record {
        rows = l.rows ++ (new_row id serialized t ∷ []);
        events =
            l.events
            ++ (record { submission = id; new_state = issued; event_error = none; observed_at = t }
                ∷ []);
      } in
        if is_bindable serialized then (read_back id l', l') else (err value_error, l))
      (λ existing.
        if json_eq existing.voucher serialized
        then (ok (record_of existing), l)
        else (err (reject "submission_id_collision" "submission_id"), l))

-- `json.dumps` of a mapping, which raises `ValueError` on a float that is not finite and on an integer
-- that is too long.
unfoldable pub serialize : Value → Result Value
serialize (obj m) = do
  reject_if (not (is_finite (obj m) && has_short_ints (obj m))) "invalid_json" "voucher"
  ok (sort_keys (obj m))
serialize v = err (reject "invalid_type" "voucher")

-- What `record_issued` checks before it opens the database.
unfoldable pub check_issue : Value → Value → Datetime → Result (Text × Value × Text)
check_issue submission_id voucher observed_at = do
  id ← string submission_id "submission_id" is_identifier
  serialized ← serialize voucher
  t ← time_text observed_at
  ok (id, serialized, t)

unfoldable pub record_issued : Value → Value → Datetime → Ledger → Step
record_issued submission_id voucher observed_at l =
    on_result (check_issue submission_id voucher observed_at) (λ e. (err e, l))
      (λ c. insert_issued c.0 c.1 c.2 l)
