-- ===== src/Voucher/Running.antt =====
-- What a run of the voucher checks and of the ledger computes with, for the tests' `unfolding` lines.
use foundry_pay.Base.{lit, is_encodable, text_eq, text_lt, text_in}
use foundry_pay.Python.Value.{get, has, has_all, only, without, at, py_eq}
use foundry_pay.Python.Pattern.{is_amount, is_hash, is_identifier, is_pubkey, is_signature}
use foundry_pay.Python.Decimal.{int_of_text}
use foundry_pay.Python.Datetime.{strptime, strftime, instant}
use foundry_pay.Python.Json.{sort_keys, is_finite, is_short, has_short_ints, is_bindable, json_eq}
use foundry_pay.Canonical.Json.{
  check_text, validate_json_value, canonical_json_bytes, sha256_raw_bytes, sha256_canonical_json,
}
use foundry_pay.Canonical.Record.{
  verify_declared_hash, unsigned_record_projection, verify_self_hashed_record,
}
use foundry_pay.Channel.Checks as Channel
use foundry_pay.Voucher.Checks.{closed_object, literal, integer, string, amount, timestamp, utc}
use foundry_pay.Voucher.Payload.{payload_fields, pubkeys, check_payload, canonical_voucher_payload}
use foundry_pay.Voucher.Context.{
  key_fields, bounded, check_limits, zero_hash, check_latest_hash, validate_context,
}
use foundry_pay.Voucher.Verify.{
  voucher_fields, expected_fields, check_expected, check_context, floor, check_progress,
  check_validity, check_verdict, open_envelope, verify_voucher,
}
use foundry_pay.Voucher.Table.{find_row, update_row, is_candidate, later, latest}
use foundry_pay.Voucher.Record.{
  record_of, time_text, identity, domain_key, transition, read_back, insert_issued, serialize,
  check_issue, record_issued,
}
use foundry_pay.Voucher.Ledger.{
  fill, record_failure, try_verify, verify_row, verify_found, verify_at, verify_issued,
  try_activate, check_clock, activate_row, activate_found, activate_at, request_activation,
  get_record, events_of,
}

unfoldable pub running : Unit {0}
unfolding lit text_eq text_lt text_in get has has_all only without at py_eq is_amount is_hash
    is_identifier is_pubkey is_signature int_of_text strptime strftime instant sort_keys is_finite
    is_short has_short_ints is_encodable is_bindable json_eq check_text validate_json_value
    canonical_json_bytes sha256_raw_bytes sha256_canonical_json verify_declared_hash
    unsigned_record_projection verify_self_hashed_record Channel.closed_object Channel.literal
    Channel.matching Channel.amount closed_object literal integer string amount timestamp utc
    payload_fields pubkeys check_payload canonical_voucher_payload key_fields bounded check_limits
    zero_hash check_latest_hash validate_context voucher_fields expected_fields check_expected
    check_context floor check_progress check_validity check_verdict open_envelope verify_voucher
    find_row update_row is_candidate later latest record_of time_text identity domain_key transition
    read_back insert_issued serialize check_issue record_issued fill record_failure try_verify
    verify_row verify_found verify_at verify_issued try_activate check_clock activate_row
    activate_found activate_at request_activation get_record events_of
running = tt
