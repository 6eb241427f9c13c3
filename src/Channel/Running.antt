-- ===== src/Channel/Running.antt =====
-- What a run of the checks on a channel computes with, for the tests' `unfolding` lines.
use foundry_pay.Base.{lit, text_eq, text_in}
use foundry_pay.Python.Value.{py_eq, option_eq, get, has, has_all, only, at, hashable}
use foundry_pay.Python.Pattern.{is_amount, is_hash, is_identifier, is_pubkey, is_signature}
use foundry_pay.Python.Decimal.{int_of_text}
use foundry_pay.Python.Datetime.{from_iso, instant}
use foundry_pay.Channel.Checks.{
  closed_object, literal, literal_int, literal_true, integer, amount, matching, pubkey, identifier,
  hash, signature, timestamp, pubkeys,
}
use foundry_pay.Channel.Accounts.{check_accounts, vault, project}
use foundry_pay.Channel.Status.{status_of}
use foundry_pay.Channel.Lifecycle.{
  check_times, check_closing_fields, check_window, check_open_states, check_closed,
}
use foundry_pay.Channel.Snapshot.{
  channel_required, channel_fields, policy_fields, rebind_mode, check_wallet, validate_policy,
  check_identity, check_position, read_accounts, read_times, grace_of, check_close, check_lifecycle,
  validate_fields, validate_channel,
}
use foundry_pay.Channel.Funding.{
  funding_fields, expected_after_status, check_event, same_identity, unchanged, check_observation,
  validate_funding_transition,
}

unfoldable pub running : Unit {0}
unfolding py_eq option_eq funding_fields expected_after_status check_event same_identity unchanged
    check_observation validate_funding_transition lit text_eq text_in get has has_all only at
    hashable is_amount is_hash is_identifier is_pubkey is_signature int_of_text from_iso instant
    closed_object literal literal_int literal_true integer amount matching pubkey identifier hash
    signature timestamp pubkeys check_accounts vault project status_of check_times
    check_closing_fields check_window check_open_states check_closed channel_required channel_fields
    policy_fields rebind_mode check_wallet validate_policy check_identity check_position
    read_accounts read_times grace_of check_close check_lifecycle validate_fields validate_channel
running = tt
