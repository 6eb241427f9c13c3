-- ===== src/Voucher/Verify.antt =====
-- `verify_voucher`: one voucher against a context, a clock and a signature verifier.
pub mod Sound
pub mod Progress
use foundry_pay.Base.{
  ℕ, ◌-◌, Bool, true, false, not, Option, none, some, List, [], ◌∷◌, ltb, leb, ◌==◌, max, lit,
  String, Text, text_eq, str_append, Result, ok, err, reject, ◌>>=◌, ◌>>◌, reject_if,
}
use foundry_pay.Python.Value.{Value, Fields, obj, str, at, py_eq}
use foundry_pay.Python.Pattern.{is_hash, is_signature}
use foundry_pay.Python.Datetime.{Datetime, instant}
use foundry_pay.Canonical.Json.{Host, sha256_raw_bytes}
use foundry_pay.Channel.Checks.{keys}
use foundry_pay.Voucher.Checks.{
  closed_object, literal, integer, string, amount, timestamp, utc, differs,
}
use foundry_pay.Voucher.Payload.{payload_fields, canonical_voucher_payload}
use foundry_pay.Voucher.Context.{VoucherContext, Limits, validate_context}

-- What the caller's `SignatureVerifier` does on a key, bytes and a signature.
pub data Verdict : Type 0 where
  raised : Verdict
  answered : Bool → Verdict

abbrev pub SignatureVerifier : Type 0
SignatureVerifier = Value → List ℕ → Text → Verdict

-- `_VOUCHER_FIELDS`
unfoldable pub voucher_fields : List Text
voucher_fields =
    keys ("type" ∷ "protocol_version" ∷ "payload" ∷ "voucher_hash" ∷ "sender_signature" ∷ [])

pub record VerifiedVoucher : Type 0 where
  pub voucher_hash : Text
  pub canonical_payload : List ℕ
  pub sequence : ℕ
  pub cumulative_authorized : ℕ
  pub expires_at : Datetime

-- A voucher whose envelope is in order.
pub record Envelope : Type 0 where
  pub payload : Fields
  pub bytes : List ℕ
  pub hash : Text
  pub signature : Text

-- `expected_fields` with `mismatch_codes`
unfoldable pub expected_fields : VoucherContext → List (String × String × Value)
expected_fields x =
    ("environment", "environment_mismatch", x.environment)
    ∷ ("network", "network_mismatch", x.network)
    ∷ ("genesis_hash", "genesis_hash_mismatch", x.genesis_hash)
    ∷ ("program_id", "program_id_mismatch", x.program_id)
    ∷ ("channel_id", "channel_mismatch", x.channel_id)
    ∷ ("channel_account", "channel_account_mismatch", x.channel_account)
    ∷ ("epoch", "epoch_mismatch", x.epoch)
    ∷ ("sender", "sender_mismatch", x.sender)
    ∷ ("recipient_claim_pubkey", "recipient_mismatch", x.recipient_claim_pubkey)
    ∷ ("mint", "mint_mismatch", x.mint)
    ∷ []

unfoldable pub check_expected : List (String × String × Value) → Fields → Result (Unit {0})
check_expected [] p = ok tt
check_expected ((f, code, expected) ∷ rest) p = do
  reject_if (not (py_eq (at (lit f) p) expected)) code (str_append "payload." f)
  check_expected rest p

unfoldable pub check_context : VoucherContext → Fields → Result (Unit {0})
check_context x p = do
  check_expected (expected_fields x) p
  reject_if
      (not (py_eq (at (lit "previous_activated_voucher_hash") p) x.latest_activated_voucher_hash))
      "previous_voucher_hash_mismatch" "payload.previous_activated_voucher_hash"

-- `max(minimum, latest)` where there is a latest one
unfoldable pub floor : ℕ → Option ℕ → ℕ
floor n none = n
floor n (some m) = max n m

-- The sequence and the cumulative total against what was activated and issued before.
unfoldable pub check_progress : Limits → Option ℕ → Option ℕ → ℕ → ℕ → Result (Unit {0})
check_progress l latest_sequence latest_total sequence total = do
  reject_if (leb sequence (floor l.activated_sequence latest_sequence)) "sequence_not_monotonic"
      "payload.sequence"
  reject_if (ltb total (floor l.activated_total latest_total)) "cumulative_amount_decreased"
      "payload.cumulative_authorized_base_units"
  reject_if (total == 0) "zero_cumulative_authorization" "payload.cumulative_authorized_base_units"
  reject_if (ltb (l.funded - l.refunded) total) "authorization_exceeds_funding"
      "payload.cumulative_authorized_base_units"
  reject_if (ltb l.policy_limit total) "authorization_exceeds_policy"
      "payload.cumulative_authorized_base_units"

unfoldable pub check_validity : ℕ → ℕ → ℕ → ℕ → Result (Unit {0})
check_validity issued expires now channel_expires = do
  reject_if (ltb now issued) "voucher_issued_in_future" "payload.issued_at"
  reject_if (leb expires now) "voucher_expired" "payload.expires_at"
  reject_if (ltb channel_expires expires) "voucher_exceeds_channel_expiry" "payload.expires_at"

unfoldable pub check_verdict : Verdict → Result (Unit {0})
check_verdict raised = err (reject "signature_verifier_failed" "voucher.sender_signature")
check_verdict (answered valid) =
    reject_if (not valid) "invalid_sender_signature" "voucher.sender_signature"

module _ (h : Host) where
  unfoldable pub open_envelope : Value → Result Envelope
  open_envelope voucher = do
    e ← closed_object voucher "voucher" voucher_fields
    literal (at (lit "type") e) "channel_voucher" "voucher.type"
    literal (at (lit "protocol_version") e) "1.0.0" "voucher.protocol_version"
    payload ← closed_object (at (lit "payload") e) "payload" payload_fields
    bytes ← canonical_voucher_payload h (obj payload)
    let expected = sha256_raw_bytes h bytes
    supplied ← string (at (lit "voucher_hash") e) "voucher.voucher_hash" is_hash
    reject_if (not (text_eq supplied expected)) "voucher_hash_mismatch" "voucher.voucher_hash"
    signature ← string (at (lit "sender_signature") e) "voucher.sender_signature" is_signature
    ok (record { payload = payload; bytes = bytes; hash = expected; signature = signature })

  unfoldable pub verify_voucher :
      SignatureVerifier
      → Value
      → VoucherContext
      → Datetime
      → Option ℕ
      → Option ℕ
      → Result VerifiedVoucher
  verify_voucher verifier voucher x now latest_sequence latest_total = do
    l ← validate_context x
    checked_now ← utc now "now"
    e ← open_envelope voucher
    check_context x e.payload
    sequence ← integer (at (lit "sequence") e.payload) "payload.sequence" 1
    total ←
        amount (at (lit "cumulative_authorized_base_units") e.payload)
          "payload.cumulative_authorized_base_units"
    check_progress l latest_sequence latest_total sequence total
    issued ← timestamp (at (lit "issued_at") e.payload) "payload.issued_at"
    expires ← timestamp (at (lit "expires_at") e.payload) "payload.expires_at"
    check_validity (instant issued) (instant expires) (instant checked_now)
        (instant x.channel_expires_at)
    check_verdict (verifier x.sender e.bytes e.signature)
    ok (record {
      voucher_hash = e.hash;
      canonical_payload = e.bytes;
      sequence = sequence;
      cumulative_authorized = total;
      expires_at = expires;
    })
