-- ===== src/Voucher/Payload.antt =====
-- `canonical_voucher_payload` and `voucher_payload_hash`.
use foundry_pay.Base.{
  ℕ, List, [], ◌∷◌, leb, lit, String, Text, str_append, Result, ok, err, reject, canonical, ◌>>=◌,
  ◌>>◌, reject_if,
}
use foundry_pay.Python.Value.{Value, Fields, obj, at}
use foundry_pay.Python.Pattern.{is_hash, is_identifier, is_pubkey}
use foundry_pay.Python.Datetime.{instant}
use foundry_pay.Canonical.Json.{Host, canonical_json_bytes, sha256_raw_bytes}
use foundry_pay.Channel.Checks.{keys}
use foundry_pay.Voucher.Checks.{closed_object, integer, string, amount, timestamp, differs}

-- `_PAYLOAD_FIELDS`
unfoldable pub payload_fields : List Text
payload_fields = keys (
    "domain" ∷ "protocol_version" ∷ "environment" ∷ "network" ∷ "genesis_hash" ∷ "program_id"
    ∷ "channel_id" ∷ "channel_account" ∷ "epoch" ∷ "sequence" ∷ "previous_activated_voucher_hash"
    ∷ "sender" ∷ "recipient_claim_pubkey" ∷ "mint" ∷ "cumulative_authorized_base_units"
    ∷ "issued_at" ∷ "expires_at" ∷ [])

-- The loop over the public keys, with the prefix of the field's name in a rejection.
unfoldable pub pubkeys : String → List String → Fields → Result (Unit {0})
pubkeys prefix [] m = ok tt
pubkeys prefix (f ∷ fs) m = do
  string (at (lit f) m) (str_append prefix f) is_pubkey
  pubkeys prefix fs m

-- `except CanonicalizationError`
abbrev pub canonicalized : Result (List ℕ) → Result (List ℕ)
canonicalized (err (canonical code stage)) = err (reject "canonicalization_failed" "payload")
canonicalized r = r

-- The checks on a payload with the right fields.
unfoldable pub check_payload : Fields → Result (Unit {0})
check_payload p = do
  reject_if (differs (at (lit "domain") p) (lit "foundry.channels.voucher")) "domain_mismatch"
      "payload.domain"
  reject_if (differs (at (lit "protocol_version") p) (lit "1.0.0")) "protocol_version_unsupported"
      "payload.protocol_version"
  reject_if (differs (at (lit "environment") p) (lit "devnet")) "environment_mismatch"
      "payload.environment"
  reject_if (differs (at (lit "network") p) (lit "solana:devnet")) "network_mismatch"
      "payload.network"
  pubkeys "payload."
      ("genesis_hash" ∷ "program_id" ∷ "channel_account" ∷ "sender" ∷ "recipient_claim_pubkey"
        ∷ "mint" ∷ [])
      p
  string (at (lit "channel_id") p) "payload.channel_id" is_identifier
  integer (at (lit "epoch") p) "payload.epoch" 0
  integer (at (lit "sequence") p) "payload.sequence" 1
  string (at (lit "previous_activated_voucher_hash") p) "payload.previous_activated_voucher_hash"
      is_hash
  amount (at (lit "cumulative_authorized_base_units") p) "payload.cumulative_authorized_base_units"
  issued ← timestamp (at (lit "issued_at") p) "payload.issued_at"
  expires ← timestamp (at (lit "expires_at") p) "payload.expires_at"
  reject_if (leb (instant expires) (instant issued)) "voucher_time_order_invalid"
      "payload.expires_at"

module _ (h : Host) where
  unfoldable pub canonical_voucher_payload : Value → Result (List ℕ)
  canonical_voucher_payload payload = do
    p ← closed_object payload "payload" payload_fields
    check_payload p
    canonicalized (canonical_json_bytes h (obj p))

  unfoldable pub voucher_payload_hash : Value → Result Text
  voucher_payload_hash payload = do
    bytes ← canonical_voucher_payload payload
    ok (sha256_raw_bytes h bytes)
