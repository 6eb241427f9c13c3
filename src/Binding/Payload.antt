-- ===== src/Binding/Payload.antt =====
-- `canonical_recipient_binding_payload`: the bytes that both principals sign.
use foundry_pay.Base.{
  ℕ, List, [], ◌∷◌, ltb, leb, lit, Text, Option, Result, ok, ◌>>=◌, ◌>>◌, reject_if,
}
use foundry_pay.Python.Value.{Value, Fields, obj, at}
use foundry_pay.Python.Datetime.{Datetime, instant}
use foundry_pay.Canonical.Json.{Host, canonical_json_bytes}
use foundry_pay.Channel.Checks.{keys}
use foundry_pay.Binding.Checks.{
  closed_object, literal, identifier, pubkey, hash, integer, timestamp, clock,
}
use foundry_pay.Binding.Context.{canonical_or}

-- `_BINDING_FIELDS`
unfoldable pub binding_fields : List Text
binding_fields = keys (
    "type" ∷ "protocol_version" ∷ "payload" ∷ "binding_hash" ∷ "claim_key_signature"
    ∷ "destination_wallet_signature" ∷ [])

-- `_PAYLOAD_FIELDS`
unfoldable pub binding_payload_fields : List Text
binding_payload_fields = keys (
    "domain" ∷ "protocol_version" ∷ "environment" ∷ "network" ∷ "genesis_hash" ∷ "program_id"
    ∷ "channel_id" ∷ "channel_account" ∷ "epoch" ∷ "claim_id" ∷ "claim_pubkey" ∷ "voucher_hash"
    ∷ "mint" ∷ "binding_mode" ∷ "destination_wallet" ∷ "binding_nonce" ∷ "issued_at" ∷ "expires_at"
    ∷ [])

-- The types of the payload's fields.
unfoldable pub check_payload_fields : Fields → Result (Unit {0})
check_payload_fields p = do
  literal (at (lit "domain") p) "foundry.channels.recipient-binding" "binding.payload.domain"
  literal (at (lit "protocol_version") p) "1.0.0" "binding.payload.protocol_version"
  literal (at (lit "environment") p) "devnet" "binding.payload.environment"
  literal (at (lit "network") p) "solana:devnet" "binding.payload.network"
  pubkey (at (lit "genesis_hash") p) "binding.payload.genesis_hash"
  pubkey (at (lit "program_id") p) "binding.payload.program_id"
  identifier (at (lit "channel_id") p) "binding.payload.channel_id"
  pubkey (at (lit "channel_account") p) "binding.payload.channel_account"
  integer (at (lit "epoch") p) "binding.payload.epoch" 0
  identifier (at (lit "claim_id") p) "binding.payload.claim_id"
  pubkey (at (lit "claim_pubkey") p) "binding.payload.claim_pubkey"
  hash (at (lit "voucher_hash") p) "binding.payload.voucher_hash"
  pubkey (at (lit "mint") p) "binding.payload.mint"
  literal (at (lit "binding_mode") p) "initial" "binding.payload.binding_mode"
  pubkey (at (lit "destination_wallet") p) "binding.payload.destination_wallet"
  integer (at (lit "binding_nonce") p) "binding.payload.binding_nonce" 1
  ok tt

-- The binding's window, with the clock in it, and inside the claim's.
unfoldable pub check_binding_window : Fields → Fields → Option Datetime → Result (Unit {0})
check_binding_window c p now = do
  issued ← timestamp (at (lit "issued_at") p) "binding.payload.issued_at"
  expires ← timestamp (at (lit "expires_at") p) "binding.payload.expires_at"
  reject_if (leb (instant expires) (instant issued)) "invalid_binding_window"
      "binding.payload.expires_at"
  current ← clock now
  reject_if (ltb (instant current) (instant issued)) "binding_not_yet_valid"
      "binding.payload.issued_at"
  reject_if (leb (instant expires) (instant current)) "binding_expired" "binding.payload.expires_at"
  claim_created ← timestamp (at (lit "created_at") c) "claim.created_at"
  claim_expires ← timestamp (at (lit "expires_at") c) "claim.expires_at"
  reject_if (ltb (instant issued) (instant claim_created)) "binding_predates_claim"
      "binding.payload.issued_at"
  reject_if (ltb (instant claim_expires) (instant expires)) "binding_outlives_claim"
      "binding.payload.expires_at"

unfoldable pub canonical_recipient_binding_payload :
    Host → Value → Fields → Option Datetime → Result (List ℕ)
canonical_recipient_binding_payload h value c now = do
  b ← closed_object value "binding" binding_fields
  literal (at (lit "type") b) "recipient_binding" "binding.type"
  literal (at (lit "protocol_version") b) "1.0.0" "binding.protocol_version"
  p ← closed_object (at (lit "payload") b) "binding.payload" binding_payload_fields
  check_payload_fields p
  check_binding_window c p now
  canonical_or "binding.payload" (canonical_json_bytes h (obj p))
