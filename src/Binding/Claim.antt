-- ===== src/Binding/Claim.antt =====
-- `validate_channel_claim`: a claim against its context and a clock.
use foundry_pay.Base.{
  List, [], ◌∷◌, ltb, leb, lit, Text, Option, Result, ok, ◌>>=◌, ◌>>◌, reject_if,
}
use foundry_pay.Python.Value.{Value, Fields, at}
use foundry_pay.Python.Datetime.{Datetime, instant}
use foundry_pay.Channel.Checks.{keys}
use foundry_pay.Binding.Checks.{
  closed_object, literal, identifier, pubkey, hash, integer, amount, timestamp, clock,
  check_matches, check_member,
}
use foundry_pay.Binding.Context.{
  RecipientBindingContext, validate_binding_context, claim_attributes,
}

-- `_CLAIM_FIELDS`
unfoldable pub claim_fields : List Text
claim_fields = keys (
    "type" ∷ "protocol_version" ∷ "claim_id" ∷ "channel_id" ∷ "channel_account" ∷ "epoch"
    ∷ "locator_hash" ∷ "claim_pubkey" ∷ "voucher_hash" ∷ "cumulative_authorized_base_units"
    ∷ "state" ∷ "created_at" ∷ "expires_at" ∷ [])

-- `_CLAIM_STATES`
unfoldable pub claim_states : List Text
claim_states = keys (
    "created" ∷ "delivered" ∷ "opened" ∷ "identity_verified" ∷ "destination_bound"
    ∷ "settlement_ready" ∷ "settled" ∷ "expired" ∷ "revoked" ∷ "blocked" ∷ "already_claimed" ∷ [])

-- `_BINDABLE_CLAIM_STATES`
unfoldable pub bindable_claim_states : List Text
bindable_claim_states = keys ("created" ∷ "delivered" ∷ "opened" ∷ "identity_verified" ∷ [])

-- The types of the claim's fields.
unfoldable pub check_claim_fields : Fields → Result (Unit {0})
check_claim_fields c = do
  literal (at (lit "type") c) "channel_claim" "claim.type"
  literal (at (lit "protocol_version") c) "1.0.0" "claim.protocol_version"
  identifier (at (lit "claim_id") c) "claim.claim_id"
  identifier (at (lit "channel_id") c) "claim.channel_id"
  pubkey (at (lit "channel_account") c) "claim.channel_account"
  integer (at (lit "epoch") c) "claim.epoch" 0
  hash (at (lit "locator_hash") c) "claim.locator_hash"
  pubkey (at (lit "claim_pubkey") c) "claim.claim_pubkey"
  hash (at (lit "voucher_hash") c) "claim.voucher_hash"
  amount (at (lit "cumulative_authorized_base_units") c) "claim.cumulative_authorized_base_units"
  ok tt

-- The claim's window, and the clock in it.
unfoldable pub check_claim_window : Fields → Option Datetime → Result (Unit {0})
check_claim_window c now = do
  created ← timestamp (at (lit "created_at") c) "claim.created_at"
  expires ← timestamp (at (lit "expires_at") c) "claim.expires_at"
  reject_if (leb (instant expires) (instant created)) "invalid_claim_window" "claim.expires_at"
  current ← clock now
  reject_if (ltb (instant current) (instant created)) "claim_not_yet_valid" "claim.created_at"
  reject_if (leb (instant expires) (instant current)) "claim_expired" "claim.expires_at"

unfoldable pub validate_channel_claim :
    Value → RecipientBindingContext → Option Datetime → Result Fields
validate_channel_claim value x now = do
  validate_binding_context x
  c ← closed_object value "claim" claim_fields
  check_claim_fields c
  check_member (at (lit "state") c) claim_states "invalid_claim_state" "claim.state"
  check_claim_window c now
  check_member (at (lit "state") c) bindable_claim_states "claim_not_bindable" "claim.state"
  check_matches "claim." (claim_attributes x) c
  ok c
