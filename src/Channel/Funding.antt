-- ===== src/Channel/Funding.antt =====
-- `validate_funding_transition` of channel.py: one observed funding against the snapshots on both
-- sides of it.
pub mod Effect
use foundry_pay.Base.{
  ℕ, ◌+◌, Bool, true, false, not, ◌||◌, List, [], ◌∷◌, ltb, ◌==◌, if◌then◌else◌, lit, String, Text,
  str_append, Option, none, Result, ok, err, reject, ◌>>=◌, ◌>>◌, reject_if,
}
use foundry_pay.Python.Value.{Value, Fields, bool, get, at, py_eq, option_eq}
use foundry_pay.Python.Datetime.{instant}
use foundry_pay.Channel.Checks.{
  keys, closed_object, literal, integer, amount, pubkey, identifier, signature, timestamp,
}
use foundry_pay.Channel.Accounts.{Projection}
use foundry_pay.Channel.Snapshot.{validate_channel, fields_of, is_text}

-- `_FUNDING_FIELDS`
unfoldable pub funding_fields : List Text
funding_fields = keys (
    "type" ∷ "protocol_version" ∷ "funding_id" ∷ "channel_id" ∷ "channel_account" ∷ "mint"
    ∷ "amount_base_units" ∷ "funded_total_after_base_units" ∷ "transaction_signature"
    ∷ "observed_slot" ∷ "observed_at" ∷ [])

abbrev pub immutable_fields : List String
immutable_fields =
    "environment" ∷ "network" ∷ "genesis_hash" ∷ "program_id" ∷ "channel_id" ∷ "channel_account"
    ∷ "epoch" ∷ "sender" ∷ "recipient_claim_pubkey" ∷ "recipient_wallet" ∷ "mint" ∷ "decimals"
    ∷ "vault_token_account" ∷ "activated_authorized_total_base_units" ∷ "settled_total_base_units"
    ∷ "refunded_total_base_units" ∷ "latest_activated_sequence" ∷ "latest_activated_voucher_hash"
    ∷ "expires_at" ∷ "policy" ∷ "created_at" ∷ []

abbrev is_true : Value → Bool
is_true (bool true) = true
is_true v = false

-- The state after a funding; a top-up of an active channel wants the policy's leave.
unfoldable pub expected_after_status : Fields → Result String
expected_after_status c =
    if is_text (at (lit "status") c) (lit "funding")
    then ok "active"
    else if is_text (at (lit "status") c) (lit "active")
    then (reject_if (not (is_true (at (lit "allow_top_up") (fields_of (at (lit "policy") c)))))
          "top_up_forbidden" "previous_channel.policy.allow_top_up"
        >> ok "active")
    else err (reject "funding_lifecycle_forbidden" "previous_channel.status")

-- The event's own fields: its amount and the total that it states.
unfoldable pub check_event : Fields → ℕ → Result (ℕ × ℕ)
check_event e funded_before = do
  literal (at (lit "type") e) "channel_funding" "funding.type"
  literal (at (lit "protocol_version") e) "1.0.0" "funding.protocol_version"
  identifier (at (lit "funding_id") e) "funding.funding_id"
  identifier (at (lit "channel_id") e) "funding.channel_id"
  pubkey (at (lit "channel_account") e) "funding.channel_account"
  pubkey (at (lit "mint") e) "funding.mint"
  paid ← amount (at (lit "amount_base_units") e) "funding.amount_base_units"
  reject_if (paid == 0) "zero_funding" "funding.amount_base_units"
  total ←
      amount (at (lit "funded_total_after_base_units") e) "funding.funded_total_after_base_units"
  reject_if (not (total == funded_before + paid)) "funding_total_mismatch"
      "funding.funded_total_after_base_units"
  integer (at (lit "observed_slot") e) "funding.observed_slot" 0 none
  timestamp (at (lit "observed_at") e) "funding.observed_at"
  signature (at (lit "transaction_signature") e) "funding.transaction_signature"
  ok (paid, total)

-- The loop over the fields that the event and the channel share.
unfoldable pub same_identity : List String → Fields → Fields → Result (Unit {0})
same_identity [] e c = ok tt
same_identity (f ∷ fs) e c = do
  reject_if (not (py_eq (at (lit f) e) (at (lit f) c))) "funding_identity_mismatch"
      (str_append "funding." f)
  same_identity fs e c

-- The loop over `immutable_fields`
unfoldable pub unchanged : List String → Fields → Fields → Result (Unit {0})
unchanged [] before after = ok tt
unchanged (f ∷ fs) before after = do
  reject_if (not (option_eq (get (lit f) before) (get (lit f) after)))
      "funding_immutable_field_changed" (str_append "channel_after." f)
  unchanged fs before after

unfoldable pub check_observation : Fields → Fields → Fields → Result (Unit {0})
check_observation before e after = do
  previous_updated ← timestamp (at (lit "updated_at") before) "previous_channel.updated_at"
  observed_at ← timestamp (at (lit "observed_at") e) "funding.observed_at"
  after_updated ← timestamp (at (lit "updated_at") after) "channel_after.updated_at"
  reject_if
      (ltb (instant observed_at) (instant previous_updated)
        || ltb (instant after_updated) (instant observed_at))
      "funding_time_order_invalid" "funding.observed_at"

unfoldable pub validate_funding_transition : Value → Value → Value → Result Projection
validate_funding_transition previous_channel funding channel_after = do
  previous ← validate_channel previous_channel
  let before = fields_of previous_channel
  expected ← expected_after_status before
  e ← closed_object funding "funding" funding_fields funding_fields
  (_, total) ← check_event e previous.funded_total
  projection ← validate_channel channel_after
  let after = fields_of channel_after
  reject_if (not (is_text (at (lit "status") after) (lit expected)))
      "funding_status_transition_invalid" "channel_after.status"
  same_identity ("channel_id" ∷ "channel_account" ∷ "mint" ∷ []) e after
  unchanged immutable_fields before after
  reject_if (not (total == projection.funded_total)) "funding_snapshot_mismatch"
      "funding.funded_total_after_base_units"
  check_observation before e after
  ok projection
