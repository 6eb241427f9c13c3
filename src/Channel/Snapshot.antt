-- ===== src/Channel/Snapshot.antt =====
-- `validate_channel` of channel.py, in the order of its checks.
pub mod Accepts
use foundry_pay.Base.{
  ℕ, Bool, true, false, Option, none, some, List, [], ◌∷◌, map, leb, if◌then◌else◌, lit, String,
  Text, text_eq, not, ◌||◌, Result, ok, err, reject, type_error, ◌>>=◌, ◌>>◌, reject_if,
}
use foundry_pay.Python.Value.{Value, Fields, pos, bool, int, str, obj, end, get, has, at, hashable}
use foundry_pay.Python.Datetime.{Datetime, instant}
use foundry_pay.Channel.Checks.{
  keys, closed_object, literal, literal_int, literal_true, integer, amount, pubkey, pubkeys,
  identifier, hash, timestamp,
}
use foundry_pay.Channel.Accounts.{Accounts, Projection, check_accounts, project}
use foundry_pay.Channel.Status.{Status, status_of}
use foundry_pay.Channel.Lifecycle.{
  Times, check_times, check_closing_fields, check_window, check_open_states, check_closed,
}

-- `_CHANNEL_REQUIRED`
unfoldable pub channel_required : List Text
channel_required = keys (
    "type" ∷ "protocol_version" ∷ "account_version" ∷ "environment" ∷ "network" ∷ "genesis_hash"
    ∷ "program_id" ∷ "channel_id" ∷ "channel_account" ∷ "epoch" ∷ "sender"
    ∷ "recipient_claim_pubkey" ∷ "mint" ∷ "decimals" ∷ "vault_token_account"
    ∷ "funded_total_base_units" ∷ "activated_authorized_total_base_units"
    ∷ "settled_total_base_units" ∷ "refunded_total_base_units" ∷ "latest_activated_sequence"
    ∷ "latest_activated_voucher_hash" ∷ "status" ∷ "expires_at" ∷ "policy" ∷ "created_at"
    ∷ "updated_at" ∷ [])

-- `_CHANNEL_FIELDS`
unfoldable pub channel_fields : List Text
channel_fields =
    lit "recipient_wallet" ∷ lit "close_requested_at" ∷ lit "claim_deadline" ∷ channel_required

-- `_POLICY_FIELDS`
unfoldable pub policy_fields : List Text
policy_fields = keys (
    "type" ∷ "protocol_version" ∷ "channel_id" ∷ "max_cumulative_authorized_base_units"
    ∷ "allow_partial_settlement" ∷ "allow_top_up" ∷ "minimum_close_grace_seconds" ∷ "rebind_mode"
    ∷ [])

abbrev pub is_bool : Value → Bool
is_bool (bool b) = true
is_bool v = false

-- `policy["rebind_mode"] not in {...}`, which raises on a value that cannot be hashed
unfoldable pub rebind_mode : Value → Result (Unit {0})
rebind_mode (str s) =
    reject_if (not (text_eq s (lit "disabled") || text_eq s (lit "current_and_new_wallet")))
      "invalid_rebind_mode" "policy.rebind_mode"
rebind_mode v =
    if hashable v then err (reject "invalid_rebind_mode" "policy.rebind_mode") else err type_error

abbrev pub is_text : Value → Text → Bool
is_text (str s) t = text_eq s t
is_text v t = false

-- `_validate_policy`
unfoldable pub validate_policy : Value → Text → Result ℕ
validate_policy value channel_id = do
  policy ← closed_object value "policy" policy_fields policy_fields
  literal (at (lit "type") policy) "channel_policy" "policy.type"
  literal (at (lit "protocol_version") policy) "1.0.0" "policy.protocol_version"
  reject_if (not (is_text (at (lit "channel_id") policy) channel_id)) "policy_channel_mismatch"
      "policy.channel_id"
  limit ←
      amount (at (lit "max_cumulative_authorized_base_units") policy)
        "policy.max_cumulative_authorized_base_units"
  literal_true (at (lit "allow_partial_settlement") policy) "policy.allow_partial_settlement"
  reject_if (not (is_bool (at (lit "allow_top_up") policy))) "invalid_type" "policy.allow_top_up"
  integer (at (lit "minimum_close_grace_seconds") policy) "policy.minimum_close_grace_seconds" 1
      (some 31_536_000)
  rebind_mode (at (lit "rebind_mode") policy)
  ok limit

-- `if "recipient_wallet" in channel: _pubkey(...)`
unfoldable pub check_wallet : Fields → Result (Unit {0})
check_wallet c =
    if has (lit "recipient_wallet") c then pubkeys ("recipient_wallet" ∷ []) c else ok tt

-- The literals, the public keys and the identifier.
unfoldable pub check_identity : Fields → Result Text
check_identity c = do
  literal (at (lit "type") c) "channel" "type"
  literal (at (lit "protocol_version") c) "1.0.0" "protocol_version"
  literal_int (at (lit "account_version") c) 1 "account_version"
  literal (at (lit "environment") c) "devnet" "environment"
  literal (at (lit "network") c) "solana:devnet" "network"
  pubkeys
      ("genesis_hash" ∷ "program_id" ∷ "channel_account" ∷ "sender" ∷ "recipient_claim_pubkey"
        ∷ "mint" ∷ "vault_token_account" ∷ [])
      c
  check_wallet c
  identifier (at (lit "channel_id") c) "channel_id"

-- The epoch, the decimals, the sequence, which is the result, and the latest voucher's hash.
unfoldable pub check_position : Fields → Result ℕ
check_position c = do
  integer (at (lit "epoch") c) "epoch" 0 none
  integer (at (lit "decimals") c) "decimals" 0 (some 18)
  sequence ← integer (at (lit "latest_activated_sequence") c) "latest_activated_sequence" 0 none
  hash (at (lit "latest_activated_voucher_hash") c) "latest_activated_voucher_hash"
  ok sequence

-- The four amounts, and the limit that a valid policy sets.
unfoldable pub read_accounts : Fields → Text → ℕ → Result Accounts
read_accounts c channel_id sequence = do
  funded ← amount (at (lit "funded_total_base_units") c) "funded_total_base_units"
  activated ←
      amount (at (lit "activated_authorized_total_base_units") c)
        "activated_authorized_total_base_units"
  settled ← amount (at (lit "settled_total_base_units") c) "settled_total_base_units"
  refunded ← amount (at (lit "refunded_total_base_units") c) "refunded_total_base_units"
  limit ← validate_policy (at (lit "policy") c) channel_id
  ok (record {
    funded = funded;
    activated = activated;
    settled = settled;
    refunded = refunded;
    policy_limit = limit;
    sequence = sequence;
  })

unfoldable pub read_times : Fields → Result Times
read_times c = do
  created ← timestamp (at (lit "created_at") c) "created_at"
  updated ← timestamp (at (lit "updated_at") c) "updated_at"
  expires ← timestamp (at (lit "expires_at") c) "expires_at"
  ok (record { created = instant created; updated = instant updated; expires = instant expires })

abbrev pub fields_of : Value → Fields
fields_of (obj m) = m
fields_of v = end

abbrev pub nat_of : Value → ℕ
nat_of (int (pos n)) = n
nat_of v = 0

-- `channel["policy"]["minimum_close_grace_seconds"]`
unfoldable pub grace_of : Fields → ℕ
grace_of c = nat_of (at (lit "minimum_close_grace_seconds") (fields_of (at (lit "policy") c)))

-- The close timestamps, if they are there: the deadline is the result.
unfoldable pub check_close : Fields → Times → Bool → Result (Option ℕ)
check_close c t false = ok none
check_close c t true = do
  requested ← timestamp (at (lit "close_requested_at") c) "close_requested_at"
  deadline ← timestamp (at (lit "claim_deadline") c) "claim_deadline"
  check_window t (instant requested) (instant deadline) (grace_of c)
  ok (some (instant deadline))

-- From the lifecycle state on: all checks on a snapshot whose amounts and times are read.
unfoldable pub check_lifecycle : Fields → Accounts → Times → Result (Unit {0})
check_lifecycle c a t = do
  status ← status_of (at (lit "status") c)
  let has_close = has (lit "close_requested_at") c
  check_closing_fields status has_close (has (lit "claim_deadline") c)
  deadline ← check_close c t has_close
  check_open_states status a t (has (lit "recipient_wallet") c)
  check_closed status a t deadline

-- The body of `validate_channel` on an object with the right fields.
unfoldable pub validate_fields : Fields → Result Projection
validate_fields c = do
  channel_id ← check_identity c
  sequence ← check_position c
  a ← read_accounts c channel_id sequence
  check_accounts a
  t ← read_times c
  check_times t
  check_lifecycle c a t
  ok (project a)

unfoldable pub validate_channel : Value → Result Projection
validate_channel value = do
  c ← closed_object value "channel" channel_required channel_fields
  validate_fields c
