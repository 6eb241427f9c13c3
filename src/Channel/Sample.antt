-- ===== src/Channel/Sample.antt =====
-- Snapshots on which the tests and the instances of the theorems run.
use foundry_pay.Base.{ℕ, true, List, [], ◌∷◌, String, lit}
use foundry_pay.Python.Value.{Value, Fields, pos, bool, int, str, obj, end, field}

abbrev pub text : String → Value
text s = str (lit s)

-- An object from its keys and values.
abbrev pub object : List (String × Value) → Fields
object [] = end
object ((k, v) ∷ m) = field (lit k) v (object m)

abbrev pub key_a : String
key_a = "So11111111111111111111111111111111111111112"

abbrev pub key_b : String
key_b = "4uQeVj5tqViQh7yWWGStvkEG1Zmhx6uasJtWCJziofM"

abbrev pub wallet : String
wallet = "9xQeWvG816bUx9EPjHmaT23yvVM2ZWbrrpZb9PusVFin"

abbrev pub hash_a : String
hash_a = "sha256:aaaaaaaaaaaaaaaaaaaaaaaaaaaaaaaaaaaaaaaaaaaaaaaaaaaaaaaaaaaaaaaa"

abbrev pub hash_zero : String
hash_zero = "sha256:0000000000000000000000000000000000000000000000000000000000000000"

abbrev pub policy : Fields
policy = object (
    ("type", text "channel_policy")
    ∷ ("protocol_version", text "1.0.0")
    ∷ ("channel_id", text "channel-1")
    ∷ ("max_cumulative_authorized_base_units", text "1000")
    ∷ ("allow_partial_settlement", bool true)
    ∷ ("allow_top_up", bool true)
    ∷ ("minimum_close_grace_seconds", int (pos 60))
    ∷ ("rebind_mode", text "disabled")
    ∷ [])

-- A snapshot with its state, its four amounts, its sequence, its last update and further fields.
abbrev pub snapshot :
    String → String → String → String → String → ℕ → String → List (String × Value) → Fields
snapshot status funded activated settled refunded sequence updated more = object (
    ("type", text "channel")
    ∷ ("protocol_version", text "1.0.0")
    ∷ ("account_version", int (pos 1))
    ∷ ("environment", text "devnet")
    ∷ ("network", text "solana:devnet")
    ∷ ("genesis_hash", text key_a)
    ∷ ("program_id", text key_a)
    ∷ ("channel_id", text "channel-1")
    ∷ ("channel_account", text key_a)
    ∷ ("epoch", int (pos 0))
    ∷ ("sender", text key_a)
    ∷ ("recipient_claim_pubkey", text key_b)
    ∷ ("mint", text key_a)
    ∷ ("decimals", int (pos 6))
    ∷ ("vault_token_account", text key_b)
    ∷ ("funded_total_base_units", text funded)
    ∷ ("activated_authorized_total_base_units", text activated)
    ∷ ("settled_total_base_units", text settled)
    ∷ ("refunded_total_base_units", text refunded)
    ∷ ("latest_activated_sequence", int (pos sequence))
    ∷ ("latest_activated_voucher_hash", text hash_zero)
    ∷ ("status", text status)
    ∷ ("expires_at", text "2026-08-01T00:00:00Z")
    ∷ ("policy", obj policy)
    ∷ ("created_at", text "2026-07-01T00:00:00Z")
    ∷ ("updated_at", text updated)
    ∷ more)

abbrev pub active_channel : Fields
active_channel = snapshot "active" "500" "300" "100" "50" 2 "2026-07-02T00:00:00Z" []

abbrev pub topped_up_channel : Fields
topped_up_channel = snapshot "active" "700" "300" "100" "50" 2 "2026-07-03T00:00:00Z" []

abbrev pub closed_channel : Fields
closed_channel = snapshot "closed" "500" "300" "300" "200" 2 "2026-07-05T00:00:00Z" (
    ("close_requested_at", text "2026-07-03T00:00:00Z")
    ∷ ("claim_deadline", text "2026-07-04T00:00:00Z")
    ∷ [])
