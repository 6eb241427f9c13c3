-- ===== src/Closure/Sample.antt =====
-- Documents of a closure and of two refunds in it, on which the tests run.
use foundry_pay.Base.{ℕ, ◌+◌, Option, some, String, Text, lit, List, [], ◌∷◌, ◌++◌, true, length}
use foundry_pay.Python.Value.{Value, Fields, int, pos, str, obj, at}
use foundry_pay.Python.Datetime.{Datetime}
use foundry_pay.Canonical.Json.{Host}
use foundry_pay.Channel.Sample.{text, object, key_a, key_b, hash_a, hash_zero}
use foundry_pay.Closure.Table.{ClosureDb}
use foundry_pay.Closure.Runtime.Reconcile.{RefundObservationVerifier}

abbrev size_of : Value → ℕ
size_of (str s) = length s
size_of v = 0

abbrev number_of : Value → ℕ
number_of (int (pos n)) = n
number_of v = 0

-- The number of an entry and the length of its refund's identifier stand for the bytes.
abbrev serialize : Value → Option (List ℕ)
serialize (obj m) = some (number_of (at (lit "sequence") m) ∷ size_of (at (lit "refund_id") m) ∷ [])
serialize v = some []

-- Sixty-two fixed digits of a hash, and two that tell these bytes apart.
abbrev digest : List ℕ → Text
digest (n ∷ m ∷ bytes) =
    lit "aaaaaaaaaaaaaaaaaaaaaaaaaaaaaaaaaaaaaaaaaaaaaaaaaaaaaaaaaaaaaa"
    ++ ((48 + n) ∷ (48 + m) ∷ [])
digest bytes = lit "aaaaaaaaaaaaaaaaaaaaaaaaaaaaaaaaaaaaaaaaaaaaaaaaaaaaaaaaaaaaaaaa"

abbrev pub host : Host
host = record { dumps = serialize; sha256_hex = digest }

-- A hash with its last digit
abbrev pub sealed : String → Value
sealed digit =
    str (lit "sha256:aaaaaaaaaaaaaaaaaaaaaaaaaaaaaaaaaaaaaaaaaaaaaaaaaaaaaaaaaaaaaa0" ++ lit digit)

abbrev pub now : Option Datetime
now = some (record {
  year = 2026;
  month = 7;
  day = 5;
  hour = 12;
  minute = 0;
  second = 0;
  microsecond = 0;
  utc = true;
})

abbrev pub domain : Value
domain = obj (
    object (
      ("environment", text "devnet")
      ∷ ("network", text "solana:devnet")
      ∷ ("genesis_hash", text key_a)
      ∷ ("program_id", text key_a)
      ∷ []))

abbrev pub channel : Value
channel = obj (
    object (
      ("channel_id", text "channel-1")
      ∷ ("channel_account", text key_a)
      ∷ ("epoch", int (pos 0))
      ∷ ("sender", text key_b)
      ∷ ("mint", text key_a)
      ∷ []))

-- A freeze snapshot with its funded and refunded totals, its vault and its spare capacity
abbrev pub freeze : String → String → String → String → Fields
freeze funded refunded vault spare = object (
    ("type", text "closure_snapshot_at_freeze")
    ∷ ("protocol_version", text "1.0.0")
    ∷ ("domain", domain)
    ∷ ("channel", channel)
    ∷ ("closure_id", text "closure-1")
    ∷ ("request_snapshot_hash", text hash_a)
    ∷ ("channel_snapshot_hash", text hash_a)
    ∷ ("funded_total_base_units", text funded)
    ∷ ("activated_total_base_units", text "300")
    ∷ ("settled_total_base_units", text "100")
    ∷ ("refunded_total_base_units", text refunded)
    ∷ ("vault_balance_base_units", text vault)
    ∷ ("outstanding_right_base_units", text "200")
    ∷ ("excess_refundable_base_units", text spare)
    ∷ ("latest_activated_sequence", int (pos 2))
    ∷ ("latest_activated_voucher_hash", text hash_zero)
    ∷ ("claim_deadline", text "2026-07-04T00:00:00Z")
    ∷ ("frozen_at", text "2026-07-04T00:00:00Z")
    ∷ ("unresolved_operation_count", int (pos 0))
    ∷ ("channel_status", text "closing")
    ∷ ("closure_phase", text "ready_to_finalize")
    ∷ ("freeze_snapshot_hash", sealed "0")
    ∷ [])

abbrev pub first_freeze : Fields
first_freeze = freeze "500" "50" "350" "150"

abbrev pub second_freeze : Fields
second_freeze = freeze "500" "110" "290" "90"

-- A refund request with its identifier, the last digit of its hash, and its amount
abbrev pub request : String → String → String → Fields
request refund_id digit amount = object (
    ("type", text "refund_request")
    ∷ ("protocol_version", text "1.0.0")
    ∷ ("domain", domain)
    ∷ ("channel", channel)
    ∷ ("closure_id", text "closure-1")
    ∷ ("refund_id", text refund_id)
    ∷ ("idempotency_key", text refund_id)
    ∷ ("reason", text "post_claim_window_unallocated")
    ∷ ("destination", text key_b)
    ∷ ("requested_base_units", text amount)
    ∷ ("freeze_snapshot_hash", sealed "0")
    ∷ ("created_at", text "2026-07-05T00:00:00Z")
    ∷ ("expires_at", text "2026-07-09T00:00:00Z")
    ∷ ("request_hash", sealed digit)
    ∷ [])

abbrev pub commitment : String → Fields
commitment digit = object (
    ("type", text "refund_execution_commitment")
    ∷ ("protocol_version", text "1.0.0")
    ∷ ("refund_request_hash", sealed digit)
    ∷ ("refund_projection_hash", sealed "0")
    ∷ ("execution_request_id", text "execution-1")
    ∷ ("execution_commitment_hash", text hash_a)
    ∷ ("prepared_message_hash", text hash_a)
    ∷ ("executor_id", text "executor-1")
    ∷ ("expected_signer", text key_a)
    ∷ ("expires_at", text "2026-07-09T00:00:00Z")
    ∷ [])

abbrev pub receipt : String → String → Fields
receipt refund_id digit = object (
    ("type", text "technical_refund_receipt")
    ∷ ("protocol_version", text "1.0.0")
    ∷ ("refund_id", text refund_id)
    ∷ ("refund_request_hash", sealed digit)
    ∷ ("execution_request_id", text "execution-1")
    ∷ ("execution_commitment_hash", text hash_a)
    ∷ ("outcome", text "accepted")
    ∷ ("signature_status", text "known")
    ∷ ("technical_status", text "confirmed")
    ∷ ("observed_at", text "2026-07-05T12:00:00Z")
    ∷ ("receipt_hash", sealed digit)
    ∷ ("transaction_signature", text "signature-1")
    ∷ [])

-- An observation of a refund, with the refunded totals and the vault's balances around it
abbrev pub observation : String → String → String → String → String → String → Fields
observation refund_id digit refunded_before refunded_after vault_before vault_after = object (
    ("type", text "channel_refund_observation")
    ∷ ("protocol_version", text "1.0.0")
    ∷ ("domain", domain)
    ∷ ("source_id", text "observer-1")
    ∷ ("refund_id", text refund_id)
    ∷ ("channel_id", text "channel-1")
    ∷ ("channel_account", text key_a)
    ∷ ("epoch", int (pos 0))
    ∷ ("mint", text key_a)
    ∷ ("destination", text key_b)
    ∷ ("refund_request_hash", sealed digit)
    ∷ ("refund_projection_hash", sealed "0")
    ∷ ("funded_total_base_units", text "500")
    ∷ ("activated_total_base_units", text "300")
    ∷ ("settled_total_base_units", text "100")
    ∷ ("refunded_total_before_base_units", text refunded_before)
    ∷ ("refunded_total_after_base_units", text refunded_after)
    ∷ ("vault_balance_before_base_units", text vault_before)
    ∷ ("vault_balance_after_base_units", text vault_after)
    ∷ ("transaction_signature", text "signature-1")
    ∷ ("observed_at", text "2026-07-05T12:00:00Z")
    ∷ ("observation_hash", sealed digit)
    ∷ [])

abbrev pub observer : RefundObservationVerifier
observer = record { source_id = lit "observer-1"; verify = λ m. true }

abbrev pub empty : ClosureDb
empty = record { refunds = []; events = [] }
