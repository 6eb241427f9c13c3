-- ===== src/Canonical/Record.antt =====
-- Self-hashed records, and the checks on declared hashes and registered domains.
pub mod Sealed
use foundry_pay.Base.{
  ℕ, Bool, true, false, not, ◌&&◌, Option, none, some, List, [], ◌∷◌, ltb, if◌then◌else◌, lit, Text,
  text_eq, text_in, map, String, Result, ok, err, canonical, ◌>>=◌, ◌>>◌,
}
use foundry_pay.Python.Value.{Value, Fields, pos, int, str, obj, has, without, at}
use foundry_pay.Python.Pattern.{is_amount, is_hash}
use foundry_pay.Python.Decimal.{int_of_text}
use foundry_pay.Python.Datetime.{strptime}
use foundry_pay.Canonical.Json.{Host, sha256_canonical_json}

-- `if c: _reject(code, stage, ...)`
abbrev pub refuse_if : Bool → String → String → Result (Unit {0})
refuse_if true code stage = err (canonical code stage)
refuse_if false code stage = ok tt

abbrev pub is_hash_value : Value → Bool
is_hash_value (str s) = is_hash s
is_hash_value v = false

abbrev pub same_text : Value → Text → Bool
same_text (str s) t = text_eq s t
same_text v t = false

unfoldable pub verify_declared_hash : Value → Text → Result (Unit {0})
verify_declared_hash value expected = do
  refuse_if (not (is_hash_value value)) "invalid_hash" "hash_verification"
  refuse_if (not (is_hash expected)) "invalid_hash" "hash_verification"
  refuse_if (not (same_text value expected)) "hash_mismatch" "hash_verification"

abbrev is_empty : Text → Bool
is_empty [] = true
is_empty (c ∷ s) = false

unfoldable pub unsigned_record_projection : Value → Text → Result Fields
unsigned_record_projection (obj m) own_hash_field = do
  refuse_if (is_empty own_hash_field) "invalid_hash_field" "projection"
  refuse_if (not (has own_hash_field m)) "own_hash_missing" "projection"
  ok (without own_hash_field m)
unsigned_record_projection v own_hash_field = err (canonical "invalid_record" "projection")

abbrev pub members : Value → Fields
members (obj m) = m
members v = Fields.end

module _ (h : Host) where
  unfoldable pub verify_self_hashed_record : Value → Text → Result Fields
  verify_self_hashed_record record_value own_hash_field = do
    projection ← unsigned_record_projection record_value own_hash_field
    expected ← sha256_canonical_json h (obj projection)
    verify_declared_hash (at own_hash_field (members record_value)) expected
    ok projection

unfoldable pub validate_amount_text : Value → Bool → Result Text
validate_amount_text (str s) u64 = do
  refuse_if (not (is_amount s)) "invalid_amount" "schema"
  if u64
      then (do
        n ← int_of_text s
        refuse_if (ltb 18_446_744_073_709_551_615 n) "amount_out_of_range" "schema"
        ok s)
      else ok s
validate_amount_text v u64 = err (canonical "invalid_amount" "schema")

unfoldable pub validate_unsigned_integer : Value → ℕ → Result ℕ
validate_unsigned_integer (int (pos n)) maximum = do
  refuse_if (ltb maximum n) "invalid_integer" "schema"
  ok n
validate_unsigned_integer v maximum = err (canonical "invalid_integer" "schema")

unfoldable pub validate_timestamp_text : Value → Result Text
validate_timestamp_text (str s) = elim (strptime s) [
  | none ↦ err (canonical "invalid_timestamp" "schema")
  | some t ↦ ok s
]
validate_timestamp_text v = err (canonical "invalid_timestamp" "schema")

-- `_EXPLICIT_DOMAINS`
unfoldable pub explicit_domains : List Text
explicit_domains = map lit (
    "foundry.channels.voucher" ∷ "foundry.channels.recipient-binding"
    ∷ "foundry.channels.recipient-binding-journal" ∷ "foundry.channels.voucher-ledger-scope" ∷ [])

-- `_TYPE_DOMAINS`
unfoldable pub type_domains : List (Text × Text)
type_domains =
    (lit "foundry.channels.channel-snapshot", lit "channel")
    ∷ (lit "foundry.channels.settlement-request", lit "settlement_request")
    ∷ (
      lit "foundry.channels.settlement-execution-commitment",
      lit "settlement_execution_commitment",
    )
    ∷ (lit "foundry.channels.settlement-authorization", lit "execution_authorization")
    ∷ (lit "foundry.channels.settlement-observation", lit "settlement_observation")
    ∷ (lit "foundry.channels.reconciled-settlement-receipt", lit "reconciled_settlement_receipt")
    ∷ (lit "foundry.channels.recovery-record", lit "settlement_recovery_record")
    ∷ (lit "foundry.channels.settlement-journal-entry", lit "settlement_journal_entry")
    ∷ (lit "foundry.channels.closure-request", lit "channel_closure_request")
    ∷ (lit "foundry.channels.closure-request-snapshot", lit "closure_snapshot_at_request")
    ∷ (lit "foundry.channels.closure-freeze", lit "closure_snapshot_at_freeze")
    ∷ (lit "foundry.channels.refund-request", lit "refund_request")
    ∷ (lit "foundry.channels.refund-projection", lit "refund_projection")
    ∷ (lit "foundry.channels.refund-execution-commitment", lit "refund_execution_commitment")
    ∷ (lit "foundry.channels.technical-refund-receipt", lit "technical_refund_receipt")
    ∷ (lit "foundry.channels.refund-observation", lit "channel_refund_observation")
    ∷ (lit "foundry.channels.reconciled-refund", lit "reconciled_channel_refund")
    ∷ (lit "foundry.channels.epoch-transition-eligibility", lit "epoch_transition_eligibility")
    ∷ (lit "foundry.channels.refund-journal-entry", lit "refund_journal_entry")
    ∷ []

unfoldable pub type_of : Text → List (Text × Text) → Option Text
type_of d [] = none
type_of d ((e, t) ∷ rest) = if text_eq e d then some t else type_of d rest

abbrev pub holds : Text → Text → Fields → Bool
holds k t m = same_text (at k m) t

unfoldable pub verify_registered_domain : Fields → Text → Result (Unit {0})
verify_registered_domain projection expected =
    if text_in expected explicit_domains
    then refuse_if (not (holds (lit "domain") expected projection)) "domain_mismatch"
        "domain_verification"
    else elim (type_of expected type_domains) [
      | none ↦ err (canonical "domain_unregistered" "domain_verification")
      | some t ↦
          refuse_if
            (not (
              holds (lit "type") t projection
              && holds (lit "protocol_version") (lit "1.0.0") projection))
            "domain_mismatch" "domain_verification"
    ]
