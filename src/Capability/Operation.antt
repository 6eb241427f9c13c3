-- ===== src/Capability/Operation.antt =====
-- Requests, their preparation, authorizations and recovery requests. Clocks are in UTC.
use foundry_pay.Base.{
  ℕ, true, not, List, [], ◌∷◌, ◌++◌, leb, ltb, String, Text, lit, Result, ok, ◌>>=◌, ◌>>◌,
  reject_if,
}
use foundry_pay.Python.Value.{Value, Fields, str, obj, at, py_eq}
use foundry_pay.Python.Datetime.{Datetime, instant}
use foundry_pay.Canonical.Json.{Host, canonical_json_bytes, sha256_raw_bytes, sha256_canonical_json}
use foundry_pay.Canonical.Record.{validate_amount_text, validate_timestamp_text}
use foundry_pay.Channel.Checks.{keys}
use foundry_pay.Channel.Snapshot.{is_text}
use foundry_pay.Binding.Checks.{check_member}
use foundry_pay.Closure.Checks.{dict, is_natural}
use foundry_pay.Capability.Checks.{
  exact_fields, identifiers, hash, hashes, version_and_capability, parse_timestamp,
}

-- `_REQUEST_FIELDS`
unfoldable pub request_fields : List Text
request_fields = keys (
    "type" ∷ "protocol_version" ∷ "capability_id" ∷ "request_id" ∷ "operation_id"
    ∷ "idempotency_key" ∷ "operation_kind" ∷ "channel_id" ∷ "epoch" ∷ "sender" ∷ "recipient"
    ∷ "destination_wallet" ∷ "mint" ∷ "amount_base_units" ∷ "authorization_commitment"
    ∷ "expires_at" ∷ [])

-- `_AUTHORIZATION_FIELDS`
unfoldable pub authorization_fields : List Text
authorization_fields = keys (
    "type" ∷ "protocol_version" ∷ "capability_id" ∷ "request_id" ∷ "operation_id"
    ∷ "prepared_material_hash" ∷ "operation_commitment" ∷ "authorization_id" ∷ "expires_at" ∷ [])

-- `_RECOVERY_REQUEST_FIELDS`
unfoldable pub recovery_request_fields : List Text
recovery_request_fields = keys (
    "type" ∷ "protocol_version" ∷ "capability_id" ∷ "request_id" ∷ "operation_id" ∷ "recovery_id"
    ∷ "requested_at" ∷ [])

-- `OPERATION_KINDS`
unfoldable pub operation_kinds : List Text
operation_kinds = keys ("open" ∷ "top_up" ∷ "settle" ∷ "close" ∷ "refund" ∷ [])

-- `value["type"] != expected`
unfoldable pub check_type : String → Fields → Result (Unit {0})
check_type expected m =
    reject_if (not (is_text (at (lit "type") m) (lit expected))) "wrong_type" "schema"

unfoldable pub validate_operation_request : Fields → Datetime → Result Fields
validate_operation_request m now = do
  exact_fields request_fields m
  version_and_capability m
  check_type "channel_operation_request" m
  identifiers
      ("request_id" ∷ "operation_id" ∷ "idempotency_key" ∷ "channel_id" ∷ "sender" ∷ "recipient"
        ∷ "destination_wallet" ∷ "mint" ∷ [])
      m
  check_member (at (lit "operation_kind") m) operation_kinds "unsupported_operation" "schema"
  reject_if (not (is_natural (at (lit "epoch") m))) "invalid_epoch" "schema"
  validate_amount_text (at (lit "amount_base_units") m) true
  hash (at (lit "authorization_commitment") m)
  expiry ← parse_timestamp (at (lit "expires_at") m)
  reject_if (leb (instant expiry) (instant now)) "request_expired" "lifecycle"
  ok m

-- What `prepare_operation` returns, less its constants. The document has the material in base64.
pub record PreparedOperation : Type 0 where
  pub request_id : Value
  pub operation_id : Value
  pub request_hash : Text
  pub material : List ℕ
  pub prepared_material_hash : Text
  pub operation_commitment : Text
  pub expires_at : Value

-- `b"foundry-channel-fixture-operation-v0\x00"`
unfoldable pub material_prefix : List ℕ
material_prefix = lit "foundry-channel-fixture-operation-v0" ++ (0 ∷ [])

-- `commitment_projection`
unfoldable pub commitment_projection : Fields → Text → Text → Fields
commitment_projection m request_hash material_hash = dict (
    ("type", str (lit "channel_execution_commitment"))
    ∷ ("protocol_version", str (lit "0.1.0-draft"))
    ∷ ("capability_id", str (lit "foundry.channels.fixture.operation.v0"))
    ∷ ("request_id", at (lit "request_id") m)
    ∷ ("operation_id", at (lit "operation_id") m)
    ∷ ("request_hash", str request_hash)
    ∷ ("prepared_material_hash", str material_hash)
    ∷ ("executor_id", str (lit "foundry.channels.fixture-adapter"))
    ∷ ("expected_authority_commitment", at (lit "authorization_commitment") m)
    ∷ ("expires_at", at (lit "expires_at") m)
    ∷ [])

unfoldable pub prepare_operation : Host → Fields → Datetime → Result PreparedOperation
prepare_operation h request now = do
  m ← validate_operation_request request now
  request_hash ← sha256_canonical_json h (obj m)
  bytes ← canonical_json_bytes h (obj m)
  let material = material_prefix ++ bytes
  let material_hash = sha256_raw_bytes h material
  commitment ← sha256_canonical_json h (obj (commitment_projection m request_hash material_hash))
  ok (record {
    request_id = at (lit "request_id") m;
    operation_id = at (lit "operation_id") m;
    request_hash = request_hash;
    material = material;
    prepared_material_hash = material_hash;
    operation_commitment = commitment;
    expires_at = at (lit "expires_at") m;
  })

-- `for field in (...): if value[field] != prepared[field]: ...`
unfoldable pub check_bound : List (String × Value) → Fields → Result (Unit {0})
check_bound [] m = ok tt
check_bound ((f, expected) ∷ rest) m = do
  reject_if (not (py_eq (at (lit f) m) expected)) "authorization_mismatch" "authorization"
  check_bound rest m

unfoldable pub validate_authorization : Fields → PreparedOperation → Datetime → Result Fields
validate_authorization m p now = do
  exact_fields authorization_fields m
  version_and_capability m
  check_type "channel_operation_authorization" m
  identifiers ("request_id" ∷ "operation_id" ∷ "authorization_id" ∷ []) m
  hashes ("prepared_material_hash" ∷ "operation_commitment" ∷ []) m
  check_bound
      (("request_id", p.request_id)
        ∷ ("operation_id", p.operation_id)
        ∷ ("prepared_material_hash", str p.prepared_material_hash)
        ∷ ("operation_commitment", str p.operation_commitment)
        ∷ [])
      m
  expiry ← parse_timestamp (at (lit "expires_at") m)
  reject_if (leb (instant expiry) (instant now)) "authorization_expired" "authorization"
  limit ← parse_timestamp p.expires_at
  reject_if (ltb (instant limit) (instant expiry)) "authorization_outlives_preparation"
      "authorization"
  ok m

unfoldable pub validate_recovery_request : Fields → Result Fields
validate_recovery_request m = do
  exact_fields recovery_request_fields m
  version_and_capability m
  check_type "channel_recovery_request" m
  identifiers ("request_id" ∷ "operation_id" ∷ "recovery_id" ∷ []) m
  validate_timestamp_text (at (lit "requested_at") m)
  ok m
