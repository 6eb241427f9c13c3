-- ===== src/Capability/Tests.antt =====
-- Runs of the capability contracts, and their theorem at a concrete input.
use foundry_pay.Base.{◌≡◌, refl, String, lit, [], ◌∷◌, ok, err, reject, canonical, some, ◌++◌, true}
use foundry_pay.Python.Value.{Fields, int, pos}
use foundry_pay.Python.Datetime.{Datetime}
use foundry_pay.Canonical.Json.{Host}
use foundry_pay.Canonical.Record.{validate_amount_text, validate_timestamp_text}
use foundry_pay.Channel.Sample.{text, object, hash_a}
use foundry_pay.Binding.Checks.{check_member}
use foundry_pay.Voucher.Running.{running}
use foundry_pay.Capability.Checks.{
  exact_fields, is_name, identifier, is_hex, hash, identifiers, hashes, version_and_capability,
  parse_timestamp,
}
use foundry_pay.Capability.Operation.{
  PreparedOperation, request_fields, authorization_fields, recovery_request_fields, operation_kinds,
  check_type, validate_operation_request, material_prefix, commitment_projection, prepare_operation,
  check_bound, validate_authorization, validate_recovery_request,
}
use foundry_pay.Capability.Binds.{BindsRequest, authorization-BindsRequest}

unfoldable capability_running : Unit {0}
unfolding running check_member validate_amount_text validate_timestamp_text exact_fields is_name
    identifier is_hex hash identifiers hashes version_and_capability parse_timestamp request_fields
    authorization_fields recovery_request_fields operation_kinds check_type
    validate_operation_request material_prefix commitment_projection prepare_operation check_bound
    validate_authorization validate_recovery_request
capability_running = tt

abbrev host : Host
host = record {
  dumps = λ v. some (1 ∷ 2 ∷ []);
  sha256_hex = λ b. lit "aaaaaaaaaaaaaaaaaaaaaaaaaaaaaaaaaaaaaaaaaaaaaaaaaaaaaaaaaaaaaaaa";
}

abbrev now : Datetime
now = record {
  year = 2026;
  month = 7;
  day = 2;
  hour = 12;
  minute = 0;
  second = 0;
  microsecond = 0;
  utc = true;
}

abbrev request_of : String → Fields
request_of amount = object (
    ("type", text "channel_operation_request")
    ∷ ("protocol_version", text "0.1.0-draft")
    ∷ ("capability_id", text "foundry.channels.fixture.operation.v0")
    ∷ ("request_id", text "request-1")
    ∷ ("operation_id", text "operation-1")
    ∷ ("idempotency_key", text "key-1")
    ∷ ("operation_kind", text "settle")
    ∷ ("channel_id", text "channel-1")
    ∷ ("epoch", int (pos 0))
    ∷ ("sender", text "sender-1")
    ∷ ("recipient", text "recipient-1")
    ∷ ("destination_wallet", text "wallet-1")
    ∷ ("mint", text "mint-1")
    ∷ ("amount_base_units", text amount)
    ∷ ("authorization_commitment", text hash_a)
    ∷ ("expires_at", text "2026-07-03T00:00:00Z")
    ∷ [])

abbrev request : Fields
request = request_of "100"

abbrev authorization : String → Fields
authorization expires_at = object (
    ("type", text "channel_operation_authorization")
    ∷ ("protocol_version", text "0.1.0-draft")
    ∷ ("capability_id", text "foundry.channels.fixture.operation.v0")
    ∷ ("request_id", text "request-1")
    ∷ ("operation_id", text "operation-1")
    ∷ ("prepared_material_hash", text hash_a)
    ∷ ("operation_commitment", text hash_a)
    ∷ ("authorization_id", text "authorization-1")
    ∷ ("expires_at", text expires_at)
    ∷ [])

abbrev prepared : PreparedOperation
prepared = record {
  request_id = text "request-1";
  operation_id = text "operation-1";
  request_hash = lit hash_a;
  material = lit "foundry-channel-fixture-operation-v0" ++ (0 ∷ 1 ∷ 2 ∷ []);
  prepared_material_hash = lit hash_a;
  operation_commitment = lit hash_a;
  expires_at = text "2026-07-03T00:00:00Z";
}

is_prepared : prepare_operation host request now ≡ ok prepared
unfolding capability_running
is_prepared = refl

is_authorized :
    validate_authorization (authorization "2026-07-02T18:00:00Z") prepared now
    ≡ ok (authorization "2026-07-02T18:00:00Z")
unfolding capability_running
is_authorized = refl

-- The amount of a request is at most 2 ^ 64 - 1.
amount_in_range :
    validate_amount_text (text "18446744073709551615") true ≡ ok (lit "18446744073709551615")
unfolding capability_running
amount_in_range = refl

too_large :
    validate_operation_request (request_of "99999999999999999999999999999999") now
    ≡ err (canonical "amount_out_of_range" "schema")
unfolding capability_running
too_large = refl

-- An authorization may not outlive the request.
outlives :
    validate_authorization (authorization "2026-07-03T00:00:01Z") prepared now
    ≡ err (reject "authorization_outlives_preparation" "authorization")
unfolding capability_running
outlives = refl

authorization-BindsRequest_example :
    BindsRequest host request (authorization "2026-07-02T18:00:00Z") now
authorization-BindsRequest_example =
    authorization-BindsRequest host request now prepared (authorization "2026-07-02T18:00:00Z") now
      (authorization "2026-07-02T18:00:00Z") is_prepared is_authorized
