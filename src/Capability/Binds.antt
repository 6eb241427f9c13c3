-- ===== src/Capability/Binds.antt =====
-- What an authorization of a prepared operation is bound to.
use foundry_pay.Base.{
  ◌≡◌, refl, subst, ap, ℕ, ◌≤◌, ◌<◌, ◌^◌, true, Text, List, ◌++◌, lit, ok, arith, >>=-eq-ok, ok-eq,
}
use foundry_pay.Python.Pattern.{is_amount}
use foundry_pay.Python.Decimal.{int_of_text}
use foundry_pay.Canonical.Record.{validate_amount_text}
use foundry_pay.Python.Value.{Value, Fields, null, bool, int, float, arr, str, obj, at, py_eq}
use foundry_pay.Python.Datetime.{Datetime, instant}
use foundry_pay.Canonical.Json.{Host, canonical_json_bytes, sha256_raw_bytes, sha256_canonical_json}
use foundry_pay.Capability.Checks.{parse_timestamp}
use foundry_pay.Capability.Operation.{
  PreparedOperation, validate_operation_request, prepare_operation, validate_authorization,
  check_bound, material_prefix, commitment_projection,
}

-- The amount is a canonical decimal text of an unsigned 64-bit number.
pub record IsU64 (v : Value) : Type 0 where
  pub digits : Text
  pub number : ℕ
  pub text : v ≡ str digits
  pub formed : is_amount digits ≡ true
  pub read : int_of_text digits ≡ ok number
  pub bounded : number < 2 ^ 64

amount-IsU64 : (v : Value) (s : Text) → validate_amount_text v true ≡ ok s → IsU64 v
unfolding validate_amount_text
amount-IsU64 (str s) t h =
    let n : (n : ℕ) × (int_of_text s ≡ ok n) × (n < 2 ^ 64) = ground arith in
    record {
      digits = s;
      number = n.0;
      text = refl;
      formed = ground arith;
      read = n.1;
      bounded = n.2;
    }
amount-IsU64 null t h = cc
amount-IsU64 (bool b) t h = cc
amount-IsU64 (int n) t h = cc
amount-IsU64 (float n) t h = cc
amount-IsU64 (arr xs) t h = cc
amount-IsU64 (obj m) t h = cc

-- What `prepare_operation` has read and made.
record Prepares (h : Host) (request : Fields) (p : PreparedOperation) : Type 0 where
  bytes : List ℕ
  request_hash : Text
  serialized : canonical_json_bytes h (obj request) ≡ ok bytes
  request_hashed : sha256_canonical_json h (obj request) ≡ ok request_hash
  committed :
      sha256_canonical_json h
        (obj (commitment_projection request request_hash p.prepared_material_hash))
      ≡ ok p.operation_commitment
  spent : IsU64 (at (lit "amount_base_units") request)
  hashed : p.prepared_material_hash ≡ sha256_raw_bytes h (material_prefix ++ bytes)
  same_request : p.request_id ≡ at (lit "request_id") request
  same_operation : p.operation_id ≡ at (lit "operation_id") request
  same_expiry : p.expires_at ≡ at (lit "expires_at") request

validated-amount :
    (m n : Fields) (now : Datetime)
    → validate_operation_request m now ≡ ok n
    → (s : Text) × (validate_amount_text (at (lit "amount_base_units") m) true ≡ ok s)
unfolding validate_operation_request
validated-amount m n now h = ground arith

validated-same : (m n : Fields) (now : Datetime) → validate_operation_request m now ≡ ok n → n ≡ m
unfolding validate_operation_request
validated-same m n now h = ground arith

prepare_operation-Prepares :
    (h : Host) (request : Fields) (now : Datetime) (p : PreparedOperation)
    → prepare_operation h request now ≡ ok p
    → Prepares h request p
unfolding prepare_operation
prepare_operation-Prepares h request now p q =
    let a = >>=-eq-ok (validate_operation_request request now) _ q in
    let b = >>=-eq-ok (sha256_canonical_json h (obj a.0)) _ a.2 in
    let c = >>=-eq-ok (canonical_json_bytes h (obj a.0)) _ b.2 in
    let hash = sha256_raw_bytes h (material_prefix ++ c.0) in
    let d = >>=-eq-ok (sha256_canonical_json h (obj (commitment_projection a.0 b.0 hash))) _ c.2 in
    let same = validated-same request a.0 now a.1 in
    subst (Prepares h request) (ok-eq d.2) (record {
      bytes = c.0;
      serialized = subst (λ m. canonical_json_bytes h (obj m) ≡ ok c.0) same c.1;
      request_hash = b.0;
      request_hashed = subst (λ m. sha256_canonical_json h (obj m) ≡ ok b.0) same b.1;
      committed =
          subst (λ m. sha256_canonical_json h (obj (commitment_projection m b.0 hash)) ≡ ok d.0)
            same d.1;
      spent = let s = validated-amount request a.0 now a.1 in amount-IsU64 _ s.0 s.1;
      hashed = refl;
      same_request = ap (at (lit "request_id")) same;
      same_operation = ap (at (lit "operation_id")) same;
      same_expiry = ap (at (lit "expires_at")) same;
    })

-- What the checks of an authorization have passed.
record Authorizes (m : Fields) (p : PreparedOperation) (now : Datetime) : Type 0 where
  expiry : Datetime
  limit : Datetime
  request : py_eq (at (lit "request_id") m) p.request_id ≡ true
  operation : py_eq (at (lit "operation_id") m) p.operation_id ≡ true
  material : py_eq (at (lit "prepared_material_hash") m) (str p.prepared_material_hash) ≡ true
  commitment : py_eq (at (lit "operation_commitment") m) (str p.operation_commitment) ≡ true
  expires : parse_timestamp (at (lit "expires_at") m) ≡ ok expiry
  limited : parse_timestamp p.expires_at ≡ ok limit
  after_now : instant now < instant expiry
  within : instant expiry ≤ instant limit

validate_authorization-Authorizes :
    (m : Fields) (p : PreparedOperation) (now : Datetime) (v : Fields)
    → validate_authorization m p now ≡ ok v
    → Authorizes m p now
unfolding validate_authorization check_bound
validate_authorization-Authorizes m p now v q = ground arith

-- An authorization is bound to a request: it names the request, states the hash of the prefix and the
-- request's own canonical bytes and that of the commitment to both, and expires after the clock and no later than the request.
pub record BindsRequest (h : Host) (request m : Fields) (now : Datetime) : Type 0 where
  pub bytes : List ℕ
  pub serialized : canonical_json_bytes h (obj request) ≡ ok bytes
  pub stated :
      py_eq
        (at (lit "prepared_material_hash") m)
        (str (sha256_raw_bytes h (material_prefix ++ bytes)))
      ≡ true
  pub request_hash : Text
  pub commitment : Text
  pub request_hashed : sha256_canonical_json h (obj request) ≡ ok request_hash
  pub committed :
      sha256_canonical_json h (
        obj (
          commitment_projection request request_hash
            (sha256_raw_bytes h (material_prefix ++ bytes))))
      ≡ ok commitment
  pub commitment_stated : py_eq (at (lit "operation_commitment") m) (str commitment) ≡ true
  pub spent : IsU64 (at (lit "amount_base_units") request)
  pub same_request : py_eq (at (lit "request_id") m) (at (lit "request_id") request) ≡ true
  pub same_operation : py_eq (at (lit "operation_id") m) (at (lit "operation_id") request) ≡ true
  pub expiry : Datetime
  pub limit : Datetime
  pub expires : parse_timestamp (at (lit "expires_at") m) ≡ ok expiry
  pub limited : parse_timestamp (at (lit "expires_at") request) ≡ ok limit
  pub after_now : instant now < instant expiry
  pub within : instant expiry ≤ instant limit

-- An authorization that is accepted for what `prepare_operation` has made of a request names that
-- request and its operation, states the hash of the fixed prefix and the canonical bytes of the whole
-- request and the hash of the commitment to the request and to that hash, is not expired at the clock,
-- and does not outlive the request, whose amount is an unsigned 64-bit number.
pub authorization-BindsRequest :
    (h : Host) (request : Fields) (prepared_at : Datetime) (p : PreparedOperation) (m : Fields)
    (now : Datetime) (v : Fields)
    → prepare_operation h request prepared_at ≡ ok p
    → validate_authorization m p now ≡ ok v
    → BindsRequest h request m now
authorization-BindsRequest h request prepared_at p m now v q w =
    let s = prepare_operation-Prepares h request prepared_at p q in
    let a = validate_authorization-Authorizes m p now v w in
    record {
      bytes = s.bytes;
      serialized = s.serialized;
      stated =
          subst (λ t. py_eq (at (lit "prepared_material_hash") m) (str t) ≡ true) s.hashed
            a.material;
      request_hash = s.request_hash;
      commitment = p.operation_commitment;
      request_hashed = s.request_hashed;
      committed =
          subst
            (λ t.
              sha256_canonical_json h (obj (commitment_projection request s.request_hash t))
              ≡ ok p.operation_commitment)
            s.hashed s.committed;
      commitment_stated = a.commitment;
      spent = s.spent;
      same_request = subst (λ x. py_eq (at (lit "request_id") m) x ≡ true) s.same_request a.request;
      same_operation =
          subst (λ x. py_eq (at (lit "operation_id") m) x ≡ true) s.same_operation a.operation;
      expiry = a.expiry;
      limit = a.limit;
      expires = a.expires;
      limited = subst (λ x. parse_timestamp x ≡ ok a.limit) s.same_expiry a.limited;
      after_now = a.after_now;
      within = a.within;
    }
