-- ===== src/Capability/Checks.antt =====
-- The field checks of capabilities.py. A parameter that the source types as a mapping is given by its
-- fields.
use foundry_pay.Base.{
  ℕ, Bool, not, ◌&&◌, ◌||◌, none, some, List, [], ◌∷◌, leb, ◌==◌, all, drop, take, String, Text,
  lit, text_eq, length, Result, ok, err, reject, canonical, ◌>>◌, reject_if,
}
use foundry_pay.Python.Value.{Value, Fields, str, at, has_all, only}
use foundry_pay.Python.Datetime.{Datetime, strptime}
use foundry_pay.Channel.Snapshot.{is_text}

-- `_exact_fields`, of a mapping
unfoldable pub exact_fields : List Text → Fields → Result (Unit {0})
exact_fields ks m = reject_if (not (has_all ks m && only ks m)) "closed_object_violation" "schema"

-- A letter, a digit, or one of `._:-`
unfoldable pub is_name : ℕ → Bool
is_name c =
    (leb b'a' c && leb c b'z')
    || (leb b'A' c && leb c b'Z')
    || (leb b'0' c && leb c b'9')
    || c == b'.'
    || c == b'_'
    || c == b':'
    || c == b'-'

-- `_identifier`
unfoldable pub identifier : Value → Result Text
identifier (str s) = do
  reject_if (not (leb 1 (length s) && leb (length s) 128 && all is_name s)) "invalid_identifier"
      "schema"
  ok s
identifier v = err (reject "invalid_identifier" "schema")

unfoldable pub is_hex : ℕ → Bool
is_hex c = (leb b'0' c && leb c b'9') || (leb b'a' c && leb c b'f')

-- `_hash`
unfoldable pub hash : Value → Result Text
hash (str s) = do
  reject_if (not (text_eq (take 7 s) (lit "sha256:") && length s == 71 && all is_hex (drop 7 s)))
      "invalid_hash" "schema"
  ok s
hash v = err (reject "invalid_hash" "schema")

-- `for field in (...): _identifier(m[field], ...)`
unfoldable pub identifiers : List String → Fields → Result (Unit {0})
identifiers [] m = ok tt
identifiers (f ∷ fs) m = do identifier (at (lit f) m); identifiers fs m

-- `for field in (...): _hash(m[field], ...)`
unfoldable pub hashes : List String → Fields → Result (Unit {0})
hashes [] m = ok tt
hashes (f ∷ fs) m = do hash (at (lit f) m); hashes fs m

-- `_version_and_capability`
unfoldable pub version_and_capability : Fields → Result (Unit {0})
version_and_capability m = do
  reject_if (not (is_text (at (lit "protocol_version") m) (lit "0.1.0-draft")))
      "unsupported_version" "capability"
  reject_if
      (not (is_text (at (lit "capability_id") m) (lit "foundry.channels.fixture.operation.v0")))
      "unsupported_capability" "capability"

-- `parse_timestamp`, with `validate_timestamp_text` of canonical.py, which reads the same format
unfoldable pub parse_timestamp : Value → Result Datetime
parse_timestamp (str s) = elim (strptime s) [
  | none ↦ err (canonical "invalid_timestamp" "schema")
  | some t ↦ ok t
]
parse_timestamp v = err (canonical "invalid_timestamp" "schema")
