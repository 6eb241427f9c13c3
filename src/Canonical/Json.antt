-- ===== src/Canonical/Json.antt =====
-- The values that may be canonicalized, their bytes and their hash.
use foundry_pay.Base.{
  ℕ, true, false, Option, none, some, List, ◌++◌, leb, is_encodable, lit, Text, Result, ok, err,
  canonical, ◌>>=◌, ◌>>◌,
}
use foundry_pay.Python.Value.{
  Value, Items, Fields, pos, negsuc, null, bool, int, float, str, arr, obj, nil, cons, end, field,
}

-- `rfc8785.dumps` (`none` where it raises its own errors) and `hashlib.sha256(...).hexdigest()`.
pub record Host : Type 0 where
  pub dumps : Value → Option (List ℕ)
  pub sha256_hex : List ℕ → Text

abbrev pub json_safe_max : ℕ
json_safe_max = 9_007_199_254_740_991

unfoldable pub check_text : Text → Result (Unit {0})
unfolding is_encodable
check_text s = elim (is_encodable s) [
  | true ↦ ok tt
  | false ↦ err (canonical "lone_surrogate" "canonicalization")
]

-- `_validate_json_value`
unfoldable mutual
  unfolding check_text

  pub validate_json_value : Value → Result (Unit {0})
  validate_json_value null = err (canonical "null_forbidden" "projection")
  validate_json_value (bool b) = ok tt
  validate_json_value (int (pos n)) = elim (leb n json_safe_max) [
    | true ↦ ok tt
    | false ↦ err (canonical "unsafe_integer" "projection")
  ]
  validate_json_value (int (negsuc n)) = err (canonical "unsafe_integer" "projection")
  validate_json_value (float n) = err (canonical "float_forbidden" "projection")
  validate_json_value (str s) = check_text s
  validate_json_value (arr xs) = validate_items xs
  validate_json_value (obj m) = validate_members m

  pub validate_items : Items → Result (Unit {0})
  validate_items nil = ok tt
  validate_items (cons x xs) = validate_json_value x >> validate_items xs

  pub validate_members : Fields → Result (Unit {0})
  validate_members end = ok tt
  validate_members (field k v m) = check_text k >> (validate_json_value v >> validate_members m)

dumped : Option (List ℕ) → Result (List ℕ)
dumped none = err (canonical "jcs_rejected" "canonicalization")
dumped (some bytes) = ok bytes

module _ (h : Host) where
  unfoldable pub canonical_json_bytes : Value → Result (List ℕ)
  unfolding dumped
  canonical_json_bytes v = do validate_json_value v; dumped (h.dumps v)

  unfoldable pub sha256_raw_bytes : List ℕ → Text
  sha256_raw_bytes bytes = lit "sha256:" ++ h.sha256_hex bytes

  unfoldable pub sha256_canonical_json : Value → Result Text
  sha256_canonical_json v = do bytes ← canonical_json_bytes v; ok (sha256_raw_bytes bytes)
