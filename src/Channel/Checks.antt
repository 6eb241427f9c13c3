-- ===== src/Channel/Checks.antt =====
-- The field checks of channel.py: each takes the value of a field and the name that a rejection gives.
use foundry_pay.Base.{
  ℕ, Bool, true, false, not, ◌||◌, Option, none, some, List, [], ◌∷◌, map, ltb, ◌==◌, Text, lit,
  String, text_eq, Result, ok, err, reject, ◌>>=◌, ◌>>◌, reject_if,
}
use foundry_pay.Python.Value.{Value, Fields, pos, negsuc, bool, int, str, obj, has_all, only, at}
use foundry_pay.Python.Pattern.{is_amount, is_hash, is_identifier, is_pubkey, is_signature}
use foundry_pay.Python.Decimal.{int_of_text}
use foundry_pay.Python.Datetime.{Datetime, from_iso}

abbrev pub u64_max : ℕ
u64_max = 18_446_744_073_709_551_615

abbrev pub keys : List String → List Text
keys = map lit

-- `_closed_object`
unfoldable pub closed_object : Value → String → List Text → List Text → Result Fields
closed_object (obj m) field required allowed = do
  reject_if (not (has_all required m)) "missing_field" field
  reject_if (not (only allowed m)) "unknown_field" field
  ok m
closed_object v field required allowed = err (reject "invalid_type" field)

-- `_literal` at a text, at a number and at `True`
unfoldable pub literal : Value → String → String → Result (Unit {0})
literal (str s) expected field = reject_if (not (text_eq s (lit expected))) "invalid_literal" field
literal v expected field = err (reject "invalid_literal" field)

unfoldable pub literal_int : Value → ℕ → String → Result (Unit {0})
literal_int (int (pos n)) expected field = reject_if (not (n == expected)) "invalid_literal" field
literal_int v expected field = err (reject "invalid_literal" field)

unfoldable pub literal_true : Value → String → Result (Unit {0})
literal_true (bool true) field = ok tt
literal_true v field = err (reject "invalid_literal" field)

above : ℕ → Option ℕ → Bool
above n none = false
above n (some maximum) = ltb maximum n

-- `_integer`, for a minimum that is not negative
unfoldable pub integer : Value → String → ℕ → Option ℕ → Result ℕ
unfolding above
integer (int (pos n)) field minimum maximum = do
  reject_if (ltb n minimum || above n maximum) "integer_out_of_range" field
  ok n
integer (int (negsuc n)) field minimum maximum = err (reject "integer_out_of_range" field)
integer v field minimum maximum = err (reject "invalid_integer" field)

-- `_amount`; `int` itself raises on a text of more than 4300 digits
unfoldable pub amount : Value → String → Result ℕ
amount (str s) field = do
  reject_if (not (is_amount s)) "invalid_amount" field
  parsed ← int_of_text s
  reject_if (ltb u64_max parsed) "amount_out_of_range" field
  ok parsed
amount v field = err (reject "invalid_amount" field)

-- A text that has to match a pattern.
unfoldable pub matching : (Text → Bool) → String → Value → String → Result Text
matching pattern code (str s) field = do reject_if (not (pattern s)) code field; ok s
matching pattern code v field = err (reject code field)

unfoldable pub pubkey : Value → String → Result Text
pubkey = matching is_pubkey "invalid_pubkey"

unfoldable pub identifier : Value → String → Result Text
identifier = matching is_identifier "invalid_identifier"

unfoldable pub hash : Value → String → Result Text
hash = matching is_hash "invalid_hash"

unfoldable pub signature : Value → String → Result Text
signature = matching is_signature "invalid_transaction_signature"

-- `_timestamp`
unfoldable pub timestamp : Value → String → Result Datetime
timestamp (str s) field = elim (from_iso s) [
  | none ↦ err (reject "invalid_timestamp" field)
  | some t ↦ ok t
]
timestamp v field = err (reject "invalid_timestamp" field)

-- `for field in (...): _pubkey(channel[field], field)`
unfoldable pub pubkeys : List String → Fields → Result (Unit {0})
pubkeys [] m = ok tt
pubkeys (f ∷ fs) m = do pubkey (at (lit f) m) f; pubkeys fs m
