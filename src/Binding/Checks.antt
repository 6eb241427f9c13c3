-- ===== src/Binding/Checks.antt =====
-- The field checks of recipient_binding.py.
use foundry_pay.Base.{
  ℕ, Bool, true, false, not, ◌&&◌, Option, none, some, List, [], ◌∷◌, if◌then◌else◌, String, Text,
  lit, str_append, text_in, Result, ok, err, reject, type_error, ◌>>◌, reject_if,
}
use foundry_pay.Python.Value.{
  Value, Fields, null, bool, int, float, str, arr, obj, at, hashable, py_eq,
}
use foundry_pay.Python.Pattern.{is_signature}
use foundry_pay.Python.Datetime.{Datetime}
use foundry_pay.Channel.Checks as Channel
use foundry_pay.Voucher.Checks as Voucher

-- `_closed`; every use of it allows the required fields only.
unfoldable pub closed_object : Value → String → List Text → Result Fields
closed_object = Voucher.closed_object

-- `_literal`, at texts
unfoldable pub literal : Value → String → String → Result (Unit {0})
literal = Channel.literal

unfoldable pub identifier : Value → String → Result Text
identifier = Channel.identifier

unfoldable pub pubkey : Value → String → Result Text
pubkey = Channel.pubkey

unfoldable pub hash : Value → String → Result Text
hash = Channel.hash

-- `_signature`
unfoldable pub signature : Value → String → Result Text
signature = Channel.matching is_signature "invalid_signature"

-- `_integer`
unfoldable pub integer : Value → String → ℕ → Result ℕ
integer = Voucher.integer

-- `_amount`
unfoldable pub amount : Value → String → Result ℕ
amount = Channel.amount

-- `_timestamp`
unfoldable pub timestamp : Value → String → Result Datetime
timestamp = Channel.timestamp

-- `_now`, of a time given in UTC; `none` is a time without a zone.
unfoldable pub clock : Option Datetime → Result Datetime
clock none = err (reject "invalid_now" "now")
clock (some t) = ok t

-- `type(a) is type(b)`
unfoldable pub same_type : Value → Value → Bool
same_type null w = elim w [ null ↦ true | _ ↦ false ]
same_type (bool a) w = elim w [ bool b ↦ true | _ ↦ false ]
same_type (int a) w = elim w [ int b ↦ true | _ ↦ false ]
same_type (float a) w = elim w [ float b ↦ true | _ ↦ false ]
same_type (str a) w = elim w [ str b ↦ true | _ ↦ false ]
same_type (arr a) w = elim w [ arr b ↦ true | _ ↦ false ]
same_type (obj a) w = elim w [ obj b ↦ true | _ ↦ false ]

-- `_matches`
unfoldable pub check_match : Value → Value → String → Result (Unit {0})
check_match actual expected field =
    reject_if (not (py_eq actual expected && same_type actual expected)) "context_mismatch" field

-- `for field in (...): _matches(m[field], getattr(context, field), f"{prefix}{field}")`
unfoldable pub check_matches : String → List (String × Value) → Fields → Result (Unit {0})
check_matches prefix [] m = ok tt
check_matches prefix ((f, expected) ∷ rest) m = do
  check_match (at (lit f) m) expected (str_append prefix f)
  check_matches prefix rest m

-- `if value not in states: _reject(code, field, ...)`, which raises on a value that cannot be hashed.
unfoldable pub check_member : Value → List Text → String → String → Result (Unit {0})
check_member (str s) states code field = reject_if (not (text_in s states)) code field
check_member v states code field = if hashable v then err (reject code field) else err type_error
