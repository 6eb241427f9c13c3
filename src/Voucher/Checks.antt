-- ===== src/Voucher/Checks.antt =====
-- The field checks of voucher.py.
use foundry_pay.Base.{
  ℕ, Bool, true, not, ◌||◌, none, some, List, ltb, String, Text, text_eq, Result, ok, err, reject,
  ◌>>◌, reject_if,
}
use foundry_pay.Python.Value.{Value, Fields, pos, int, str}
use foundry_pay.Python.Datetime.{Datetime, strptime}
use foundry_pay.Canonical.Json.{json_safe_max}
use foundry_pay.Channel.Checks as Channel

-- `_closed_object`: every allowed field is required.
unfoldable pub closed_object : Value → String → List Text → Result Fields
closed_object v field required = Channel.closed_object v field required required

-- `_literal`, at texts
unfoldable pub literal : Value → String → String → Result (Unit {0})
literal = Channel.literal

-- `_integer`
unfoldable pub integer : Value → String → ℕ → Result ℕ
integer (int (pos n)) field minimum = do
  reject_if (ltb n minimum || ltb json_safe_max n) "invalid_integer" field
  ok n
integer v field minimum = err (reject "invalid_integer" field)

-- `_string`
unfoldable pub string : Value → String → (Text → Bool) → Result Text
string v field pattern = Channel.matching pattern "invalid_string" v field

-- `_amount`
unfoldable pub amount : Value → String → Result ℕ
amount = Channel.amount

-- `_timestamp`
unfoldable pub timestamp : Value → String → Result Datetime
timestamp (str s) field = elim (strptime s) [
  | none ↦ err (reject "invalid_timestamp" field)
  | some t ↦ ok t
]
timestamp v field = err (reject "invalid_timestamp" field)

-- `_utc`
unfoldable pub utc : Datetime → String → Result Datetime
utc t field = do reject_if (not t.utc) "invalid_clock" field; ok t

-- `value != expected`, for a text that is expected
abbrev pub differs : Value → Text → Bool
differs (str s) t = not (text_eq s t)
differs v t = true
