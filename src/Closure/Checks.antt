-- ===== src/Closure/Checks.antt =====
-- The field checks of closure.py. A parameter that the source types as a mapping is given by its fields.
use foundry_pay.Base.{
  ℕ, suc, Bool, true, false, not, ◌&&◌, ◌||◌, Option, none, some, List, [], ◌∷◌, ltb, ◌==◌, all,
  if◌then◌else◌, String, Text, lit, str_append, text_eq, text_in, Result, ok, err, reject, ◌>>=◌,
  ◌>>◌, reject_if,
}
use foundry_pay.Python.Value.{
  Value, Fields, pos, int, str, obj, end, field, has_all, only, without, at,
}
use foundry_pay.Python.Unicode.{is_digit_text, int_of_digits}
use foundry_pay.Python.Decimal.{text_of_nat}
use foundry_pay.Python.Datetime.{Datetime, strftime}
use foundry_pay.Canonical.Json.{Host, sha256_canonical_json}
use foundry_pay.Channel.Checks as Channel
use foundry_pay.Channel.Checks.{keys, u64_max}
use foundry_pay.Channel.Snapshot.{is_text}

-- `_AMBIGUOUS_STATES`
unfoldable pub ambiguous_states : List Text
ambiguous_states = keys (
    "submitted" ∷ "confirming" ∷ "reconciling" ∷ "needs_recovery" ∷ "needs_review" ∷ "disputed"
    ∷ [])

-- `_RELEASING_STATES`
unfoldable pub releasing_states : List Text
releasing_states = keys (
    "rejected_before_submission" ∷ "failed_before_submission"
    ∷ "explicitly_cancelled_before_authorization" ∷ "completed" ∷ [])

-- `_closed`
unfoldable pub check_closed_fields : Fields → String → List Text → List Text → Result (Unit {0})
check_closed_fields m name required allowed = do
  reject_if (not (has_all required m)) "missing_field" name
  reject_if (not (only allowed m)) "unknown_field" name

unfoldable pub hash : Value → String → Result Text
hash = Channel.hash

unfoldable pub identifier : Value → String → Result Text
identifier = Channel.identifier

unfoldable pub pubkey : Value → String → Result Text
pubkey = Channel.pubkey

-- `_time`
unfoldable pub time : Value → String → Result Datetime
time = Channel.timestamp

-- `_utc`, of a time given in UTC; `none` is a time without a zone.
unfoldable pub utc_time : Option Datetime → Result Datetime
utc_time none = err (reject "naive_datetime" "now")
utc_time (some t) = ok t

-- `_format_time`
unfoldable pub format_time : Option Datetime → Result Text
format_time now = do t ← utc_time now; ok (strftime t)

-- `len(value) > 1 and value[0] == "0"`
abbrev padded : Text → Bool
padded (c ∷ d ∷ s) = c == b'0'
padded s = false

-- `_amount`; `isdigit` accepts digits that `int` reads as ASCII ones, and some that it refuses.
unfoldable pub amount : Value → String → Bool → Result ℕ
amount (str s) name positive = do
  reject_if (not (is_digit_text s) || padded s) "invalid_amount" name
  parsed ← int_of_digits s
  reject_if (positive && parsed == 0) "amount_must_be_positive" name
  reject_if (ltb u64_max parsed) "amount_out_of_range" name
  ok parsed
amount v name positive = err (reject "invalid_amount" name)

-- `m[k] = v`: a new key goes to the end of a dict.
unfoldable pub put : Text → Value → Fields → Fields
put k v end = field k v end
put k v (field j w m) = let rest = put k v m in if text_eq j k then field j v m else field j w rest

-- `_with_hash`
unfoldable pub with_hash : Host → Fields → String → Result Fields
with_hash h m name = do digest ← sha256_canonical_json h (obj m); ok (put (lit name) (str digest) m)

-- `_validate_hash`
unfoldable pub validate_hash : Host → Fields → String → Result (Unit {0})
validate_hash h m name = do
  supplied ← hash (at (lit name) m) name
  digest ← sha256_canonical_json h (obj (without (lit name) m))
  reject_if (not (text_eq digest supplied)) "artifact_tampering" name

-- `if value != expected: _reject(code, field, ...)`, for a text that is expected
unfoldable pub expect : Value → String → String → String → Result (Unit {0})
expect v expected code name = reject_if (not (is_text v (lit expected))) code name

-- `set(value) == expected`
unfoldable pub exactly : List Text → Fields → Bool
exactly ks m = has_all ks m && only ks m

-- `_validate_domain`
unfoldable pub validate_domain : Value → String → Result (Unit {0})
validate_domain (obj m) name = do
  reject_if
      (not (exactly (keys ("environment" ∷ "network" ∷ "genesis_hash" ∷ "program_id" ∷ [])) m))
      "invalid_domain_shape" name
  reject_if
      (not (is_text (at (lit "environment") m) (lit "devnet"))
        || not (is_text (at (lit "network") m) (lit "solana:devnet")))
      "unsupported_domain" name
  pubkey (at (lit "genesis_hash") m) (str_append name ".genesis_hash")
  pubkey (at (lit "program_id") m) (str_append name ".program_id")
  ok tt
validate_domain v name = err (reject "invalid_type" name)

abbrev pub is_natural : Value → Bool
is_natural (int (pos n)) = true
is_natural v = false

-- `_validate_channel_reference`
unfoldable pub validate_channel_reference : Value → String → Result (Unit {0})
validate_channel_reference (obj m) name = do
  reject_if
      (not (exactly (keys ("channel_id" ∷ "channel_account" ∷ "epoch" ∷ "sender" ∷ "mint" ∷ [])) m))
      "invalid_channel_reference_shape" name
  identifier (at (lit "channel_id") m) (str_append name ".channel_id")
  pubkey (at (lit "channel_account") m) (str_append name ".channel_account")
  reject_if (not (is_natural (at (lit "epoch") m))) "invalid_epoch" (str_append name ".epoch")
  pubkey (at (lit "sender") m) (str_append name ".sender")
  pubkey (at (lit "mint") m) (str_append name ".mint")
  ok tt
validate_channel_reference v name = err (reject "invalid_type" name)

-- `_operation_states`
unfoldable pub operation_states : List Text → Result (List Text)
operation_states states = do
  reject_if (not (all (λ s. text_in s ambiguous_states || text_in s releasing_states) states))
      "unsupported_operation_state" "operation_states"
  ok states

-- The states that block a refund, counted.
unfoldable pub count_ambiguous : List Text → ℕ
count_ambiguous [] = 0
count_ambiguous (s ∷ states) =
    let rest = count_ambiguous states in if text_in s ambiguous_states then suc rest else rest

-- `_domain`
unfoldable pub domain_of : Fields → Value
domain_of c = obj (
    field (lit "environment") (at (lit "environment") c) (
      field (lit "network") (at (lit "network") c) (
        field (lit "genesis_hash") (at (lit "genesis_hash") c)
          (field (lit "program_id") (at (lit "program_id") c) end))))

-- `_channel_reference`
unfoldable pub reference_of : Fields → Value
reference_of c = obj (
    field (lit "channel_id") (at (lit "channel_id") c) (
      field (lit "channel_account") (at (lit "channel_account") c) (
        field (lit "epoch") (at (lit "epoch") c) (
          field (lit "sender") (at (lit "sender") c)
            (field (lit "mint") (at (lit "mint") c) end)))))

-- A dict from its keys and values, in their order.
abbrev pub dict : List (String × Value) → Fields
dict [] = end
dict ((k, v) ∷ m) = field (lit k) v (dict m)

-- `str(n)`
abbrev pub decimal : ℕ → Value
decimal n = str (text_of_nat n)
