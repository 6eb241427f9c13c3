-- ===== src/Channel/Status.antt =====
-- The lifecycle states of a channel, decoded from the `status` field.
use foundry_pay.Base.{
  ℕ, Bool, false, ◌||◌, Option, none, some, List, [], ◌∷◌, ◌==◌, if◌then◌else◌, Text, lit, text_eq,
  Result, ok, err, reject, type_error,
}
use foundry_pay.Python.Value.{Value, str, hashable}

pub data Status : Type 0 where
  draft funding active settling closing closed expired blocked disputed needs_recovery
        needs_review :
      Status

-- The texts of `_CLOSING_STATUSES | _NON_CLOSING_STATUSES`, with the states that they name.
status_table : List (Text × Status)
unfolding lit
status_table =
    (lit "closing", closing)
    ∷ (lit "draft", draft)
    ∷ (lit "funding", funding)
    ∷ (lit "active", active)
    ∷ (lit "settling", settling)
    ∷ (lit "closed", closed)
    ∷ (lit "expired", expired)
    ∷ (lit "blocked", blocked)
    ∷ (lit "disputed", disputed)
    ∷ (lit "needs_recovery", needs_recovery)
    ∷ (lit "needs_review", needs_review)
    ∷ []

find_status : List (Text × Status) → Text → Option Status
unfolding text_eq
find_status [] t = none
find_status ((s, status) ∷ table) t = if text_eq s t then some status else find_status table t

-- `status not in _CLOSING_STATUSES | _NON_CLOSING_STATUSES`: a value that cannot be hashed raises.
unfoldable pub status_of : Value → Result Status
unfolding status_table find_status hashable
status_of (str s) = elim (find_status status_table s) [
  | none ↦ err (reject "invalid_status" "status")
  | some status ↦ ok status
]
status_of v = if hashable v then err (reject "invalid_status" "status") else err type_error

abbrev rank : Status → ℕ
rank draft = 0
rank funding = 1
rank active = 2
rank settling = 3
rank closing = 4
rank closed = 5
rank expired = 6
rank blocked = 7
rank disputed = 8
rank needs_recovery = 9
rank needs_review = 10

abbrev pub is : Status → Status → Bool
is s t = rank s == rank t

-- `status in {...}`
abbrev pub is_in : Status → List Status → Bool
is_in s [] = false
is_in s (t ∷ ts) = is s t || is_in s ts
