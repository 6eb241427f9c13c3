-- ===== src/Voucher/Table.antt =====
-- The two tables of the voucher ledger. A row's `voucher` is what its JSON text decodes to, and
-- `cumulative_total` the number that its decimal text states.
pub mod Rows
use foundry_pay.Base.{
  ℕ, Bool, true, false, not, ◌&&◌, ◌||◌, Option, none, some, List, [], ◌∷◌, ◌++◌, leb, ltb,
  if◌then◌else◌, String, Text, text_eq,
}
use foundry_pay.Python.Value.{Value}

-- The states of `voucher_submissions`
pub data State : Type 0 where
  issued verified activation_requested rejected : State

pub record Row : Type 0 where
  pub submission_id : Text
  pub voucher : Value
  pub state : State
  pub voucher_hash : Option Text
  pub domain_key : Option Text
  pub channel_id : Option Value
  pub epoch : Option Value
  pub sequence : Option ℕ
  pub cumulative_total : Option ℕ
  pub expires_at : Option Text
  pub error_code : Option String
  pub created_at : Text
  pub updated_at : Text

pub record Event : Type 0 where
  pub submission : Text
  pub new_state : State
  pub event_error : Option String
  pub observed_at : Text

pub record Ledger : Type 0 where
  pub rows : List Row
  pub events : List Event

-- `SELECT * ... WHERE submission_id = ?`
unfoldable pub find_row : Text → List Row → Option Row
find_row id [] = none
find_row id (r ∷ rs) = if text_eq r.submission_id id then some r else find_row id rs

-- `UPDATE ... WHERE submission_id = ?`
unfoldable pub update_row : Text → (Row → Row) → List Row → List Row
update_row id f [] = []
update_row id f (r ∷ rs) =
    let rest = update_row id f rs in if text_eq r.submission_id id then f r ∷ rest else r ∷ rest

-- `state IN ('verified', 'activation_requested')`
abbrev pub is_live : State → Bool
is_live verified = true
is_live activation_requested = true
is_live s = false

abbrev pub in_domain : Option Text → Text → Bool
in_domain none key = false
in_domain (some k) key = text_eq k key

-- The rows of the query for the latest voucher of a domain.
unfoldable pub is_candidate : Text → Text → Row → Bool
is_candidate key id r =
    in_domain r.domain_key key && is_live r.state && not (text_eq r.submission_id id)

-- `ORDER BY sequence DESC LIMIT 1`, on pairs of a sequence and a total; a row that is live has both.
unfoldable pub later : Option ℕ → Option ℕ → Option (ℕ × ℕ) → Option (ℕ × ℕ)
later (some s) (some t) none = some (s, t)
later (some s) (some t) (some (s', t')) = if leb s' s then some (s, t) else some (s', t')
later _ _ best = best

unfoldable pub latest : Text → Text → List Row → Option (ℕ × ℕ)
latest key id [] = none
latest key id (r ∷ rs) =
    let best = latest key id rs in
    if is_candidate key id r then later r.sequence r.cumulative_total best else best
