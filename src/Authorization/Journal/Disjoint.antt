-- ===== src/Authorization/Journal/Disjoint.antt =====
-- The execution requests and the obligations of the issued rows of the journal.
use foundry_pay.Base.{
  ◌≡◌, Bool, true, false, ◌||◌, Bool-cases, inl, inr, All-map, ◌&&◌, Option, List, [], ◌∷◌, ◌++◌,
  map, arith, Text, text_eq, All, All-append, on_option-rule, on_if-rule, subst⁻¹, on_option,
}
use foundry_pay.Python.Value.{Value}
use foundry_pay.Python.Pattern.{is_identifier}
use foundry_pay.Python.Datetime.{Datetime}
use foundry_pay.Authorization.Journal.{
  returned, raised, authorization_invalid, Outcome, State, issued, consumed, expired, Authorization,
  Row, format_timestamp, is_issued, find, is_over, expire, at_key, is_active, any_active, mark,
  lapse, Step, transaction, with_text, new_row, issue_body, issue, consume_row, consume_body,
  consume, state_row, journal_state,
}
use foundry_pay.Authorization.Journal.Moves.{issue_again-rows}
use foundry_pay.Authorization.Journal.SingleUse.{
  Call, issuing, consuming, asking, Reaches, start, call,
}

pub record Apart (r q : Row) : Type 0 where
  pub at :
      is_issued r.state ≡ true
      → is_issued q.state ≡ true
      → (text_eq r.execution_request_id q.execution_request_id ≡ false)
        × (text_eq r.obligation_id q.obligation_id ≡ false)

abbrev pub IsApart : List Row → Type 0
IsApart [] = Unit
IsApart (r ∷ rs) = All (Apart r) rs × IsApart rs

-- A change of rows that issues none and keeps requests and obligations.
record Fades (g : Row → Row) : Type 0 where
  request : (r : Row) → (g r).execution_request_id ≡ r.execution_request_id
  obligation : (r : Row) → (g r).obligation_id ≡ r.obligation_id
  fades : (r : Row) → is_issued (g r).state ≡ true → is_issued r.state ≡ true

module _ (g : Row → Row) (f : Fades g) where
  Apart-map : (r q : Row) → Apart r q → Apart (g r) (g q)
  Apart-map r q a = record {
    at = λ x y.
        rw (f.request r, f.request q, f.obligation r, f.obligation q)
          (a.at (f.fades r x) (f.fades q y));
  }

  All-Apart-map : (r : Row) (rs : List Row) → All (Apart r) rs → All (Apart (g r)) (map g rs)
  All-Apart-map r [] h = tt
  All-Apart-map r (q ∷ rs) h = (Apart-map r q h.0, All-Apart-map r rs h.1)

  map-IsApart : (rs : List Row) → IsApart rs → IsApart (map g rs)
  map-IsApart [] d = tt
  map-IsApart (r ∷ rs) d = (All-Apart-map r rs d.0, map-IsApart rs d.1)

append-IsApart :
    (rs : List Row) (p : Row) → IsApart rs → All (λ q. Apart q p) rs → IsApart (rs ++ (p ∷ []))
append-IsApart [] p d a = (tt, tt)
append-IsApart (r ∷ rs) p d a =
    (All-append (Apart r) rs (p ∷ []) d.0 (a.0, tt), append-IsApart rs p d.1 a.1)

expire-Fades : (now : Text) → Fades (expire now)
unfolding expire
expire-Fades now = record {
  request = λ r. ground arith;
  obligation = λ r. ground arith;
  fades = λ r h. ground arith;
}

mark-Fades : (i now : Text) → Fades (at_key i (mark now))
unfolding at_key
mark-Fades i now = record {
  request = λ r. ground arith;
  obligation = λ r. ground arith;
  fades = λ r h. ground arith;
}

lapse-Fades : (i : Text) → Fades (at_key i lapse)
unfolding at_key
lapse-Fades i = record {
  request = λ r. ground arith;
  obligation = λ r. ground arith;
  fades = λ r h. ground arith;
}

module _ (a : Authorization) (obligation fingerprint now : Text) where
  fresh :
      (q : Row)
      → is_active now a.request obligation (expire now q) ≡ false
      → Apart (expire now q) (new_row a obligation fingerprint)
  unfolding is_active expire is_over new_row
  fresh q h = record { at = λ x y. ground arith }

  All-fresh :
      (rows : List Row)
      → any_active now a.request obligation (map (expire now) rows) ≡ false
      → All (λ q. Apart q (new_row a obligation fingerprint)) (map (expire now) rows)
  unfolding any_active
  All-fresh [] h = tt
  All-fresh (q ∷ rows) h = (fresh q (ground arith), All-fresh rows (ground arith))

-- What a step leaves.
abbrev Leaves : {A : Type 0} → Step A → Type 0
Leaves s = IsApart s.1

module _ {A : Type 0} (rows : List Row) (d : IsApart rows) where
  transaction-IsApart : (s : Step A) → Leaves s → Leaves (transaction rows s)
  transaction-IsApart (returned a, rows') m = m
  transaction-IsApart (raised e, rows') m = d

  with_text-IsApart :
      (o : Outcome Text) (f : Text → Step A)
      → ((t : Text) → Leaves (f t))
      → Leaves (with_text rows o f)
  with_text-IsApart (raised e) f m = d
  with_text-IsApart (returned t) f m = m t

issue-IsApart :
    (a : Authorization) (obligation fingerprint : Text) (now : Option Datetime) (rows : List Row)
    → IsApart rows
    → Leaves (issue a obligation fingerprint now rows)
unfolding issue issue_body
issue-IsApart a obligation fingerprint now rows d =
    with_text-IsApart rows d (format_timestamp now) _ (λ t.
      let d' = map-IsApart (expire t) (expire-Fades t) rows d in
      transaction-IsApart rows d (issue_body a obligation fingerprint t rows) (
        on_option-rule (Leaves {A = Value}) (find a.id (map (expire t) rows)) _ _
          (λ _.
            on_if-rule (Leaves {A = Value})
              (any_active t a.request obligation (map (expire t) rows)) _ _ (λ _. d')
              (λ n.
                append-IsApart (map (expire t) rows) (new_row a obligation fingerprint) d'
                  (All-fresh a obligation fingerprint t rows n)))
          (λ r _.
            subst⁻¹ IsApart (issue_again-rows fingerprint r r.state (map (expire t) rows)) d')))

consume_row-IsApart :
    (t : Text) (r : Row) (s : State) (rows : List Row)
    → IsApart rows
    → Leaves (consume_row t r s rows)
unfolding consume_row
consume_row-IsApart t r consumed rows d = d
consume_row-IsApart t r expired rows d =
    map-IsApart (at_key r.authorization_id lapse) (lapse-Fades r.authorization_id) rows d
consume_row-IsApart t r issued rows d =
    on_if-rule (Leaves {A = Value}) (is_over t r) _ _
      (λ _. map-IsApart (at_key r.authorization_id lapse) (lapse-Fades r.authorization_id) rows d)
      (λ _.
        map-IsApart (at_key r.authorization_id (mark t)) (mark-Fades r.authorization_id t) rows d)

consume-IsApart :
    (i : Text) (now : Option Datetime) (rows : List Row)
    → IsApart rows
    → Leaves (consume i now rows)
unfolding consume consume_body
consume-IsApart i now rows d =
    on_if-rule (Leaves {A = Value}) (is_identifier i) _ _
      (λ _. with_text-IsApart rows d (format_timestamp now) _ (λ t.
        transaction-IsApart rows d (consume_body i t rows) (
          on_option-rule (Leaves {A = Value}) (find i rows) _ _ (λ _. d)
            (λ r e. consume_row-IsApart t r r.state rows d))))
      (λ _. d)

journal_state-IsApart :
    (i : Text) (now : Option Datetime) (rows : List Row)
    → IsApart rows
    → Leaves (journal_state i now rows)
unfolding journal_state state_row
journal_state-IsApart i now rows d =
    on_if-rule (Leaves {A = State}) (is_identifier i) _ _
      (λ _. with_text-IsApart rows d (format_timestamp now) _ (λ t.
        transaction-IsApart rows d
          (on_option (find i rows) (raised authorization_invalid, rows) (λ r. state_row t r rows))
          (on_option-rule (Leaves {A = State}) (find i rows) _ _ (λ _. d)
            (λ r e.
              on_if-rule (Leaves {A = State}) (is_issued r.state && is_over t r) _ _
                (λ _.
                  map-IsApart (at_key r.authorization_id lapse) (lapse-Fades r.authorization_id)
                    rows d)
                (λ _. d)))))
      (λ _. d)

Call-IsApart : {l m : List Row} → Call l m → IsApart l → IsApart m
Call-IsApart (issuing a o f t l) d = issue-IsApart a o f t l d
Call-IsApart (consuming i t l) d = consume-IsApart i t l d
Call-IsApart (asking i t l) d = journal_state-IsApart i t l d

-- Two rows that are both issued and share an execution request or an obligation.
abbrev pub clash : Row → Row → Bool
clash r q =
    is_issued r.state
    && is_issued q.state
    && (text_eq r.execution_request_id q.execution_request_id
        || text_eq r.obligation_id q.obligation_id)

-- No two rows clash.
abbrev pub IsDisjoint : List Row → Type 0
IsDisjoint [] = Unit
IsDisjoint (r ∷ rs) = All (λ q. clash r q ≡ false) rs × IsDisjoint rs

Apart-clash : (r q : Row) → Apart r q → clash r q ≡ false
Apart-clash r q a = elim (Bool-cases (is_issued r.state)) [
  | inr n ↦ rw n
  | inl y ↦ elim (Bool-cases (is_issued q.state)) [
    | inr n ↦ rw (y, n)
    | inl z ↦ rw (y, z, (a.at y z).0, (a.at y z).1)
  ]
]

IsApart-IsDisjoint : (rs : List Row) → IsApart rs → IsDisjoint rs
IsApart-IsDisjoint [] d = tt
IsApart-IsDisjoint (r ∷ rs) d = (All-map (Apart-clash r) rs d.0, IsApart-IsDisjoint rs d.1)

reached-IsApart : {rows : List Row} → Reaches [] rows → IsApart rows
reached-IsApart start = tt
reached-IsApart (call w c) = Call-IsApart c (reached-IsApart w)

-- In every table that any calls of the journal's methods reach from the empty one, whatever the clock
-- of each call says, no two rows that are issued have the same execution request or the same
-- obligation.
pub reached-IsDisjoint : (rows : List Row) → Reaches [] rows → IsDisjoint rows
reached-IsDisjoint rows w = IsApart-IsDisjoint rows (reached-IsApart w)
