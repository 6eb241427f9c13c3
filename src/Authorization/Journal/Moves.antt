-- ===== src/Authorization/Journal/Moves.antt =====
-- The lifecycle of an authorization: how each method of the journal moves its state.
use foundry_pay.Base.{
  ◌≡◌, refl, sym, subst, subst⁻¹, ◌∙◌, Bool, true, false, ◌&&◌, Option, none, some, List, [], ◌∷◌,
  ◌++◌, map, arith, Text, text_eq, text_eq→eq, on_option-rule, on_if-rule, on_option, if◌then◌else◌,
  some-eq,
}
use foundry_pay.Python.Value.{Value}
use foundry_pay.Python.Pattern.{is_identifier}
use foundry_pay.Python.Datetime.{Datetime}
use foundry_pay.Authorization.Journal.{
  authorization_invalid, Outcome, returned, raised, State, issued, consumed, expired, Authorization,
  Row, format_timestamp, is_issued, find, mark, lapse, is_over, expire, at_key, any_active, Step,
  transaction, with_text, new_row, issue_again, issue_body, issue, consume_row, consume_body,
  consume, state_row, journal_state,
}
use foundry_pay.Authorization.Journal.Rows.{
  mapped, find-map, find-append, find-id, expire-id, at_key-id,
}

abbrev pub state_of : Option Row → Option State
state_of none = none
state_of (some r) = some r.state

-- An authorization is issued once; an issued one may be consumed or expire, and these are final.
abbrev pub may : Option State → Option State → Bool
may none none = true
may none (some issued) = true
may (some issued) (some s) = true
may (some consumed) (some consumed) = true
may (some expired) (some expired) = true
may _ _ = false

may_stay : (o : Option State) → may o o ≡ true
may_stay none = refl
may_stay (some issued) = refl
may_stay (some consumed) = refl
may_stay (some expired) = refl

may_grow : (o : Option State) → may o none ≡ true → may o (some issued) ≡ true
may_grow none h = refl
may_grow (some issued) h = refl
may_grow (some consumed) h = cc
may_grow (some expired) h = cc

-- Each authorization's state moves as it may from one table to another.
pub record Moves (rows rows' : List Row) : Type 0 where
  pub moved : (i : Text) → may (state_of (find i rows)) (state_of (find i rows')) ≡ true

Moves-refl : (rows : List Row) → Moves rows rows
Moves-refl rows = record { moved = λ i. may_stay _ }

-- What a step that gives a value leaves.
abbrev Leads : List Row → Step Value → Type 0
Leads rows s = Moves rows s.1

-- A change of every row that keeps the keys and moves each state as it may.
Moves-map :
    (g : Row → Row) (rows : List Row)
    → ((r : Row) → (g r).authorization_id ≡ r.authorization_id)
    → ((r : Row) → may (some r.state) (some (g r).state) ≡ true)
    → Moves rows (map g rows)
Moves-map g rows k m = record { moved = λ i. rw (find-map g k i rows) (each i (find i rows)) }
  where
    each : (i : Text) (o : Option Row) → may (state_of o) (state_of (mapped g o)) ≡ true
    each i none = refl
    each i (some r) = m r

expire-may : (now : Text) (r : Row) → may (some r.state) (some (expire now r).state) ≡ true
unfolding expire
expire-may now r = ground arith

Moves-expire : (now : Text) (rows : List Row) → Moves rows (map (expire now) rows)
Moves-expire now rows = Moves-map (expire now) rows (expire-id now) (expire-may now)

-- The transaction of a body that moves the table moves it too, since what is undone stays.
Moves-transaction :
    {A : Type 0} (rows : List Row) (s : Step A) → Moves rows s.1 → Moves rows (transaction rows s).1
Moves-transaction rows (returned a, rows') m = m
Moves-transaction rows (raised e, rows') m = Moves-refl rows

Moves-with_text :
    {A : Type 0} (rows : List Row) (o : Outcome Text) (f : Text → Step A)
    → ((t : Text) → Moves rows (f t).1)
    → Moves rows (with_text rows o f).1
Moves-with_text rows (raised e) f m = Moves-refl rows
Moves-with_text rows (returned t) f m = m t

Moves-append :
    (rows rows' : List Row) (p : Row)
    → Moves rows rows'
    → p.state ≡ issued
    → Moves rows (rows' ++ (p ∷ []))
Moves-append rows rows' p m e = record {
  moved = λ i. rw (find-append i rows' p) (each i (find i rows') (m.moved i));
}
  where
    grown :
        (b : Bool) (i : Text)
        → may (state_of (find i rows)) none ≡ true
        → may (state_of (find i rows)) (state_of (if b then some p else none)) ≡ true
    grown true i h = rw e (may_grow _ h)
    grown false i h = h

    each :
        (i : Text) (o : Option Row)
        → may (state_of (find i rows)) (state_of o) ≡ true
        → may (state_of (find i rows)) (
            state_of (elim o [
              | none ↦ if text_eq p.authorization_id i then some p else none
              | some r ↦ some r
            ]))
          ≡ true
    each i none h = grown (text_eq p.authorization_id i) i h
    each i (some r) h = h

-- A change of the row with one key.
module _ (i : Text) (f : Row → Row) (rows : List Row) (r : Row) where
  Moves-at_key :
      find i rows ≡ some r
      → ((q : Row) → (f q).authorization_id ≡ q.authorization_id)
      → may (some r.state) (some (f r).state) ≡ true
      → Moves rows (map (at_key r.authorization_id f) rows)
  Moves-at_key found k m = record {
    moved = λ j.
        rw (find-map (at_key r.authorization_id f) (at_key-id r.authorization_id f k) j rows)
          (each j (find j rows) refl);
  }
    where
      here :
          (j : Text) (q : Row)
          → find j rows ≡ some q
          → q.authorization_id ≡ r.authorization_id
          → r ≡ q
      here j q e same = some-eq (
          sym found
          ∙ subst (λ x. find x rows ≡ some q)
              (sym (text_eq→eq q.authorization_id j (find-id j rows q e))
                ∙ same
                ∙ text_eq→eq r.authorization_id i (find-id i rows r found))
              e)

      chosen :
          (j : Text) (q : Row)
          → find j rows ≡ some q
          → (b : Bool) → text_eq q.authorization_id r.authorization_id ≡ b
          → may (some q.state) (some (at_key r.authorization_id f q).state) ≡ true
      chosen j q e true y =
          unfold at_key in
          rw y (
            subst (λ x. may (some x.state) (some (f x).state) ≡ true)
              (here j q e (text_eq→eq q.authorization_id r.authorization_id y)) m)
      chosen j q e false n = unfold at_key in rw n (may_stay (some q.state))

      each :
          (j : Text) (o : Option Row)
          → find j rows ≡ o
          → may (state_of o) (state_of (mapped (at_key r.authorization_id f) o)) ≡ true
      each j none e = refl
      each j (some q) e = chosen j q e (text_eq q.authorization_id r.authorization_id) refl

pub issue_again-rows :
    (fingerprint : Text) (r : Row) (s : State) (rows : List Row)
    → (issue_again fingerprint r s rows).1 ≡ rows
unfolding issue_again
issue_again-rows fingerprint r s rows = ground arith

-- `issue` moves each authorization's state only as the lifecycle allows: what is consumed or expired
-- stays so, nothing goes away, and what is new is issued.
pub issue-Moves :
    (a : Authorization) (obligation fingerprint : Text) (now : Option Datetime) (rows : List Row)
    → Moves rows (issue a obligation fingerprint now rows).1
unfolding issue issue_body
issue-Moves a obligation fingerprint now rows = Moves-with_text rows (format_timestamp now) _ (λ t.
    Moves-transaction rows (issue_body a obligation fingerprint t rows) (
      on_option-rule (Leads rows) (find a.id (map (expire t) rows)) _ _
        (λ _.
          on_if-rule (Leads rows) (any_active t a.request obligation (map (expire t) rows)) _ _
            (λ _. Moves-expire t rows)
            (λ _.
              Moves-append rows (map (expire t) rows) (new_row a obligation fingerprint)
                (Moves-expire t rows) new_issued))
        (λ r _. again t r r.state)))
  where
    new_issued : (new_row a obligation fingerprint).state ≡ issued
    new_issued = unfold new_row in refl

    again :
        (t : Text) (r : Row) (s : State)
        → Leads rows (issue_again fingerprint r s (map (expire t) rows))
    again t r s =
        subst⁻¹ (Moves rows) (issue_again-rows fingerprint r s (map (expire t) rows))
          (Moves-expire t rows)

-- `consume` moves each authorization's state only as the lifecycle allows: what is consumed or expired
-- stays so, nothing goes away, and what is new is issued.
pub consume-Moves :
    (i : Text) (now : Option Datetime) (rows : List Row) → Moves rows (consume i now rows).1
unfolding consume consume_body consume_row
consume-Moves i now rows =
    on_if-rule (Leads rows) (is_identifier i) _ _
      (λ _. Moves-with_text rows (format_timestamp now) _ (λ t.
        Moves-transaction rows (consume_body i t rows) (
          on_option-rule (Leads rows) (find i rows) _ _ (λ _. Moves-refl rows)
            (λ r e. by_state t r e r.state refl))))
      (λ _. Moves-refl rows)
  where
    overdue :
        (r : Row)
        → find i rows ≡ some r
        → may (some r.state) (some expired) ≡ true
        → Moves rows (map (at_key r.authorization_id lapse) rows)
    overdue r e m = Moves-at_key i lapse rows r e (λ q. refl) m

    by_state :
        (t : Text) (r : Row)
        → find i rows ≡ some r
        → (s : State) → r.state ≡ s
        → Moves rows (consume_row t r s rows).1
    by_state t r e consumed y = Moves-refl rows
    by_state t r e expired y = overdue r e (rw y)
    by_state t r e issued y =
        on_if-rule (Leads rows) (is_over t r) _ _ (λ _. overdue r e (rw y))
          (λ _. Moves-at_key i (mark t) rows r e (λ q. refl) (rw y))

-- `state` moves each authorization's state only as the lifecycle allows: what is consumed or expired
-- stays so, nothing goes away, and what is new is issued.
pub journal_state-Moves :
    (i : Text) (now : Option Datetime) (rows : List Row) → Moves rows (journal_state i now rows).1
unfolding journal_state state_row
journal_state-Moves i now rows =
    on_if-rule Leads_state (is_identifier i) _ _
      (λ _. Moves-with_text rows (format_timestamp now) _ (λ t.
        Moves-transaction rows
          (on_option (find i rows) (raised authorization_invalid, rows) (λ r. state_row t r rows))
          (on_option-rule Leads_state (find i rows) _ _ (λ _. Moves-refl rows)
            (λ r e.
              on_if-rule Leads_state (is_issued r.state && is_over t r) _ _
                (λ z. Moves-at_key i lapse rows r e (λ q. refl) (overdue r.state (is_over t r) z))
                (λ _. Moves-refl rows)))))
      (λ _. Moves-refl rows)
  where
    Leads_state : Step State → Type 0
    Leads_state s = Moves rows s.1

    overdue :
        (s : State) (b : Bool) → (is_issued s && b) ≡ true → may (some s) (some expired) ≡ true
    overdue s b z = ground arith
