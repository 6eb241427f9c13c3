-- ===== src/Authorization/Journal/SingleUse.antt =====
-- `AuthorizationJournal.consume` over sequences of calls of the journal's methods.
use foundry_pay.Base.{
  ◌≡◌, refl, subst, subst⁻¹, true, false, Option, some, none, List, map, arith, Text, text_eq_refl,
}
use foundry_pay.Python.Value.{Value}
use foundry_pay.Python.Pattern.{is_identifier}
use foundry_pay.Python.Datetime.{Datetime, strftime}
use foundry_pay.Authorization.Journal.{
  authorization_expired, authorization_replay, returned, raised, State, issued, consumed, expired,
  Authorization, Row, format_timestamp, find, is_over, at_key, issue, mark, consume_row,
  consume_body, consume, journal_state,
}
use foundry_pay.Authorization.Journal.Rows.{find-map, at_key-id}
use foundry_pay.Authorization.Journal.Moves.{
  state_of, may, Moves, issue-Moves, consume-Moves, journal_state-Moves,
}

-- One call of a method on the journal's table, with any arguments, whatever it returns or raises.
pub data Call : List Row → List Row → Type 0 where
  issuing :
      (a : Authorization) (obligation fingerprint : Text) (now : Option Datetime) (rows : List Row)
      → Call rows (issue a obligation fingerprint now rows).1
  consuming :
      (i : Text) (now : Option Datetime) (rows : List Row) → Call rows (consume i now rows).1
  asking :
      (i : Text) (now : Option Datetime) (rows : List Row) → Call rows (journal_state i now rows).1

pub data Reaches (k : List Row) : List Row → Type 0 where
  start : Reaches k k
  call : {l m : List Row} → Reaches k l → Call l m → Reaches k m

Call-Moves : {l m : List Row} → Call l m → Moves l m
Call-Moves (issuing a o f t l) = issue-Moves a o f t l
Call-Moves (consuming i t l) = consume-Moves i t l
Call-Moves (asking i t l) = journal_state-Moves i t l

-- An authorization that is consumed stays so.
consumed_stays :
    (i : Text) {k l : List Row}
    → Reaches k l
    → state_of (find i k) ≡ some consumed
    → state_of (find i l) ≡ some consumed
consumed_stays i start h = h
consumed_stays i (call {l} {m} w c) h = final (state_of (find i m)) (
    subst (λ o. may o (state_of (find i m)) ≡ true) (consumed_stays i w h) ((Call-Moves c).moved i))
  where
    final : (o : Option State) → may (some consumed) o ≡ true → o ≡ some consumed
    final none e = cc
    final (some issued) e = cc
    final (some consumed) e = refl
    final (some expired) e = cc

-- What a successful call of `consume` has found and has left.
pub record Consumes (i : Text) (t : Datetime) (v : Value) (rows rows' : List Row) : Type 0 where
  pub row : Row
  pub well_named : is_identifier i ≡ true
  pub found : find i rows ≡ some row
  pub was_issued : row.state ≡ issued
  pub in_time : is_over (strftime t) row ≡ false
  pub value : v ≡ row.authorization
  pub now_consumed : state_of (find i rows') ≡ some consumed

-- How a successful call of `consume` ends: the row is marked, and nothing else changes.
record Ends (i : Text) (t : Datetime) (v : Value) (rows rows' : List Row) : Type 0 where
  row : Row
  well_named : is_identifier i ≡ true
  found : find i rows ≡ some row
  was_issued : row.state ≡ issued
  in_time : is_over (strftime t) row ≡ false
  value : v ≡ row.authorization
  written : rows' ≡ map (at_key row.authorization_id (mark (strftime t))) rows

consume-Ends :
    (i : Text) (t : Datetime) (rows : List Row) (v : Value) (rows' : List Row)
    → consume i (some t) rows ≡ (returned v, rows')
    → Ends i t v rows rows'
unfolding consume consume_body consume_row format_timestamp
consume-Ends i t rows v rows' h = ground arith

marked :
    (i now : Text) (rows : List Row) (r : Row)
    → find i rows ≡ some r
    → state_of (find i (map (at_key r.authorization_id (mark now)) rows)) ≡ some consumed
unfolding at_key
marked i now rows r found =
    rw
      (
        find-map (at_key r.authorization_id (mark now))
            (at_key-id r.authorization_id (mark now) (λ q. refl)) i rows,
        found,
      )
      (rw (text_eq_refl r.authorization_id))

-- A successful call of `consume` found the authorization issued and before its expiry, returns it, and
-- leaves it consumed.
pub consume-Consumes :
    (i : Text) (t : Datetime) (rows : List Row) (v : Value) (rows' : List Row)
    → consume i (some t) rows ≡ (returned v, rows')
    → Consumes i t v rows rows'
consume-Consumes i t rows v rows' h =
    let e = consume-Ends i t rows v rows' h in
    record {
      row = e.row;
      well_named = e.well_named;
      found = e.found;
      was_issued = e.was_issued;
      in_time = e.in_time;
      value = e.value;
      now_consumed =
          subst⁻¹ (λ z. state_of (find i z) ≡ some consumed) e.written
            (marked i (strftime t) rows e.row e.found);
    }

consume_replay :
    (i : Text) (t : Datetime) (rows : List Row)
    → is_identifier i ≡ true
    → state_of (find i rows) ≡ some consumed
    → consume i (some t) rows ≡ (raised authorization_replay, rows)
unfolding consume consume_body consume_row format_timestamp
consume_replay i t rows n h = ground arith

-- An authorization is consumed at most once: after a call of `consume` that succeeds, and any further
-- calls of the journal's methods, every call of `consume` on the same identifier raises
-- `AuthorizationReplay` and leaves the table as it is.
pub consume_once :
    (i : Text) (t : Datetime) (v : Value) (rows rows' : List Row)
    → consume i (some t) rows ≡ (returned v, rows')
    → (later : List Row) → Reaches rows' later
    → (t' : Datetime) → consume i (some t') later ≡ (raised authorization_replay, later)
consume_once i t v rows rows' h later w t' =
    let c = consume-Consumes i t rows v rows' h in
    consume_replay i t' later c.well_named (consumed_stays i w c.now_consumed)

-- A call of `consume` on an authorization that is issued, but whose expiry is not after the clock,
-- raises `AuthorizationExpired`, and the update to `expired` that it has made is rolled back: the table
-- stays as it is.
pub consume_overdue :
    (i : Text) (t : Datetime) (rows : List Row) (r : Row)
    → is_identifier i ≡ true
    → find i rows ≡ some r
    → r.state ≡ issued
    → is_over (strftime t) r ≡ true
    → consume i (some t) rows ≡ (raised authorization_expired, rows)
unfolding consume consume_body consume_row format_timestamp
consume_overdue i t rows r n f s o = ground arith
