-- ===== src/Authorization/Tests.antt =====
-- Runs of the authorization journal, and its theorems at concrete tables.
use foundry_pay.Base.{◌≡◌, refl, true, List, [], ◌∷◌, lit}
use foundry_pay.Python.Value.{null}
use foundry_pay.Python.Pattern.{is_identifier}
use foundry_pay.Python.Datetime.{Datetime, strftime}
use foundry_pay.Base.{some, text_eq, text_lt}
use foundry_pay.Authorization.Journal.{
  authorization_conflict, authorization_expired, authorization_replay, returned, raised, issued,
  Authorization, Row, format_timestamp, find, is_over, expire, at_key, is_active, any_active,
  new_row, issue_again, issue_body, issue, consume_row, consume_body, consume, state_row,
  journal_state,
}
use foundry_pay.Authorization.Journal.Moves.{Moves, issue-Moves, consume-Moves, journal_state-Moves}
use foundry_pay.Authorization.Journal.SingleUse.{
  start, call, issuing, asking, Consumes, consume-Consumes, consume_once, consume_overdue,
}
use foundry_pay.Authorization.Journal.Disjoint.{IsDisjoint, reached-IsDisjoint}

unfoldable running : Unit {0}
unfolding lit text_eq text_lt is_identifier strftime format_timestamp find is_over expire at_key
    is_active any_active new_row issue_again issue_body issue consume_row consume_body consume
    state_row journal_state
running = tt

abbrev noon : Datetime
noon = record {
  year = 2026;
  month = 7;
  day = 2;
  hour = 12;
  minute = 0;
  second = 0;
  microsecond = 0;
  utc = true;
}

abbrev evening : Datetime
evening = record noon { hour = 18 }

abbrev grant : Authorization
grant = record {
  id = lit "auth-1";
  request = lit "request-1";
  issued_time = lit "2026-07-02T12:00:00Z";
  expiry = lit "2026-07-02T12:01:00Z";
  body = null;
}

abbrev granted : List Row
granted = (issue grant (lit "obligation-1") (lit "fingerprint") (some noon) []).1

abbrev used : List Row
used = (consume (lit "auth-1") (some noon) granted).1

grant_is_issued :
    issue grant (lit "obligation-1") (lit "fingerprint") (some noon) []
    ≡ (returned null, new_row grant (lit "obligation-1") (lit "fingerprint") ∷ [])
unfolding running
grant_is_issued = refl

-- A second authorization for the same obligation is refused while the first is active.
second_grant_conflicts :
    issue
      (record grant { id = lit "auth-2"; request = lit "request-2" })
      (lit "obligation-1")
      (lit "other")
      (some noon)
      granted
    ≡ (raised authorization_conflict, granted)
unfolding running
second_grant_conflicts = refl

grant_is_used : consume (lit "auth-1") (some noon) granted ≡ (returned null, used)
unfolding running
grant_is_used = refl

consume-Consumes_example : Consumes (lit "auth-1") noon null granted used
consume-Consumes_example = consume-Consumes (lit "auth-1") noon granted null used grant_is_used

consume_once_example :
    consume (lit "auth-1") (some evening) (journal_state (lit "auth-1") (some noon) used).1
    ≡ (raised authorization_replay, (journal_state (lit "auth-1") (some noon) used).1)
consume_once_example =
    consume_once (lit "auth-1") noon null granted used grant_is_used
      (journal_state (lit "auth-1") (some noon) used).1
      (call start (asking (lit "auth-1") (some noon) used)) evening

well_named : is_identifier (lit "auth-1") ≡ true
unfolding running
well_named = refl

granted_row :
    find (lit "auth-1") granted ≡ some (new_row grant (lit "obligation-1") (lit "fingerprint"))
unfolding running
granted_row = refl

granted_issued : (new_row grant (lit "obligation-1") (lit "fingerprint")).state ≡ issued
unfolding running
granted_issued = refl

granted_over :
    is_over (strftime evening) (new_row grant (lit "obligation-1") (lit "fingerprint")) ≡ true
unfolding running
granted_over = refl

consume_overdue_example :
    consume (lit "auth-1") (some evening) granted ≡ (raised authorization_expired, granted)
consume_overdue_example =
    consume_overdue (lit "auth-1") evening granted
      (new_row grant (lit "obligation-1") (lit "fingerprint")) well_named granted_row granted_issued
      granted_over

issue-Moves_example :
    Moves used (issue grant (lit "obligation-1") (lit "fingerprint") (some noon) used).1
issue-Moves_example = issue-Moves grant (lit "obligation-1") (lit "fingerprint") (some noon) used

consume-Moves_example : Moves granted used
consume-Moves_example = consume-Moves (lit "auth-1") (some noon) granted

journal_state-Moves_example : Moves granted (journal_state (lit "auth-1") (some evening) granted).1
journal_state-Moves_example = journal_state-Moves (lit "auth-1") (some evening) granted

reached-IsDisjoint_example : IsDisjoint granted
reached-IsDisjoint_example =
    reached-IsDisjoint granted
      (call start (issuing grant (lit "obligation-1") (lit "fingerprint") (some noon) []))
