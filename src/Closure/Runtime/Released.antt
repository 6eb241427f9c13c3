-- ===== src/Closure/Runtime/Released.antt =====
-- Releases after a submission.
use foundry_pay.Base.{
  ◌≡◌, refl, sym, subst, ap, ◌∙◌, ◌⊎◌, inl, inr, true, false, Option, some, List, [], ◌∷◌, ◌++◌,
  Text, text_eq, ok, err, Failure, arith, some-eq, >>=-eq-ok, ok-eq, ◌>>=◌, Bool-cases,
  on_result-rule, on_option-rule,
}
use foundry_pay.Python.Value.{Fields, bool}
use foundry_pay.Python.Datetime.{Datetime}
use foundry_pay.Canonical.Json.{Host}
use foundry_pay.Closure.Checks.{format_time, dict}
use foundry_pay.Closure.Table.{
  RefundState, validated, execution_committed, submitted, needs_recovery, reconciling, completed,
  Refund, ClosureDb, find_refund, next_event, insert_event,
}
use foundry_pay.Closure.Table.Rows.{find_refund-update}
use foundry_pay.Closure.Runtime.Transact.{read_row-found}
use foundry_pay.Closure.Runtime.{
  RefundRecord, Step, set_columns, write_row, finish, transact, carry_out, read_row,
}
use foundry_pay.Closure.Runtime.Change.{may, Terms, Change, stays, evolves, registers}
use foundry_pay.Closure.Runtime.Calls.{Call, Call-Change}
use foundry_pay.Closure.Runtime.Reached.{intents, intents-may}
use foundry_pay.Closure.Runtime.Commit.{
  plan_submission, release_state, plan_release, record_submit_intent, release_before_submission,
}

-- The tables that further calls lead to.
pub data Becomes (h : Host) (db : ClosureDb) : ClosureDb → Type 0 where
  begin : Becomes h db db
  then_call : (l : ClosureDb) (step : Step) → Becomes h db l → Call h l step → Becomes h db step.1

find_refund-replace :
    (i : Text) (before after : List Refund) (r r' q : Refund)
    → r'.refund_id ≡ r.refund_id
    → find_refund i (before ++ (r ∷ after)) ≡ some q
    → (find_refund i (before ++ (r' ∷ after)) ≡ some q)
      ⊎ ((q ≡ r) × (find_refund i (before ++ (r' ∷ after)) ≡ some r'))
unfolding find_refund
find_refund-replace i [] after r r' q k h = elim (Bool-cases (text_eq r.refund_id i)) [
  | inl y ↦ inr (sym (some-eq (head y)), rw (k, y) refl)
  | inr n ↦ inl (rw (k, n) (tail n))
]
  where
    head : text_eq r.refund_id i ≡ true → some r ≡ some q
    head y = ground arith

    tail : text_eq r.refund_id i ≡ false → find_refund i after ≡ some q
    tail n = ground arith
find_refund-replace i (x ∷ before) after r r' q k h = elim (Bool-cases (text_eq x.refund_id i)) [
  | inl y ↦ inl (ground arith)
  | inr n ↦ rw n (find_refund-replace i before after r r' q k (tail n))
]
  where
    tail : text_eq x.refund_id i ≡ false → find_refund i (before ++ (r ∷ after)) ≡ some q
    tail n = ground arith

find_refund-append :
    (i : Text) (rs : List Refund) (x q : Refund)
    → find_refund i rs ≡ some q
    → find_refund i (rs ++ (x ∷ [])) ≡ some q
unfolding find_refund
find_refund-append i [] x q h = cc
find_refund-append i (r ∷ rs) x q h = ground (arith, find_refund-append i rs x q)

-- The update and the payload of `record_submit_intent`
abbrev set_intent : Refund → Refund
set_intent r = record r { submit_intent_count = 1 }

abbrev intent_payload : Fields
intent_payload = dict (("submit_intent_persisted", bool true) ∷ [])

-- A refund with its submit intent
record Sent (i : Text) (db : ClosureDb) : Type 0 where
  row : Refund
  there : find_refund i db.refunds ≡ some row
  submitted_once : intents row.state ≡ 1

sent-may : (s s' : RefundState) → may s s' ≡ true → intents s ≡ 1 → intents s' ≡ 1
sent-may s s' m n = ground (arith, intents-may s s' m)

pub failed_is_no_value : {e : Failure} {a : RefundRecord} → err e ≡ ok a → ⊥
failed_is_no_value h = cc

module _ (h : Host) (i : Text) where
  Change-Sent : (db db' : ClosureDb) → Sent i db → Change h db db' → Sent i db'
  Change-Sent db db' s stays = s
  Change-Sent db db' s (evolves before after r r' e eq v f) =
      elim (find_refund-replace i before after r r' s.row (ap Terms.identity v.keeps)
        (subst (λ rs. find_refund i rs ≡ some s.row) eq s.there)) [
          | inl same ↦ record { row = s.row; there = same; submitted_once = s.submitted_once }
          | inr (q, moved) ↦ record {
            row = r';
            there = moved;
            submitted_once =
                sent-may r.state r'.state v.moves
                  (subst (λ (x : Refund). intents x.state ≡ 1) q s.submitted_once);
          }
        ]
  Change-Sent db db' s (registers r e absent n c le f) = record {
    row = s.row;
    there = find_refund-append i db.refunds r s.row s.there;
    submitted_once = s.submitted_once;
  }

  Becomes-Sent : (db later : ClosureDb) → Sent i db → Becomes h db later → Sent i later
  Becomes-Sent db later s begin = s
  Becomes-Sent db later s (then_call l step b call) =
      Change-Sent l step.1 (Becomes-Sent db l s b) (Call-Change h l step call)

  -- A step that returns a record leaves the refund with its submit intent.
  LeavesSent : Step → Type 0
  LeavesSent s = (e : RefundRecord) → s.0 ≡ ok e → Sent i s.1

  module _ (t : Text) (r : Refund) (db : ClosureDb)
      (found : find_refund i db.refunds ≡ some r) where
    written-Sent :
        (f : Refund → Refund)
        → ((q : Refund) → (f q).refund_id ≡ q.refund_id)
        → (payload : Fields) → (db' : ClosureDb)
        → (next_event h i submitted payload t db.events >>= (λ e. write_row i submitted f t e db))
          ≡ ok db'
        → Sent i db'
    unfolding write_row
    written-Sent f k payload db' eq =
        let w = >>=-eq-ok (next_event h i submitted payload t db.events) _ eq in
        let v = >>=-eq-ok (insert_event w.0 db.events) _ w.2 in
        subst (Sent i) (ok-eq v.2) (record {
          row = set_columns submitted f t r;
          there = find_refund-update i (set_columns submitted f t) db.refunds r k found;
          submitted_once = refl;
        })

    submission-Sent :
        (s : RefundState) → r.state ≡ s → LeavesSent (carry_out h i (plan_submission s) t r db)
    unfolding LeavesSent carry_out plan_submission finish
    submission-Sent submitted e =
        λ _ _. record { row = r; there = found; submitted_once = rw e refl }
    submission-Sent needs_recovery e =
        λ _ _. record { row = r; there = found; submitted_once = rw e refl }
    submission-Sent reconciling e =
        λ _ _. record { row = r; there = found; submitted_once = rw e refl }
    submission-Sent completed e =
        λ _ _. record { row = r; there = found; submitted_once = rw e refl }
    submission-Sent execution_committed e =
        on_result-rule LeavesSent
          (next_event h i submitted intent_payload t db.events
            >>= (λ e. write_row i submitted set_intent t e db))
          _ _ (λ _ _. λ _ g. elim (failed_is_no_value g) [ ])
          (λ db' q. λ _ _. written-Sent set_intent (λ q. refl) intent_payload db' q)
    submission-Sent _ e = λ _ g. elim (failed_is_no_value g) [ ]

  submit-Sent :
      (now : Option Datetime) (db : ClosureDb) → LeavesSent (record_submit_intent h i now db)
  unfolding record_submit_intent transact LeavesSent
  submit-Sent now db =
      on_result-rule LeavesSent (format_time now) _ _
        (λ _ _. λ _ g. elim (failed_is_no_value g) [ ])
        (λ t _.
          on_result-rule LeavesSent (read_row i db.refunds) _ _
            (λ _ _. λ _ g. elim (failed_is_no_value g) [ ])
            (λ r q. submission-Sent t r db (read_row-found i db.refunds r q) r.state refl))

  -- A step that raises and leaves the tables as they are
  Refuses : ClosureDb → Step → Type 0
  Refuses db s = (e : Failure) × (s ≡ (err e, db))

  release-Refuses :
      (s : RefundState) (now : Option Datetime) (db : ClosureDb)
      → Sent i db
      → Refuses db (transact h i (format_time now) (λ t r. plan_release s r r.state) db)
  unfolding transact Refuses carry_out plan_release
  release-Refuses s now db sent =
      on_result-rule (Refuses db) (format_time now) _ _ (λ e _. (e, refl))
        (λ t _.
          on_result-rule (Refuses db) (read_row i db.refunds) _ _ (λ e _. (e, refl))
            (λ r q.
              let same = some-eq (sym sent.there ∙ read_row-found i db.refunds r q) in
              refused t r r.state
                (subst (λ (x : Refund). intents x.state ≡ 1) same sent.submitted_once)))
    where
      refused :
          (t : Text) (r : Refund) (q : RefundState)
          → intents q ≡ 1
          → Refuses db (carry_out h i (plan_release s r q) t r db)
      refused t r validated n = cc
      refused t r _ n = (_, refl)

-- Once `record_submit_intent` has returned for a refund, and after any further calls, each release of
-- that refund raises and leaves the tables as they are, whatever state it names.
pub never_released :
    (h : Host) (i : Text) (now : Option Datetime) (db : ClosureDb) (e : RefundRecord)
    (db' later : ClosureDb) (state : Text) (now' : Option Datetime)
    → record_submit_intent h i now db ≡ (ok e, db')
    → Becomes h db' later
    → (z : Failure) × (release_before_submission h i state now' later ≡ (err z, later))
unfolding release_before_submission Refuses LeavesSent
never_released h i now db e db' later state now' eq b =
    let sent : Sent i db' =
      subst (Sent i) (ap (λ (s : Step). s.1) eq)
        (submit-Sent h i now db e (ap (λ (s : Step). s.0) eq)) in
    on_option-rule (Refuses h i later) (release_state state) _ _ (λ _. (_, refl))
      (λ s _. release-Refuses h i s now' later (Becomes-Sent h i db' later sent b))
