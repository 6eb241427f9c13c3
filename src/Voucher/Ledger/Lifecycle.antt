-- ===== src/Voucher/Ledger/Lifecycle.antt =====
-- The lifecycle of a submission, and the journal of its events.
use foundry_pay.Base.{
  ◌≡◌, refl, subst, subst⁻¹, Bool, true, false, Option, none, some, [], ◌∷◌, ◌++◌, String, str_eq,
  Text, text_eq, text_eq_refl, text_eq→eq, ◌⊎◌, inl, inr, Bool-cases, on_result-rule,
  on_option-rule, on_if-rule, Result, Failure, reject,
}
use foundry_pay.Python.Value.{Value}
use foundry_pay.Python.Datetime.{Datetime}
use foundry_pay.Python.Json.{is_bindable, json_eq}
use foundry_pay.Canonical.Json.{Host}
use foundry_pay.Voucher.Context.{VoucherContext}
use foundry_pay.Voucher.Verify.{SignatureVerifier}
use foundry_pay.Voucher.Table.{
  State, issued, verified, activation_requested, rejected, Row, Event, Ledger, find_row,
}
use foundry_pay.Voucher.Table.Rows.{
  find_row-update_self, find_row-update_ne, find_row-append, find_row-append_new,
}
use foundry_pay.Voucher.Record.{
  VoucherRecord, Step, transition, new_row, check_issue, insert_issued, record_issued, time_text,
}
use foundry_pay.Voucher.Ledger.{
  fill, record_failure, try_verify, verify_row, verify_found, verify_at, verify_issued,
  try_activate, check_clock, activate_row, activate_found, activate_at, request_activation,
}
use foundry_pay.Voucher.Ledger.Invariant.{found_self}

-- The state of a submission, if it is there.
abbrev pub state_of : Option Row → Option State
state_of none = none
state_of (some r) = some r.state

-- The changes of state that the ledger makes: a submission is issued once, an issued one is verified
-- or rejected, and a verified one is sent to activation or rejected; the last two states are final.
abbrev pub may : Option State → Option State → Bool
may none none = true
may none (some issued) = true
may (some issued) (some issued) = true
may (some issued) (some verified) = true
may (some issued) (some rejected) = true
may (some verified) (some verified) = true
may (some verified) (some activation_requested) = true
may (some verified) (some rejected) = true
may (some activation_requested) (some activation_requested) = true
may (some rejected) (some rejected) = true
may _ _ = false

may_stay : (o : Option State) → may o o ≡ true
may_stay none = refl
may_stay (some issued) = refl
may_stay (some verified) = refl
may_stay (some activation_requested) = refl
may_stay (some rejected) = refl

-- The event that a change appends says of the row what the row says itself.
pub record Logs (l l' : Ledger) : Type 0 where
  pub event : Event
  pub row : Row
  pub appended : l'.events ≡ l.events ++ (event ∷ [])
  pub there : find_row event.submission l'.rows ≡ some row
  pub same_state : row.state ≡ event.new_state
  pub same_error : row.error_code ≡ event.event_error
  pub same_time : row.updated_at ≡ event.observed_at

-- What a call does: every submission's state moves as it may, and the ledger stays as it was or has
-- one event more.
pub record Moves (l : Ledger) (s : Step) : Type 0 where
  pub moved :
      (id : Text) → may (state_of (find_row id l.rows)) (state_of (find_row id s.1.rows)) ≡ true
  pub logged : (s.1 ≡ l) ⊎ Logs l s.1

Moves-stay : (l : Ledger) (s : Step) → s.1 ≡ l → Moves l s
Moves-stay l s e = record {
  moved = λ id.
      subst⁻¹ (λ k. may (state_of (find_row id l.rows)) (state_of (find_row id k.rows)) ≡ true) e
        (may_stay _);
  logged = inl e;
}

module _ (l : Ledger) (r : Row) (found : find_row r.submission_id l.rows ≡ some r) where
  module _ (s : State) (e : Option String) (t : Text) (f : Row → Row)
      (keeps : (q : Row) → (f q).submission_id ≡ q.submission_id) where
    transition-Logs : Logs l (transition r.submission_id s e t f l)
    unfolding transition
    transition-Logs = record {
      event = record {
        submission = r.submission_id;
        new_state = s;
        event_error = e;
        observed_at = t;
      };
      row = record (f r) { state = s; error_code = e; updated_at = t };
      appended = refl;
      there =
          find_row-update_self (λ q. record (f q) { state = s; error_code = e; updated_at = t })
            keeps r.submission_id l.rows r found;
      same_state = refl;
      same_error = refl;
      same_time = refl;
    }

    transition-moved :
        may (some r.state) (some s) ≡ true
        → (id : Text)
        → may
            (state_of (find_row id l.rows))
            (state_of (find_row id (transition r.submission_id s e t f l).rows))
          ≡ true
    unfolding transition
    transition-moved m id = elim (Bool-cases (text_eq r.submission_id id)) [
      | inl y ↦
          subst
            (λ i.
              may (state_of (find_row i l.rows))
                (state_of (find_row i (transition r.submission_id s e t f l).rows))
              ≡ true)
            (text_eq→eq r.submission_id id y)
            (rw
              (
                found,
                find_row-update_self
                    (λ q. record (f q) { state = s; error_code = e; updated_at = t }) keeps
                    r.submission_id l.rows r found,
              )
              m)
      | inr n ↦
          rw
            (find_row-update_ne (λ q. record (f q) { state = s; error_code = e; updated_at = t })
              keeps r.submission_id id l.rows n)
            (may_stay _)
    ]

    transition-Moves :
        (q : Result VoucherRecord)
        → may (some r.state) (some s) ≡ true
        → Moves l (q, transition r.submission_id s e t f l)
    transition-Moves q m = record { moved = transition-moved m; logged = inr transition-Logs }

  record_failure-Moves :
      (s : State) (t : Text) (e : Failure)
      → may (some r.state) (some s) ≡ true
      → may (some r.state) (some rejected) ≡ true
      → Moves l (record_failure r.submission_id s t e l)
  unfolding record_failure
  record_failure-Moves s t (reject code name) m n =
      on_if-rule (Moves l) (str_eq code "journal_time_regressed") _ _ (λ _. Moves-stay l _ refl)
        (λ _.
          on_if-rule (Moves l) (str_eq code "signature_verifier_failed") _ _
            (λ _. transition-Moves s (some code) t (λ q. q) (λ q. refl) _ m)
            (λ _. transition-Moves rejected (some code) t (λ q. q) (λ q. refl) _ n))
  record_failure-Moves s t _ m n = Moves-stay l _ refl

module _ (h : Host) (verifier : SignatureVerifier) where
  module _ (r : Row) (x : VoucherContext) (now : Datetime) (t : Text) (l : Ledger)
      (found : find_row r.submission_id l.rows ≡ some r) where
    verify_row-Moves : r.state ≡ issued → Moves l (verify_row h verifier r t x now l)
    unfolding verify_row fill
    verify_row-Moves e =
        on_result-rule (Moves l) (try_verify h verifier r l.rows x now) _ _
          (λ z _. record_failure-Moves l r found issued t z (rw e) (rw e))
          (λ w _. transition-Moves l r found verified none t (fill w.0 w.1) (λ q. refl) _ (rw e))

    verify_found-Moves : (s : State) → r.state ≡ s → Moves l (verify_found h verifier r s t x now l)
    unfolding verify_found
    verify_found-Moves issued e = verify_row-Moves e
    verify_found-Moves _ e = Moves-stay l _ refl

    activate_row-Moves : r.state ≡ verified → Moves l (activate_row h verifier r t x now l)
    unfolding activate_row
    activate_row-Moves e =
        on_result-rule (Moves l) (try_activate h verifier r x now) _ _
          (λ z _. record_failure-Moves l r found verified t z (rw e) (rw e))
          (λ _ _.
            transition-Moves l r found activation_requested none t (λ q. q) (λ q. refl) _ (rw e))

    activate_found-Moves :
        (s : State) → r.state ≡ s → Moves l (activate_found h verifier r s t x now l)
    unfolding activate_found
    activate_found-Moves verified e =
        on_result-rule (Moves l) (check_clock r now) _ _ (λ _ _. Moves-stay l _ refl)
          (λ _ _. activate_row-Moves e)
    activate_found-Moves _ e = Moves-stay l _ refl

  -- `verify_issued` moves each submission's state only as the ledger's lifecycle allows, which has
  -- the rejected and the activation requested as final states. It leaves the ledger as it was, or
  -- appends exactly one event, which has the state, the error and the time that the row then has.
  pub verify_issued-Moves :
      (id : Text) (x : VoucherContext) (now : Datetime) (l : Ledger)
      → Moves l (verify_issued h verifier id x now l)
  unfolding verify_issued verify_at
  verify_issued-Moves id x now l =
      on_result-rule (Moves l) (time_text now) _ _ (λ _ _. Moves-stay l _ refl)
        (λ t _.
          on_option-rule (Moves l) (find_row id l.rows) _ _ (λ _. Moves-stay l _ refl)
            (λ r e. verify_found-Moves r x now t l (found_self id l.rows r e) r.state refl))

  -- `request_activation` moves each submission's state only as the ledger's lifecycle allows. It
  -- leaves the ledger as it was, or appends exactly one event, which has the state, the error and the
  -- time that the row then has.
  pub request_activation-Moves :
      (id : Text) (x : VoucherContext) (now : Datetime) (l : Ledger)
      → Moves l (request_activation h verifier id x now l)
  unfolding request_activation activate_at
  request_activation-Moves id x now l =
      on_result-rule (Moves l) (time_text now) _ _ (λ _ _. Moves-stay l _ refl)
        (λ t _.
          on_option-rule (Moves l) (find_row id l.rows) _ _ (λ _. Moves-stay l _ refl)
            (λ r e. activate_found-Moves r x now t l (found_self id l.rows r e) r.state refl))

module _ (l : Ledger) (id : Text) (v : Value) (t : Text) (absent : find_row id l.rows ≡ none) where
  abbrev inserted : Ledger
  inserted = record {
    rows = l.rows ++ (new_row id v t ∷ []);
    events =
        l.events
        ++ (record { submission = id; new_state = issued; event_error = none; observed_at = t }
            ∷ []);
  }

  insert-moved :
      (j : Text) → may (state_of (find_row j l.rows)) (state_of (find_row j inserted.rows)) ≡ true
  insert-moved j = elim (Bool-cases (text_eq id j)) [
    | inl y ↦
        subst (λ i. may (state_of (find_row i l.rows)) (state_of (find_row i inserted.rows)) ≡ true)
          (text_eq→eq id j y)
          (rw (absent, find_row-append_new id l.rows (new_row id v t) absent (text_eq_refl id))
            refl)
    | inr n ↦ rw (find_row-append j l.rows (new_row id v t) n) (may_stay _)
  ]

  insert-Moves : (q : Result VoucherRecord) → Moves l (q, inserted)
  insert-Moves q = record {
    moved = insert-moved;
    logged = inr (record {
      event = record { submission = id; new_state = issued; event_error = none; observed_at = t };
      row = new_row id v t;
      appended = refl;
      there = find_row-append_new id l.rows (new_row id v t) absent (text_eq_refl id);
      same_state = refl;
      same_error = refl;
      same_time = refl;
    });
  }

-- `record_issued` moves each submission's state only as the ledger's lifecycle allows, so that a new
-- submission starts issued. It leaves the ledger as it was, or appends exactly one event, which has
-- the state, the error and the time that the row then has.
pub record_issued-Moves :
    (id v : Value) (now : Datetime) (l : Ledger) → Moves l (record_issued id v now l)
unfolding record_issued insert_issued
record_issued-Moves id v now l =
    on_result-rule (Moves l) (check_issue id v now) _ _ (λ _ _. Moves-stay l _ refl)
      (λ c _.
        on_option-rule (Moves l) (find_row c.0 l.rows) _ _
          (λ e.
            on_if-rule (Moves l) (is_bindable c.1) _ _ (λ _. insert-Moves l c.0 c.1 c.2 e _)
              (λ _. Moves-stay l _ refl))
          (λ r _.
            on_if-rule (Moves l) (json_eq r.voucher c.1) _ _ (λ _. Moves-stay l _ refl)
              (λ _. Moves-stay l _ refl)))
