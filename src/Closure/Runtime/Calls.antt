-- ===== src/Closure/Runtime/Calls.antt =====
-- Every call of `ClosureRuntime` that may write, and the tables that calls can reach.
use foundry_pay.Base.{
  ◌≡◌, refl, sym, subst, subst⁻¹, ◌+◌, ◌≤◌, true, false, Option, none, some, List, [], ◌∷◌, ◌++◌,
  Text, text_eq, text_eq→eq, ok, on_if-rule, on_result-rule, on_option-rule, lit, tests, >>=-eq-ok,
  >>-eq-ok_both, ok-eq, arith,
}
use foundry_pay.Python.Value.{Value, Fields, at}
use foundry_pay.Python.Datetime.{Datetime}
use foundry_pay.Canonical.Json.{Host}
use foundry_pay.Closure.Checks.{format_time}
use foundry_pay.Closure.Table.{
  RefundState, validated, Refund, RefundEvent, ClosureDb, find_refund, find_repeated, scope_of,
  is_completed, reserved, sql_text, next_event, insert_event,
}
use foundry_pay.Closure.Table.Rows.{
  find_refund-id, find_refund-repeated, next_event-Made, insert_event-fresh,
}
use foundry_pay.Closure.Runtime.{Step}
use foundry_pay.Closure.Runtime.Change.{may, is_submitted, Change, stays, registers}
use foundry_pay.Closure.Runtime.Transact.{Sound, Leads, transact-Change, Made-Follows}
use foundry_pay.Closure.Runtime.Commit.{
  check_commitment, release_state, commit_execution, record_submit_intent,
  release_before_submission,
}
use foundry_pay.Closure.Runtime.Receipt.{check_receipt, record_technical_receipt}
use foundry_pay.Closure.Runtime.Recover.{
  check_recovery, check_divergence, record_recovered_signature, record_provider_divergence,
}
use foundry_pay.Closure.Runtime.Reconcile.{
  RefundObservationVerifier, check_verified, plan_reconciliation, reconcile,
}
use foundry_pay.Closure.Runtime.Register.{
  Registration, prepare_registration, new_refund, check_capacity, check_columns, not_null,
  fits_column, insert_refund, register_new, register_again, register_refund, text,
}
use foundry_pay.Closure.Runtime.Refines.{
  plan_commitment-Sound, plan_submission-Sound, plan_release-Sound, plan_receipt-Sound,
  plan_recovery-Sound, plan_divergence-Sound, plan_reconciliation-Sound,
}

-- A call on the tables, by what it gives.
pub data Call (h : Host) (db : ClosureDb) : Step → Type 0 where
  registering :
      (request freeze : Fields) (now : Option Datetime) (states : List Text)
      → Call h db (register_refund h request freeze now states db)
  committing :
      (i : Text) (commitment : Fields) (now : Option Datetime)
      → Call h db (commit_execution h i commitment now db)
  submitting : (i : Text) (now : Option Datetime) → Call h db (record_submit_intent h i now db)
  receiving :
      (i : Text) (receipt : Fields) (now : Option Datetime)
      → Call h db (record_technical_receipt h i receipt now db)
  reconciling_with :
      (i : Text) (observation : Fields) (verifier : RefundObservationVerifier)
      (now : Option Datetime)
      → Call h db (reconcile h i observation verifier now db)
  recovering :
      (i signature : Text) (response_hash : Value) (now : Option Datetime)
      → Call h db (record_recovered_signature h i signature response_hash now db)
  disputing :
      (i : Text) (provider_ids : List Value) (now : Option Datetime)
      → Call h db (record_provider_divergence h i provider_ids now db)
  releasing :
      (i state : Text) (now : Option Datetime)
      → Call h db (release_before_submission h i state now db)

-- The tables that calls lead to from empty ones, whatever the calls return or raise.
pub data Reached (h : Host) : ClosureDb → Type 0 where
  start : Reached h (record { refunds = []; events = [] })
  then_call : (db : ClosureDb) (step : Step) → Reached h db → Call h db step → Reached h step.1

-- The states that a release may name.
record Released (s : RefundState) : Type 0 where
  allowed : may validated s ≡ true
  unfinished : is_completed s ≡ false
  silent : is_submitted s ≡ false

release_state-Released : (t : Text) (s : RefundState) → release_state t ≡ some s → Released s
unfolding release_state
release_state-Released t s h = ground arith

check_capacity-fits :
    (r : Refund) (refunds : List Refund)
    → check_capacity r (scope_of r) refunds ≡ ok tt
    → reserved (scope_of r) refunds + r.requested_amount ≤ r.maximum_refundable
unfolding check_capacity fits_column
check_capacity-fits r refunds h = grind tests

module _ (h : Host) (g : Registration) (db : ClosureDb) where
  -- What an insertion has passed, and what it makes.
  record Inserts (db' : ClosureDb) : Type 0 where
    key : Text
    closure_id : Text
    entry : RefundEvent
    fits :
        check_capacity
          (new_refund g key closure_id)
          (scope_of (new_refund g key closure_id))
          db.refunds
        ≡ ok tt
    made : next_event h g.new_id validated g.projected.document g.now_text db.events ≡ ok entry
    journal : List RefundEvent
    journalled : insert_event entry db.events ≡ ok journal
    result :
        db'
        ≡ record { refunds = db.refunds ++ (new_refund g key closure_id ∷ []); events = journal }

  insert_refund-Inserts : (db' : ClosureDb) → insert_refund h g db ≡ ok db' → Inserts db'
  unfolding insert_refund
  insert_refund-Inserts db' q =
      let a = >>=-eq-ok (sql_text (at (lit "closure_id") g.request)) _ q in
      let b = >>=-eq-ok (not_null a.0) _ a.2 in
      let c = >>=-eq-ok (not_null g.key) _ b.2 in
      let r : Refund = new_refund g c.0 b.0 in
      let d = >>-eq-ok_both (check_capacity r (scope_of r) db.refunds) _ c.2 in
      let e = >>-eq-ok_both (check_columns r) _ d.1 in
      let f =
        >>=-eq-ok (next_event h g.new_id validated g.projected.document g.now_text db.events) _
          e.1 in
      let j = >>=-eq-ok (insert_event f.0 db.events) _ f.2 in
      record {
        key = c.0;
        closure_id = b.0;
        entry = f.0;
        fits = d.0;
        made = f.1;
        journal = j.0;
        journalled = j.1;
        result = sym (ok-eq j.2);
      }

  insert_refund-Change :
      find_refund g.new_id db.refunds ≡ none
      → (db' : ClosureDb) → insert_refund h g db ≡ ok db'
      → Change h db db'
  unfolding new_refund
  insert_refund-Change absent db' q =
      let w = insert_refund-Inserts db' q in
      let r : Refund = new_refund g w.key w.closure_id in
      let n = insert_event-fresh w.entry db.events w.journal w.journalled in
      let m =
        next_event-Made h g.new_id validated g.projected.document g.now_text db.events w.entry
          w.made in
      subst⁻¹ (Change h db) w.result (
        rw n.0 (
          registers r w.entry absent refl refl (check_capacity-fits r db.refunds w.fits)
            (Made-Follows h r w.entry db.events m n.1)))

  register_new-Change : find_refund g.new_id db.refunds ≡ none → Change h db (register_new h g db).1
  unfolding register_new
  register_new-Change absent =
      on_result-rule (Leads h db) (insert_refund h g db) _ _ (λ _ _. stays)
        (insert_refund-Change absent)

  register_again-Change : (r : Refund) → Change h db (register_again h g r db).1
  unfolding register_again
  register_again-Change r =
      on_if-rule (Leads h db) (text_eq r.request_hash (text (at (lit "request_hash") g.request))) _
        _ (λ _. stays) (λ _. stays)

module _ (h : Host) (db : ClosureDb) where
  register_refund-Change :
      (request freeze : Fields) (now : Option Datetime) (states : List Text)
      → Change h db (register_refund h request freeze now states db).1
  unfolding register_refund
  register_refund-Change request freeze now states =
      on_result-rule (Leads h db) (prepare_registration h request freeze now states) _ _
        (λ _ _. stays)
        (λ g _.
          on_option-rule (Leads h db)
            (find_repeated g.new_id g.new_channel g.new_epoch g.key db.refunds) _ _
            (λ n.
              register_new-Change h g db
                (find_refund-repeated g.new_id g.new_channel g.new_epoch g.key db.refunds n))
            (λ r _. register_again-Change h g db r))

  -- The plan of `reconcile`, for the row with its key
  reconciliation-Sound :
      (i : Text) (m : Fields) (t : Text) (r : Refund)
      → find_refund i db.refunds ≡ some r
      → Sound db.refunds t r (plan_reconciliation h i m db.refunds t r r.state)
  reconciliation-Sound i m t r found =
      subst (λ j. Sound db.refunds t r (plan_reconciliation h j m db.refunds t r r.state))
        (text_eq→eq r.refund_id i (find_refund-id i db.refunds r found))
        (plan_reconciliation-Sound db.refunds t r h m r.state refl)

  -- Whatever a call of the runtime returns or raises, it leaves the tables as they were, or moves one
  -- refund as the lifecycle allows, or adds one whose amount fits what the others reserve in its scope;
  -- a change appends one event, which links to the last one of its refund.
  pub Call-Change : (step : Step) → Call h db step → Change h db step.1
  unfolding commit_execution record_submit_intent record_technical_receipt reconcile
      record_recovered_signature record_provider_divergence release_before_submission
  Call-Change step (registering request freeze now states) =
      register_refund-Change request freeze now states
  Call-Change step (committing i m now) =
      on_result-rule (Leads h db) (check_commitment m now) _ _ (λ _ _. stays)
        (λ c _.
          transact-Change h i db (format_time now) _
            (λ t r _. plan_commitment-Sound db.refunds t r c m r.state refl))
  Call-Change step (submitting i now) =
      transact-Change h i db (format_time now) _
        (λ t r _. plan_submission-Sound db.refunds t r r.state refl)
  Call-Change step (receiving i m now) =
      on_result-rule (Leads h db) (check_receipt h m) _ _ (λ _ _. stays)
        (λ _ _.
          transact-Change h i db (format_time now) _
            (λ t r _. plan_receipt-Sound db.refunds t r i m r.technical_receipt))
  Call-Change step (reconciling_with i m v now) =
      on_result-rule (Leads h db) (check_verified h m v) _ _ (λ _ _. stays)
        (λ _ _. transact-Change h i db (format_time now) _ (reconciliation-Sound i m))
  Call-Change step (recovering i signature v now) =
      on_result-rule (Leads h db) (check_recovery signature v) _ _ (λ _ _. stays)
        (λ _ _.
          transact-Change h i db (format_time now) _
            (λ t r _. plan_recovery-Sound db.refunds t r signature v r.state refl))
  Call-Change step (disputing i ids now) =
      on_result-rule (Leads h db) (check_divergence ids) _ _ (λ _ _. stays)
        (λ normal _.
          transact-Change h i db (format_time now) _
            (λ t r _. plan_divergence-Sound db.refunds t r normal r.state refl))
  Call-Change step (releasing i state now) =
      on_option-rule (Leads h db) (release_state state) _ _ (λ _. stays)
        (λ s q.
          let w = release_state-Released state s q in
          transact-Change h i db (format_time now) _ (λ t r _.
            plan_release-Sound db.refunds t r s r.state w.allowed w.unfinished w.silent refl))
