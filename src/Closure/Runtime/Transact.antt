-- ===== src/Closure/Runtime/Transact.antt =====
-- Transactions and their plans.
use foundry_pay.Base.{
  ◌≡◌, refl, subst, subst⁻¹, sym, ◌∙◌, false, Option, none, some, List, ap, Text, text_eq→eq,
  Result, ok, err, Failure, on_result-rule, on_result, arith, >>=-eq-ok, ok-eq,
}
use foundry_pay.Canonical.Json.{Host}
use foundry_pay.Closure.Table.{
  RefundState, Refund, RefundEvent, ClosureDb, find_refund, has_event_hash, insert_event,
}
use foundry_pay.Closure.Table.Rows.{
  find_refund-Found, find_refund-id, Made, next_event-Made, insert_event-fresh,
}
use foundry_pay.Closure.Runtime.{
  Step, Plan, refuse, keep, write, set_columns, finish, write_row, carry_out, transact, read_row,
}
use foundry_pay.Closure.Runtime.Change.{Terms, Evolves, Follows, Change, stays, evolves}

-- A plan whose write is a change that a refund may make.
abbrev pub Sound : List Refund → Text → Refund → Plan → Type 0
Sound refunds t r (refuse e) = Unit {0}
Sound refunds t r keep = Unit {0}
Sound refunds t r (write s f payload raised) = Evolves refunds r (set_columns s f t r)

-- What a step leaves is a change.
abbrev pub Leads : Host → ClosureDb → Step → Type 0
Leads h db s = Change h db s.1

pub Made-Follows :
    (h : Host) (r : Refund) (e : RefundEvent) (events : List RefundEvent)
    → Made h r.refund_id r.state r.updated_at events e
    → has_event_hash e.event_hash events ≡ false
    → Follows h r e events
Made-Follows h r e events m n = record {
  about = m.about;
  same_state = m.same_state;
  same_time = m.same_time;
  numbered = m.numbered;
  linked = m.linked;
  hashed = m.hashed;
  fresh = n;
}

finish-db : (i : Text) (raised : Option Failure) (db : ClosureDb) → (finish i raised db).1 ≡ db
unfolding finish
finish-db i none db = refl
finish-db i (some e) db = refl

pub read_row-found :
    (i : Text) (refunds : List Refund) (r : Refund)
    → read_row i refunds ≡ ok r
    → find_refund i refunds ≡ some r
unfolding read_row
read_row-found i refunds r h = ground arith

module _ (h : Host) (i : Text) (db : ClosureDb) where
  write_row-Change :
      (s : RefundState) (f : Refund → Refund) (t : Text) (r : Refund) (e : RefundEvent)
      (db' : ClosureDb)
      → find_refund i db.refunds ≡ some r
      → Evolves db.refunds r (set_columns s f t r)
      → Made h i s t db.events e
      → write_row i s f t e db ≡ ok db'
      → Change h db db'
  unfolding write_row
  write_row-Change s f t r e db' found v m eq =
      let w = >>=-eq-ok (insert_event e db.events) _ eq in
      let n = insert_event-fresh e db.events w.0 w.1 in
      let g = find_refund-Found i db.refunds r found in
      let r' : Refund = set_columns s f t r in
      let same : i ≡ r'.refund_id = sym (
        ap Terms.identity v.keeps
        ∙ text_eq→eq r.refund_id i (find_refund-id i db.refunds r found)) in
      subst (Change h db) (ok-eq w.2) (
        rw (n.0, g.updated (set_columns s f t))
          (evolves g.before g.after r r' e g.split v
            (Made-Follows h r' e db.events (subst (λ j. Made h j s t db.events e) same m) n.1)))

  carry_out-Change :
      (p : Plan) (t : Text) (r : Refund)
      → find_refund i db.refunds ≡ some r
      → Sound db.refunds t r p
      → Change h db (carry_out h i p t r db).1
  unfolding carry_out
  carry_out-Change (refuse e) t r found v = stays
  carry_out-Change keep t r found v = stays
  carry_out-Change (write s f payload raised) t r found v =
      on_result-rule (Leads h db) _ _ _ (λ _ _. stays)
        (λ db' eq.
          let w = >>=-eq-ok _ _ eq in
          subst⁻¹ (Change h db) (finish-db i raised db') (
            write_row-Change s f t r w.0 db' found v
              (next_event-Made h i s payload t db.events w.0 w.1) w.2))

  pub transact-Change :
      (stamp : Result Text) (plan : Text → Refund → Plan)
      → ((t : Text) (r : Refund)
          → find_refund i db.refunds ≡ some r
          → Sound db.refunds t r (plan t r))
      → Change h db (transact h i stamp plan db).1
  unfolding transact
  transact-Change stamp plan v =
      on_result-rule (Leads h db) stamp (λ e. (err e, db))
        (λ t.
          on_result (read_row i db.refunds) (λ e. (err e, db))
            (λ r. carry_out h i (plan t r) t r db))
        (λ _ _. stays)
        (λ t _.
          on_result-rule (Leads h db) (read_row i db.refunds) (λ e. (err e, db))
            (λ r. carry_out h i (plan t r) t r db) (λ _ _. stays)
            (λ r q.
              let found = read_row-found i db.refunds r q in
              carry_out-Change (plan t r) t r found (v t r found)))
