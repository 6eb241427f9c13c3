-- ===== src/Closure/Runtime/Frees.antt =====
-- What a release gives back.
use foundry_pay.Base.{
  ◌≡◌, refl, sym, subst, ap, ◌∙◌, inl, inr, ◌+◌, ◌==◌, true, false, Option, some, List, [], ◌∷◌,
  Text, text_eq, ok, arith, some-eq, >>=-eq-ok, ok-eq, ◌>>=◌, Bool-cases, on_result-rule,
  on_option-rule, on_if-rule,
}
use foundry_pay.Python.Value.{Fields, bool}
use foundry_pay.Python.Datetime.{Datetime}
use foundry_pay.Canonical.Json.{Host}
use foundry_pay.Closure.Checks.{format_time, dict}
use foundry_pay.Closure.Table.{
  RefundState, validated, Refund, ClosureDb, Scope, scope_of, is_releasing, share, reserved,
  find_refund, update_refund, next_event, insert_event,
}
use foundry_pay.Closure.Runtime.{
  RefundRecord, Step, set_columns, write_row, finish, carry_out, transact, read_row,
}
use foundry_pay.Closure.Runtime.Transact.{read_row-found}
use foundry_pay.Closure.Runtime.Intervals.{in_scope-same}
use foundry_pay.Closure.Runtime.Released.{failed_is_no_value}
use foundry_pay.Closure.Runtime.Commit.{release_state, plan_release, release_before_submission}

-- An update changes a sum by what the row's own share changes.
reserved-update :
    (s : Scope) (i : Text) (f : Refund → Refund) (rs : List Refund) (r : Refund)
    → find_refund i rs ≡ some r
    → reserved s (update_refund i f rs) + share s r ≡ reserved s rs + share s (f r)
unfolding find_refund update_refund reserved
reserved-update s i f [] r h = cc
reserved-update s i f (q ∷ rs) r h = elim (Bool-cases (text_eq q.refund_id i)) [
  | inl y ↦ rw (y, some-eq (head y)) (omega arith)
  | inr n ↦ let e = reserved-update s i f rs r (tail n) in rw n (omega (arith, e))
]
  where
    head : text_eq q.refund_id i ≡ true → some q ≡ some r
    head y = ground arith

    tail : text_eq q.refund_id i ≡ false → find_refund i rs ≡ some r
    tail n = ground arith

release_state-releases :
    (t : Text) (s : RefundState) → release_state t ≡ some s → is_releasing s ≡ true
unfolding release_state
release_state-releases t s h = ground arith

released_share : (s : Scope) (r : Refund) → is_releasing r.state ≡ true → share s r ≡ 0
unfolding share
released_share s r h = ground arith

validated_share : (r : Refund) → r.state ≡ validated → share (scope_of r) r ≡ r.requested_amount
unfolding share
validated_share r h = rw (in_scope-same r r refl) (rw h refl)

abbrev released_payload : Fields
released_payload = dict (("released", bool true) ∷ [])

module _ (h : Host) (i : Text) (r : Refund) (db : ClosureDb)
    (found : find_refund i db.refunds ≡ some r) where
  -- A step that returns a record has given the amount back.
  GivesBack : Step → Type 0
  GivesBack s =
      (e : RefundRecord)
      → s.0 ≡ ok e
      → reserved (scope_of r) s.1.refunds + r.requested_amount ≡ reserved (scope_of r) db.refunds

  released_sum :
      (s : RefundState) (t : Text) (payload : Fields) (db' : ClosureDb)
      → is_releasing s ≡ true
      → r.state ≡ validated
      → (next_event h i s payload t db.events >>= (λ e. write_row i s (λ q. q) t e db)) ≡ ok db'
      → reserved (scope_of r) db'.refunds + r.requested_amount ≡ reserved (scope_of r) db.refunds
  unfolding write_row
  released_sum s t payload db' c v eq =
      let w = >>=-eq-ok (next_event h i s payload t db.events) _ eq in
      let x = >>=-eq-ok (insert_event w.0 db.events) _ w.2 in
      let f : Refund → Refund = set_columns s (λ q. q) t in
      let sum = reserved-update (scope_of r) i f db.refunds r found in
      subst
        (λ (d : ClosureDb).
          reserved (scope_of r) d.refunds + r.requested_amount ≡ reserved (scope_of r) db.refunds)
        (ok-eq x.2) (omega (arith, sum, released_share (scope_of r) (f r) c, validated_share r v))

  plan_release-GivesBack :
      (s q : RefundState) (t : Text)
      → is_releasing s ≡ true
      → r.state ≡ q
      → GivesBack (carry_out h i (plan_release s r q) t r db)
  unfolding GivesBack carry_out plan_release finish
  plan_release-GivesBack s validated t c v =
      on_if-rule (λ p. GivesBack (carry_out h i p t r db)) (r.submit_intent_count == 0) _ _
        (λ _.
          on_result-rule GivesBack
            (next_event h i s released_payload t db.events >>= (λ e. write_row i s (λ q. q) t e db))
            _ _ (λ _ _. λ _ g. elim (failed_is_no_value g) [ ])
            (λ db' x. λ _ _. released_sum s t released_payload db' c v x))
        (λ _. λ _ g. elim (failed_is_no_value g) [ ])
  plan_release-GivesBack s _ t c v = λ _ g. elim (failed_is_no_value g) [ ]

-- A release that returns gives the whole amount back: what the refunds of its closure reserve before
-- is what they reserve after it and the amount of the released refund.
pub release_frees :
    (h : Host) (i state : Text) (now : Option Datetime) (db db' : ClosureDb) (r : Refund)
    (e : RefundRecord)
    → find_refund i db.refunds ≡ some r
    → release_before_submission h i state now db ≡ (ok e, db')
    → reserved (scope_of r) db'.refunds + r.requested_amount ≡ reserved (scope_of r) db.refunds
unfolding release_before_submission transact GivesBack
release_frees h i state now db db' r e found eq =
    subst
      (λ (d : ClosureDb).
        reserved (scope_of r) d.refunds + r.requested_amount ≡ reserved (scope_of r) db.refunds)
      (ap (λ (s : Step). s.1) eq)
      (on_option-rule (GivesBack h i r db found) (release_state state) _ _
        (λ _. λ _ g. elim (failed_is_no_value g) [ ])
        (λ s q.
          on_result-rule (GivesBack h i r db found) (format_time now) _ _
            (λ _ _. λ _ g. elim (failed_is_no_value g) [ ])
            (λ t _.
              on_result-rule (GivesBack h i r db found) (read_row i db.refunds) _ _
                (λ _ _. λ _ g. elim (failed_is_no_value g) [ ])
                (λ x y.
                  let same = some-eq (sym found ∙ read_row-found i db.refunds x y) in
                  subst
                    (λ (z : Refund).
                      GivesBack h i r db found (carry_out h i (plan_release s z z.state) t z db))
                    same
                    (plan_release-GivesBack h i r db found s r.state t
                      (release_state-releases state s q) refl))))
        e (ap (λ (s : Step). s.0) eq))
