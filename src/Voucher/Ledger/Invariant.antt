-- ===== src/Voucher/Ledger/Invariant.antt =====
-- The order invariant of the ledger, method by method.
use foundry_pay.Base.{
  ℕ, ◌≤◌, ◌<◌, ◌≡◌, refl, sym, subst, ap, ◌∙◌, true, Option, none, some, List, arith, String,
  str_eq, some-eq, Text, false≢true, text_eq→eq, All, All-map, inl, inr, Bool-cases, on_result-rule,
  on_option-rule, on_if-rule, ok, Failure, reject,
}
use foundry_pay.Python.Value.{Value}
use foundry_pay.Python.Datetime.{Datetime}
use foundry_pay.Python.Json.{is_bindable, json_eq}
use foundry_pay.Canonical.Json.{Host}
use foundry_pay.Voucher.Context.{VoucherContext, Limits}
use foundry_pay.Voucher.Verify.{SignatureVerifier, VerifiedVoucher, verify_voucher}
use foundry_pay.Voucher.Verify.Sound.{verify_voucher-IsVerified}
use foundry_pay.Voucher.Verify.Progress.{Progresses}
use foundry_pay.Voucher.Table.{
  State, issued, verified, activation_requested, rejected, Row, Ledger, is_live, find_row, latest,
}
use foundry_pay.Voucher.Table.Rows.{Other, find_row-id, find_row-none}
use foundry_pay.Voucher.Monotone.{
  Live, Ordered, Agree, IsMonotone, Agree-idle, Agree-keeps, found-Agree, update-IsMonotone,
  append-IsMonotone,
}
use foundry_pay.Voucher.Monotone.Latest.{Covers, latest-Bounds}
use foundry_pay.Voucher.Record.{
  Step, transition, insert_issued, new_row, check_issue, record_issued, time_text,
}
use foundry_pay.Voucher.Ledger.{
  fill, record_failure, first, second, try_verify, verify_row, verify_found, verify_at,
  verify_issued, try_activate, check_clock, activate_row, activate_found, activate_at,
  request_activation,
}

pub found_self :
    (id : Text) (rs : List Row) (r : Row)
    → find_row id rs ≡ some r
    → find_row r.submission_id rs ≡ some r
found_self id rs r h =
    subst (λ i. find_row i rs ≡ some r)
      (sym (text_eq→eq r.submission_id id (find_row-id id rs r h))) h

module _ (l : Ledger) (r : Row) (found : find_row r.submission_id l.rows ≡ some r)
    (m : IsMonotone l.rows) where
  -- A transition that keeps the state, or leaves the live states, and no column that counts changes.
  transition-IsMonotone :
      (s : State) (e : Option String) (t : Text)
      → (is_live s ≡ true → is_live r.state ≡ true)
      → IsMonotone (transition r.submission_id s e t (λ q. q) l).rows
  unfolding transition
  transition-IsMonotone s e t live = update-IsMonotone r.submission_id _ l.rows r m found refl (
      All-map
        (λ q a o. elim (Bool-cases (is_live s)) [
          | inl on ↦ Agree-keeps r _ q refl refl refl (live on) (a o)
          | inr off ↦ Agree-idle _ q off
        ])
        l.rows (found-Agree r.submission_id l.rows r m found))

  record_failure-IsMonotone :
      (s : State) (t : Text) (e : Failure)
      → (is_live s ≡ true → is_live r.state ≡ true)
      → IsMonotone (record_failure r.submission_id s t e l).1.rows
  unfolding record_failure
  record_failure-IsMonotone s t (reject code name) live =
      elim (Bool-cases (str_eq code "journal_time_regressed")) [
        | inl back ↦ rw back m
        | inr on ↦ elim (Bool-cases (str_eq code "signature_verifier_failed")) [
          | inl failed ↦ rw (on, failed) (transition-IsMonotone s (some code) t live)
          | inr other ↦
              rw (on, other)
                (transition-IsMonotone rejected (some code) t (λ z. absurd (false≢true z)))
        ]
      ]
  record_failure-IsMonotone s t _ live = m

ordered_after :
    {x y s t a b x' y' : ℕ} → x ≡ s → y ≡ t → a < s → b ≤ t → x' ≤ a → y' ≤ b → Ordered x y x' y'
ordered_after p q f g h k = inr (omega arith, omega arith)

-- A voucher that passed the checks against the latest row of its domain is ordered after every row
-- that the query's result bounds.
verified-Agree :
    (key : Text) (s t : ℕ) (best : Option (ℕ × ℕ)) (l : Limits) (p q : Row)
    → Progresses l (first best) (second best) s t
    → p.domain_key ≡ some key
    → p.sequence ≡ some s
    → p.cumulative_total ≡ some t
    → ((s' t' : ℕ) → Live q key s' t' → Covers best s' t')
    → Agree p q
verified-Agree key s t none l p q g d n u b = record {
  at = λ k x y x' y' c e.
      absurd (b x' y' (subst (λ z. Live q z x' y') (some-eq (sym c.domain ∙ d)) e));
}
verified-Agree key s t (some (x₀, y₀)) l p q g d n u b = record {
  at = λ k x y x' y' c e.
      let z = b x' y' (subst (λ z. Live q z x' y') (some-eq (sym c.domain ∙ d)) e) in
      ordered_after (some-eq (sym c.numbered ∙ n)) (some-eq (sym c.totalled ∙ u)) g.newer_issued
        g.larger_issued z.0 z.1;
}

-- The ledger that a step leaves keeps the order invariant.
abbrev pub Keeps : Step → Type 0
Keeps s = IsMonotone s.1.rows

module _ (h : Host) (verifier : SignatureVerifier) where
  -- The verification that a successful `try` block has made.
  tried :
      (r : Row) (rows : List Row) (x : VoucherContext) (now : Datetime) (w : Text × VerifiedVoucher)
      → try_verify h verifier r rows x now ≡ ok w
      → let best = latest w.0 r.submission_id rows in
        verify_voucher h verifier r.voucher x now (first best) (second best) ≡ ok w.1
  unfolding try_verify
  tried r rows x now w e = ground arith

  module _ (r : Row) (x : VoucherContext) (now : Datetime) (t : Text) (l : Ledger)
      (m : IsMonotone l.rows) where
    -- The row that a verified voucher leaves agrees with every other row.
    filled-Agree :
        (w : Text × VerifiedVoucher)
        → try_verify h verifier r l.rows x now ≡ ok w
        → All
            (λ q.
              Other r.submission_id q
              → Agree
                  (record (fill w.0 w.1 r) { state = verified; error_code = none; updated_at = t })
                  q)
            l.rows
    unfolding fill
    filled-Agree w e =
        let best = latest w.0 r.submission_id l.rows in
        let v =
          verify_voucher-IsVerified h verifier r.voucher x now (first best) (second best) w.1
            (tried r l.rows x now w e) in
        All-map
          (λ q b o.
            verified-Agree w.0 w.1.sequence w.1.cumulative_authorized best v.limits _ q v.progress
              refl refl refl (λ s u c. b s u c o))
          l.rows (latest-Bounds w.0 r.submission_id l.rows m)

    module _ (found : find_row r.submission_id l.rows ≡ some r) where
      verify_row-IsMonotone : Keeps (verify_row h verifier r t x now l)
      unfolding verify_row transition fill
      verify_row-IsMonotone =
          on_result-rule Keeps (try_verify h verifier r l.rows x now) _ _
            (λ e q. record_failure-IsMonotone l r found m issued t e (λ z. absurd (false≢true z)))
            (λ w q. update-IsMonotone r.submission_id _ l.rows r m found refl (filled-Agree w q))

      verify_found-IsMonotone : (s : State) → Keeps (verify_found h verifier r s t x now l)
      unfolding verify_found
      verify_found-IsMonotone issued = verify_row-IsMonotone
      verify_found-IsMonotone _ = m

      activate_row-IsMonotone : r.state ≡ verified → Keeps (activate_row h verifier r t x now l)
      unfolding activate_row
      activate_row-IsMonotone s =
          on_result-rule Keeps (try_activate h verifier r x now) _ _
            (λ e q. record_failure-IsMonotone l r found m verified t e (λ z. ap is_live s))
            (λ w q.
              transition-IsMonotone l r found m activation_requested none t (λ z. ap is_live s))

      activate_found-IsMonotone :
          (s : State) → r.state ≡ s → Keeps (activate_found h verifier r s t x now l)
      unfolding activate_found
      activate_found-IsMonotone verified e =
          on_result-rule Keeps (check_clock r now) _ _ (λ _ _. m) (λ _ _. activate_row-IsMonotone e)
      activate_found-IsMonotone _ e = m

  module _ (id : Text) (x : VoucherContext) (now : Datetime) (l : Ledger)
      (m : IsMonotone l.rows) where
    -- `verify_issued` keeps the order invariant, whatever it returns or raises.
    pub verify_issued-IsMonotone : Keeps (verify_issued h verifier id x now l)
    unfolding verify_issued verify_at
    verify_issued-IsMonotone =
        on_result-rule Keeps (time_text now) _ _ (λ e q. m)
          (λ t q.
            on_option-rule Keeps (find_row id l.rows) _ _ (λ e. m)
              (λ r e. verify_found-IsMonotone r x now t l m (found_self id l.rows r e) r.state))

    -- `request_activation` keeps the order invariant, whatever it returns or raises.
    pub request_activation-IsMonotone : Keeps (request_activation h verifier id x now l)
    unfolding request_activation activate_at
    request_activation-IsMonotone =
        on_result-rule Keeps (time_text now) _ _ (λ e q. m)
          (λ t q.
            on_option-rule Keeps (find_row id l.rows) _ _ (λ e. m)
              (λ r e.
                activate_found-IsMonotone r x now t l m (found_self id l.rows r e) r.state refl))

-- `record_issued` keeps the order invariant, whatever it returns or raises.
pub record_issued-IsMonotone :
    (id v : Value) (now : Datetime) (l : Ledger)
    → IsMonotone l.rows
    → Keeps (record_issued id v now l)
unfolding record_issued insert_issued
record_issued-IsMonotone id v now l m =
    on_result-rule Keeps (check_issue id v now) _ _ (λ e q. m)
      (λ c q.
        on_option-rule Keeps (find_row c.0 l.rows) _ _
          (λ e.
            on_if-rule Keeps (is_bindable c.1) _ _
              (λ _.
                append-IsMonotone l.rows (new_row c.0 c.1 c.2) m (find_row-none c.0 l.rows e) refl)
              (λ _. m))
          (λ r e. on_if-rule Keeps (json_eq r.voucher c.1) _ _ (λ _. m) (λ _. m)))
