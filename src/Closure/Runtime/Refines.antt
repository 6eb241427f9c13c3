-- ===== src/Closure/Runtime/Refines.antt =====
-- The plans of the methods of `ClosureRuntime`, against the changes of the specification.
use foundry_pay.Base.{
  ◌≡◌, refl, inl, inr, ◌==◌, true, false, not, ◌||◌, Option, none, some, List, Text, text_eq,
  on_if-rule, on_result-rule, if◌then◌else◌, lit, String,
}
use foundry_pay.Python.Value.{Value, Items, Fields, nil, cons, str, obj, at}
use foundry_pay.Python.Json.{sort_keys}
use foundry_pay.Canonical.Json.{Host}
use foundry_pay.Channel.Snapshot.{is_text}
use foundry_pay.Closure.Checks.{with_hash}
use foundry_pay.Closure.Table.{
  RefundState, validated, execution_committed, submitted, needs_recovery, reconciling, needs_review,
  disputed, completed, Refund, scope_of, is_completed,
}
use foundry_pay.Closure.Runtime.{set_columns}
use foundry_pay.Closure.Runtime.Change.{may, is_submitted, terms_of, Clear, Evolves}
use foundry_pay.Closure.Runtime.Transact.{Sound}
use foundry_pay.Closure.Runtime.Commit.{
  Commitment, set_commitment, same_json, plan_commitment, plan_submission, plan_release,
}
use foundry_pay.Closure.Runtime.Receipt.{
  check_first_receipt, same_column, outcome_state, set_receipt, plan_first_receipt, plan_receipt,
}
use foundry_pay.Closure.Runtime.Recover.{plan_recovery, divergence, plan_divergence}
use foundry_pay.Closure.Runtime.Reconcile.{
  reconciled_document, other_high_water, overlaps, number, expected, mismatches, review,
  plan_completion, plan_interval, plan_open, plan_reconciliation,
}

module _ (refunds : List Refund) (t : Text) (r : Refund) where
  -- A write that does not complete the refund.
  Evolves-open :
      (s : RefundState) (f : Refund → Refund)
      → may r.state s ≡ true
      → terms_of (f r) ≡ terms_of r
      → (f r).submit_intent_count ≡ (if is_submitted s then 1 else r.submit_intent_count)
      → is_completed s ≡ false
      → Evolves refunds r (set_columns s f t r)
  Evolves-open s f m k c d = record { moves = m; keeps = k; counts = c; completes = inl d }

  pub plan_commitment-Sound :
      (c : Commitment) (m : Fields) (s : RefundState)
      → r.state ≡ s
      → Sound refunds t r (plan_commitment c m r s)
  unfolding plan_commitment set_commitment
  plan_commitment-Sound c m execution_committed e =
      on_if-rule (Sound refunds t r) (same_json r.commitment c.document) _ _ (λ _. tt) (λ _. tt)
  plan_commitment-Sound c m validated e =
      on_if-rule (Sound refunds t r)
        (not (text_eq c.refund_request_hash r.request_hash)
          || not (text_eq c.refund_projection_hash r.projection_hash))
        _ _ (λ _. tt)
        (λ _. Evolves-open execution_committed (set_commitment c) (rw e refl) refl refl refl)
  plan_commitment-Sound c m _ e = tt

  pub plan_submission-Sound :
      (s : RefundState) → r.state ≡ s → Sound refunds t r (plan_submission s)
  unfolding plan_submission
  plan_submission-Sound execution_committed e =
      Evolves-open submitted (λ r. record r { submit_intent_count = 1 }) (rw e refl) refl refl refl
  plan_submission-Sound submitted e = tt
  plan_submission-Sound needs_recovery e = tt
  plan_submission-Sound reconciling e = tt
  plan_submission-Sound completed e = tt
  plan_submission-Sound _ e = tt

  pub plan_release-Sound :
      (s q : RefundState)
      → may validated s ≡ true
      → is_completed s ≡ false
      → is_submitted s ≡ false
      → r.state ≡ q
      → Sound refunds t r (plan_release s r q)
  unfolding plan_release
  plan_release-Sound s validated m d n e =
      on_if-rule (Sound refunds t r) (r.submit_intent_count == 0) _ _
        (λ _. Evolves-open s (λ r. r) (rw e m) refl (rw n refl) d) (λ _. tt)
  plan_release-Sound s _ m d n e = tt

  outcome-Evolves :
      (m : Fields) (v : Value)
      → r.state ≡ submitted
      → Evolves refunds r (set_columns (outcome_state v) (set_receipt m) t r)
  unfolding outcome_state set_receipt
  outcome-Evolves m v e =
      on_if-rule P (is_text v (lit "unknown")) _ _
        (λ _. Evolves-open needs_recovery (set_receipt m) (rw e refl) refl refl refl)
        (λ _.
          on_if-rule P (is_text v (lit "accepted")) _ _
            (λ _. Evolves-open reconciling (set_receipt m) (rw e refl) refl refl refl)
            (λ _. Evolves-open needs_review (set_receipt m) (rw e refl) refl refl refl))
    where
      P : RefundState → Type 0
      P s = Evolves refunds r (set_columns s (set_receipt m) t r)

  pub plan_first_receipt-Sound :
      (i : Text) (m : Fields) (s : RefundState)
      → r.state ≡ s
      → Sound refunds t r (plan_first_receipt i m r s)
  unfolding plan_first_receipt
  plan_first_receipt-Sound i m submitted e =
      on_result-rule (Sound refunds t r) (check_first_receipt i m r) _ _ (λ _ _. tt)
        (λ _ _. outcome-Evolves m (at (lit "outcome") m) e)
  plan_first_receipt-Sound i m _ e = tt

  pub plan_recovery-Sound :
      (signature : Text) (v : Value) (s : RefundState)
      → r.state ≡ s
      → Sound refunds t r (plan_recovery signature v r s)
  unfolding plan_recovery
  plan_recovery-Sound signature v reconciling e =
      on_if-rule (Sound refunds t r) (same_column r.transaction_signature (str signature)) _ _
        (λ _. tt) (λ _. tt)
  plan_recovery-Sound signature v needs_recovery e =
      on_if-rule (Sound refunds t r) (r.submit_intent_count == 1) _ _
        (λ _.
          Evolves-open reconciling (λ r. record r { transaction_signature = some signature })
            (rw e refl) refl refl refl)
        (λ _. tt)
  plan_recovery-Sound signature v _ e = tt

  pub plan_divergence-Sound :
      (ids : List Text) (s : RefundState) → r.state ≡ s → Sound refunds t r (plan_divergence ids s)
  unfolding plan_divergence divergence
  plan_divergence-Sound ids needs_recovery e =
      Evolves-open disputed (λ r. r) (rw e refl) refl refl refl
  plan_divergence-Sound ids reconciling e =
      Evolves-open disputed (λ r. r) (rw e refl) refl refl refl
  plan_divergence-Sound ids needs_review e =
      Evolves-open disputed (λ r. r) (rw e refl) refl refl refl
  plan_divergence-Sound ids _ e = tt

  pub plan_receipt-Sound :
      (i : Text) (m : Fields) (o : Option Value) → Sound refunds t r (plan_receipt i m r o)
  unfolding plan_receipt
  plan_receipt-Sound i m none = plan_first_receipt-Sound i m r.state refl
  plan_receipt-Sound i m (some w) =
      on_if-rule (Sound refunds t r) (same_json (some w) (sort_keys (obj m))) _ _ (λ _. tt)
        (λ _. tt)

  -- The states that a reconciliation starts from.
  module _ (h : Host) (m : Fields) (s : RefundState) (e : r.state ≡ s)
      (reviewed : may s needs_review ≡ true) (ends : may s completed ≡ true) where
    review-Sound :
        (payload : Fields) (code name : String) → Sound refunds t r (review payload code name)
    unfolding review
    review-Sound payload code name =
        Evolves-open needs_review (λ r. r) (rw e reviewed) refl refl refl

    plan_completion-Sound :
        (ks : Items) → Clear refunds r → Sound refunds t r (plan_completion h r.refund_id m t r ks)
    unfolding plan_completion
    plan_completion-Sound (cons k ks) c = review-Sound _ _ _
    plan_completion-Sound nil c =
        on_if-rule (Sound refunds t r)
          (same_column r.transaction_signature (at (lit "transaction_signature") m)) _ _
          (λ _.
            on_result-rule (Sound refunds t r)
              (with_hash h (reconciled_document r.refund_id m r t) "receipt_hash") _ _ (λ _ _. tt)
              (λ _ _. record { moves = rw e ends; keeps = refl; counts = refl; completes = inr c }))
          (λ _. tt)

    plan_open-Sound : Sound refunds t r (plan_open h r.refund_id m refunds t r)
    unfolding plan_open plan_interval
    plan_open-Sound =
        on_result-rule (Sound refunds t r)
          (number (at (lit "refunded_total_before_base_units") r.projection)) _ _ (λ _ _. tt)
          (λ start q.
            on_if-rule (Sound refunds t r)
              (overlaps start (other_high_water (scope_of r) r.refund_id refunds)) _ _
              (λ _. review-Sound _ _ _)
              (λ n.
                plan_completion-Sound (mismatches (expected r.refund_id r) m)
                  (record { start = start; starts = q; above = n })))

  pub plan_reconciliation-Sound :
      (h : Host) (m : Fields) (s : RefundState)
      → r.state ≡ s
      → Sound refunds t r (plan_reconciliation h r.refund_id m refunds t r s)
  unfolding plan_reconciliation
  plan_reconciliation-Sound h m completed e = tt
  plan_reconciliation-Sound h m reconciling e = plan_open-Sound h m reconciling e refl refl
  plan_reconciliation-Sound h m needs_recovery e = plan_open-Sound h m needs_recovery e refl refl
  plan_reconciliation-Sound h m _ e = tt
