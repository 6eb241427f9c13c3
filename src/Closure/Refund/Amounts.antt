-- ===== src/Closure/Refund/Amounts.antt =====
-- What the checks of `project_refund` say of the amount of a refund.
use foundry_pay.Base.{
  ℕ, ◌+◌, ◌-◌, ◌≤◌, ◌<◌, ◌≡◌, true, false, Bool, ◌&&◌, not, arith, String, lit, ok, refl, ◌==◌, ◌⊎◌,
  inl, inr,
}
use foundry_pay.Python.Value.{Value, Fields, at}
use foundry_pay.Canonical.Json.{Host}
use foundry_pay.Channel.Snapshot.{is_text}
use foundry_pay.Closure.Checks.{amount}
use foundry_pay.Binding.Checks.{check_member}
use foundry_pay.Closure.Totals.{Totals, check_totals}
use foundry_pay.Closure.Totals.Laws.{Balances}
use foundry_pay.Closure.Snapshots.{validate_freeze_snapshot}
use foundry_pay.Closure.Refund.{RefundProjection, refund_reasons, check_refund_amount, read_refund}

pub freeze_totals :
    (h : Host) (m : Fields) (t : Totals)
    → validate_freeze_snapshot h m ≡ ok t
    → check_totals t "freeze_snapshot" "excess_refundable_mismatch" ≡ ok tt
unfolding validate_freeze_snapshot
freeze_totals h m t q = ground arith

pub amount-positive : (v : Value) (name : String) (n : ℕ) → amount v name true ≡ ok n → 0 < n
unfolding amount
amount-positive v name n h = ground arith

pub record Reads (request : Fields) (t : Totals) (n : ℕ) : Type 0 where
  pub known :
      check_member
        (at (lit "reason") request)
        refund_reasons
        "invalid_refund_reason"
        "refund_request.reason"
      ≡ ok tt
  pub read :
      amount (at (lit "requested_base_units") request) "refund_request.requested_base_units" true
      ≡ ok n
  pub fits :
      check_refund_amount t (is_text (at (lit "reason") request) (lit "final_close")) n ≡ ok tt
  pub none_due :
      (is_text (at (lit "reason") request) (lit "final_close")
        && not ((t.activated - t.settled) == 0))
      ≡ false

pub read_refund-Reads :
    (request : Fields) (t : Totals) (n : ℕ) → read_refund request t ≡ ok n → Reads request t n
unfolding read_refund
read_refund-Reads request t n h = ground arith

-- The requested amount is spare, and a final close takes the whole vault with nothing due.
pub amount_fits :
    (t : Totals) (final : Bool) (n : ℕ)
    → Balances t
    → check_refund_amount t final n ≡ ok tt
    → (final && not ((t.activated - t.settled) == 0)) ≡ false
    → (n ≤ t.spare) × ((final ≡ false) ⊎ ((n ≡ t.vault) × (t.outstanding ≡ 0)))
unfolding check_refund_amount
amount_fits t false n b h d = (ground (arith, b.conserved, b.rights, b.shared), inl refl)
amount_fits t true n b h d = (
  ground (arith, b.conserved, b.rights, b.shared),
  inr (ground (arith, b.conserved, b.rights, b.shared)),
)

pub numbers :
    (t : Totals) (p : RefundProjection)
    → Balances t
    → p.requested ≤ t.spare
    → p.maximum ≡ t.funded - t.refunded - t.activated
    → p.refunded_after ≡ t.refunded + p.requested
    → p.vault_after ≡ t.vault - p.requested
    → p.outstanding_right ≡ t.activated - t.settled
    → (p.requested ≤ p.maximum)
      × (p.vault_after + t.settled + p.refunded_after ≡ t.funded)
      × (p.vault_after + p.requested ≡ t.vault)
      × (p.outstanding_right + t.settled ≡ t.activated)
      × (p.outstanding_right ≤ p.vault_after)
numbers t p b f m a l d = omega (arith, b.conserved, b.rights, b.shared)

pub ends :
    (t : Totals) (p : RefundProjection) (final : Bool)
    → Balances t
    → p.vault_after ≡ t.vault - p.requested
    → p.outstanding_right ≡ t.activated - t.settled
    → (final ≡ false) ⊎ ((p.requested ≡ t.vault) × (t.outstanding ≡ 0))
    → (final ≡ false) ⊎ ((p.vault_after ≡ 0) × (p.outstanding_right ≡ 0))
ends t p final b l d (inl n) = inl n
ends t p final b l d (inr (v, o)) = inr (omega (arith, b.rights))
