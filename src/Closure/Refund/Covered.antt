-- ===== src/Closure/Refund/Covered.antt =====
-- What `project_refund` has checked of a refund that it accepts.
use foundry_pay.Base.{
  ◌+◌, ◌-◌, ◌≤◌, ◌<◌, ◌≡◌, true, false, arith, String, Text, lit, List, Option, ok, ◌⊎◌,
}
use foundry_pay.Python.Value.{Fields, at, py_eq}
use foundry_pay.Python.Datetime.{Datetime, instant}
use foundry_pay.Canonical.Json.{Host}
use foundry_pay.Canonical.Record.{members}
use foundry_pay.Channel.Snapshot.{is_text, nat_of}
use foundry_pay.Closure.Checks.{
  check_closed_fields, validate_domain, validate_channel_reference, validate_hash, time, utc_time,
  amount, count_ambiguous, operation_states,
}
use foundry_pay.Binding.Checks.{check_member}
use foundry_pay.Closure.Totals.{Totals}
use foundry_pay.Closure.Totals.Laws.{Balances, check_totals-Balances}
use foundry_pay.Closure.Snapshots.{validate_freeze_snapshot}
use foundry_pay.Closure.Refund.{
  RefundProjection, refund_reasons, refund_request_fields, check_same, check_refund_links,
  check_refund_window, check_resolved, read_refund, project_refund,
}
use foundry_pay.Closure.Refund.Amounts.{
  freeze_totals, amount-positive, read_refund-Reads, amount_fits, numbers, ends,
}

record Steps (h : Host) (request freeze : Fields) (now : Option Datetime) (states : List Text)
    (p : RefundProjection) : Type 0 where
  totals : Totals
  current : Datetime
  closed :
      check_closed_fields request "refund_request" refund_request_fields refund_request_fields
      ≡ ok tt
  sealed : validate_hash h request "request_hash" ≡ ok tt
  frozen : validate_freeze_snapshot h freeze ≡ ok totals
  linked : check_refund_links request freeze ≡ ok tt
  timed : utc_time now ≡ ok current
  windowed : check_refund_window request freeze current ≡ ok tt
  resolved : check_resolved freeze states ≡ ok tt
  read : read_refund request totals ≡ ok p.requested
  maximum : p.maximum ≡ totals.funded - totals.refunded - totals.activated
  before : p.refunded_before ≡ totals.refunded
  after : p.refunded_after ≡ totals.refunded + p.requested
  left : p.vault_after ≡ totals.vault - p.requested
  due : p.outstanding_right ≡ totals.activated - totals.settled

project_refund-Steps :
    (h : Host) (request freeze : Fields) (now : Option Datetime) (states : List Text)
    (p : RefundProjection)
    → project_refund h request freeze now states ≡ ok p
    → Steps h request freeze now states p
unfolding project_refund
project_refund-Steps h request freeze now states p q = ground arith

to_sender :
    (request freeze : Fields)
    → check_refund_links request freeze ≡ ok tt
    → py_eq
        (at (lit "destination") request)
        (at (lit "sender") (members (at (lit "channel") freeze)))
      ≡ true
unfolding check_refund_links
to_sender request freeze q = ground arith

-- The clock is at or after the deadline for claims, and in the window of the request.
pub record InWindow (request freeze : Fields) (current : Datetime) : Type 0 where
  pub deadline : Datetime
  pub created : Datetime
  pub expires : Datetime
  pub deadline_at : time (at (lit "claim_deadline") freeze) "claim_deadline" ≡ ok deadline
  pub created_at : time (at (lit "created_at") request) "refund_request.created_at" ≡ ok created
  pub expires_at : time (at (lit "expires_at") request) "refund_request.expires_at" ≡ ok expires
  pub after_deadline : instant deadline ≤ instant current
  pub after_creation : instant created ≤ instant current
  pub before_expiry : instant current < instant expires

window-InWindow :
    (request freeze : Fields) (current : Datetime)
    → check_refund_window request freeze current ≡ ok tt
    → InWindow request freeze current
unfolding check_refund_window
window-InWindow request freeze current q = ground arith

no_ambiguous :
    (freeze : Fields) (states : List Text)
    → check_resolved freeze states ≡ ok tt
    → count_ambiguous states ≡ 0
unfolding check_resolved operation_states
no_ambiguous freeze states q = ground arith

none_unresolved :
    (freeze : Fields) (states : List Text)
    → check_resolved freeze states ≡ ok tt
    → nat_of (at (lit "unresolved_operation_count") freeze) ≡ 0
unfolding check_resolved operation_states
none_unresolved freeze states q = ground arith

-- A field of the request is the same as in the snapshot.
abbrev pub Shares : String → Fields → Fields → Type 0
Shares f request freeze = py_eq (at (lit f) request) (at (lit f) freeze) ≡ true

pub record Linked (request freeze : Fields) : Type 0 where
  pub same_snapshot : Shares "freeze_snapshot_hash" request freeze
  pub same_domain : Shares "domain" request freeze
  pub same_channel : Shares "channel" request freeze
  pub same_closure : Shares "closure_id" request freeze
  pub domain_formed : validate_domain (at (lit "domain") request) "refund_request.domain" ≡ ok tt
  pub channel_formed :
      validate_channel_reference (at (lit "channel") request) "refund_request.channel" ≡ ok tt

links-Linked :
    (request freeze : Fields) → check_refund_links request freeze ≡ ok tt → Linked request freeze
unfolding check_refund_links check_same
links-Linked request freeze q = ground arith

-- What a refund that is accepted leaves in the vault, for whom, and when.
pub record IsCovered (h : Host) (request freeze : Fields) (now : Option Datetime)
    (states : List Text) (p : RefundProjection) : Type 0 where
  pub totals : Totals
  pub current : Datetime
  pub closed :
      check_closed_fields request "refund_request" refund_request_fields refund_request_fields
      ≡ ok tt
  pub sealed : validate_hash h request "request_hash" ≡ ok tt
  pub known :
      check_member
        (at (lit "reason") request)
        refund_reasons
        "invalid_refund_reason"
        "refund_request.reason"
      ≡ ok tt
  pub frozen : validate_freeze_snapshot h freeze ≡ ok totals
  pub balances : Balances totals
  pub stated :
      amount (at (lit "requested_base_units") request) "refund_request.requested_base_units" true
      ≡ ok p.requested
  pub positive : 0 < p.requested
  pub below_maximum : p.requested ≤ p.maximum
  pub conserved : p.vault_after + totals.settled + p.refunded_after ≡ totals.funded
  pub paid : p.vault_after + p.requested ≡ totals.vault
  pub due : p.outstanding_right + totals.settled ≡ totals.activated
  pub still_covered : p.outstanding_right ≤ p.vault_after
  pub final :
      (is_text (at (lit "reason") request) (lit "final_close") ≡ false)
      ⊎ ((p.vault_after ≡ 0) × (p.outstanding_right ≡ 0))
  pub destination :
      py_eq
        (at (lit "destination") request)
        (at (lit "sender") (members (at (lit "channel") freeze)))
      ≡ true
  pub timed : utc_time now ≡ ok current
  pub in_window : InWindow request freeze current
  pub linked : Linked request freeze
  pub none_frozen : nat_of (at (lit "unresolved_operation_count") freeze) ≡ 0
  pub resolved : count_ambiguous states ≡ 0

-- A refund that is accepted is stated by its request, which has exactly its fields, a known reason and
-- the right hash of its own, and is positive, goes to the channel's sender, comes
-- at or after the deadline for claims and in the request's window, and its request names the snapshot's
-- hash, domain, channel and closure; the snapshot counts no unresolved operation, and none of the
-- states given is ambiguous. What it leaves in the vault still covers the recipient's outstanding right A - S, the new totals are
-- conserved, and a final close leaves nothing in the vault and nothing due.
pub project_refund-IsCovered :
    (h : Host) (request freeze : Fields) (now : Option Datetime) (states : List Text)
    (p : RefundProjection)
    → project_refund h request freeze now states ≡ ok p
    → IsCovered h request freeze now states p
project_refund-IsCovered h request freeze now states p q =
    let s = project_refund-Steps h request freeze now states p q in
    let t = s.totals in
    let b = (check_totals-Balances t _ _).0 (freeze_totals h freeze t s.frozen) in
    let r = read_refund-Reads request t p.requested s.read in
    let f = amount_fits t _ p.requested b r.fits r.none_due in
    let n = numbers t p b f.0 s.maximum s.after s.left s.due in
    record {
      totals = t;
      current = s.current;
      closed = s.closed;
      sealed = s.sealed;
      known = r.known;
      frozen = s.frozen;
      balances = b;
      stated = r.read;
      positive = amount-positive _ _ p.requested r.read;
      below_maximum = n.0;
      conserved = n.1;
      paid = n.2;
      due = n.3;
      still_covered = n.4;
      final = ends t p _ b s.left s.due f.1;
      destination = to_sender request freeze s.linked;
      timed = s.timed;
      in_window = window-InWindow request freeze s.current s.windowed;
      linked = links-Linked request freeze s.linked;
      none_frozen = none_unresolved freeze states s.resolved;
      resolved = no_ambiguous freeze states s.resolved;
    }
