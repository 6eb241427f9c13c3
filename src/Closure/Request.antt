-- ===== src/Closure/Request.antt =====
-- `request_close` and `freeze_closure`: the two snapshots of a closure.
use foundry_pay.Base.{
  ℕ, ◌*◌, ◌-◌, Bool, not, ◌&&◌, Option, List, [], ◌∷◌, leb, ltb, ◌==◌, bool_ne, Text, lit, Result,
  ok, ◌>>=◌, ◌>>◌, reject_if,
}
use foundry_pay.Python.Value.{Value, Fields, int, str, obj, at, pos, py_eq}
use foundry_pay.Python.Datetime.{Datetime, instant, strftime}
use foundry_pay.Canonical.Json.{Host, sha256_canonical_json}
use foundry_pay.Channel.Accounts.{Projection}
use foundry_pay.Channel.Snapshot.{validate_channel, is_text, nat_of, grace_of}
use foundry_pay.Closure.Checks.{
  identifier, time, utc_time, with_hash, domain_of, reference_of, operation_states, count_ambiguous,
  dict, decimal,
}
use foundry_pay.Closure.Totals.{Totals}
use foundry_pay.Closure.Snapshots.{validate_request_snapshot}

-- `ClosureArtifacts`
pub record ClosureArtifacts : Type 0 where
  pub request : Fields
  pub snapshot_at_request : Fields

-- `_closure_snapshot`, as `request_close` calls it.
unfoldable pub closure_snapshot :
    Value → Value → Fields → Projection → Value → Value → Value → Fields
closure_snapshot closure_id request_hash c p snapshot_hash requested_at deadline = dict (
    ("type", str (lit "closure_snapshot_at_request"))
    ∷ ("protocol_version", str (lit "1.0.0"))
    ∷ ("domain", domain_of c)
    ∷ ("channel", reference_of c)
    ∷ ("closure_id", closure_id)
    ∷ ("closure_request_hash", request_hash)
    ∷ ("channel_snapshot_hash", snapshot_hash)
    ∷ ("funded_total_base_units", decimal p.funded_total)
    ∷ ("activated_total_base_units", decimal p.activated_total)
    ∷ ("settled_total_base_units", decimal p.settled_total)
    ∷ ("refunded_total_base_units", decimal p.refunded_total)
    ∷ ("vault_balance_base_units", decimal p.vault_balance)
    ∷ ("outstanding_right_base_units", decimal p.outstanding_right)
    ∷ ("unallocated_capacity_base_units", decimal p.unallocated_capacity)
    ∷ ("latest_activated_sequence", int (pos (nat_of (at (lit "latest_activated_sequence") c))))
    ∷ ("latest_activated_voucher_hash", at (lit "latest_activated_voucher_hash") c)
    ∷ ("requested_at", requested_at)
    ∷ ("claim_deadline", deadline)
    ∷ ("pre_deadline_refundable_base_units", str (lit "0"))
    ∷ ("channel_status", str (lit "closing"))
    ∷ ("closure_phase", str (lit "claim_window"))
    ∷ [])

-- The window of a close: the grace is in seconds.
unfoldable pub check_close_window : ℕ → ℕ → ℕ → Result (Unit {0})
check_close_window requested deadline grace = do
  reject_if (leb deadline requested) "claim_deadline_not_future" "claim_deadline"
  reject_if (ltb (deadline - requested) (grace * 1_000_000)) "close_grace_too_short"
      "claim_deadline"

module _ (h : Host) where
  unfoldable pub request_close :
      Fields → Value → Value → Option Datetime → Option Datetime → Result ClosureArtifacts
  request_close c closure_id key now claim_deadline = do
    p ← validate_channel (obj c)
    reject_if (not (is_text (at (lit "status") c) (lit "active"))) "close_lifecycle_forbidden"
        "channel.status"
    requested ← utc_time now
    deadline ← utc_time claim_deadline
    check_close_window (instant requested) (instant deadline) (grace_of c)
    identifier closure_id "closure_id"
    identifier key "idempotency_key"
    digest ← sha256_canonical_json h (obj c)
    request ←
        with_hash h
          (dict (
            ("type", str (lit "channel_closure_request"))
            ∷ ("protocol_version", str (lit "1.0.0"))
            ∷ ("domain", domain_of c)
            ∷ ("channel", reference_of c)
            ∷ ("closure_id", closure_id)
            ∷ ("idempotency_key", key)
            ∷ ("channel_snapshot_hash", str digest)
            ∷ ("requested_at", str (strftime requested))
            ∷ ("claim_deadline", str (strftime deadline))
            ∷ ("status", str (lit "requested"))
            ∷ []))
          "request_hash"
    snapshot ←
        with_hash h
          (closure_snapshot closure_id (at (lit "request_hash") request) c p
            (at (lit "channel_snapshot_hash") request) (at (lit "requested_at") request)
            (at (lit "claim_deadline") request))
          "request_snapshot_hash"
    ok (record { request = request; snapshot_at_request = snapshot })

-- The amounts at the freeze against those at the request.
unfoldable pub check_progress : Totals → Projection → Result (Unit {0})
check_progress t p = do
  reject_if (not (p.funded_total == t.funded)) "funding_changed_during_close" "channel"
  reject_if (not (p.refunded_total == t.refunded)) "refund_changed_during_claim_window" "channel"
  reject_if (ltb p.settled_total t.settled) "settled_total_decreased" "channel"
  reject_if (ltb p.activated_total t.activated) "activated_total_decreased" "channel"

-- The latest activated voucher at the freeze against that at the request.
unfoldable pub check_activation : ℕ → ℕ → Bool → Bool → Result (Unit {0})
check_activation requested frozen hash_changed increased = do
  reject_if (ltb frozen requested) "activated_sequence_decreased" "channel"
  reject_if (increased && not (ltb requested frozen)) "activation_transition_inconsistent"
      "channel.latest_activated_sequence"
  reject_if (bool_ne (ltb requested frozen) hash_changed) "activation_transition_inconsistent"
      "channel.latest_activated_voucher_hash"

-- The identity of the channel at the freeze against the request.
unfoldable pub check_identity_kept : Fields → Fields → Result (Unit {0})
check_identity_kept c request = do
  reject_if (not (is_text (at (lit "status") c) (lit "closing"))) "freeze_lifecycle_forbidden"
      "channel.status"
  reject_if (not (py_eq (at (lit "claim_deadline") c) (at (lit "claim_deadline") request)))
      "deadline_mismatch" "channel.claim_deadline"
  reject_if (not (py_eq (domain_of c) (at (lit "domain") request))) "domain_mismatch" "channel"
  reject_if (not (py_eq (reference_of c) (at (lit "channel") request))) "channel_reference_mismatch"
      "channel"

unfoldable pub frozen_snapshot : Fields → Fields → Fields → Projection → Text → Text → ℕ → Fields
frozen_snapshot request snapshot c p digest frozen_at unresolved = dict (
    ("type", str (lit "closure_snapshot_at_freeze"))
    ∷ ("protocol_version", str (lit "1.0.0"))
    ∷ ("domain", domain_of c)
    ∷ ("channel", reference_of c)
    ∷ ("closure_id", at (lit "closure_id") request)
    ∷ ("request_snapshot_hash", at (lit "request_snapshot_hash") snapshot)
    ∷ ("channel_snapshot_hash", str digest)
    ∷ ("funded_total_base_units", decimal p.funded_total)
    ∷ ("activated_total_base_units", decimal p.activated_total)
    ∷ ("settled_total_base_units", decimal p.settled_total)
    ∷ ("refunded_total_base_units", decimal p.refunded_total)
    ∷ ("vault_balance_base_units", decimal p.vault_balance)
    ∷ ("outstanding_right_base_units", decimal p.outstanding_right)
    ∷ ("excess_refundable_base_units", decimal p.unallocated_capacity)
    ∷ ("latest_activated_sequence", at (lit "latest_activated_sequence") c)
    ∷ ("latest_activated_voucher_hash", at (lit "latest_activated_voucher_hash") c)
    ∷ ("claim_deadline", at (lit "claim_deadline") request)
    ∷ ("frozen_at", str frozen_at)
    ∷ ("unresolved_operation_count", int (pos unresolved))
    ∷ ("channel_status", str (lit "closing"))
    ∷ ("closure_phase", str (lit "ready_to_finalize"))
    ∷ [])

module _ (h : Host) where
  unfoldable pub freeze_closure :
      Fields → Fields → Fields → Option Datetime → List Text → Result Fields
  freeze_closure request snapshot c now states = do
    t ← validate_request_snapshot h request snapshot
    frozen ← utc_time now
    deadline ← time (at (lit "claim_deadline") request) "claim_deadline"
    reject_if (ltb (instant frozen) (instant deadline)) "claim_window_open" "now"
    p ← validate_channel (obj c)
    check_identity_kept c request
    check_progress t p
    check_activation (nat_of (at (lit "latest_activated_sequence") snapshot))
        (nat_of (at (lit "latest_activated_sequence") c))
        (not (
          py_eq (at (lit "latest_activated_voucher_hash") c)
            (at (lit "latest_activated_voucher_hash") snapshot)))
        (ltb t.activated p.activated_total)
    known ← operation_states states
    digest ← sha256_canonical_json h (obj c)
    with_hash h
        (frozen_snapshot request snapshot c p digest (strftime frozen) (count_ambiguous known))
        "freeze_snapshot_hash"

-- `activation_is_eligible`
unfoldable pub activation_is_eligible : Option Datetime → Value → Result Bool
activation_is_eligible now claim_deadline = do
  current ← utc_time now
  deadline ← time claim_deadline "claim_deadline"
  ok (ltb (instant current) (instant deadline))
