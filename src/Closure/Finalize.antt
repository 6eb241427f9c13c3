-- ===== src/Closure/Finalize.antt =====
-- `validate_finalization` and `epoch_transition_eligibility`.
use foundry_pay.Base.{
  ◌+◌, Bool, not, Option, List, [], ◌∷◌, ltb, ◌==◌, Text, lit, Result, ◌>>=◌, ◌>>◌, reject_if,
}
use foundry_pay.Python.Value.{ℤ, Value, Fields, pos, negsuc, int, str, obj, at, py_eq}
use foundry_pay.Python.Datetime.{Datetime, instant}
use foundry_pay.Canonical.Json.{Host}
use foundry_pay.Channel.Snapshot.{validate_channel, is_text, nat_of}
use foundry_pay.Voucher.Context.{zero_hash}
use foundry_pay.Closure.Checks.{
  with_hash, hash, time, utc_time, format_time, domain_of, reference_of, operation_states,
  count_ambiguous, dict,
}
use foundry_pay.Closure.Snapshots.{validate_freeze_snapshot}

unfoldable pub validate_finalization :
    Host → Fields → Fields → Option Datetime → List Text → Result (Unit {0})
validate_finalization h c freeze now states = do
  validate_freeze_snapshot h freeze
  p ← validate_channel (obj c)
  reject_if (not (is_text (at (lit "status") c) (lit "closing"))) "finalization_lifecycle_forbidden"
      "channel.status"
  current ← utc_time now
  deadline ← time (at (lit "claim_deadline") c) "channel.claim_deadline"
  reject_if (ltb (instant current) (instant deadline)) "claim_window_open" "now"
  reject_if (not (p.outstanding_right == 0)) "outstanding_right_reserved" "channel"
  reject_if (not (p.vault_balance == 0)) "vault_not_empty" "channel"
  reject_if (not (py_eq (at (lit "channel") freeze) (reference_of c))) "channel_reference_mismatch"
      "freeze_snapshot.channel"
  reject_if (not (nat_of (at (lit "unresolved_operation_count") freeze) == 0))
      "unresolved_economic_operation" "freeze_snapshot.unresolved_operation_count"
  known ← operation_states states
  reject_if (not (count_ambiguous known == 0)) "unresolved_economic_operation" "operation_states"

abbrev pub is_zero : ℤ → Bool
is_zero (pos n) = n == 0
is_zero (negsuc n) = Bool.false

unfoldable pub eligibility_document : Fields → Value → Text → Fields
eligibility_document c closure_hash evaluated_at = dict (
    ("type", str (lit "epoch_transition_eligibility"))
    ∷ ("protocol_version", str (lit "1.0.0"))
    ∷ ("domain", domain_of c)
    ∷ ("channel_id", at (lit "channel_id") c)
    ∷ ("channel_account", at (lit "channel_account") c)
    ∷ ("previous_epoch", at (lit "epoch") c)
    ∷ ("next_epoch", int (pos (nat_of (at (lit "epoch") c) + 1)))
    ∷ ("previous_final_closure_hash", closure_hash)
    ∷ ("previous_status", str (lit "closed"))
    ∷ ("previous_vault_balance_base_units", str (lit "0"))
    ∷ ("previous_outstanding_right_base_units", str (lit "0"))
    ∷ ("unresolved_operation_count", int (pos 0))
    ∷ ("next_funded_total_base_units", str (lit "0"))
    ∷ ("next_activated_total_base_units", str (lit "0"))
    ∷ ("next_settled_total_base_units", str (lit "0"))
    ∷ ("next_refunded_total_base_units", str (lit "0"))
    ∷ ("next_latest_sequence", int (pos 0))
    ∷ ("next_latest_voucher_hash", str zero_hash)
    ∷ ("decision", str (lit "epoch_transition_eligible"))
    ∷ ("evaluated_at", str evaluated_at)
    ∷ [])

unfoldable pub epoch_transition_eligibility :
    Host → Fields → Value → ℤ → Option Datetime → Result Fields
epoch_transition_eligibility h c closure_hash unresolved now = do
  p ← validate_channel (obj c)
  reject_if (not (is_text (at (lit "status") c) (lit "closed"))) "previous_channel_not_closed"
      "previous_channel.status"
  reject_if (not (p.vault_balance == 0)) "previous_vault_nonzero" "previous_channel"
  reject_if (not (p.outstanding_right == 0)) "previous_outstanding_nonzero" "previous_channel"
  reject_if (not (is_zero unresolved)) "unresolved_economic_operation" "unresolved_operation_count"
  hash closure_hash "previous_final_closure_hash"
  evaluated ← format_time now
  with_hash h (eligibility_document c closure_hash evaluated) "eligibility_hash"
