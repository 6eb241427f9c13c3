-- ===== src/Closure/Running.antt =====
-- What a run of the closure's checks and of its runtime computes with, for the tests' `unfolding` lines.
use foundry_pay.Python.Unicode.{is_decimal, decimal_value, is_digit_text, int_of_digits}
use foundry_pay.Python.Decimal.{text_of_nat, from_digits, two_digits}
use foundry_pay.Channel.Running.{running as channel_running}
use foundry_pay.Voucher.Running.{running}
use foundry_pay.Binding.Checks.{same_type, check_member}
use foundry_pay.Closure.Checks as Checks
use foundry_pay.Closure.Totals as Totals
use foundry_pay.Closure.Snapshots as Snapshots
use foundry_pay.Closure.Request as Request
use foundry_pay.Closure.Refund as Refund
use foundry_pay.Closure.Finalize as Finalize
use foundry_pay.Closure.Table as Table
use foundry_pay.Closure.Runtime as Runtime
use foundry_pay.Closure.Runtime.Commit as Commit
use foundry_pay.Closure.Runtime.Receipt as Receipt
use foundry_pay.Closure.Runtime.Recover as Recover
use foundry_pay.Closure.Runtime.Reconcile as Reconcile
use foundry_pay.Closure.Runtime.Register as Register

unfoldable pub closure_running : Unit {0}
unfolding running channel_running decimal_value is_decimal is_digit_text int_of_digits text_of_nat
    from_digits two_digits same_type check_member Checks.ambiguous_states Checks.releasing_states
    Checks.check_closed_fields Checks.hash Checks.identifier Checks.pubkey Checks.time
    Checks.utc_time Checks.format_time Checks.amount Checks.put Checks.with_hash
    Checks.validate_hash Checks.expect Checks.exactly Checks.validate_domain
    Checks.validate_channel_reference Checks.operation_states Checks.count_ambiguous
    Checks.domain_of Checks.reference_of Totals.read_totals Totals.check_totals
    Snapshots.freeze_snapshot_fields Snapshots.closure_request_fields
    Snapshots.request_snapshot_fields Snapshots.linked Snapshots.check_frozen
    Snapshots.check_sequence Snapshots.check_requested Snapshots.validate_freeze_snapshot
    Snapshots.validate_request_snapshot Request.closure_snapshot Request.check_close_window
    Request.request_close Request.check_progress Request.check_activation
    Request.check_identity_kept Request.frozen_snapshot Request.freeze_closure
    Request.activation_is_eligible Refund.refund_reasons Refund.refund_request_fields
    Refund.check_same Refund.make_refund_request Refund.check_refund_links
    Refund.check_refund_window Refund.check_resolved Refund.check_refund_amount Refund.read_refund
    Refund.projection_document Refund.project_refund Finalize.validate_finalization
    Finalize.eligibility_document Finalize.epoch_transition_eligibility Table.state_text
    Table.sql_text Table.find_refund Table.update_refund Table.is_repeated Table.find_repeated
    Table.in_scope Table.share Table.reserved Table.high_water Table.later_event Table.last_event
    Table.has_event_hash Table.event_document Table.next_event Table.insert_event Runtime.record_of
    Runtime.read_row Runtime.get_refund Runtime.finish Runtime.write_row Runtime.carry_out
    Runtime.transact Commit.execution_commitment_fields Commit.check_commitment
    Commit.set_commitment Commit.plan_commitment Commit.plan_submission Commit.release_state
    Commit.plan_release Commit.commit_execution Commit.record_submit_intent
    Commit.release_before_submission Receipt.technical_receipt_required
    Receipt.technical_receipt_fields Receipt.truthy Receipt.same_column Receipt.check_receipt
    Receipt.check_receipt_links Receipt.check_outcome Receipt.outcome_state Receipt.set_receipt
    Receipt.check_first_receipt Receipt.plan_first_receipt Receipt.plan_receipt
    Receipt.record_technical_receipt Recover.check_recovery Recover.recovery_payload
    Recover.plan_recovery Recover.insert_text Recover.normalized Recover.check_divergence
    Recover.divergence Recover.plan_divergence Recover.record_recovered_signature
    Recover.record_provider_divergence Reconcile.observation_fields Reconcile.check_amounts
    Reconcile.check_observation Reconcile.check_verified Reconcile.raise_to
    Reconcile.other_high_water Reconcile.number Reconcile.expected Reconcile.mismatches
    Reconcile.reconciled_document Reconcile.review Reconcile.overlap_payload
    Reconcile.plan_completion Reconcile.plan_interval Reconcile.plan_open
    Reconcile.plan_reconciliation Reconcile.reconcile Register.prepare_registration
    Register.new_refund Register.fits_column Register.check_capacity Register.check_columns
    Register.insert_refund Register.register_new Register.register_again Register.register_refund
closure_running = tt
