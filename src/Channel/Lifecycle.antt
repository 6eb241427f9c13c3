-- ===== src/Channel/Lifecycle.antt =====
-- The checks of `validate_channel` on times and on the lifecycle state, once the fields are read.
use foundry_pay.Base.{
  ℕ, ◌+◌, ◌-◌, ◌*◌, Bool, not, ◌&&◌, ◌||◌, Option, none, some, [], ◌∷◌, ltb, leb, ◌==◌, bool_ne,
  Result, ok, err, assertion_error, ◌>>◌, reject_if,
}
use foundry_pay.Channel.Accounts.{Accounts, vault}
use foundry_pay.Channel.Status.{
  Status, draft, funding, active, settling, closing, closed, expired, is, is_in,
}

pub record Times : Type 0 where
  pub created : ℕ
  pub updated : ℕ
  pub expires : ℕ

unfoldable pub check_times : Times → Result (Unit {0})
check_times t = do
  reject_if (ltb t.updated t.created) "time_order_invalid" "updated_at"
  reject_if (leb t.expires t.created) "time_order_invalid" "expires_at"

-- Which of the two close timestamps are there, against the state.
unfoldable pub check_closing_fields : Status → Bool → Bool → Result (Unit {0})
check_closing_fields s has_close has_deadline = do
  reject_if (bool_ne has_close has_deadline) "closing_fields_incomplete" "close_requested_at"
  reject_if (is_in s (closing ∷ closed ∷ []) && not has_close) "closing_fields_required" "status"
  reject_if (has_close && is_in s (draft ∷ funding ∷ active ∷ settling ∷ expired ∷ []))
      "closing_fields_forbidden" "status"

-- The window between the request to close and the deadline for claims; the grace is in seconds.
unfoldable pub check_window : Times → ℕ → ℕ → ℕ → Result (Unit {0})
check_window t requested deadline grace = do
  reject_if (ltb requested t.created || ltb t.updated requested) "close_snapshot_order_invalid"
      "close_requested_at"
  reject_if (leb deadline requested) "close_window_invalid" "claim_deadline"
  reject_if (ltb (deadline - requested) (grace * 1_000_000)) "close_grace_too_short"
      "claim_deadline"

-- The states before the close, against the amounts, the expiry and the recipient's wallet.
unfoldable pub check_open_states : Status → Accounts → Times → Bool → Result (Unit {0})
check_open_states s a t has_wallet = do
  reject_if (ltb a.funded (a.settled + a.refunded)) "conservation_violation"
      "funded_total_base_units"
  reject_if
      (is s draft && not (a.funded == 0 && a.activated == 0 && a.settled == 0 && a.refunded == 0))
      "draft_accounting_nonzero" "status"
  reject_if (is s funding && not (a.activated == 0 && a.settled == 0 && a.refunded == 0))
      "funding_accounting_invalid" "status"
  reject_if (is_in s (active ∷ settling ∷ closing ∷ []) && a.funded == 0) "funding_required"
      "status"
  reject_if (is_in s (funding ∷ active ∷ []) && leb t.expires t.updated)
      "channel_expiry_transition_required" "status"
  reject_if (is s settling && not has_wallet) "settlement_wallet_required" "recipient_wallet"
  reject_if (is s settling && leb a.activated a.settled) "settlement_right_required" "status"
  reject_if (is s expired && ltb t.updated t.expires) "expiry_not_reached" "updated_at"
  reject_if (is s expired && not (a.activated == a.settled)) "expired_outstanding_right" "status"

-- The state `closed`; the deadline is read again, and is there because the state requires it.
unfoldable pub check_closed : Status → Accounts → Times → Option ℕ → Result (Unit {0})
check_closed closed a t deadline = do
  reject_if (not (a.activated == a.settled)) "closed_outstanding_right" "status"
  reject_if (not (vault a == 0)) "closed_vault_nonzero" "status"
  elim deadline [
    | none ↦ err assertion_error
    | some d ↦ reject_if (ltb t.updated d) "closed_before_claim_deadline" "updated_at"
  ]
check_closed s a t deadline = ok tt
