-- ===== src/Channel/Accounts.antt =====
-- The numbers of a channel: the checks on them and the projection that is derived from them.
pub mod Laws
use foundry_pay.Base.{
  ℕ, ◌+◌, ◌-◌, Bool, ltb, leb, ◌==◌, bool_ne, Result, ok, ◌>>=◌, ◌>>◌, reject_if,
}

-- The amounts F, A, S and R that a snapshot states, with its policy's limit and its sequence.
pub record Accounts : Type 0 where
  pub funded : ℕ
  pub activated : ℕ
  pub settled : ℕ
  pub refunded : ℕ
  pub policy_limit : ℕ
  pub sequence : ℕ

-- `AccountingProjection`
pub record Projection : Type 0 where
  pub funded_total : ℕ
  pub activated_total : ℕ
  pub settled_total : ℕ
  pub refunded_total : ℕ
  pub vault_balance : ℕ
  pub outstanding_right : ℕ
  pub unallocated_capacity : ℕ

unfoldable pub check_accounts : Accounts → Result (Unit {0})
check_accounts a = do
  reject_if (ltb a.funded a.refunded) "refund_exceeds_funding" "refunded_total_base_units"
  reject_if (ltb (a.funded - a.refunded) a.activated) "authorization_exceeds_capacity"
      "activated_authorized_total_base_units"
  reject_if (ltb a.policy_limit a.activated) "authorization_exceeds_policy"
      "activated_authorized_total_base_units"
  reject_if (ltb a.activated a.settled) "settlement_exceeds_authorization"
      "settled_total_base_units"
  reject_if (bool_ne (a.sequence == 0) (a.activated == 0)) "activation_state_inconsistent"
      "latest_activated_sequence"

-- F - S - R; the source refuses a negative difference before this.
unfoldable pub vault : Accounts → ℕ
vault a = a.funded - a.settled - a.refunded

unfoldable pub project : Accounts → Projection
unfolding vault
project a = record {
  funded_total = a.funded;
  activated_total = a.activated;
  settled_total = a.settled;
  refunded_total = a.refunded;
  vault_balance = vault a;
  outstanding_right = a.activated - a.settled;
  unallocated_capacity = a.funded - a.refunded - a.activated;
}
