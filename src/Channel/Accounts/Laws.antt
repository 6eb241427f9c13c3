-- ===== src/Channel/Accounts/Laws.antt =====
-- What the checks on a channel's numbers establish.
use foundry_pay.Base.{◌+◌, ◌≤◌, ◌≡◌, ◌↔◌, arith, ok}
use foundry_pay.Channel.Accounts.{Accounts, Projection, check_accounts, project}

-- The conditions under which the amounts of a snapshot fit one another.
pub record IsSolvent (a : Accounts) : Type 0 where
  pub within_funding : a.activated + a.refunded ≤ a.funded
  pub within_policy : a.activated ≤ a.policy_limit
  pub settled_right : a.settled ≤ a.activated
  pub started : (a.sequence ≡ 0) ↔ (a.activated ≡ 0)

-- What a projection conserves: the vault is what was funded and neither settled nor refunded, and
-- it covers the outstanding right and the unallocated capacity exactly.
pub record Conserves (p : Projection) : Type 0 where
  pub total : p.vault_balance + p.settled_total + p.refunded_total ≡ p.funded_total
  pub cover : p.outstanding_right + p.unallocated_capacity ≡ p.vault_balance
  pub right : p.outstanding_right + p.settled_total ≡ p.activated_total

-- The checks accept the amounts of a channel exactly when they are solvent.
pub check_accounts-IsSolvent : (a : Accounts) → (check_accounts a ≡ ok tt) ↔ IsSolvent a
unfolding check_accounts
check_accounts-IsSolvent a = (λ h. ground arith, λ s. ground (arith, s.started))

pub project-Conserves : (a : Accounts) → IsSolvent a → Conserves (project a)
unfolding project
project-Conserves a s = omega arith
