-- ===== src/Closure/Totals/Laws.antt =====
-- What the checks on the amounts of a closure snapshot accept.
use foundry_pay.Base.{◌+◌, ◌≡◌, ◌↔◌, arith, String, ok}
use foundry_pay.Closure.Totals.{Totals, check_totals}

-- The amounts of a snapshot balance: F is V + S + R, and V is what rights and spare capacity share.
pub record Balances (t : Totals) : Type 0 where
  pub conserved : t.vault + t.settled + t.refunded ≡ t.funded
  pub rights : t.outstanding + t.settled ≡ t.activated
  pub shared : t.outstanding + t.spare ≡ t.vault

-- The checks accept exactly the amounts that balance: the funded total is the vault with what was
-- settled and refunded, the activated total is the outstanding right with what was settled, and the
-- vault is the outstanding right with the spare capacity.
pub check_totals-Balances :
    (t : Totals) (name code : String) → (check_totals t name code ≡ ok tt) ↔ Balances t
unfolding check_totals
check_totals-Balances t name code = (λ h. ground arith, λ b. ground (arith, b.conserved))
