-- ===== src/Closure/Totals.antt =====
-- The seven amounts of a closure snapshot, and the checks on them.
pub mod Laws
use foundry_pay.Base.{
  ℕ, ◌+◌, ◌-◌, Bool, false, not, ◌&&◌, leb, ◌==◌, String, lit, str_append, Result, ok, ◌>>=◌, ◌>>◌,
  reject_if,
}
use foundry_pay.Python.Value.{Fields, at}
use foundry_pay.Closure.Checks.{amount}

-- F, A, S, R, V, A - S and F - R - A, as a snapshot states them.
pub record Totals : Type 0 where
  pub funded : ℕ
  pub activated : ℕ
  pub settled : ℕ
  pub refunded : ℕ
  pub vault : ℕ
  pub outstanding : ℕ
  pub spare : ℕ

-- The reads, with the prefix of their names and the key and name of the last.
unfoldable pub read_totals : Fields → String → String → String → Result Totals
read_totals m prefix spare_key spare_name = do
  funded ← amount (at (lit "funded_total_base_units") m) (str_append prefix "funded") false
  activated ← amount (at (lit "activated_total_base_units") m) (str_append prefix "activated") false
  settled ← amount (at (lit "settled_total_base_units") m) (str_append prefix "settled") false
  refunded ← amount (at (lit "refunded_total_base_units") m) (str_append prefix "refunded") false
  vault ← amount (at (lit "vault_balance_base_units") m) (str_append prefix "vault") false
  outstanding ←
      amount (at (lit "outstanding_right_base_units") m) (str_append prefix "outstanding") false
  spare ← amount (at (lit spare_key) m) (str_append prefix spare_name) false
  ok (record {
    funded = funded;
    activated = activated;
    settled = settled;
    refunded = refunded;
    vault = vault;
    outstanding = outstanding;
    spare = spare;
  })

-- `not 0 <= settled <= activated <= funded - refunded` is written without the difference.
unfoldable pub check_totals : Totals → String → String → Result (Unit {0})
check_totals t name spare_code = do
  reject_if (not (t.funded == t.vault + t.settled + t.refunded)) "conservation_violation" name
  reject_if (not (leb t.settled t.activated && leb (t.activated + t.refunded) t.funded))
      "rights_bounds_violation" name
  reject_if (not (t.outstanding == t.activated - t.settled)) "outstanding_right_mismatch" name
  reject_if (not (t.spare == t.funded - t.refunded - t.activated)) spare_code name
