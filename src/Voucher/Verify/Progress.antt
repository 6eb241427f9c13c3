-- ===== src/Voucher/Verify/Progress.antt =====
-- What the checks of `verify_voucher` say of the context, the amounts and the times.
use foundry_pay.Base.{
  ℕ, ◌+◌, ◌≤◌, ◌<◌, ◌≡◌, true, Option, none, some, arith, lit, String, List, [], ◌∷◌, All, ok,
}
use foundry_pay.Python.Value.{Value, Fields, at, py_eq}
use foundry_pay.Python.Datetime.{Datetime, instant}
use foundry_pay.Voucher.Context.{VoucherContext, Limits, check_limits, validate_context}
use foundry_pay.Voucher.Verify.{
  expected_fields, check_expected, check_context, floor, check_progress, check_validity,
}

-- The amounts of a context fit one another.
pub record IsConsistent (l : Limits) : Type 0 where
  pub refundable : l.refunded ≤ l.funded
  pub covered : l.activated_total + l.refunded ≤ l.funded
  pub allowed : l.activated_total ≤ l.policy_limit

check_limits-IsConsistent : (l : Limits) → check_limits l ≡ ok tt → IsConsistent l
unfolding check_limits
check_limits-IsConsistent l h = ground arith

limits_checked :
    (x : VoucherContext) (l : Limits) → validate_context x ≡ ok l → check_limits l ≡ ok tt
unfolding validate_context
limits_checked x l h = ground arith

pub validate_context-IsConsistent :
    (x : VoucherContext) (l : Limits) → validate_context x ≡ ok l → IsConsistent l
validate_context-IsConsistent x l h = check_limits-IsConsistent l (limits_checked x l h)

abbrev Matches : Fields → String × String × Value → Type 0
Matches p (f, code, expected) = py_eq (at (lit f) p) expected ≡ true

expected-All :
    (es : List (String × String × Value)) (p : Fields)
    → check_expected es p ≡ ok tt
    → All (Matches p) es
unfolding check_expected
expected-All [] p h = tt
expected-All ((f, code, v) ∷ es) p h = ground (arith, expected-All es p)

-- The payload names the channel, the keys and the epoch of a context, and its latest activated
-- voucher.
pub record IsBound (x : VoucherContext) (p : Fields) : Type 0 where
  pub named : All (Matches p) (expected_fields x)
  pub chained :
      py_eq (at (lit "previous_activated_voucher_hash") p) x.latest_activated_voucher_hash ≡ true

pub check_context-IsBound :
    (x : VoucherContext) (p : Fields) → check_context x p ≡ ok tt → IsBound x p
unfolding check_context
check_context-IsBound x p h = ground (arith, expected-All (expected_fields x) p)

-- A number above the latest one, and one that is at least as great, if there is a latest one.
abbrev pub Above : Option ℕ → ℕ → Type 0
Above none n = Unit
Above (some m) n = m < n

abbrev pub Reaching : Option ℕ → ℕ → Type 0
Reaching none n = Unit
Reaching (some m) n = m ≤ n

-- The amounts and the sequence go on from what was activated and issued before, within the funds.
pub record Progresses (l : Limits) (s t : Option ℕ) (sequence total : ℕ) : Type 0 where
  pub positive : 0 < total
  pub newer : l.activated_sequence < sequence
  pub larger : l.activated_total ≤ total
  pub newer_issued : Above s sequence
  pub larger_issued : Reaching t total
  pub funded : total + l.refunded ≤ l.funded
  pub within_policy : total ≤ l.policy_limit

newer_than :
    (l : Limits) (s t : Option ℕ) (sequence total : ℕ)
    → check_progress l s t sequence total ≡ ok tt
    → Above s sequence
unfolding check_progress floor
newer_than l none t sequence total h = tt
newer_than l (some n) t sequence total h = ground arith

larger_than :
    (l : Limits) (s t : Option ℕ) (sequence total : ℕ)
    → check_progress l s t sequence total ≡ ok tt
    → Reaching t total
unfolding check_progress floor
larger_than l s none sequence total h = tt
larger_than l s (some n) sequence total h = ground arith

pub check_progress-Progresses :
    (l : Limits) (s t : Option ℕ) (sequence total : ℕ)
    → IsConsistent l
    → check_progress l s t sequence total ≡ ok tt
    → Progresses l s t sequence total
unfolding check_progress floor
check_progress-Progresses l s t sequence total c h = record {
  positive = ground arith;
  newer = ground arith;
  larger = ground arith;
  newer_issued = newer_than l s t sequence total h;
  larger_issued = larger_than l s t sequence total h;
  funded = ground arith;
  within_policy = ground arith;
}

pub validity :
    (i e n c : Datetime)
    → check_validity (instant i) (instant e) (instant n) (instant c) ≡ ok tt
    → (instant i ≤ instant n) × (instant n < instant e) × (instant e ≤ instant c)
unfolding check_validity
validity i e n c h = ground arith
