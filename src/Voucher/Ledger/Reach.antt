-- ===== src/Voucher/Ledger/Reach.antt =====
-- Every sequence of calls: the step relation of the ledger and the ledgers that it reaches.
use foundry_pay.Base.{ℕ, ◌≡◌, subst, sym, false, some, [], Text, text_eq, text_eq→eq}
use foundry_pay.Python.Value.{Value}
use foundry_pay.Python.Datetime.{Datetime}
use foundry_pay.Canonical.Json.{Host}
use foundry_pay.Voucher.Context.{VoucherContext}
use foundry_pay.Voucher.Verify.{SignatureVerifier}
use foundry_pay.Voucher.Table.{Row, Ledger, find_row}
use foundry_pay.Voucher.Table.Rows.{Other, find_row-id}
use foundry_pay.Voucher.Monotone.{Live, Ordered, Agree, IsMonotone, found-Agree, All-found}
use foundry_pay.Voucher.Record.{record_issued}
use foundry_pay.Voucher.Ledger.{verify_issued, request_activation}
use foundry_pay.Voucher.Ledger.Invariant.{
  record_issued-IsMonotone, verify_issued-IsMonotone, request_activation-IsMonotone,
}

abbrev pub empty : Ledger
empty = record { rows = []; events = [] }

module _ (h : Host) where
  -- One call of a method, with any arguments, its signature verifier included, whatever it returns or
  -- raises.
  pub data Call : Ledger → Ledger → Type 0 where
    issue : (id v : Value) (t : Datetime) (l : Ledger) → Call l (record_issued id v t l).1
    verify :
        (verifier : SignatureVerifier) (id : Text) (x : VoucherContext) (t : Datetime) (l : Ledger)
        → Call l (verify_issued h verifier id x t l).1
    activate :
        (verifier : SignatureVerifier) (id : Text) (x : VoucherContext) (t : Datetime) (l : Ledger)
        → Call l (request_activation h verifier id x t l).1

  pub data Reaches (k : Ledger) : Ledger → Type 0 where
    start : Reaches k k
    call : {l m : Ledger} → Reaches k l → Call l m → Reaches k m

  Call-IsMonotone : {l m : Ledger} → Call l m → IsMonotone l.rows → IsMonotone m.rows
  Call-IsMonotone (issue id v t l) i = record_issued-IsMonotone id v t l i
  Call-IsMonotone (verify verifier id x t l) i = verify_issued-IsMonotone h verifier id x t l i
  Call-IsMonotone (activate verifier id x t l) i =
      request_activation-IsMonotone h verifier id x t l i

  pub Reaches-IsMonotone : {l : Ledger} → Reaches empty l → IsMonotone l.rows
  Reaches-IsMonotone start = tt
  Reaches-IsMonotone (call r c) = Call-IsMonotone c (Reaches-IsMonotone r)

  -- In every ledger that any calls reach from the empty one, each call with a signature verifier of
  -- its own, two different submissions whose vouchers
  -- are verified (or sent to activation) in one domain have different sequences, and the one with the
  -- greater sequence has a cumulative total that is at least as great.
  pub reached-Ordered :
      (l : Ledger)
      → Reaches empty l
      → (i j key : Text) (r q : Row) (s t s' t' : ℕ) → find_row i l.rows ≡ some r
      → find_row j l.rows ≡ some q
      → text_eq j i ≡ false
      → Live r key s t
      → Live q key s' t'
      → Ordered s t s' t'
  reached-Ordered l w i j key r q s t s' t' a b d c e =
      (All-found (λ p. Other i p → Agree r p) j l.rows q
          (found-Agree i l.rows r (Reaches-IsMonotone w) a) b
          (subst (λ z. text_eq z i ≡ false)
            (sym (text_eq→eq q.submission_id j (find_row-id j l.rows q b))) d)).at
        key s t s' t' c e
