-- ===== src/Closure/Runtime/Reached.antt =====
-- Induction on the tables that the runtime can reach, and the count of the submit intents.
use foundry_pay.Base.{
  ◌≡◌, refl, subst, ℕ, true, List, [], All, All-split, All-join, if◌then◌else◌, arith,
}
use foundry_pay.Canonical.Json.{Host}
use foundry_pay.Closure.Table.{
  RefundState, validated, execution_committed, rejected_before_submission, failed_before_submission,
  explicitly_cancelled_before_authorization, Refund, ClosureDb,
}
use foundry_pay.Closure.Runtime.Change.{
  may, is_submitted, Evolves, Change, stays, evolves, registers,
}
use foundry_pay.Closure.Runtime.Calls.{Reached, start, then_call, Call-Change}

-- What holds of empty tables, and is kept by every change, holds of the tables that calls lead to.
pub Reached-rule :
    (h : Host) (P : ClosureDb → Type 0)
    → P (record { refunds = []; events = [] })
    → ((db db' : ClosureDb) → P db → Change h db db' → P db')
    → (db : ClosureDb) → Reached h db
    → P db
Reached-rule h P base step db start = base
Reached-rule h P base step db (then_call db₀ s reached call) =
    step db₀ s.1 (Reached-rule h P base step db₀ reached) (Call-Change h db₀ s call)

-- The submit intents of a refund, by its state: none before it is submitted, and one from then on.
abbrev pub intents : RefundState → ℕ
intents validated = 0
intents execution_committed = 0
intents rejected_before_submission = 0
intents failed_before_submission = 0
intents explicitly_cancelled_before_authorization = 0
intents s = 1

abbrev pub Counted : Refund → Type 0
Counted r = r.submit_intent_count ≡ intents r.state

pub intents-may :
    (s s' : RefundState) → may s s' ≡ true → (if is_submitted s' then 1 else intents s) ≡ intents s'
intents-may s s' m = ground arith

Evolves-Counted : (rs : List Refund) (r r' : Refund) → Evolves rs r r' → Counted r → Counted r'
Evolves-Counted rs r r' v c = rw (v.counts, c) (intents-may r.state r'.state v.moves)

-- Every refund that calls can lead to counts no submit intent before its submission and exactly one
-- from then on, however often its submission, its receipts and its recovery are recorded.
pub submit_once : (h : Host) (db : ClosureDb) → Reached h db → All Counted db.refunds
submit_once h = Reached-rule h (λ db. All Counted db.refunds) tt step
  where
    step : (db db' : ClosureDb) → All Counted db.refunds → Change h db db' → All Counted db'.refunds
    step db db' c stays = c
    step db db' c (evolves before after r r' e eq v f) =
        let w = All-split Counted before r after (subst (All Counted) eq c) in
        All-join Counted before r' after w.0 (Evolves-Counted db.refunds r r' v w.1) w.2
    step db db' c (registers r e absent s n fits f) =
        All-join Counted db.refunds r [] c (rw (s, n) refl) tt
