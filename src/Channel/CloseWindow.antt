-- ===== src/Channel/CloseWindow.antt =====
-- Theorems on the close timestamps of accepted snapshots.
use foundry_pay.Base.{
  ℕ, ◌+◌, ◌*◌, ◌≤◌, ◌≡◌, true, arith, lit, Option, some, ok, subst, refl, false, ◌⊎◌, inl, inr,
}
use foundry_pay.Python.Value.{Value, Fields, has, at}
use foundry_pay.Python.Datetime.{Datetime, instant}
use foundry_pay.Channel.Checks.{timestamp}
use foundry_pay.Channel.Accounts.{Accounts, Projection}
use foundry_pay.Channel.Status.{
  Status, draft, funding, active, settling, closing, closed, expired, blocked, disputed,
  needs_recovery, needs_review, is, status_of,
}
use foundry_pay.Channel.Lifecycle.{Times, check_window, check_closed}
use foundry_pay.Channel.Snapshot.{read_times, check_close, grace_of, validate_channel, fields_of}
use foundry_pay.Channel.Snapshot.Accepts.{validate_channel-Accepts, check_lifecycle-Lives}

-- The close window of a snapshot: the request lies between the creation and the last update, and the
-- deadline is later by the policy's grace, in seconds, at least.
pub record Window (c : Fields) (t : Times) (d : Option ℕ) : Type 0 where
  pub requested : Datetime
  pub deadline : Datetime
  pub requested_at : timestamp (at (lit "close_requested_at") c) "close_requested_at" ≡ ok requested
  pub deadline_at : timestamp (at (lit "claim_deadline") c) "claim_deadline" ≡ ok deadline
  pub after_creation : t.created ≤ instant requested
  pub before_update : instant requested ≤ t.updated
  pub graced : instant requested + grace_of c * 1_000_000 ≤ instant deadline
  pub found : d ≡ some (instant deadline)

check_close-Window :
    (c : Fields) (t : Times) (d : Option ℕ) → check_close c t true ≡ ok d → Window c t d
unfolding check_close check_window
check_close-Window c t d h = ground arith

closed_late :
    (a : Accounts) (t : Times) (d : Option ℕ) (x : ℕ)
    → check_closed closed a t d ≡ ok tt
    → d ≡ some x
    → x ≤ t.updated
unfolding check_closed
closed_late a t d x h e = ground arith

-- A snapshot that is closed was last updated at or after its deadline.
closed_after :
    (s : Status) (a : Accounts) (c : Fields) (t : Times) (d : Option ℕ) (w : Window c t d)
    → check_closed s a t d ≡ ok tt
    → (is s closed ≡ false) ⊎ (instant w.deadline ≤ t.updated)
closed_after closed a c t d w h = inr (closed_late a t d (instant w.deadline) h w.found)
closed_after draft a c t d w h = inl refl
closed_after funding a c t d w h = inl refl
closed_after active a c t d w h = inl refl
closed_after settling a c t d w h = inl refl
closed_after closing a c t d w h = inl refl
closed_after expired a c t d w h = inl refl
closed_after blocked a c t d w h = inl refl
closed_after disputed a c t d w h = inl refl
closed_after needs_recovery a c t d w h = inl refl
closed_after needs_review a c t d w h = inl refl

-- An accepted snapshot that carries the time of the request to close has a close window: the request
-- lies between the creation and the last update, and the deadline is later by the policy's grace at
-- least. Such a snapshot is not closed, or its last update is at or after the deadline.
pub validate_channel-Window :
    (v : Value) (p : Projection)
    → validate_channel v ≡ ok p
    → has (lit "close_requested_at") (fields_of v) ≡ true
    → (s : Status) × (t : Times) × (d : Option ℕ) × (w : Window (fields_of v) t d) × (status_of
          (at (lit "status") (fields_of v))
        ≡ ok s)
      × (read_times (fields_of v) ≡ ok t)
      × ((is s closed ≡ false) ⊎ (instant w.deadline ≤ t.updated))
validate_channel-Window v p h e =
    let c = fields_of v in
    let w = validate_channel-Accepts v p h in
    let l = check_lifecycle-Lives c w.accounts w.times w.alive in
    let o =
      check_close-Window c w.times l.deadline
        (subst (λ b. check_close c w.times b ≡ ok l.deadline) e l.closing_fits) in
    (
      l.status,
      w.times,
      l.deadline,
      o,
      l.named,
      w.timed,
      closed_after l.status w.accounts c w.times l.deadline o l.closed_fits,
    )
