-- ===== src/Channel/Conservation.antt =====
-- Theorems on accepted snapshots: what the projection says, and what each lifecycle state implies.
use foundry_pay.Base.{ℕ, ◌≤◌, ◌<◌, ◌≡◌, true, arith, lit, Text, ok, subst⁻¹, Option}
use foundry_pay.Python.Value.{Value, Fields, has, at}
use foundry_pay.Channel.Checks.{u64_max, amount}
use foundry_pay.Channel.Accounts.{Accounts, Projection, vault, project}
use foundry_pay.Channel.Accounts.Laws.{
  IsSolvent, Conserves, check_accounts-IsSolvent, project-Conserves,
}
use foundry_pay.Channel.Status.{
  Status, draft, funding, active, settling, closing, closed, expired, status_of,
}
use foundry_pay.Channel.Lifecycle.{Times, check_closing_fields, check_open_states, check_closed}
use foundry_pay.Channel.Reads.{amount-le}
use foundry_pay.Channel.Snapshot.{read_accounts, read_times, validate_channel, fields_of}
use foundry_pay.Channel.Snapshot.Accepts.{validate_channel-Accepts, check_lifecycle-Lives}

-- The totals of a projection are the amounts that the snapshot's fields state.
pub record States (c : Fields) (p : Projection) : Type 0 where
  pub funded :
      amount (at (lit "funded_total_base_units") c) "funded_total_base_units" ≡ ok p.funded_total
  pub activated :
      amount
        (at (lit "activated_authorized_total_base_units") c)
        "activated_authorized_total_base_units"
      ≡ ok p.activated_total
  pub settled :
      amount (at (lit "settled_total_base_units") c) "settled_total_base_units" ≡ ok p.settled_total
  pub refunded :
      amount (at (lit "refunded_total_base_units") c) "refunded_total_base_units"
      ≡ ok p.refunded_total

accounts_stated :
    (c : Fields) (id : Text) (n : ℕ) (a : Accounts)
    → read_accounts c id n ≡ ok a
    → States c (project a)
unfolding read_accounts project
accounts_stated c id n a h = ground arith

pub validate_channel-States :
    (v : Value) (p : Projection) → validate_channel v ≡ ok p → States (fields_of v) p
validate_channel-States v p h =
    let w = validate_channel-Accepts v p h in
    subst⁻¹ (States (fields_of v)) w.projected
      (accounts_stated (fields_of v) w.channel_id w.sequence w.accounts w.accounted)

pub validate_channel-Conserves :
    (v : Value) (p : Projection) → validate_channel v ≡ ok p → Conserves p
validate_channel-Conserves v p h =
    let w = validate_channel-Accepts v p h in
    subst⁻¹ Conserves w.projected
      (project-Conserves w.accounts ((check_accounts-IsSolvent w.accounts).0 w.solvent))

-- An accepted snapshot's projection states the amounts of its fields, conserves them (the vault is
-- F - S - R, and splits into the outstanding right A - S and the unallocated capacity F - R - A), and
-- its largest amount, F, is an unsigned 64-bit number.
pub validate_channel_sound :
    (v : Value) (p : Projection)
    → validate_channel v ≡ ok p
    → States (fields_of v) p × Conserves p × (p.funded_total ≤ u64_max)
validate_channel_sound v p h =
    let s = validate_channel-States v p h in
    (s, validate_channel-Conserves v p h, amount-le _ _ s.funded)

-- What a lifecycle state says of the amounts, the times and the wallet.
abbrev pub Admits : Status → Projection → Times → Fields → Type 0
Admits draft p t c = (p.funded_total ≡ 0) × (p.activated_total ≡ 0)
Admits funding p t c =
    (p.activated_total ≡ 0) × (p.vault_balance ≡ p.funded_total) × (t.updated < t.expires)
Admits active p t c = (0 < p.funded_total) × (t.updated < t.expires)
Admits settling p t c = (0 < p.outstanding_right) × (has (lit "recipient_wallet") c ≡ true)
Admits closing p t c = (0 < p.funded_total) × (has (lit "claim_deadline") c ≡ true)
Admits closed p t c =
    (p.outstanding_right ≡ 0) × (p.vault_balance ≡ 0) × (has (lit "claim_deadline") c ≡ true)
Admits expired p t c = (p.outstanding_right ≡ 0) × (t.expires ≤ t.updated)
Admits s p t c = Unit

lives_admitted :
    (s : Status) (d : Option ℕ) (a : Accounts) (t : Times) (c : Fields)
    → IsSolvent a
    → check_closing_fields s (has (lit "close_requested_at") c) (has (lit "claim_deadline") c)
      ≡ ok tt
    → check_open_states s a t (has (lit "recipient_wallet") c) ≡ ok tt
    → check_closed s a t d ≡ ok tt
    → Admits s (project a) t c
unfolding check_closing_fields check_open_states check_closed project vault
lives_admitted draft d a t c v f o e = ground arith
lives_admitted funding d a t c v f o e = ground arith
lives_admitted active d a t c v f o e = ground arith
lives_admitted settling d a t c v f o e = ground arith
lives_admitted closing d a t c v f o e = ground arith
lives_admitted closed d a t c v f o e = ground arith
lives_admitted expired d a t c v f o e = ground arith
lives_admitted _ d a t c v f o e = tt

-- An accepted snapshot's lifecycle state is one of the eleven, its times can be read, and the state
-- admits the derived amounts: for instance a closed channel has nothing in its vault and no
-- outstanding right, and a settling one has both a right and a wallet.
pub validate_channel-Admits :
    (v : Value) (p : Projection)
    → validate_channel v ≡ ok p
    → (s : Status) × (t : Times) × (status_of (at (lit "status") (fields_of v)) ≡ ok s)
      × (read_times (fields_of v) ≡ ok t)
      × Admits s p t (fields_of v)
validate_channel-Admits v p h =
    let c = fields_of v in
    let w = validate_channel-Accepts v p h in
    let l = check_lifecycle-Lives c w.accounts w.times w.alive in
    (
      l.status,
      w.times,
      l.named,
      w.timed,
      subst⁻¹ (λ q. Admits l.status q w.times c) w.projected
          (lives_admitted l.status l.deadline w.accounts w.times c
            ((check_accounts-IsSolvent w.accounts).0 w.solvent) l.fields_fit l.open_fits
            l.closed_fits),
    )
