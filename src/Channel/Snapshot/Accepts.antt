-- ===== src/Channel/Snapshot/Accepts.antt =====
-- What an accepted snapshot has passed, step by step.
use foundry_pay.Base.{ℕ, ◌≡◌, Option, arith, Text, String, lit, ok}
use foundry_pay.Python.Value.{Value, Fields, obj, has, at}
use foundry_pay.Channel.Checks.{closed_object}
use foundry_pay.Channel.Accounts.{Accounts, Projection, check_accounts, project}
use foundry_pay.Channel.Status.{Status, status_of}
use foundry_pay.Channel.Lifecycle.{
  Times, check_times, check_closing_fields, check_open_states, check_closed,
}
use foundry_pay.Channel.Snapshot.{
  check_identity, check_position, read_accounts, read_times, check_close, check_lifecycle,
  validate_fields, validate_channel, fields_of, channel_required, channel_fields,
}

pub record Accepts (c : Fields) (p : Projection) : Type 0 where
  pub channel_id : Text
  pub sequence : ℕ
  pub accounts : Accounts
  pub times : Times
  pub identified : check_identity c ≡ ok channel_id
  pub positioned : check_position c ≡ ok sequence
  pub accounted : read_accounts c channel_id sequence ≡ ok accounts
  pub solvent : check_accounts accounts ≡ ok tt
  pub timed : read_times c ≡ ok times
  pub ordered : check_times times ≡ ok tt
  pub alive : check_lifecycle c accounts times ≡ ok tt
  pub projected : p ≡ project accounts

pub validate_fields-Accepts : (c : Fields) (p : Projection) → validate_fields c ≡ ok p → Accepts c p
unfolding validate_fields
validate_fields-Accepts c p h = ground arith

pub closed_object-eq :
    (v : Value) (f : String) {c : Fields}
    → closed_object v f channel_required channel_fields ≡ ok c
    → v ≡ obj c
unfolding closed_object
closed_object-eq v f h = ground arith

pub validate_channel-Accepts :
    (v : Value) (p : Projection) → validate_channel v ≡ ok p → Accepts (fields_of v) p
unfolding validate_channel closed_object
validate_channel-Accepts v p h = ground (arith, validate_fields-Accepts (fields_of v) p)

pub record Lives (c : Fields) (a : Accounts) (t : Times) : Type 0 where
  pub status : Status
  pub deadline : Option ℕ
  pub named : status_of (at (lit "status") c) ≡ ok status
  pub fields_fit :
      check_closing_fields status (has (lit "close_requested_at") c) (has (lit "claim_deadline") c)
      ≡ ok tt
  pub closing_fits : check_close c t (has (lit "close_requested_at") c) ≡ ok deadline
  pub open_fits : check_open_states status a t (has (lit "recipient_wallet") c) ≡ ok tt
  pub closed_fits : check_closed status a t deadline ≡ ok tt

pub check_lifecycle-Lives :
    (c : Fields) (a : Accounts) (t : Times) → check_lifecycle c a t ≡ ok tt → Lives c a t
unfolding check_lifecycle
check_lifecycle-Lives c a t h = ground arith
