-- ===== src/Channel/Tests.antt =====
-- Runs of the snapshot and funding checks, and the theorems at concrete snapshots.
use foundry_pay.Base.{
  false, false, ℕ, ◌≡◌, ◌≤◌, ◌<◌, ◌↔◌, ◌⊎◌, refl, true, Option, lit, ok, err, reject, type_error,
  [], ◌∷◌,
}
use foundry_pay.Python.Value.{Fields, obj, arr, nil, int, pos, has, at}
use foundry_pay.Python.Datetime.{instant}
use foundry_pay.Channel.Checks.{u64_max, amount}
use foundry_pay.Channel.Accounts.{Accounts, Projection, check_accounts}
use foundry_pay.Channel.Accounts.Laws.{IsSolvent, Conserves, check_accounts-IsSolvent}
use foundry_pay.Channel.Status.{is, Status, closed, status_of}
use foundry_pay.Channel.Lifecycle.{Times}
use foundry_pay.Channel.Snapshot.{is_text, read_times, validate_channel}
use foundry_pay.Channel.Conservation.{
  States, Admits, validate_channel_sound, validate_channel-Admits,
}
use foundry_pay.Channel.CloseWindow.{Window, validate_channel-Window}
use foundry_pay.Channel.Funding.{validate_funding_transition}
use foundry_pay.Channel.Funding.Effect.{Credits, funding-Credits}
use foundry_pay.Channel.Running.{running}
use foundry_pay.Channel.Sample.{
  text, object, snapshot, key_a, active_channel, topped_up_channel, closed_channel,
}

abbrev active_projection : Projection
active_projection = record {
  funded_total = 500;
  activated_total = 300;
  settled_total = 100;
  refunded_total = 50;
  vault_balance = 350;
  outstanding_right = 200;
  unallocated_capacity = 150;
}

active_channel_valid : validate_channel (obj active_channel) ≡ ok active_projection
unfolding running
active_channel_valid = refl

abbrev closed_projection : Projection
closed_projection = record {
  funded_total = 500;
  activated_total = 300;
  settled_total = 300;
  refunded_total = 200;
  vault_balance = 0;
  outstanding_right = 0;
  unallocated_capacity = 0;
}

closed_channel_valid : validate_channel (obj closed_channel) ≡ ok closed_projection
unfolding running
closed_channel_valid = refl

-- A refund above the funding.
overdrawn :
    validate_channel (obj (snapshot "active" "500" "300" "100" "501" 2 "2026-07-02T00:00:00Z" []))
    ≡ err (reject "refund_exceeds_funding" "refunded_total_base_units")
unfolding running
overdrawn = refl

-- A closed channel without its close timestamps.
closed_without_times :
    validate_channel (obj (snapshot "closed" "500" "300" "300" "200" 2 "2026-07-05T00:00:00Z" []))
    ≡ err (reject "closing_fields_required" "status")
unfolding running
closed_without_times = refl

abbrev top_up : Fields
top_up = object (
    ("type", text "channel_funding")
    ∷ ("protocol_version", text "1.0.0")
    ∷ ("funding_id", text "funding-1")
    ∷ ("channel_id", text "channel-1")
    ∷ ("channel_account", text key_a)
    ∷ ("mint", text key_a)
    ∷ ("amount_base_units", text "200")
    ∷ ("funded_total_after_base_units", text "700")
    ∷ (
      "transaction_signature",
      text "5555555555555555555555555555555555555555555555555555555555555555",
    )
    ∷ ("observed_slot", int (pos 9))
    ∷ ("observed_at", text "2026-07-02T12:00:00Z")
    ∷ [])

abbrev topped_up_projection : Projection
topped_up_projection = record active_projection {
  funded_total = 700;
  vault_balance = 550;
  unallocated_capacity = 350;
}

top_up_valid :
    validate_funding_transition (obj active_channel) (obj top_up) (obj topped_up_channel)
    ≡ ok topped_up_projection
unfolding running
top_up_valid = refl

solvent : Accounts
solvent = record {
  funded = 500;
  activated = 300;
  settled = 100;
  refunded = 50;
  policy_limit = 1000;
  sequence = 2;
}

check_accounts-IsSolvent_example : (check_accounts solvent ≡ ok tt) ↔ IsSolvent solvent
check_accounts-IsSolvent_example = check_accounts-IsSolvent solvent

validate_channel_sound_example :
    States active_channel active_projection × Conserves active_projection × (500 ≤ u64_max)
validate_channel_sound_example =
    validate_channel_sound (obj active_channel) active_projection active_channel_valid

validate_channel-Admits_example :
    (s : Status) × (t : Times) × (status_of (at (lit "status") closed_channel) ≡ ok s)
    × (read_times closed_channel ≡ ok t)
    × Admits s closed_projection t closed_channel
validate_channel-Admits_example =
    validate_channel-Admits (obj closed_channel) closed_projection closed_channel_valid

closed_channel_close : has (lit "close_requested_at") closed_channel ≡ true
unfolding running
closed_channel_close = refl

validate_channel-Window_example :
    (s : Status) × (t : Times) × (d : Option ℕ) × (w : Window closed_channel t d) × (status_of
        (at (lit "status") closed_channel)
      ≡ ok s)
    × (read_times closed_channel ≡ ok t)
    × ((is s closed ≡ false) ⊎ (instant w.deadline ≤ t.updated))
validate_channel-Window_example =
    validate_channel-Window (obj closed_channel) closed_projection closed_channel_valid
      closed_channel_close

funding-Credits_example :
    (p : Projection) × (n : ℕ) × (validate_channel (obj active_channel) ≡ ok p)
    × (validate_channel (obj topped_up_channel) ≡ ok topped_up_projection)
    × (amount (at (lit "amount_base_units") top_up) "funding.amount_base_units" ≡ ok n)
    × (0 < n)
    × Credits n p topped_up_projection
    × ((is_text (at (lit "status") active_channel) (lit "funding") ≡ true)
        ⊎ (is_text (at (lit "status") active_channel) (lit "active") ≡ true))
    × (is_text (at (lit "status") topped_up_channel) (lit "active") ≡ true)
funding-Credits_example =
    funding-Credits (obj active_channel) (obj top_up) (obj topped_up_channel) topped_up_projection
      top_up_valid

-- A state that is a list makes Python raise `TypeError` instead of a validation error.
unhashable_status : status_of (arr nil) ≡ err type_error
unfolding running
unhashable_status = refl
