-- ===== src/Voucher/Tests.antt =====
-- Runs of the voucher checks and of the ledger, and their theorems at concrete inputs.
use foundry_pay.Base.{
  ℕ, ◌^◌, value_error, ◌≡◌, refl, true, false, Option, none, some, String, Text, lit, text_eq, [],
  ◌∷◌, ok, err, reject,
}
use foundry_pay.Python.Value.{Value, Fields, int, pos, str, obj, field, end}
use foundry_pay.Python.Datetime.{Datetime}
use foundry_pay.Canonical.Json.{Host}
use foundry_pay.Channel.Sample.{text, object, key_a, key_b, hash_a, hash_zero}
use foundry_pay.Voucher.Context.{VoucherContext}
use foundry_pay.Voucher.Verify.{
  SignatureVerifier, answered, raised, VerifiedVoucher, verify_voucher,
}
use foundry_pay.Voucher.Verify.Sound.{IsVerified, verify_voucher-IsVerified}
use foundry_pay.Voucher.Table.{activation_requested, issued, Row, Ledger, find_row}
use foundry_pay.Voucher.Monotone.{Live, Ordered}
use foundry_pay.Voucher.Record.{record_issued}
use foundry_pay.Voucher.Ledger.{verify_issued, request_activation}
use foundry_pay.Voucher.Ledger.Lifecycle.{
  Moves, verify_issued-Moves, request_activation-Moves, record_issued-Moves,
}
use foundry_pay.Voucher.Ledger.Reach.{empty, start, call, issue, verify, reached-Ordered}
use foundry_pay.Voucher.Running.{running}

-- A serializer and a digest that stand in for the real ones.
abbrev host : Host
host = record {
  dumps = λ v. some (1 ∷ 2 ∷ []);
  sha256_hex = λ b. lit "aaaaaaaaaaaaaaaaaaaaaaaaaaaaaaaaaaaaaaaaaaaaaaaaaaaaaaaaaaaaaaaa";
}

abbrev accepting : SignatureVerifier
accepting key bytes signature = answered true

abbrev failing : SignatureVerifier
failing key bytes signature = raised

abbrev now : Datetime
now = record {
  year = 2026;
  month = 7;
  day = 2;
  hour = 12;
  minute = 0;
  second = 0;
  microsecond = 0;
  utc = true;
}

abbrev context : VoucherContext
context = record {
  environment = text "devnet";
  network = text "solana:devnet";
  genesis_hash = text key_a;
  program_id = text key_a;
  channel_id = text "channel-1";
  channel_account = text key_a;
  epoch = int (pos 0);
  sender = text key_a;
  recipient_claim_pubkey = text key_b;
  mint = text key_a;
  funded_total_base_units = int (pos 500);
  refunded_total_base_units = int (pos 50);
  policy_limit_base_units = int (pos 400);
  channel_expires_at = record now { month = 8 };
  latest_activated_sequence = int (pos 0);
  latest_activated_total_base_units = int (pos 0);
  latest_activated_voucher_hash = text hash_zero;
}

abbrev payload : ℕ → String → Fields
payload sequence total = object (
    ("domain", text "foundry.channels.voucher")
    ∷ ("protocol_version", text "1.0.0")
    ∷ ("environment", text "devnet")
    ∷ ("network", text "solana:devnet")
    ∷ ("genesis_hash", text key_a)
    ∷ ("program_id", text key_a)
    ∷ ("channel_id", text "channel-1")
    ∷ ("channel_account", text key_a)
    ∷ ("epoch", int (pos 0))
    ∷ ("sequence", int (pos sequence))
    ∷ ("previous_activated_voucher_hash", text hash_zero)
    ∷ ("sender", text key_a)
    ∷ ("recipient_claim_pubkey", text key_b)
    ∷ ("mint", text key_a)
    ∷ ("cumulative_authorized_base_units", text total)
    ∷ ("issued_at", text "2026-07-02T11:00:00Z")
    ∷ ("expires_at", text "2026-07-10T00:00:00Z")
    ∷ [])

abbrev voucher : ℕ → String → Value
voucher sequence total = obj (
    object (
      ("type", text "channel_voucher")
      ∷ ("protocol_version", text "1.0.0")
      ∷ ("payload", obj (payload sequence total))
      ∷ ("voucher_hash", text hash_a)
      ∷ (
        "sender_signature",
        text "5555555555555555555555555555555555555555555555555555555555555555",
      )
      ∷ []))

abbrev first_verified : VerifiedVoucher
first_verified = record {
  voucher_hash = lit hash_a;
  canonical_payload = 1 ∷ 2 ∷ [];
  sequence = 1;
  cumulative_authorized = 100;
  expires_at = record now { day = 10; hour = 0 };
}

first_is_verified :
    verify_voucher host accepting (voucher 1 "100") context now none none ≡ ok first_verified
unfolding running
first_is_verified = refl

-- A voucher beyond F - R, one beyond the policy's limit, and one whose sequence is not new.
beyond_funding :
    verify_voucher host accepting (voucher 1 "451") context now none none
    ≡ err (reject "authorization_exceeds_funding" "payload.cumulative_authorized_base_units")
unfolding running
beyond_funding = refl

beyond_policy :
    verify_voucher host accepting (voucher 1 "401") context now none none
    ≡ err (reject "authorization_exceeds_policy" "payload.cumulative_authorized_base_units")
unfolding running
beyond_policy = refl

not_new :
    verify_voucher host accepting (voucher 1 "100") context now (some 1) (some 50)
    ≡ err (reject "sequence_not_monotonic" "payload.sequence")
unfolding running
not_new = refl

-- A voucher with a lone surrogate is not inserted, and one with an integer of 4301 digits has no text.
unbindable :
    record_issued (text "first") (obj (field (lit "x") (str (0xd800 ∷ [])) end)) now empty
    ≡ (err value_error, empty)
unfolding running
unbindable = refl

too_long :
    record_issued (text "first") (obj (field (lit "x") (int (pos (10 ^ 4300))) end)) now empty
    ≡ (err (reject "invalid_json" "voucher"), empty)
unfolding running
too_long = refl

verify_voucher-IsVerified_example :
    IsVerified host accepting (voucher 1 "100") context now none none first_verified
verify_voucher-IsVerified_example =
    verify_voucher-IsVerified host accepting (voucher 1 "100") context now none none first_verified
      first_is_verified

abbrev one_issued : Ledger
one_issued = (record_issued (text "first") (voucher 1 "100") now empty).1

abbrev one_verified : Ledger
one_verified = (verify_issued host accepting (lit "first") context now one_issued).1

abbrev both_issued : Ledger
both_issued = (record_issued (text "second") (voucher 2 "150") now one_verified).1

abbrev both_verified : Ledger
both_verified = (verify_issued host accepting (lit "second") context now both_issued).1

abbrev row_of : Option Row → Row
row_of none = record {
  submission_id = [];
  voucher = Value.null;
  state = issued;
  voucher_hash = none;
  domain_key = none;
  channel_id = none;
  epoch = none;
  sequence = none;
  cumulative_total = none;
  expires_at = none;
  error_code = none;
  created_at = [];
  updated_at = [];
}
row_of (some r) = r

abbrev first_row : Row
first_row = row_of (find_row (lit "first") both_verified.rows)

abbrev second_row : Row
second_row = row_of (find_row (lit "second") both_verified.rows)

abbrev domain : Text
domain = lit "aaaaaaaaaaaaaaaaaaaaaaaaaaaaaaaaaaaaaaaaaaaaaaaaaaaaaaaaaaaaaaaa"

first_found : find_row (lit "first") both_verified.rows ≡ some first_row
unfolding running
first_found = refl

second_found : find_row (lit "second") both_verified.rows ≡ some second_row
unfolding running
second_found = refl

first_second : text_eq (lit "second") (lit "first") ≡ false
unfolding running
first_second = refl

first_Live : Live first_row domain 1 100
unfolding running
first_Live = record { live = refl; domain = refl; numbered = refl; totalled = refl }

second_Live : Live second_row domain 2 150
unfolding running
second_Live = record { live = refl; domain = refl; numbered = refl; totalled = refl }

reached-Ordered_example : Ordered 1 100 2 150
reached-Ordered_example =
    reached-Ordered host both_verified
      (call
        (call
          (call (call start (issue (text "first") (voucher 1 "100") now empty))
            (verify accepting (lit "first") context now one_issued))
          (issue (text "second") (voucher 2 "150") now one_verified))
        (verify accepting (lit "second") context now both_issued))
      (lit "first") (lit "second") domain first_row second_row 1 100 2 150 first_found second_found
      first_second first_Live second_Live

record_issued-Moves_example :
    Moves one_verified (record_issued (text "second") (voucher 2 "150") now one_verified)
record_issued-Moves_example = record_issued-Moves (text "second") (voucher 2 "150") now one_verified

verify_issued-Moves_example :
    Moves both_issued (verify_issued host failing (lit "second") context now both_issued)
verify_issued-Moves_example =
    verify_issued-Moves host failing (lit "second") context now both_issued

request_activation-Moves_example :
    Moves both_verified (request_activation host accepting (lit "first") context now both_verified)
request_activation-Moves_example =
    request_activation-Moves host accepting (lit "first") context now both_verified

-- A verifier that fails leaves the submission issued.
failing_stays :
    (row_of (
      find_row
        (lit "second")
        (verify_issued host failing (lit "second") context now both_issued).1.rows)).state
    ≡ issued
unfolding running
failing_stays = refl

activation_runs :
    (row_of (
      find_row
        (lit "first")
        (request_activation host accepting (lit "first") context now both_verified).1.rows)).state
    ≡ activation_requested
unfolding running
activation_runs = refl
