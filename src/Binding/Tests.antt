-- ===== src/Binding/Tests.antt =====
-- Runs of the recipient binding, and its theorems at concrete inputs.
use foundry_pay.Base.{
  ℕ, ◌+◌, ◌≡◌, refl, true, Option, some, String, Text, lit, [], ◌∷◌, ◌++◌, length, Result, ok, err,
  Failure, List,
}
use foundry_pay.Python.Value.{Value, Fields, int, pos, str, obj, at}
use foundry_pay.Python.Datetime.{Datetime}
use foundry_pay.Canonical.Json.{Host}
use foundry_pay.Channel.Sample.{text, object, key_a, key_b, wallet, hash_a}
use foundry_pay.Voucher.Verify.{SignatureVerifier, answered}
use foundry_pay.Voucher.Running.{running}
use foundry_pay.Channel.Running.{running as channel_running}
use foundry_pay.Binding.Checks as Checks
use foundry_pay.Binding.Checks.{same_type, check_match, check_matches, check_member, clock}
use foundry_pay.Binding.Context.{
  RecipientBindingContext, validate_binding_context, binding_domain, recipient_binding_domain_hash,
  claim_attributes, payload_attributes,
}
use foundry_pay.Binding.Claim.{
  claim_fields, claim_states, bindable_claim_states, check_claim_fields, check_claim_window,
  validate_channel_claim,
}
use foundry_pay.Binding.Payload.{
  binding_fields, binding_payload_fields, check_payload_fields, check_binding_window,
  canonical_recipient_binding_payload,
}
use foundry_pay.Binding.Verify.{
  VerifiedRecipientBinding, check_signature, open_binding, verify_recipient_binding,
}
use foundry_pay.Binding.Verify.Sound.{IsBound, verify_recipient_binding-IsBound}
use foundry_pay.Binding.Ledger.{
  Bindings, find_domain, has_hash, record_binding, verify_and_record, get_binding,
}
use foundry_pay.Binding.Ledger.Single.{
  IsUnique, begin, then_call, recording, reached-IsUnique, bound_once,
}

unfoldable binding_running : Unit {0}
unfolding running channel_running Checks.closed_object Checks.literal Checks.identifier
    Checks.pubkey Checks.hash Checks.signature Checks.integer Checks.amount Checks.timestamp clock
    same_type check_match check_matches check_member validate_binding_context binding_domain
    recipient_binding_domain_hash claim_attributes payload_attributes claim_fields claim_states
    bindable_claim_states check_claim_fields check_claim_window validate_channel_claim
    binding_fields binding_payload_fields check_payload_fields check_binding_window
    canonical_recipient_binding_payload check_signature open_binding verify_recipient_binding
    find_domain has_hash record_binding verify_and_record get_binding
binding_running = tt

abbrev size_of : Value → ℕ
size_of (str s) = length s
size_of v = 0

-- The length of an object's claim identifier stands for its bytes.
abbrev serialize : Value → Option (List ℕ)
serialize (obj m) = some (size_of (at (lit "claim_id") m) ∷ [])
serialize v = some []

-- Sixty-three fixed digits of a hash, and one that tells two bytes apart.
abbrev digest : List ℕ → Text
digest [] = lit "aaaaaaaaaaaaaaaaaaaaaaaaaaaaaaaaaaaaaaaaaaaaaaaaaaaaaaaaaaaaaaaa"
digest (n ∷ bytes) =
    lit "aaaaaaaaaaaaaaaaaaaaaaaaaaaaaaaaaaaaaaaaaaaaaaaaaaaaaaaaaaaaaaa" ++ ((40 + n) ∷ [])

abbrev host : Host
host = record { dumps = serialize; sha256_hex = digest }

abbrev accepting : SignatureVerifier
accepting key bytes signature = answered true

abbrev now : Datetime
now = record {
  year = 2026;
  month = 7;
  day = 2;
  hour = 12;
  minute = 0;
  second = 0;
  microsecond = 0;
  utc = true;
}

abbrev context : String → RecipientBindingContext
context claim_id = record {
  environment = text "devnet";
  network = text "solana:devnet";
  genesis_hash = text key_a;
  program_id = text key_a;
  channel_id = text "channel-1";
  channel_account = text key_a;
  epoch = int (pos 0);
  claim_id = text claim_id;
  claim_pubkey = text key_b;
  voucher_hash = text hash_a;
  mint = text key_a;
}

abbrev claim : String → Value
claim claim_id = obj (
    object (
      ("type", text "channel_claim")
      ∷ ("protocol_version", text "1.0.0")
      ∷ ("claim_id", text claim_id)
      ∷ ("channel_id", text "channel-1")
      ∷ ("channel_account", text key_a)
      ∷ ("epoch", int (pos 0))
      ∷ ("locator_hash", text hash_a)
      ∷ ("claim_pubkey", text key_b)
      ∷ ("voucher_hash", text hash_a)
      ∷ ("cumulative_authorized_base_units", text "100")
      ∷ ("state", text "opened")
      ∷ ("created_at", text "2026-07-01T00:00:00Z")
      ∷ ("expires_at", text "2026-07-10T00:00:00Z")
      ∷ []))

abbrev payload : String → Fields
payload claim_id = object (
    ("domain", text "foundry.channels.recipient-binding")
    ∷ ("protocol_version", text "1.0.0")
    ∷ ("environment", text "devnet")
    ∷ ("network", text "solana:devnet")
    ∷ ("genesis_hash", text key_a)
    ∷ ("program_id", text key_a)
    ∷ ("channel_id", text "channel-1")
    ∷ ("channel_account", text key_a)
    ∷ ("epoch", int (pos 0))
    ∷ ("claim_id", text claim_id)
    ∷ ("claim_pubkey", text key_b)
    ∷ ("voucher_hash", text hash_a)
    ∷ ("mint", text key_a)
    ∷ ("binding_mode", text "initial")
    ∷ ("destination_wallet", text wallet)
    ∷ ("binding_nonce", int (pos 1))
    ∷ ("issued_at", text "2026-07-02T11:00:00Z")
    ∷ ("expires_at", text "2026-07-09T00:00:00Z")
    ∷ [])

abbrev binding : String → String → Value
binding claim_id digit = obj (
    object (
      ("type", text "recipient_binding")
      ∷ ("protocol_version", text "1.0.0")
      ∷ ("payload", obj (payload claim_id))
      ∷ (
        "binding_hash",
        str (
            lit "sha256:aaaaaaaaaaaaaaaaaaaaaaaaaaaaaaaaaaaaaaaaaaaaaaaaaaaaaaaaaaaaaaa"
            ++ lit digit),
      )
      ∷ (
        "claim_key_signature",
        text "5555555555555555555555555555555555555555555555555555555555555555",
      )
      ∷ (
        "destination_wallet_signature",
        text "5555555555555555555555555555555555555555555555555555555555555555",
      )
      ∷ []))

-- The first identifier has eight characters and the second nine: their digits are `0` and `1`.
abbrev record_first : Bindings → Result VerifiedRecipientBinding × Bindings
record_first =
    verify_and_record host (claim "claim-01") (binding "claim-01" "0") (context "claim-01")
      accepting (some now)

abbrev record_second : Bindings → Result VerifiedRecipientBinding × Bindings
record_second =
    verify_and_record host (claim "claim-002") (binding "claim-002" "1") (context "claim-002")
      accepting (some now)

abbrev first : VerifiedRecipientBinding
first = record {
  journal_domain_hash =
      lit "sha256:aaaaaaaaaaaaaaaaaaaaaaaaaaaaaaaaaaaaaaaaaaaaaaaaaaaaaaaaaaaaaaa0";
  authority = context "claim-01";
  destination_wallet = text wallet;
  binding_nonce = int (pos 1);
  binding_hash = lit "sha256:aaaaaaaaaaaaaaaaaaaaaaaaaaaaaaaaaaaaaaaaaaaaaaaaaaaaaaaaaaaaaaa0";
  verified_at = lit "2026-07-02T12:00:00Z";
}

first_is_verified :
    verify_recipient_binding host
      (claim "claim-01")
      (binding "claim-01" "0")
      (context "claim-01")
      accepting
      (some now)
    ≡ ok first
unfolding binding_running
first_is_verified = refl

first_is_recorded : record_first [] ≡ (ok first, first ∷ [])
unfolding binding_running
first_is_recorded = refl

both_recorded : length (record_second (record_first []).1).1 ≡ 2
unfolding binding_running
both_recorded = refl

verify_recipient_binding-IsBound_example :
    IsBound host
      (claim "claim-01")
      (binding "claim-01" "0")
      (context "claim-01")
      accepting
      (some now)
      first
verify_recipient_binding-IsBound_example =
    verify_recipient_binding-IsBound host (claim "claim-01") (binding "claim-01" "0")
      (context "claim-01") accepting (some now) first first_is_verified

reached-IsUnique_example : IsUnique (record_second (record_first []).1).1
reached-IsUnique_example = reached-IsUnique host (record_second (record_first []).1).1 (
    then_call
      (then_call begin (
        recording (claim "claim-01") (binding "claim-01" "0") (context "claim-01") accepting
          (some now) []))
      (recording (claim "claim-002") (binding "claim-002" "1") (context "claim-002") accepting
        (some now) (record_first []).1))

bound_once_example :
    (get_binding host (context "claim-01") (record_second (first ∷ [])).1 ≡ ok (some first))
    × ((e : Failure) × (record_first (record_second (first ∷ [])).1
          ≡ (err e, (record_second (first ∷ [])).1)))
bound_once_example =
    bound_once host (claim "claim-01") (binding "claim-01" "0") (context "claim-01") accepting
      (some now) [] first (first ∷ []) first_is_recorded (record_second (first ∷ [])).1
      (then_call begin (
        recording (claim "claim-002") (binding "claim-002" "1") (context "claim-002") accepting
          (some now) (first ∷ [])))
      (claim "claim-01") (binding "claim-01" "0") accepting (some now)
