-- ===== src/Signer/Tests.antt =====
-- Runs of the signer's journal, and its theorems at concrete tables.
use foundry_pay.Base.{
  ◌≡◌, refl, true, none, some, List, [], ◌∷◌, ℕ, lit, Text, is_encodable, text_eq,
}
use foundry_pay.Python.Datetime.{Datetime, strftime}
use foundry_pay.Signer.Journal.{
  SignerError, failed, answer, signer_invalid, signer_replay, signer_needs_recovery, Operation,
  Claim, same_inputs, lookup, insert, claim, while_signing, finish_found, complete,
  mark_needs_recovery, Reply, broken, interrupted, interruption, is_writable, envelope_text,
  receipt_of, give_up, record_signature, on_reply, sign_checked,
}
use foundry_pay.Signer.Journal.Single.{here, next, marking, claim_once}
use foundry_pay.Signer.Journal.Settled.{IsPlain, Settles, sign_checked-Settles}
use foundry_pay.Python.Json.{is_short, has_short_ints, is_bindable}

unfoldable running : Unit {0}
unfolding lit is_encodable is_short has_short_ints is_bindable is_writable text_eq strftime lookup
    same_inputs insert claim while_signing finish_found complete mark_needs_recovery receipt_of
    give_up record_signature on_reply sign_checked
running = tt

abbrev noon : Datetime
noon = record {
  year = 2026;
  month = 7;
  day = 2;
  hour = 12;
  minute = 0;
  second = 0;
  microsecond = 0;
  utc = true;
}

abbrev request : Claim
request = record {
  key = lit "auth-1";
  execution = lit "request-1";
  digest = lit "digest-1";
  by = lit "signer-1";
}

abbrev other_message : Claim
other_message = record request { digest = lit "digest-2" }

-- A provider that signs a message of one byte and raises on every other one.
abbrev provider : List ℕ → Text → Reply
provider (b ∷ []) by = envelope_text (lit "envelope")
provider m by = broken

abbrev claimed : List Operation
claimed = (claim request (some noon) []).1

abbrev signed_table : List Operation
signed_table = (sign_checked provider request (lit "commitment") (7 ∷ []) noon []).1

nothing_claimed : lookup (lit "auth-1") [] ≡ none
unfolding running
nothing_claimed = refl

signed_receipt :
    (sign_checked provider request (lit "commitment") (7 ∷ []) noon []).0
    ≡ answer (receipt_of request (lit "commitment") (lit "envelope") (lit "2026-07-02T12:00:00Z"))
unfolding running
signed_receipt = refl

-- A second signature, a claim while signing and a claim of another message are refused.
signed_again :
    sign_checked provider request (lit "commitment") (7 ∷ []) noon signed_table
    ≡ (failed signer_replay, signed_table)
unfolding running
signed_again = refl

claimed_again : claim request (some noon) claimed ≡ (failed signer_needs_recovery, claimed)
unfolding running
claimed_again = refl

claimed_otherwise : claim other_message (some noon) claimed ≡ (failed signer_invalid, claimed)
unfolding running
claimed_otherwise = refl

claim_once_example :
    (x : SignerError) × (claim other_message
        (some noon)
        (mark_needs_recovery (lit "auth-1") claimed)
      ≡ (failed x, mark_needs_recovery (lit "auth-1") claimed))
claim_once_example =
    claim_once request noon [] nothing_claimed (mark_needs_recovery (lit "auth-1") claimed)
      (next here (marking (lit "auth-1") claimed)) other_message refl (some noon)

request_IsPlain : IsPlain request (lit "commitment") noon
unfolding running
request_IsPlain = refl

-- A provider whose envelope has a lone surrogate, and one that is interrupted.
abbrev surrogate : List ℕ → Text → Reply
surrogate m by = envelope_text (0xd800 ∷ [])

abbrev stopped : List ℕ → Text → Reply
stopped m by = interrupted

surrogate_needs_recovery :
    sign_checked surrogate request (lit "commitment") (7 ∷ []) noon []
    ≡ (failed signer_needs_recovery, mark_needs_recovery (lit "auth-1") claimed)
unfolding running
surrogate_needs_recovery = refl

stopped_while_signing :
    sign_checked stopped request (lit "commitment") (7 ∷ []) noon []
    ≡ (failed interruption, claimed)
unfolding running
stopped_while_signing = refl

sign_checked-Settles_example :
    Settles request
      (lit "commitment")
      noon
      (envelope_text (lit "envelope"))
      (sign_checked provider request (lit "commitment") (7 ∷ []) noon [])
sign_checked-Settles_example =
    sign_checked-Settles request (lit "commitment") noon provider (7 ∷ []) [] request_IsPlain
      nothing_claimed
