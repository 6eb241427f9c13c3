-- ===== src/Binding/Verify.antt =====
-- `verify_recipient_binding`: two signatures over the same bytes.
pub mod Sound
pub mod Agreement
use foundry_pay.Base.{
  ℕ, Bool, true, false, not, List, [], ◌∷◌, lit, String, Text, text_eq, Option, Result, ok, err,
  reject, ◌>>=◌, ◌>>◌, reject_if,
}
use foundry_pay.Python.Value.{Value, Fields, obj, at}
use foundry_pay.Python.Datetime.{Datetime, strftime}
use foundry_pay.Canonical.Json.{Host, sha256_raw_bytes}
use foundry_pay.Canonical.Record.{members}
use foundry_pay.Voucher.Verify.{Verdict, raised, answered, SignatureVerifier}
use foundry_pay.Binding.Checks.{closed_object, hash, signature, clock, check_matches}
use foundry_pay.Binding.Context.{
  RecipientBindingContext, payload_attributes, recipient_binding_domain_hash,
}
use foundry_pay.Binding.Claim.{validate_channel_claim}
use foundry_pay.Binding.Payload.{binding_fields, canonical_recipient_binding_payload}

-- `VerifiedRecipientBinding`, whose state is always `verified`; the fields that it copies from the
-- context are in `authority`.
pub record VerifiedRecipientBinding : Type 0 where
  pub journal_domain_hash : Text
  pub authority : RecipientBindingContext
  pub destination_wallet : Value
  pub binding_nonce : Value
  pub binding_hash : Text
  pub verified_at : Text

-- The two calls of the verifier differ in the field and in the code of a rejection.
unfoldable pub check_signature : Verdict → String → String → Result (Unit {0})
check_signature raised code field = err (reject "signature_verifier_failed" field)
check_signature (answered valid) code field = reject_if (not valid) code field

-- A binding whose bytes, hash and fields are in order, with its two signatures.
pub record SignedBinding : Type 0 where
  pub payload : Fields
  pub bytes : List ℕ
  pub claim_signature : Text
  pub wallet_signature : Text

module _ (h : Host) where
  -- Everything before the verifier is called.
  unfoldable pub open_binding :
      Value → Value → RecipientBindingContext → Option Datetime → Result SignedBinding
  open_binding claim_value binding_value x now = do
    c ← validate_channel_claim claim_value x now
    b ← closed_object binding_value "binding" binding_fields
    bytes ← canonical_recipient_binding_payload h (obj b) c now
    let expected = sha256_raw_bytes h bytes
    supplied ← hash (at (lit "binding_hash") b) "binding.binding_hash"
    reject_if (not (text_eq supplied expected)) "binding_hash_mismatch" "binding.binding_hash"
    let p = members (at (lit "payload") b)
    check_matches "binding.payload." (payload_attributes x) p
    claim_signature ← signature (at (lit "claim_key_signature") b) "binding.claim_key_signature"
    wallet_signature ←
        signature (at (lit "destination_wallet_signature") b) "binding.destination_wallet_signature"
    ok (record {
      payload = p;
      bytes = bytes;
      claim_signature = claim_signature;
      wallet_signature = wallet_signature;
    })

  unfoldable pub verify_recipient_binding :
      Value
      → Value
      → RecipientBindingContext
      → SignatureVerifier
      → Option Datetime
      → Result VerifiedRecipientBinding
  verify_recipient_binding claim_value binding_value x verifier now = do
    s ← open_binding claim_value binding_value x now
    check_signature (verifier x.claim_pubkey s.bytes s.claim_signature) "invalid_claim_signature"
        "binding.claim_key_signature"
    check_signature (verifier (at (lit "destination_wallet") s.payload) s.bytes s.wallet_signature)
        "invalid_destination_signature" "binding.destination_wallet_signature"
    current ← clock now
    domain ← recipient_binding_domain_hash h x
    ok (record {
      journal_domain_hash = domain;
      authority = x;
      destination_wallet = at (lit "destination_wallet") s.payload;
      binding_nonce = at (lit "binding_nonce") s.payload;
      binding_hash = sha256_raw_bytes h s.bytes;
      verified_at = strftime current;
    })
