-- ===== src/Binding/Verify/Sound.antt =====
-- What `verify_recipient_binding` has checked of a binding that it accepts.
use foundry_pay.Base.{
  ℕ, ◌≡◌, true, arith, lit, Text, List, All, ok, subst⁻¹, ap, ◌∙◌, Option, some, sym, text_eq,
  text_eq→eq,
}
use foundry_pay.Python.Value.{Value, Fields, obj, at}
use foundry_pay.Python.Datetime.{Datetime, strftime}
use foundry_pay.Canonical.Json.{Host, canonical_json_bytes, sha256_raw_bytes}
use foundry_pay.Canonical.Record.{members}
use foundry_pay.Voucher.Verify.{answered, SignatureVerifier}
use foundry_pay.Binding.Checks.{closed_object, literal, hash, signature, clock, check_matches}
use foundry_pay.Binding.Context.{
  RecipientBindingContext, payload_attributes, canonical_or, recipient_binding_domain_hash,
}
use foundry_pay.Binding.Claim.{validate_channel_claim}
use foundry_pay.Binding.Payload.{
  binding_fields, binding_payload_fields, check_payload_fields, check_binding_window,
  canonical_recipient_binding_payload,
}
use foundry_pay.Binding.Verify.{
  VerifiedRecipientBinding, SignedBinding, check_signature, open_binding, verify_recipient_binding,
}
use foundry_pay.Binding.Verify.Agreement.{
  Agrees, matches-All, InTime, window-InTime, clock-some, check_signature-answered, Claims,
  validate_channel_claim-Claims, closed-members, canonical_or-ok, claim-members,
}

module _ (h : Host) where
  record PayloadSteps (v : Value) (c : Fields) (now : Option Datetime) (bytes : List ℕ)
      : Type 0 where
    binding : Fields
    payload : Fields
    closed : closed_object v "binding" binding_fields ≡ ok binding
    opened :
        closed_object (at (lit "payload") binding) "binding.payload" binding_payload_fields
        ≡ ok payload
    typed : literal (at (lit "type") binding) "recipient_binding" "binding.type" ≡ ok tt
    versioned :
        literal (at (lit "protocol_version") binding) "1.0.0" "binding.protocol_version" ≡ ok tt
    checked : check_payload_fields payload ≡ ok tt
    windowed : check_binding_window c payload now ≡ ok tt
    serialized : canonical_or "binding.payload" (canonical_json_bytes h (obj payload)) ≡ ok bytes

  payload-Steps :
      (v : Value) (c : Fields) (now : Option Datetime) (bytes : List ℕ)
      → canonical_recipient_binding_payload h v c now ≡ ok bytes
      → PayloadSteps v c now bytes
  unfolding canonical_recipient_binding_payload
  payload-Steps v c now bytes q = ground arith

  record OpenSteps (claim_value binding_value : Value) (x : RecipientBindingContext)
      (now : Option Datetime) (s : SignedBinding) : Type 0 where
    claim : Fields
    binding : Fields
    claimed : validate_channel_claim claim_value x now ≡ ok claim
    formed : closed_object binding_value "binding" binding_fields ≡ ok binding
    payload_bytes : canonical_recipient_binding_payload h (obj binding) claim now ≡ ok s.bytes
    same_payload : s.payload ≡ members (at (lit "payload") binding)
    supplied : Text
    stated : hash (at (lit "binding_hash") binding) "binding.binding_hash" ≡ ok supplied
    compared : text_eq supplied (sha256_raw_bytes h s.bytes) ≡ true
    attributed : check_matches "binding.payload." (payload_attributes x) s.payload ≡ ok tt
    claim_given :
        signature (at (lit "claim_key_signature") binding) "binding.claim_key_signature"
        ≡ ok s.claim_signature
    wallet_given :
        signature
          (at (lit "destination_wallet_signature") binding)
          "binding.destination_wallet_signature"
        ≡ ok s.wallet_signature

  open-Steps :
      (claim_value binding_value : Value) (x : RecipientBindingContext) (now : Option Datetime)
      (s : SignedBinding)
      → open_binding h claim_value binding_value x now ≡ ok s
      → OpenSteps claim_value binding_value x now s
  unfolding open_binding
  open-Steps claim_value binding_value x now s q = ground arith

  record VerifySteps (claim_value binding_value : Value) (x : RecipientBindingContext)
      (verifier : SignatureVerifier) (now : Option Datetime) (r : VerifiedRecipientBinding)
      : Type 0 where
    signed : SignedBinding
    opened : open_binding h claim_value binding_value x now ≡ ok signed
    by_claim :
        check_signature
          (verifier x.claim_pubkey signed.bytes signed.claim_signature)
          "invalid_claim_signature"
          "binding.claim_key_signature"
        ≡ ok tt
    by_wallet :
        check_signature
          (verifier r.destination_wallet signed.bytes signed.wallet_signature)
          "invalid_destination_signature"
          "binding.destination_wallet_signature"
        ≡ ok tt
    wallet : r.destination_wallet ≡ at (lit "destination_wallet") signed.payload
    nonce : r.binding_nonce ≡ at (lit "binding_nonce") signed.payload
    hashed : r.binding_hash ≡ sha256_raw_bytes h signed.bytes
    domain : recipient_binding_domain_hash h x ≡ ok r.journal_domain_hash
    copied : r.authority ≡ x
    current : Datetime
    timed : clock now ≡ ok current
    dated : r.verified_at ≡ strftime current

  verify-Steps :
      (claim_value binding_value : Value) (x : RecipientBindingContext)
      (verifier : SignatureVerifier) (now : Option Datetime) (r : VerifiedRecipientBinding)
      → verify_recipient_binding h claim_value binding_value x verifier now ≡ ok r
      → VerifySteps claim_value binding_value x verifier now r
  unfolding verify_recipient_binding
  verify-Steps claim_value binding_value x verifier now r q = ground arith

  -- What an accepted binding guarantees.
  pub record IsBound (claim_value binding_value : Value) (x : RecipientBindingContext)
      (verifier : SignatureVerifier) (now : Option Datetime) (r : VerifiedRecipientBinding)
      : Type 0 where
    pub claim : Fields
    pub binding : Fields
    pub payload : Fields
    pub bytes : List ℕ
    pub claim_signature : Text
    pub wallet_signature : Text
    pub claimed : validate_channel_claim claim_value x now ≡ ok claim
    pub claims_members : members claim_value ≡ claim
    pub formed : closed_object binding_value "binding" binding_fields ≡ ok binding
    pub typed : literal (at (lit "type") binding) "recipient_binding" "binding.type" ≡ ok tt
    pub versioned :
        literal (at (lit "protocol_version") binding) "1.0.0" "binding.protocol_version" ≡ ok tt
    pub opened :
        closed_object (at (lit "payload") binding) "binding.payload" binding_payload_fields
        ≡ ok payload
    pub stated : hash (at (lit "binding_hash") binding) "binding.binding_hash" ≡ ok r.binding_hash
    pub claim_given :
        signature (at (lit "claim_key_signature") binding) "binding.claim_key_signature"
        ≡ ok claim_signature
    pub wallet_given :
        signature
          (at (lit "destination_wallet_signature") binding)
          "binding.destination_wallet_signature"
        ≡ ok wallet_signature
    pub checked : check_payload_fields payload ≡ ok tt
    pub claims : Claims x claim
    pub named : All (Agrees payload) (payload_attributes x)
    pub in_time : InTime claim payload now
    pub serialized : canonical_json_bytes h (obj payload) ≡ ok bytes
    pub hashed : r.binding_hash ≡ sha256_raw_bytes h bytes
    pub wallet : r.destination_wallet ≡ at (lit "destination_wallet") payload
    pub nonce : r.binding_nonce ≡ at (lit "binding_nonce") payload
    pub by_claim_key : verifier x.claim_pubkey bytes claim_signature ≡ answered true
    pub by_wallet : verifier r.destination_wallet bytes wallet_signature ≡ answered true
    pub scoped : recipient_binding_domain_hash h x ≡ ok r.journal_domain_hash
    pub copied : r.authority ≡ x
    pub current : Datetime
    pub timed : now ≡ some current
    pub dated : r.verified_at ≡ strftime current

  -- An accepted binding comes with a claim that is valid against the context at the clock: the claim
  -- names the context's channel, in a state that accepts a binding. The binding's payload agrees with
  -- the context in all eleven attributes, and its window holds the clock and lies in the claim's. The
  -- recorded wallet and nonce are the payload's, the recorded hash is that of the payload's canonical
  -- bytes and the one that the binding states. The verifier accepted the binding's claim key signature
  -- under the context's claim key, and its destination wallet signature under that wallet, both on
  -- these same bytes; and the recorded time is the clock.
  pub verify_recipient_binding-IsBound :
      (claim_value binding_value : Value) (x : RecipientBindingContext)
      (verifier : SignatureVerifier) (now : Option Datetime) (r : VerifiedRecipientBinding)
      → verify_recipient_binding h claim_value binding_value x verifier now ≡ ok r
      → IsBound claim_value binding_value x verifier now r
  verify_recipient_binding-IsBound claim_value binding_value x verifier now r q =
      let v = verify-Steps claim_value binding_value x verifier now r q in
      let o = open-Steps claim_value binding_value x now v.signed v.opened in
      let p = payload-Steps (obj o.binding) o.claim now v.signed.bytes o.payload_bytes in
      let again = closed-members (obj o.binding) _ _ p.binding p.closed in
      let same =
        o.same_payload
        ∙ ap (λ b. members (at (lit "payload") b)) again
        ∙ closed-members (at (lit "payload") p.binding) _ _ _ p.opened in
      record {
        claim = o.claim;
        binding = o.binding;
        payload = v.signed.payload;
        bytes = v.signed.bytes;
        claim_signature = v.signed.claim_signature;
        wallet_signature = v.signed.wallet_signature;
        claimed = o.claimed;
        claims_members = claim-members claim_value x now o.claim o.claimed;
        formed = o.formed;
        typed =
            subst⁻¹ (λ b. literal (at (lit "type") b) "recipient_binding" "binding.type" ≡ ok tt)
              again p.typed;
        versioned =
            subst⁻¹
              (λ b.
                literal (at (lit "protocol_version") b) "1.0.0" "binding.protocol_version" ≡ ok tt)
              again p.versioned;
        checked = subst⁻¹ (λ m. check_payload_fields m ≡ ok tt) same p.checked;
        current = v.current;
        timed = clock-some now v.current v.timed;
        dated = v.dated;
        opened =
            subst⁻¹
              (λ m.
                closed_object (at (lit "payload") o.binding) "binding.payload"
                  binding_payload_fields
                ≡ ok m)
              same
              (subst⁻¹
                (λ b.
                  closed_object (at (lit "payload") b) "binding.payload" binding_payload_fields
                  ≡ ok p.payload)
                again p.opened);
        stated = o.stated ∙ ap ok (text_eq→eq o.supplied _ o.compared ∙ sym v.hashed);
        claim_given = o.claim_given;
        wallet_given = o.wallet_given;
        claims = validate_channel_claim-Claims claim_value x now o.claim o.claimed;
        named = matches-All "binding.payload." (payload_attributes x) v.signed.payload o.attributed;
        in_time =
            subst⁻¹ (λ m. InTime o.claim m now) same
              (window-InTime o.claim p.payload now p.windowed);
        serialized =
            subst⁻¹ (λ m. canonical_json_bytes h (obj m) ≡ ok v.signed.bytes) same
              (canonical_or-ok "binding.payload" _ v.signed.bytes p.serialized);
        hashed = v.hashed;
        wallet = v.wallet;
        nonce = v.nonce;
        by_claim_key = check_signature-answered _ _ _ v.by_claim;
        by_wallet = check_signature-answered _ _ _ v.by_wallet;
        scoped = v.domain;
        copied = v.copied;
      }
