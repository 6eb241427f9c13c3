-- ===== src/Voucher/Verify/Sound.antt =====
-- What an accepted voucher guarantees.
use foundry_pay.Base.{
  ℕ, ◌≤◌, ◌<◌, ◌≡◌, true, Option, arith, lit, Text, ok, sym, ap, ◌∙◌, text_eq, text_eq→eq,
}
use foundry_pay.Python.Value.{Value, Fields, obj, at}
use foundry_pay.Python.Datetime.{Datetime, instant}
use foundry_pay.Canonical.Json.{Host, sha256_raw_bytes}
use foundry_pay.Python.Pattern.{is_hash, is_signature}
use foundry_pay.Voucher.Checks.{closed_object, literal, integer, string, amount, timestamp, utc}
use foundry_pay.Voucher.Payload.{payload_fields, canonical_voucher_payload}
use foundry_pay.Voucher.Context.{VoucherContext, Limits, validate_context}
use foundry_pay.Voucher.Verify.{
  Verdict, answered, SignatureVerifier, VerifiedVoucher, Envelope, check_context, check_progress,
  check_validity, check_verdict, open_envelope, verify_voucher, voucher_fields,
}
use foundry_pay.Voucher.Verify.Progress.{
  validate_context-IsConsistent, IsBound, check_context-IsBound, Progresses,
  check_progress-Progresses, validity,
}

check_verdict-answered : (v : Verdict) → check_verdict v ≡ ok tt → v ≡ answered true
unfolding check_verdict
check_verdict-answered v h = ground arith

module _ (h : Host) where
  record Opens (v : Value) (e : Envelope) : Type 0 where
    members : Fields
    supplied : Text
    formed : closed_object v "voucher" voucher_fields ≡ ok members
    typed : literal (at (lit "type") members) "channel_voucher" "voucher.type" ≡ ok tt
    versioned :
        literal (at (lit "protocol_version") members) "1.0.0" "voucher.protocol_version" ≡ ok tt
    opened : closed_object (at (lit "payload") members) "payload" payload_fields ≡ ok e.payload
    given : string (at (lit "voucher_hash") members) "voucher.voucher_hash" is_hash ≡ ok supplied
    compared : text_eq supplied e.hash ≡ true
    witnessed :
        string (at (lit "sender_signature") members) "voucher.sender_signature" is_signature
        ≡ ok e.signature
    serialized : canonical_voucher_payload h (obj e.payload) ≡ ok e.bytes
    hashed : e.hash ≡ sha256_raw_bytes h e.bytes

  open_envelope-Opens : (v : Value) (e : Envelope) → open_envelope h v ≡ ok e → Opens v e
  unfolding open_envelope
  open_envelope-Opens v e q = ground arith

  -- The steps that an accepted voucher has passed.
  record Passes (verifier : SignatureVerifier) (v : Value) (x : VoucherContext) (now : Datetime)
      (s t : Option ℕ) (r : VerifiedVoucher) : Type 0 where
    limits : Limits
    envelope : Envelope
    issued : Datetime
    valid : validate_context x ≡ ok limits
    opened : open_envelope h v ≡ ok envelope
    dated : timestamp (at (lit "issued_at") envelope.payload) "payload.issued_at" ≡ ok issued
    bound : check_context x envelope.payload ≡ ok tt
    numbered : integer (at (lit "sequence") envelope.payload) "payload.sequence" 1 ≡ ok r.sequence
    totalled :
        amount
          (at (lit "cumulative_authorized_base_units") envelope.payload)
          "payload.cumulative_authorized_base_units"
        ≡ ok r.cumulative_authorized
    expiring :
        timestamp (at (lit "expires_at") envelope.payload) "payload.expires_at" ≡ ok r.expires_at
    hashed : r.voucher_hash ≡ envelope.hash
    serialized : r.canonical_payload ≡ envelope.bytes
    progress : check_progress limits s t r.sequence r.cumulative_authorized ≡ ok tt
    live :
        check_validity
          (instant issued)
          (instant r.expires_at)
          (instant now)
          (instant x.channel_expires_at)
        ≡ ok tt
    signed : check_verdict (verifier x.sender envelope.bytes envelope.signature) ≡ ok tt

  verify_voucher-Passes :
      (verifier : SignatureVerifier) (v : Value) (x : VoucherContext) (now : Datetime)
      (s t : Option ℕ) (r : VerifiedVoucher)
      → verify_voucher h verifier v x now s t ≡ ok r
      → Passes verifier v x now s t r
  unfolding verify_voucher utc
  verify_voucher-Passes verifier v x now s t r q = ground arith

  -- What the verification of a voucher promises of its result.
  pub record IsVerified (verifier : SignatureVerifier) (v : Value) (x : VoucherContext)
      (now : Datetime) (s t : Option ℕ) (r : VerifiedVoucher) : Type 0 where
    pub limits : Limits
    pub members : Fields
    pub payload : Fields
    pub signature : Text
    pub issued : Datetime
    pub formed : closed_object v "voucher" voucher_fields ≡ ok members
    pub typed : literal (at (lit "type") members) "channel_voucher" "voucher.type" ≡ ok tt
    pub versioned :
        literal (at (lit "protocol_version") members) "1.0.0" "voucher.protocol_version" ≡ ok tt
    pub opened : closed_object (at (lit "payload") members) "payload" payload_fields ≡ ok payload
    pub given :
        string (at (lit "voucher_hash") members) "voucher.voucher_hash" is_hash ≡ ok r.voucher_hash
    pub witnessed :
        string (at (lit "sender_signature") members) "voucher.sender_signature" is_signature
        ≡ ok signature
    pub numbered : integer (at (lit "sequence") payload) "payload.sequence" 1 ≡ ok r.sequence
    pub totalled :
        amount
          (at (lit "cumulative_authorized_base_units") payload)
          "payload.cumulative_authorized_base_units"
        ≡ ok r.cumulative_authorized
    pub dated : timestamp (at (lit "issued_at") payload) "payload.issued_at" ≡ ok issued
    pub expiring : timestamp (at (lit "expires_at") payload) "payload.expires_at" ≡ ok r.expires_at
    pub valid : validate_context x ≡ ok limits
    pub bound : IsBound x payload
    pub serialized : canonical_voucher_payload h (obj payload) ≡ ok r.canonical_payload
    pub hashed : r.voucher_hash ≡ sha256_raw_bytes h r.canonical_payload
    pub progress : Progresses limits s t r.sequence r.cumulative_authorized
    pub already_issued : instant issued ≤ instant now
    pub unexpired : instant now < instant r.expires_at
    pub within_channel : instant r.expires_at ≤ instant x.channel_expires_at
    pub signed : verifier x.sender r.canonical_payload signature ≡ answered true

  -- An accepted voucher is an envelope of the right type and version, and was checked against a valid context whose channel, keys, epoch and latest
  -- voucher the payload of its envelope names. The bytes returned are the canonical bytes of that
  -- payload, the hash returned is their SHA-256 and the one that the envelope states, and the verifier
  -- accepted the envelope's sender signature on them under the context's sender. The sequence, the
  -- cumulative total and the expiry returned are the payload's: the sequence is new, the positive total
  -- does not fall and fits both F - R and the policy's limit, and the voucher was issued by now, has
  -- not expired and does not outlive the channel.
  pub verify_voucher-IsVerified :
      (verifier : SignatureVerifier) (v : Value) (x : VoucherContext) (now : Datetime)
      (s t : Option ℕ) (r : VerifiedVoucher)
      → verify_voucher h verifier v x now s t ≡ ok r
      → IsVerified verifier v x now s t r
  verify_voucher-IsVerified verifier v x now s t r q =
      let w = verify_voucher-Passes verifier v x now s t r q in
      let o = open_envelope-Opens v w.envelope w.opened in
      let d = validity w.issued r.expires_at now x.channel_expires_at w.live in
      record {
        limits = w.limits;
        members = o.members;
        payload = w.envelope.payload;
        signature = w.envelope.signature;
        issued = w.issued;
        formed = o.formed;
        typed = o.typed;
        versioned = o.versioned;
        opened = o.opened;
        given = o.given ∙ ap ok (text_eq→eq o.supplied w.envelope.hash o.compared ∙ sym w.hashed);
        witnessed = o.witnessed;
        numbered = w.numbered;
        totalled = w.totalled;
        dated = w.dated;
        expiring = w.expiring;
        valid = w.valid;
        bound = check_context-IsBound x w.envelope.payload w.bound;
        serialized = o.serialized ∙ ap ok (sym w.serialized);
        hashed = w.hashed ∙ o.hashed ∙ ap (sha256_raw_bytes h) (sym w.serialized);
        progress =
            check_progress-Progresses w.limits s t r.sequence r.cumulative_authorized
              (validate_context-IsConsistent x w.limits w.valid) w.progress;
        already_issued = d.0;
        unexpired = d.1;
        within_channel = d.2;
        signed =
            ap (λ b. verifier x.sender b w.envelope.signature) w.serialized
            ∙ check_verdict-answered _ w.signed;
      }
