-- ===== src/Signer/Journal/Settled.antt =====
-- The table at the end of `ExactMessageSigner.sign`, by the reply of the signing provider.
use foundry_pay.Base.{
  Bool, true, false, Bool-cases, inl, inr, is_encodable, arith, ◌≢◌, ◌≡◌, refl, subst⁻¹, ap, ◌∙◌,
  none, some, List, [], ◌∷◌, ◌++◌, map, ℕ, Text, text_eq_refl,
}
use foundry_pay.Python.Value.{Value}
use foundry_pay.Python.Datetime.{Datetime, strftime}
use foundry_pay.Python.Json.{has_short_ints, is_bindable}
use foundry_pay.Signer.Journal.{
  Answer, failed, answer, Operation, Claim, lookup, operation, while_signing, finished, recovering,
  finish_found, complete, mark_needs_recovery, Reply, broken, interrupted, other, interruption,
  is_writable, envelope_text, receipt_of, give_up, record_signature, on_reply, sign_checked, signed,
  needs_recovery, signer_needs_recovery,
}
use foundry_pay.Signer.Journal.Single.{taken_map, while_signing-id, lookup_self, claim_free}

-- A reply that is a text, not an empty one, and one that UTF-8 encodes.
abbrev pub is_usable : Reply → Bool
is_usable broken = false
is_usable interrupted = false
is_usable other = false
is_usable (envelope_text []) = false
is_usable (envelope_text (x ∷ e)) = is_encodable (x ∷ e)

-- The three ways in which a claimed operation ends: a text was signed, is in the receipt and in the
-- row; or nothing usable came back, and the row waits for a recovery; or the provider was interrupted,
-- and the row is as the claim has left it.
pub data Ends (c : Claim) (commitment : Text) (now : Datetime) (reply : Reply)
    : Answer Value → Operation → Type 0 where
  with_signature :
      (e : Text) (o : Operation)
      → reply ≡ envelope_text e
      → is_usable reply ≡ true
      → o.phase ≡ signed
      → o.envelope ≡ some e
      → o.receipt ≡ some (receipt_of c commitment e (strftime now))
      → Ends c commitment now reply (answer (receipt_of c commitment e (strftime now))) o
  without_signature :
      (o : Operation)
      → is_usable reply ≡ false
      → reply ≢ interrupted
      → o.phase ≡ needs_recovery
      → Ends c commitment now reply (failed signer_needs_recovery) o
  while_interrupted :
      reply ≡ interrupted
      → Ends c commitment now reply (failed interruption) (operation c (strftime now))

-- The texts of a receipt without its envelope are texts that UTF-8 encodes, as `sign` has checked.
abbrev pub IsPlain : Claim → Text → Datetime → Type 0
IsPlain c commitment now = is_bindable (receipt_of c commitment [] (strftime now)) ≡ true

-- A receipt has texts only, and UTF-8 encodes it with each envelope that it encodes.
receipt_writable :
    (c : Claim) (commitment e t : Text)
    → is_bindable (receipt_of c commitment [] t) ≡ true
    → is_encodable e ≡ true
    → is_writable e (receipt_of c commitment e t) ≡ true
unfolding is_writable is_bindable has_short_ints receipt_of
receipt_writable c commitment e t p h = ground arith

receipt_unwritable :
    (c : Claim) (commitment e t : Text)
    → is_encodable e ≡ false
    → is_writable e (receipt_of c commitment e t) ≡ false
unfolding is_writable
receipt_unwritable c commitment e t h = rw h refl

module _ (c : Claim) (commitment : Text) (now : Datetime) where
  -- The table holds the claim as it was made.
  abbrev Claimed : List Operation → Type 0
  Claimed os = lookup c.key os ≡ some (operation c (strftime now))

  -- A step has ended the operation, and the table says how.
  pub record Settles (reply : Reply) (s : Answer Value × List Operation) : Type 0 where
    pub row : Operation
    pub there : lookup c.key s.1 ≡ some row
    pub ended : Ends c commitment now reply s.0 row

  while_signing_self :
      (f : Operation → Operation)
      → while_signing c.key f (operation c (strftime now)) ≡ f (operation c (strftime now))
  unfolding while_signing
  while_signing_self f = rw (text_eq_refl c.key)

  updated :
      (f : Operation → Operation)
      → ((o : Operation) → (f o).id ≡ o.id)
      → (os : List Operation) → Claimed os
      → lookup c.key (map (while_signing c.key f) os) ≡ some (f (operation c (strftime now)))
  updated f k os h =
      taken_map (while_signing c.key f) (while_signing-id c.key f k) c.key os _ h
      ∙ ap some (while_signing_self f)

  give_up-Settles :
      (reply : Reply) (os : List Operation)
      → is_usable reply ≡ false
      → reply ≢ interrupted
      → Claimed os
      → Settles reply (give_up c.key os)
  unfolding give_up mark_needs_recovery
  give_up-Settles reply os u i h = record {
    row = recovering (operation c (strftime now));
    there = updated recovering (λ o. refl) os h;
    ended = without_signature _ u i refl;
  }

  recorded :
      (e : Text) (os : List Operation)
      → is_writable e (receipt_of c commitment e (strftime now)) ≡ true
      → Claimed os
      → record_signature c commitment now e os ≡ (
        answer (receipt_of c commitment e (strftime now)),
        map
            (while_signing c.key
              (finished (strftime now) e (receipt_of c commitment e (strftime now))))
            os,
      )
  unfolding record_signature complete finish_found
  recorded e os w h = rw (w, h)

  unrecorded :
      (e : Text) (os : List Operation)
      → is_writable e (receipt_of c commitment e (strftime now)) ≡ false
      → record_signature c commitment now e os ≡ give_up c.key os
  unfolding record_signature complete
  unrecorded e os w = rw w

  record_signature-Settles :
      (e : Text) (os : List Operation)
      → IsPlain c commitment now
      → is_encodable e ≡ true
      → is_usable (envelope_text e) ≡ true
      → Claimed os
      → Settles (envelope_text e) (record_signature c commitment now e os)
  record_signature-Settles e os p n u h =
      let r = receipt_of c commitment e (strftime now) in
      subst⁻¹ (Settles (envelope_text e)) (recorded e os (receipt_writable c commitment e _ p n) h)
        (record {
          row = finished (strftime now) e r (operation c (strftime now));
          there = updated (finished (strftime now) e r) (λ o. refl) os h;
          ended = with_signature e _ refl u refl refl refl;
        })

  on_reply-Settles :
      (reply : Reply) (os : List Operation)
      → IsPlain c commitment now
      → Claimed os
      → Settles reply (on_reply c commitment now reply os)
  unfolding on_reply
  on_reply-Settles broken os p h = give_up-Settles broken os refl (λ i. cc) h
  on_reply-Settles interrupted os p h = record {
    row = operation c (strftime now);
    there = h;
    ended = while_interrupted refl;
  }
  on_reply-Settles other os p h = give_up-Settles other os refl (λ i. cc) h
  on_reply-Settles (envelope_text []) os p h =
      give_up-Settles (envelope_text []) os refl (λ i. cc) h
  on_reply-Settles (envelope_text (x ∷ e)) os p h = elim (Bool-cases (is_encodable (x ∷ e))) [
    | inl y ↦ record_signature-Settles (x ∷ e) os p y y h
    | inr n ↦
        subst⁻¹ (Settles (envelope_text (x ∷ e)))
          (unrecorded (x ∷ e) os (receipt_unwritable c commitment (x ∷ e) _ n))
          (give_up-Settles (envelope_text (x ∷ e)) os n (λ i. cc) h)
  ]

  opened_sign :
      (provider : List ℕ → Text → Reply) (message : List ℕ) (os : List Operation)
      → lookup c.key os ≡ none
      → sign_checked provider c commitment message now os
        ≡ on_reply c commitment now
            (provider message c.by)
            (os ++ (operation c (strftime now) ∷ []))
  unfolding sign_checked
  opened_sign provider message os h = rw (claim_free c now os h)

  -- The end of `sign`, on an authorization that was not presented before and whose texts UTF-8 encodes,
  -- by what the provider does with the message. If a text came back that is not empty and that UTF-8
  -- encodes, the receipt is returned, and the row is signed and has that text and that receipt. If the
  -- provider raised an exception that is no `Exception`, this propagates, and the row stays as it was
  -- claimed, in the state `signing`. In every other case the call raises `SignerNeedsRecovery`, and the
  -- row needs a recovery.
  pub sign_checked-Settles :
      (provider : List ℕ → Text → Reply) (message : List ℕ) (os : List Operation)
      → IsPlain c commitment now
      → lookup c.key os ≡ none
      → Settles (provider message c.by) (sign_checked provider c commitment message now os)
  sign_checked-Settles provider message os p h =
      subst⁻¹ (Settles (provider message c.by)) (opened_sign provider message os h) (
        on_reply-Settles (provider message c.by) _ p
          (lookup_self os (operation c (strftime now)) h))
