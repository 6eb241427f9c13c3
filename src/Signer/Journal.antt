-- ===== src/Signer/Journal.antt =====
-- `SignerJournal`, and the part of `ExactMessageSigner.sign` that works on it. A method takes the rows
-- of the table and returns its outcome and the rows that it leaves; one that raises leaves the rows as
-- they were. `receipt` is the value that the column's JSON text encodes.
pub mod Single
pub mod Settled
use foundry_pay.Base.{
  Bool, true, false, not, ◌&&◌, Option, none, some, List, [], ◌∷◌, ◌++◌, map, if◌then◌else◌, ℕ, lit,
  Text, is_encodable, text_eq, on_option,
}
use foundry_pay.Python.Value.{Value, Fields, str, obj, end, field}
use foundry_pay.Python.Datetime.{Datetime, strftime}
use foundry_pay.Python.Json.{has_short_ints, is_bindable}

-- `SignerInvalid` and its siblings. `without_zone` is the `ValueError` of `_format_timestamp`, and
-- `unwritable` that of `json.dumps` or of sqlite3 on a text that UTF-8 does not encode; `interruption`
-- is an exception of the provider that is no `Exception`, such as `KeyboardInterrupt`.
pub data SignerError : Type 0 where
  signer_invalid signer_expired signer_replay signer_needs_recovery without_zone : SignerError
  unwritable interruption : SignerError

pub data Answer (A : Type 0) : Type 0 where
  failed : SignerError → Answer A
  answer : A → Answer A

pub data SignerState : Type 0 where
  signing signed needs_recovery : SignerState

-- A row of `signer_operations`
pub record Operation : Type 0 where
  pub id : Text
  pub request : Text
  pub message_hash : Text
  pub signer : Text
  pub phase : SignerState
  pub claimed_at : Text
  pub completed_at : Option Text
  pub envelope : Option Text
  pub receipt : Option Value

-- What the caller presents to the journal. `sign` has checked before that they are identifiers, a hash
-- and a public key, so that each is a text that UTF-8 encodes.
pub record Claim : Type 0 where
  pub key : Text
  pub execution : Text
  pub digest : Text
  pub by : Text

abbrev pub is_signing : SignerState → Bool
is_signing signing = true
is_signing s = false

unfoldable pub lookup : Text → List Operation → Option Operation
lookup i [] = none
lookup i (o ∷ os) = if text_eq o.id i then some o else lookup i os

-- The three columns that a claim has to agree with.
unfoldable pub same_inputs : Claim → Operation → Bool
same_inputs c o =
    text_eq o.request c.execution && text_eq o.message_hash c.digest && text_eq o.signer c.by

abbrev pub refusal : SignerState → SignerError
refusal signed = signer_replay
refusal s = signer_needs_recovery

abbrev pub operation : Claim → Text → Operation
operation c t = record {
  id = c.key;
  request = c.execution;
  message_hash = c.digest;
  signer = c.by;
  phase = signing;
  claimed_at = t;
  completed_at = none;
  envelope = none;
  receipt = none;
}

unfoldable pub insert :
    Claim → Option Datetime → List Operation → Answer (Unit {0}) × List Operation
insert c none os = (failed without_zone, os)
insert c (some t) os = (answer tt, os ++ (operation c (strftime t) ∷ []))

unfoldable pub claim : Claim → Option Datetime → List Operation → Answer (Unit {0}) × List Operation
claim c now os =
    on_option (lookup c.key os) (insert c now os)
      (λ o. if same_inputs c o then (failed (refusal o.phase), os) else (failed signer_invalid, os))

-- `UPDATE ... WHERE authorization_id = ? AND state = 'signing'`, on one row.
unfoldable pub while_signing : Text → (Operation → Operation) → Operation → Operation
while_signing i f o = if text_eq o.id i && is_signing o.phase then f o else o

abbrev pub finished : Text → Text → Value → Operation → Operation
finished t e r o = record o {
  phase = signed;
  completed_at = some t;
  envelope = some e;
  receipt = some r;
}

abbrev pub recovering : Operation → Operation
recovering o = record o { phase = needs_recovery }

-- The count of the rows that the update has met is one exactly when the key's row is signing.
unfoldable pub finish_found :
    Text → Text → Text → Value → Operation → List Operation → Answer (Unit {0}) × List Operation
finish_found i t e r o os =
    if is_signing o.phase
    then (answer tt, map (while_signing i (finished t e r)) os)
    else (failed signer_needs_recovery, os)

-- The envelope and the receipt can be written: the receipt has a JSON text, and UTF-8 encodes both.
unfoldable pub is_writable : Text → Value → Bool
is_writable e r = is_encodable e && has_short_ints r && is_bindable r

unfoldable pub complete :
    Text → Text → Value → Option Datetime → List Operation → Answer (Unit {0}) × List Operation
complete i e r none os = (failed without_zone, os)
complete i e r (some now) os =
    if is_writable e r
    then on_option (lookup i os) (failed signer_needs_recovery, os)
        (λ o. finish_found i (strftime now) e r o os)
    else (failed unwritable, os)

unfoldable pub mark_needs_recovery : Text → List Operation → List Operation
mark_needs_recovery i os = map (while_signing i recovering) os

-- What `sign_exact_message` does: it raises an `Exception` (`broken`) or a `BaseException` that is none
-- (`interrupted`), answers with something that is no text, or with a text.
pub data Reply : Type 0 where
  broken interrupted other : Reply
  envelope_text : Text → Reply

unfoldable pub receipt_of : Claim → Text → Text → Text → Value
receipt_of c commitment e t = obj (
    field (lit "type") (str (lit "message_signature_receipt")) (
      field (lit "protocol_version") (str (lit "1.0.0")) (
        field (lit "authorization_id") (str c.key) (
          field (lit "execution_request_id") (str c.execution) (
            field (lit "execution_commitment_hash") (str commitment) (
              field (lit "prepared_message_hash") (str c.digest) (
                field (lit "signer") (str c.by) (
                  field (lit "signature_envelope") (str e)
                    (field (lit "signed_at") (str t) end)))))))))

-- The `except Exception` branch.
unfoldable pub give_up : Text → List Operation → Answer Value × List Operation
give_up i os = (failed signer_needs_recovery, mark_needs_recovery i os)

-- What follows a method's call, when it raises and when it returns.
abbrev pub on_answer :
    {A C : Type 0}
    → Answer A × List Operation
    → (SignerError → List Operation → C)
    → (List Operation → C)
    → C
on_answer (failed x, os) f g = f x os
on_answer (answer a, os) f g = g os

unfoldable pub record_signature :
    Claim → Text → Datetime → Text → List Operation → Answer Value × List Operation
record_signature c commitment now e os =
    let r = receipt_of c commitment e (strftime now) in
    on_answer (complete c.key e r (some now) os) (λ x. give_up c.key) (λ rows. (answer r, rows))

-- From the reply of the provider on: an empty envelope is invalid, and an interruption propagates.
unfoldable pub on_reply :
    Claim → Text → Datetime → Reply → List Operation → Answer Value × List Operation
on_reply c commitment now broken os = give_up c.key os
on_reply c commitment now interrupted os = (failed interruption, os)
on_reply c commitment now other os = give_up c.key os
on_reply c commitment now (envelope_text []) os = give_up c.key os
on_reply c commitment now (envelope_text (x ∷ e)) os = record_signature c commitment now (x ∷ e) os

module _ (provider : List ℕ → Text → Reply) where
  -- The end of `sign`, after the checks on the authorization and the message.
  unfoldable pub sign_checked :
      Claim → Text → List ℕ → Datetime → List Operation → Answer Value × List Operation
  sign_checked c commitment message now os =
      on_answer (claim c (some now) os) (λ x rows. (failed x, rows))
        (λ rows. on_reply c commitment now (provider message c.by) rows)
