-- ===== src/Binding/Ledger.antt =====
-- `RecipientBindingLedger`: each method takes the rows of its table and returns its result and the
-- rows that it leaves. One that raises leaves the rows as they were.
pub mod Single
use foundry_pay.Base.{
  Option, none, some, List, [], ◌∷◌, ◌++◌, if◌then◌else◌, Text, text_eq, Result, ok, err, reject,
  Failure, ◌>>=◌, on_result, on_option, Bool, true, false, ◌||◌,
}
use foundry_pay.Python.Value.{Value}
use foundry_pay.Python.Datetime.{Datetime}
use foundry_pay.Canonical.Json.{Host}
use foundry_pay.Voucher.Verify.{SignatureVerifier}
use foundry_pay.Binding.Context.{RecipientBindingContext, recipient_binding_domain_hash}
use foundry_pay.Binding.Verify.{VerifiedRecipientBinding, verify_recipient_binding}

-- A row of `recipient_bindings`
abbrev pub Bindings : Type 0
Bindings = List VerifiedRecipientBinding

-- `WHERE journal_domain_hash = ?`
unfoldable pub find_domain : Text → Bindings → Option VerifiedRecipientBinding
find_domain d [] = none
find_domain d (r ∷ rs) = if text_eq r.journal_domain_hash d then some r else find_domain d rs

-- `UNIQUE (binding_hash)`
unfoldable pub has_hash : Text → Bindings → Bool
has_hash t [] = false
has_hash t (r ∷ rs) = text_eq r.binding_hash t || has_hash t rs

-- The transaction of `verify_and_record`.
unfoldable pub record_binding :
    VerifiedRecipientBinding → Bindings → Result VerifiedRecipientBinding × Bindings
record_binding r rows =
    on_option (find_domain r.journal_domain_hash rows)
      (if has_hash r.binding_hash rows
        then (err (reject "binding_replay" "binding.binding_hash"), rows)
        else (ok r, rows ++ (r ∷ [])))
      (λ existing. (err (reject "binding_already_recorded" "binding.payload.binding_nonce"), rows))

module _ (h : Host) where
  unfoldable pub verify_and_record :
      Value
      → Value
      → RecipientBindingContext
      → SignatureVerifier
      → Option Datetime
      → Bindings
      → Result VerifiedRecipientBinding × Bindings
  verify_and_record claim_value binding_value x verifier now rows =
      on_result (verify_recipient_binding h claim_value binding_value x verifier now)
        (λ e. (err e, rows)) (λ r. record_binding r rows)

  -- `get`
  unfoldable pub get_binding :
      RecipientBindingContext → Bindings → Result (Option VerifiedRecipientBinding)
  get_binding x rows = do domain ← recipient_binding_domain_hash h x; ok (find_domain domain rows)
