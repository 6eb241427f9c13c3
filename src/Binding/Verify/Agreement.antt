-- ===== src/Binding/Verify/Agreement.antt =====
-- What the checks of `verify_recipient_binding` say of the claim, the payload and the clock.
use foundry_pay.Base.{
  ℕ, ◌≤◌, ◌<◌, ◌≡◌, true, arith, lit, String, Text, List, [], ◌∷◌, All, ok, Result, Option, some,
}
use foundry_pay.Python.Value.{Value, Fields, at, py_eq}
use foundry_pay.Python.Datetime.{Datetime, instant}
use foundry_pay.Canonical.Record.{members}
use foundry_pay.Channel.Checks as Channel
use foundry_pay.Voucher.Checks as Voucher
use foundry_pay.Voucher.Verify.{Verdict, answered}
use foundry_pay.Binding.Checks.{
  closed_object, timestamp, clock, same_type, check_match, check_matches, check_member,
}
use foundry_pay.Binding.Context.{RecipientBindingContext, claim_attributes, canonical_or}
use foundry_pay.Binding.Claim.{claim_fields, bindable_claim_states, validate_channel_claim}
use foundry_pay.Binding.Payload.{check_binding_window}
use foundry_pay.Binding.Verify.{check_signature}

-- A field is equal to an attribute and of its type.
abbrev pub Agrees : Fields → String × Value → Type 0
Agrees m (f, expected) =
    (py_eq (at (lit f) m) expected ≡ true) × (same_type (at (lit f) m) expected ≡ true)

pub matches-All :
    (prefix : String) (es : List (String × Value)) (m : Fields)
    → check_matches prefix es m ≡ ok tt
    → All (Agrees m) es
unfolding check_matches check_match
matches-All prefix [] m h = tt
matches-All prefix ((f, v) ∷ es) m h = ground (arith, matches-All prefix es m)

-- The clock lies in the window of the binding, which lies in that of the claim.
pub record InTime (c p : Fields) (now : Option Datetime) : Type 0 where
  pub current : Datetime
  pub created : Datetime
  pub issued : Datetime
  pub ends : Datetime
  pub expires : Datetime
  pub timed : now ≡ some current
  pub created_at : timestamp (at (lit "created_at") c) "claim.created_at" ≡ ok created
  pub issued_at : timestamp (at (lit "issued_at") p) "binding.payload.issued_at" ≡ ok issued
  pub ends_at : timestamp (at (lit "expires_at") p) "binding.payload.expires_at" ≡ ok ends
  pub expires_at : timestamp (at (lit "expires_at") c) "claim.expires_at" ≡ ok expires
  pub after_creation : instant created ≤ instant issued
  pub after_issue : instant issued ≤ instant current
  pub before_end : instant current < instant ends
  pub within_claim : instant ends ≤ instant expires

pub window-InTime :
    (c p : Fields) (now : Option Datetime) → check_binding_window c p now ≡ ok tt → InTime c p now
unfolding check_binding_window clock
window-InTime c p now h = ground arith

pub clock-some : (now : Option Datetime) (t : Datetime) → clock now ≡ ok t → now ≡ some t
unfolding clock
clock-some now t h = ground arith

pub check_signature-answered :
    (v : Verdict) (code field : String) → check_signature v code field ≡ ok tt → v ≡ answered true
unfolding check_signature
check_signature-answered v code field h = ground arith

-- The claim names the context's channel, and its state accepts a binding.
pub record Claims (x : RecipientBindingContext) (c : Fields) : Type 0 where
  pub named : All (Agrees c) (claim_attributes x)
  pub bindable :
      check_member (at (lit "state") c) bindable_claim_states "claim_not_bindable" "claim.state"
      ≡ ok tt

record ClaimSteps (v : Value) (x : RecipientBindingContext) (c : Fields) : Type 0 where
  closed : closed_object v "claim" claim_fields ≡ ok c
  attributed : check_matches "claim." (claim_attributes x) c ≡ ok tt
  stated :
      check_member (at (lit "state") c) bindable_claim_states "claim_not_bindable" "claim.state"
      ≡ ok tt

claim-Steps :
    (v : Value) (x : RecipientBindingContext) (now : Option Datetime) (c : Fields)
    → validate_channel_claim v x now ≡ ok c
    → ClaimSteps v x c
unfolding validate_channel_claim
claim-Steps v x now c h = ground arith

pub validate_channel_claim-Claims :
    (v : Value) (x : RecipientBindingContext) (now : Option Datetime) (c : Fields)
    → validate_channel_claim v x now ≡ ok c
    → Claims x c
validate_channel_claim-Claims v x now c h =
    let s = claim-Steps v x now c h in
    record { named = matches-All "claim." (claim_attributes x) c s.attributed; bindable = s.stated }

pub closed-members :
    (v : Value) (f : String) (ks : List Text) (m : Fields)
    → closed_object v f ks ≡ ok m
    → members v ≡ m
unfolding closed_object Voucher.closed_object Channel.closed_object
closed-members v f ks m h = ground arith

pub canonical_or-ok :
    (name : String) (r : Result (List ℕ)) (bytes : List ℕ)
    → canonical_or name r ≡ ok bytes
    → r ≡ ok bytes
canonical_or-ok name r bytes h = ground arith

pub claim-members :
    (v : Value) (x : RecipientBindingContext) (now : Option Datetime) (c : Fields)
    → validate_channel_claim v x now ≡ ok c
    → members v ≡ c
claim-members v x now c h = let s = claim-Steps v x now c h in closed-members v _ _ c s.closed
