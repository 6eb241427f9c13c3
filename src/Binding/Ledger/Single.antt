-- ===== src/Binding/Ledger/Single.antt =====
-- `RecipientBindingLedger` over sequences of calls.
use foundry_pay.Base.{
  ◌≡◌, refl, sym, subst, subst⁻¹, ◌∙◌, false, Option, none, some, [], ◌∷◌, ◌++◌, arith, Text,
  text_eq, text_eq_refl, Result, ok, err, Failure, reject, on_result, on_option-rule,
  on_result-rule, on_if-rule, All, All-append,
}
use foundry_pay.Python.Value.{Value}
use foundry_pay.Python.Datetime.{Datetime}
use foundry_pay.Canonical.Json.{Host}
use foundry_pay.Voucher.Verify.{SignatureVerifier}
use foundry_pay.Binding.Context.{RecipientBindingContext, recipient_binding_domain_hash}
use foundry_pay.Binding.Verify.{VerifiedRecipientBinding, verify_recipient_binding}
use foundry_pay.Binding.Verify.Sound.{verify_recipient_binding-IsBound}
use foundry_pay.Binding.Ledger.{
  Bindings, find_domain, has_hash, record_binding, verify_and_record, get_binding,
}

-- Two rows differ in their domain and in their hash.
abbrev pub Distinct : VerifiedRecipientBinding → VerifiedRecipientBinding → Type 0
Distinct r q =
    (text_eq r.journal_domain_hash q.journal_domain_hash ≡ false)
    × (text_eq r.binding_hash q.binding_hash ≡ false)

abbrev pub IsUnique : Bindings → Type 0
IsUnique [] = Unit
IsUnique (r ∷ rs) = All (Distinct r) rs × IsUnique rs

domains_differ :
    (rows : Bindings) (r : VerifiedRecipientBinding)
    → find_domain r.journal_domain_hash rows ≡ none
    → has_hash r.binding_hash rows ≡ false
    → All (λ q. Distinct q r) rows
unfolding find_domain has_hash
domains_differ [] r h k = tt
domains_differ (q ∷ rows) r h k = ground (arith, domains_differ rows r)

append-IsUnique :
    (rows : Bindings) (r : VerifiedRecipientBinding)
    → IsUnique rows
    → All (λ q. Distinct q r) rows
    → IsUnique (rows ++ (r ∷ []))
append-IsUnique [] r u a = (tt, tt)
append-IsUnique (q ∷ rows) r u a =
    (All-append (Distinct q) rows (r ∷ []) u.0 (a.0, tt), append-IsUnique rows r u.1 a.1)

abbrev LeavesUnique : Result VerifiedRecipientBinding × Bindings → Type 0
LeavesUnique s = IsUnique s.1

record_binding-IsUnique :
    (r : VerifiedRecipientBinding) (rows : Bindings)
    → IsUnique rows
    → IsUnique (record_binding r rows).1
unfolding record_binding
record_binding-IsUnique r rows u =
    on_option-rule LeavesUnique (find_domain r.journal_domain_hash rows) _ _
      (λ d.
        on_if-rule LeavesUnique (has_hash r.binding_hash rows) _ _ (λ _. u)
          (λ k. append-IsUnique rows r u (domains_differ rows r d k)))
      (λ q _. u)

find_domain-append :
    (d : Text) (rows more : Bindings) (r : VerifiedRecipientBinding)
    → find_domain d rows ≡ some r
    → find_domain d (rows ++ more) ≡ some r
unfolding find_domain
find_domain-append d [] more r h = cc
find_domain-append d (q ∷ rows) more r h = ground (arith, find_domain-append d rows more r)

find_domain-last :
    (rows : Bindings) (r : VerifiedRecipientBinding)
    → find_domain r.journal_domain_hash rows ≡ none
    → find_domain r.journal_domain_hash (rows ++ (r ∷ [])) ≡ some r
unfolding find_domain
find_domain-last [] r h = rw (text_eq_refl r.journal_domain_hash)
find_domain-last (q ∷ rows) r h = ground (arith, find_domain-last rows r)

module _ (d : Text) (q : VerifiedRecipientBinding) where
  abbrev Has : Bindings → Type 0
  Has rows = find_domain d rows ≡ some q

  abbrev LeavesRow : Result VerifiedRecipientBinding × Bindings → Type 0
  LeavesRow s = Has s.1

  record_binding-keeps :
      (r : VerifiedRecipientBinding) (rows : Bindings)
      → Has rows
      → LeavesRow (record_binding r rows)
  unfolding record_binding
  record_binding-keeps r rows u =
      on_option-rule LeavesRow (find_domain r.journal_domain_hash rows) _ _
        (λ _.
          on_if-rule LeavesRow (has_hash r.binding_hash rows) _ _ (λ _. u)
            (λ _. find_domain-append d rows (r ∷ []) q u))
        (λ p _. u)

ok-eq : {s t : Text} → ok s ≡ ok t → s ≡ t
ok-eq h = cc

-- A binding that is recorded was not in the table before, and is found in it after.
recorded_found :
    (r s : VerifiedRecipientBinding) (rows rows' : Bindings)
    → record_binding r rows ≡ (ok s, rows')
    → (s ≡ r) × (find_domain r.journal_domain_hash rows' ≡ some r)
unfolding record_binding
recorded_found r s rows rows' h = ground (arith, find_domain-last rows r)

abbrev already_recorded : Failure
already_recorded = reject "binding_already_recorded" "binding.payload.binding_nonce"

record_binding-refused :
    (r q : VerifiedRecipientBinding) (rows : Bindings)
    → find_domain r.journal_domain_hash rows ≡ some q
    → record_binding r rows ≡ (err already_recorded, rows)
unfolding record_binding
record_binding-refused r q rows h = rw h

module _ (h : Host) where
  -- One call of `verify_and_record` on the table, with any arguments, whatever it returns or raises.
  pub data BindingCall : Bindings → Bindings → Type 0 where
    recording :
        (claim binding : Value) (x : RecipientBindingContext) (verifier : SignatureVerifier)
        (now : Option Datetime) (rows : Bindings)
        → BindingCall rows (verify_and_record h claim binding x verifier now rows).1

  pub data Becomes (k : Bindings) : Bindings → Type 0 where
    begin : Becomes k k
    then_call : {l m : Bindings} → Becomes k l → BindingCall l m → Becomes k m

  Call-IsUnique : {l m : Bindings} → BindingCall l m → IsUnique l → IsUnique m
  unfolding verify_and_record
  Call-IsUnique (recording claim binding x verifier now rows) u =
      on_result-rule LeavesUnique (verify_recipient_binding h claim binding x verifier now) _ _
        (λ _ _. u) (λ r _. record_binding-IsUnique r rows u)

  Becomes-IsUnique : {k l : Bindings} → Becomes k l → IsUnique k → IsUnique l
  Becomes-IsUnique begin u = u
  Becomes-IsUnique (then_call w c) u = Call-IsUnique c (Becomes-IsUnique w u)

  -- In every table that any calls reach from the empty one, any two rows differ in their domain hash
  -- and in their binding hash.
  pub reached-IsUnique : (rows : Bindings) → Becomes [] rows → IsUnique rows
  reached-IsUnique rows w = Becomes-IsUnique w tt

  Call-keeps :
      (d : Text) (q : VerifiedRecipientBinding) {l m : Bindings}
      → BindingCall l m
      → find_domain d l ≡ some q
      → find_domain d m ≡ some q
  unfolding verify_and_record
  Call-keeps d q (recording claim binding x verifier now rows) u =
      on_result-rule (LeavesRow d q) (verify_recipient_binding h claim binding x verifier now) _ _
        (λ _ _. u) (λ r _. record_binding-keeps d q r rows u)

  kept_after :
      (d : Text) (q : VerifiedRecipientBinding) {k l : Bindings}
      → Becomes k l
      → find_domain d k ≡ some q
      → find_domain d l ≡ some q
  kept_after d q begin u = u
  kept_after d q (then_call w c) u = Call-keeps d q c (kept_after d q w u)

  -- The verified binding that a successful call has recorded.
  recorded_call :
      (claim binding : Value) (x : RecipientBindingContext) (verifier : SignatureVerifier)
      (now : Option Datetime) (rows : Bindings) (r : VerifiedRecipientBinding) (rows' : Bindings)
      → verify_and_record h claim binding x verifier now rows ≡ (ok r, rows')
      → (recipient_binding_domain_hash h x ≡ ok r.journal_domain_hash)
        × (find_domain r.journal_domain_hash rows' ≡ some r)
  unfolding verify_and_record
  recorded_call claim binding x verifier now rows r rows' e = split _ refl e
    where
      split :
          (v : Result VerifiedRecipientBinding)
          → verify_recipient_binding h claim binding x verifier now ≡ v
          → on_result v (λ e. (err e, rows)) (λ s. record_binding s rows) ≡ (ok r, rows')
          → (recipient_binding_domain_hash h x ≡ ok r.journal_domain_hash)
            × (find_domain r.journal_domain_hash rows' ≡ some r)
      split (err f) g k = cc
      split (ok s) g k =
          let f = recorded_found s r rows rows' k in
          (
            subst⁻¹ (λ q. recipient_binding_domain_hash h x ≡ ok q.journal_domain_hash) f.0
                (verify_recipient_binding-IsBound h claim binding x verifier now s g).scoped,
            subst⁻¹ (λ q. find_domain q.journal_domain_hash rows' ≡ some q) f.0 f.1,
          )

  get-found :
      (x : RecipientBindingContext) (rows : Bindings) (r : VerifiedRecipientBinding)
      → recipient_binding_domain_hash h x ≡ ok r.journal_domain_hash
      → find_domain r.journal_domain_hash rows ≡ some r
      → get_binding h x rows ≡ ok (some r)
  unfolding get_binding
  get-found x rows r d f = rw (d, f)

  refused_again :
      (claim binding : Value) (x : RecipientBindingContext) (verifier : SignatureVerifier)
      (now : Option Datetime) (rows : Bindings) (q : VerifiedRecipientBinding)
      → recipient_binding_domain_hash h x ≡ ok q.journal_domain_hash
      → find_domain q.journal_domain_hash rows ≡ some q
      → (e : Failure) × (verify_and_record h claim binding x verifier now rows ≡ (err e, rows))
  unfolding verify_and_record
  refused_again claim binding x verifier now rows q d f = split _ refl
    where
      split :
          (v : Result VerifiedRecipientBinding)
          → verify_recipient_binding h claim binding x verifier now ≡ v
          → (e : Failure) × (on_result v (λ e. (err e, rows)) (λ s. record_binding s rows)
              ≡ (err e, rows))
      split (err e) g = (e, refl)
      split (ok s) g = (
        already_recorded,
        record_binding-refused s q rows (
            subst (λ t. find_domain t rows ≡ some q)
              (ok-eq (
                sym d
                ∙ (verify_recipient_binding-IsBound h claim binding x verifier now s g).scoped))
              f),
      )

  -- A context has one binding for ever: after a call that records one, and any further calls, `get`
  -- returns that very binding, and every other attempt to record a binding for the context raises and
  -- leaves the table as it is, whatever claim, signatures and clock it comes with.
  pub bound_once :
      (claim binding : Value) (x : RecipientBindingContext) (verifier : SignatureVerifier)
      (now : Option Datetime) (rows : Bindings) (r : VerifiedRecipientBinding) (rows' : Bindings)
      → verify_and_record h claim binding x verifier now rows ≡ (ok r, rows')
      → (later : Bindings) → Becomes rows' later
      → (claim' binding' : Value) (verifier' : SignatureVerifier) (now' : Option Datetime)
      → (get_binding h x later ≡ ok (some r))
        × ((e : Failure) × (verify_and_record h claim' binding' x verifier' now' later
              ≡ (err e, later)))
  bound_once claim binding x verifier now rows r rows' e later w claim' binding' verifier' now' =
      let c = recorded_call claim binding x verifier now rows r rows' e in
      let f = kept_after r.journal_domain_hash r w c.1 in
      (get-found x later r c.0 f, refused_again claim' binding' x verifier' now' later r c.0 f)
