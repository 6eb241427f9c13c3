-- ===== src/Signer/Journal/Single.antt =====
-- `SignerJournal.claim` over sequences of calls of the journal's methods.
use foundry_pay.Base.{
  ◌≡◌, refl, sym, subst, text_eq_refl, Bool-cases, inl, inr, on_option-rule, on_if-rule, Option,
  none, some, List, [], ◌∷◌, ◌++◌, map, arith, Text,
}
use foundry_pay.Python.Value.{Value}
use foundry_pay.Python.Datetime.{Datetime, strftime}
use foundry_pay.Signer.Journal.{
  SignerError, Answer, failed, answer, Operation, Claim, lookup, same_inputs, operation, insert,
  claim, while_signing, recovering, finish_found, is_writable, complete, mark_needs_recovery,
  refusal, is_signing,
}

-- One call of a method on the table, with any arguments, whatever it returns or raises.
pub data JournalCall : List Operation → List Operation → Type 0 where
  claiming :
      (c : Claim) (now : Option Datetime) (os : List Operation) → JournalCall os (claim c now os).1
  completing :
      (i e : Text) (r : Value) (now : Option Datetime) (os : List Operation)
      → JournalCall os (complete i e r now os).1
  marking : (i : Text) (os : List Operation) → JournalCall os (mark_needs_recovery i os)

pub data Follows (k : List Operation) : List Operation → Type 0 where
  here : Follows k k
  next : {l m : List Operation} → Follows k l → JournalCall l m → Follows k m

-- The identifier has a row.
abbrev pub Taken : Text → List Operation → Type 0
Taken i os = (o : Operation) × (lookup i os ≡ some o)

abbrev LeavesTaken : Text → Answer (Unit {0}) × List Operation → Type 0
LeavesTaken i s = Taken i s.1

pub taken_map :
    (g : Operation → Operation)
    → ((o : Operation) → (g o).id ≡ o.id)
    → (i : Text) (os : List Operation) (o : Operation) → lookup i os ≡ some o
    → lookup i (map g os) ≡ some (g o)
unfolding lookup
taken_map g k i [] o h = cc
taken_map g k i (p ∷ os) o h = ground (arith, k p, taken_map g k i os o)

taken_append :
    (i : Text) (os ps : List Operation) (o : Operation)
    → lookup i os ≡ some o
    → lookup i (os ++ ps) ≡ some o
unfolding lookup
taken_append i [] ps o h = cc
taken_append i (p ∷ os) ps o h = ground (arith, taken_append i os ps o)

pub while_signing-id :
    (i : Text) (f : Operation → Operation)
    → ((o : Operation) → (f o).id ≡ o.id)
    → (o : Operation) → (while_signing i f o).id ≡ o.id
unfolding while_signing
while_signing-id i f k o = ground (arith, k o)

pub lookup_self :
    (os : List Operation) (p : Operation)
    → lookup p.id os ≡ none
    → lookup p.id (os ++ (p ∷ [])) ≡ some p
unfolding lookup
lookup_self [] p h = rw (text_eq_refl p.id)
lookup_self (o ∷ os) p h = ground (arith, lookup_self os p)

-- A claim on an identifier that has a row raises.
claim_taken :
    (c : Claim) (now : Option Datetime) (os : List Operation) (o : Operation)
    → lookup c.key os ≡ some o
    → (x : SignerError) × (claim c now os ≡ (failed x, os))
unfolding claim
claim_taken c now os o h = elim (Bool-cases (same_inputs c o)) [
  | inl y ↦ (refusal o.phase, rw (h, y))
  | inr n ↦ (SignerError.signer_invalid, rw (h, n))
]

pub claim_free :
    (c : Claim) (t : Datetime) (os : List Operation)
    → lookup c.key os ≡ none
    → claim c (some t) os ≡ (answer tt, os ++ (operation c (strftime t) ∷ []))
unfolding claim insert
claim_free c t os h = rw h

module _ (i : Text) where
  append_Taken : (os ps : List Operation) → Taken i os → Taken i (os ++ ps)
  append_Taken os ps t = (t.0, taken_append i os ps t.0 t.1)

  while_signing-Taken :
      (j : Text) (f : Operation → Operation)
      → ((o : Operation) → (f o).id ≡ o.id)
      → (os : List Operation) → Taken i os
      → Taken i (map (while_signing j f) os)
  while_signing-Taken j f k os t =
      (_, taken_map (while_signing j f) (while_signing-id j f k) i os t.0 t.1)

  insert-Taken :
      (c : Claim) (now : Option Datetime) (os : List Operation)
      → Taken i os
      → Taken i (insert c now os).1
  unfolding insert
  insert-Taken c none os t = t
  insert-Taken c (some now) os t = append_Taken os _ t

  claim-Taken :
      (c : Claim) (now : Option Datetime) (os : List Operation)
      → Taken i os
      → Taken i (claim c now os).1
  unfolding claim
  claim-Taken c now os t =
      on_option-rule (LeavesTaken i) (lookup c.key os) _ _ (λ _. insert-Taken c now os t)
        (λ o _. on_if-rule (LeavesTaken i) (same_inputs c o) _ _ (λ _. t) (λ _. t))

  complete-Taken :
      (j e : Text) (r : Value) (now : Option Datetime) (os : List Operation)
      → Taken i os
      → Taken i (complete j e r now os).1
  unfolding complete finish_found
  complete-Taken j e r none os t = t
  complete-Taken j e r (some now) os t =
      on_if-rule (LeavesTaken i) (is_writable e r) _ _
        (λ _.
          on_option-rule (LeavesTaken i) (lookup j os) _ _ (λ _. t)
            (λ o _.
              on_if-rule (LeavesTaken i) (is_signing o.phase) _ _
                (λ _. while_signing-Taken j _ (λ p. refl) os t) (λ _. t)))
        (λ _. t)

  mark-Taken : (j : Text) (os : List Operation) → Taken i os → Taken i (mark_needs_recovery j os)
  unfolding mark_needs_recovery
  mark-Taken j os t = while_signing-Taken j recovering (λ p. refl) os t

  Follows-Taken : {k l : List Operation} → Follows k l → Taken i k → Taken i l
  Follows-Taken here t = t
  Follows-Taken (next w (claiming c now os)) t = claim-Taken c now os (Follows-Taken w t)
  Follows-Taken (next w (completing j e r now os)) t =
      complete-Taken j e r now os (Follows-Taken w t)
  Follows-Taken (next w (marking j os)) t = mark-Taken j os (Follows-Taken w t)

-- An authorization is claimed at most once: after a claim of a free identifier, and any further calls
-- of the journal's methods, every claim of the same identifier raises, whatever it presents, and
-- leaves the table as it is.
pub claim_once :
    (c : Claim) (t : Datetime) (os : List Operation)
    → lookup c.key os ≡ none
    → (later : List Operation) → Follows (claim c (some t) os).1 later
    → (d : Claim) → d.key ≡ c.key
    → (now : Option Datetime) → (x : SignerError) × (claim d now later ≡ (failed x, later))
claim_once c t os h later w d k now =
    let o = Follows-Taken c.key w (
      subst (λ s. Taken c.key s.1) (sym (claim_free c t os h))
        (operation c (strftime t), lookup_self os (operation c (strftime t)) h)) in
    claim_taken d now later o.0 (subst (λ i. lookup i later ≡ some o.0) (sym k) o.1)
