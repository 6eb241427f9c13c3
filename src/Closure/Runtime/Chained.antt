-- ===== src/Closure/Runtime/Chained.antt =====
-- The chain of hashes of the journal of refunds.
use mathlib.Core.List.{append-nil, append_assoc}
use foundry_pay.Base.{◌≡◌, subst, subst⁻¹, false, List, [], ◌∷◌, ◌++◌, ok}
use foundry_pay.Python.Value.{obj}
use foundry_pay.Canonical.Json.{Host, sha256_canonical_json}
use foundry_pay.Closure.Table.{
  RefundEvent, Refund, ClosureDb, last_event, next_sequence, previous_hash, has_event_hash,
}
use foundry_pay.Closure.Runtime.Change.{Follows, Change, stays, evolves, registers}
use foundry_pay.Closure.Runtime.Calls.{Reached}
use foundry_pay.Closure.Runtime.Reached.{Reached-rule}

-- An event after the earlier ones: its number and its link are those of the last event of its refund,
-- its hash is that of its own document, and no earlier event has that hash.
pub record Linked (h : Host) (earlier : List RefundEvent) (e : RefundEvent) : Type 0 where
  pub numbered : e.sequence ≡ next_sequence (last_event e.subject earlier)
  pub linked : e.previous_event_hash ≡ previous_hash (last_event e.subject earlier)
  pub hashed : sha256_canonical_json h (obj e.event) ≡ ok e.event_hash
  pub fresh : has_event_hash e.event_hash earlier ≡ false

module _ (h : Host) where
  -- Each event is linked to those before it.
  abbrev LinkedFrom : List RefundEvent → List RefundEvent → Type 0
  LinkedFrom earlier [] = Unit {0}
  LinkedFrom earlier (e ∷ es) = Linked h earlier e × LinkedFrom (earlier ++ (e ∷ [])) es

  Follows-Linked :
      (r : Refund) (e : RefundEvent) (events : List RefundEvent)
      → Follows h r e events
      → Linked h events e
  Follows-Linked r e events f = record {
    numbered = subst⁻¹ (λ i. e.sequence ≡ next_sequence (last_event i events)) f.about f.numbered;
    linked =
        subst⁻¹ (λ i. e.previous_event_hash ≡ previous_hash (last_event i events)) f.about f.linked;
    hashed = f.hashed;
    fresh = f.fresh;
  }

  LinkedFrom-append :
      (earlier es : List RefundEvent) (e : RefundEvent)
      → LinkedFrom earlier es
      → Linked h (earlier ++ es) e
      → LinkedFrom earlier (es ++ (e ∷ []))
  LinkedFrom-append earlier [] e c l = (subst (λ xs. Linked h xs e) (append-nil earlier) l, tt)
  LinkedFrom-append earlier (x ∷ es) e c l = (
    c.0,
    LinkedFrom-append (earlier ++ (x ∷ [])) es e c.1
        (subst⁻¹ (λ xs. Linked h xs e) (append_assoc earlier (x ∷ []) es) l),
  )

  LinkedFrom-at :
      (earlier before after : List RefundEvent) (e : RefundEvent)
      → LinkedFrom earlier (before ++ (e ∷ after))
      → Linked h (earlier ++ before) e
  LinkedFrom-at earlier [] after e c = subst⁻¹ (λ xs. Linked h xs e) (append-nil earlier) c.0
  LinkedFrom-at earlier (x ∷ before) after e c =
      subst (λ xs. Linked h xs e) (append_assoc earlier (x ∷ []) before)
        (LinkedFrom-at (earlier ++ (x ∷ [])) before after e c.1)

  Change-LinkedFrom :
      (db db' : ClosureDb) → LinkedFrom [] db.events → Change h db db' → LinkedFrom [] db'.events
  Change-LinkedFrom db db' c stays = c
  Change-LinkedFrom db db' c (evolves before after r r' e eq v f) =
      LinkedFrom-append [] db.events e c (Follows-Linked r' e db.events f)
  Change-LinkedFrom db db' c (registers r e absent s n le f) =
      LinkedFrom-append [] db.events e c (Follows-Linked r e db.events f)

-- Whatever calls have been made, each event of the journal is linked to those before it: its sequence
-- number and its previous hash are those that the last event of the same refund calls for, its hash
-- is that of its own document, and no earlier event has the same hash.
pub journal-Linked :
    (h : Host) (db : ClosureDb) (before after : List RefundEvent) (e : RefundEvent)
    → Reached h db
    → db.events ≡ before ++ (e ∷ after)
    → Linked h before e
journal-Linked h db before after e reached eq = LinkedFrom-at h [] before after e (
    subst (LinkedFrom h []) eq
      (Reached-rule h (λ db. LinkedFrom h [] db.events) tt (Change-LinkedFrom h) db reached))
