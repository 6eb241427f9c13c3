-- ===== src/Closure/Runtime/Journalled.antt =====
-- The journal of refunds: the last event of each, and the chain of hashes.
use foundry_pay.Base.{
  ◌≡◌, refl, subst, subst⁻¹, ◌∙◌, inl, inr, true, false, Option, none, some, List, [], ◌∷◌, ◌++◌,
  Text, text_eq, text_eq_refl, arith, All, All-split, All-join, All-map, All-map₂, ◌≤◌, Bool-cases,
}
use foundry_pay.Canonical.Json.{Host}
use foundry_pay.Closure.Table.{
  Refund, RefundEvent, ClosureDb, last_event, later_event, next_sequence,
}
use foundry_pay.Closure.Runtime.Change.{Terms, Follows, Change, stays, evolves, registers}
use foundry_pay.Closure.Runtime.Calls.{Reached}
use foundry_pay.Closure.Runtime.Reached.{Reached-rule}
use foundry_pay.Closure.Runtime.Intervals.{
  Pairs, Apart, Apart-id, Change-Apart, new-Apart, text_eq_comm,
}

module _ (i : Text) (e : RefundEvent) where
  later_event-newest :
      (x : RefundEvent) (o : Option RefundEvent)
      → next_sequence (later_event x o) ≤ e.sequence
      → (next_sequence o ≤ e.sequence) × (later_event x (some e) ≡ some e)
  unfolding later_event
  later_event-newest x none h = ground arith
  later_event-newest x (some b) h = ground arith

  last_event-newest :
      (es : List RefundEvent)
      → text_eq e.subject i ≡ true
      → next_sequence (last_event i es) ≤ e.sequence
      → last_event i (es ++ (e ∷ [])) ≡ some e
  unfolding last_event later_event
  last_event-newest [] y n = rw y refl
  last_event-newest (x ∷ es) y n = elim (Bool-cases (text_eq x.subject i)) [
    | inl t ↦
        let w = later_event-newest x (last_event i es) (mine t) in
        rw (t, last_event-newest es y w.0) w.1
    | inr f ↦ rw f (last_event-newest es y (other f))
  ]
    where
      mine :
          text_eq x.subject i ≡ true → next_sequence (later_event x (last_event i es)) ≤ e.sequence
      mine t = ground arith

      other : text_eq x.subject i ≡ false → next_sequence (last_event i es) ≤ e.sequence
      other f = ground arith

  last_event-other :
      (es : List RefundEvent)
      → text_eq e.subject i ≡ false
      → last_event i (es ++ (e ∷ [])) ≡ last_event i es
  unfolding last_event
  last_event-other [] n = rw n refl
  last_event-other (x ∷ es) n = rw (last_event-other es n) refl

-- The last event of a refund says what its row says.
pub record Current (events : List RefundEvent) (r : Refund) : Type 0 where
  pub entry : RefundEvent
  pub last : last_event r.refund_id events ≡ some entry
  pub same_state : entry.new_state ≡ r.state
  pub same_time : entry.recorded_at ≡ r.updated_at

module _ (h : Host) (events : List RefundEvent) (r : Refund) (e : RefundEvent)
    (f : Follows h r e events) where
  Current-new : Current (events ++ (e ∷ [])) r
  Current-new = record {
    entry = e;
    last =
        last_event-newest r.refund_id e events (rw f.about (text_eq_refl r.refund_id))
          (rw f.numbered (omega arith));
    same_state = f.same_state;
    same_time = f.same_time;
  }

  Current-other :
      (x : Refund)
      → text_eq x.refund_id r.refund_id ≡ false
      → Current events x
      → Current (events ++ (e ∷ [])) x
  Current-other x d c = record {
    entry = c.entry;
    last =
        last_event-other x.refund_id e events
          (rw f.about (text_eq_comm r.refund_id x.refund_id ∙ d))
        ∙ c.last;
    same_state = c.same_state;
    same_time = c.same_time;
  }

  Current-All :
      (rs : List Refund)
      → All (λ x. text_eq x.refund_id r.refund_id ≡ false) rs
      → All (Current events) rs
      → All (Current (events ++ (e ∷ []))) rs
  Current-All rs = All-map₂ Current-other rs

module _ (r : Refund) where
  Pairs-others :
      (before after : List Refund)
      → Pairs Apart (before ++ (r ∷ after))
      → All (λ x. text_eq x.refund_id r.refund_id ≡ false) before
        × All (λ x. text_eq x.refund_id r.refund_id ≡ false) after
  unfolding Pairs
  Pairs-others [] after p =
      (tt, All-map (λ x a. text_eq_comm x.refund_id r.refund_id ∙ Apart-id r x a) after p.0)
  Pairs-others (x ∷ before) after p =
      let w = All-split (Apart x) before r after p.0 in
      let v = Pairs-others before after p.1 in ((Apart-id x r w.1, v.0), v.1)

-- The refunds under different keys, each with its last event
record Kept (db : ClosureDb) : Type 0 where
  apart : Pairs Apart db.refunds
  current : All (Current db.events) db.refunds

Change-Kept : (h : Host) (db db' : ClosureDb) → Kept db → Change h db db' → Kept db'
Change-Kept h db db' k stays = k
Change-Kept h db db' k (evolves before after r r' e eq v f) =
    let others = Pairs-others r before after (subst (Pairs Apart) eq k.apart) in
    let c =
      All-split (Current db.events) before r after (subst (All (Current db.events)) eq k.current) in
    let same : (x : Refund)
        → text_eq x.refund_id r.refund_id ≡ false
        → text_eq x.refund_id r'.refund_id ≡ false =
      λ x d. subst⁻¹ (λ (t : Terms). text_eq x.refund_id t.identity ≡ false) v.keeps d in
    record {
      apart = Change-Apart h db _ k.apart (evolves before after r r' e eq v f);
      current =
          All-join (Current (db.events ++ (e ∷ []))) before r' after
            (Current-All h db.events r' e f before (All-map same before others.0) c.0)
            (Current-new h db.events r' e f)
            (Current-All h db.events r' e f after (All-map same after others.1) c.2);
    }
Change-Kept h db db' k (registers r e absent s n le f) = record {
  apart = Change-Apart h db _ k.apart (registers r e absent s n le f);
  current =
      All-join (Current (db.events ++ (e ∷ []))) db.refunds r []
        (Current-All h db.events r e f db.refunds
          (All-map (λ x. Apart-id x r) db.refunds (new-Apart db.refunds r absent s)) k.current)
        (Current-new h db.events r e f) tt;
}

-- Whatever calls have been made, every refund has a last event in the journal, and that event has the
-- state that the refund has now, and the time of its last update.
pub journal-Current :
    (h : Host) (db : ClosureDb) → Reached h db → All (Current db.events) db.refunds
unfolding Pairs
journal-Current h db reached =
    let kept =
      Reached-rule h Kept (record { apart = tt; current = tt }) (Change-Kept h) db reached in
    kept.current
