-- ===== src/Closure/Table/Rows.antt =====
-- Lookups and updates of refunds by their key, and what an inserted event says.
use foundry_pay.Base.{
  ℕ, subst, ◌≡◌, refl, inl, inr, true, false, Option, none, some, List, [], ◌∷◌, ◌++◌, ap, Text,
  text_eq, ok, arith, Bool-cases, >>=-eq-ok, some-eq, ok-eq,
}
use foundry_pay.Python.Value.{Fields, obj}
use foundry_pay.Canonical.Json.{Host, sha256_canonical_json}
use foundry_pay.Closure.Table.{
  RefundState, Refund, RefundEvent, find_refund, update_refund, is_repeated, find_repeated,
  last_event, next_sequence, previous_hash, has_event_hash, event_document, next_event,
  insert_event,
}

-- Where a refund is found, and what an update of it leaves.
pub record Found (i : Text) (rs : List Refund) (r : Refund) : Type 0 where
  pub before : List Refund
  pub after : List Refund
  pub split : rs ≡ before ++ (r ∷ after)
  pub updated : (f : Refund → Refund) → update_refund i f rs ≡ before ++ (f r ∷ after)

pub find_refund-Found :
    (i : Text) (rs : List Refund) (r : Refund) → find_refund i rs ≡ some r → Found i rs r
unfolding find_refund update_refund
find_refund-Found i [] r h = cc
find_refund-Found i (q ∷ rs) r h = elim (Bool-cases (text_eq q.refund_id i)) [
  | inl y ↦ here y (some-eq (head y))
  | inr n ↦ there n (find_refund-Found i rs r (tail n))
]
  where
    head : text_eq q.refund_id i ≡ true → some q ≡ some r
    head y = ground arith

    tail : text_eq q.refund_id i ≡ false → find_refund i rs ≡ some r
    tail n = ground arith

    here : text_eq q.refund_id i ≡ true → q ≡ r → Found i (q ∷ rs) r
    here y e = record {
      before = [];
      after = rs;
      split = rw e refl;
      updated = λ f. rw y (rw e refl);
    }

    there : text_eq q.refund_id i ≡ false → Found i rs r → Found i (q ∷ rs) r
    there n w = record {
      before = q ∷ w.before;
      after = w.after;
      split = ap (◌∷◌ q) w.split;
      updated = λ f. rw n (ap (◌∷◌ q) (w.updated f));
    }

pub find_refund-id :
    (i : Text) (rs : List Refund) (r : Refund)
    → find_refund i rs ≡ some r
    → text_eq r.refund_id i ≡ true
unfolding find_refund
find_refund-id i [] r h = cc
find_refund-id i (q ∷ rs) r h = ground (arith, find_refund-id i rs r)

pub find_refund-repeated :
    (i channel : Text) (epoch : ℕ) (key : Option Text) (rs : List Refund)
    → find_repeated i channel epoch key rs ≡ none
    → find_refund i rs ≡ none
unfolding find_refund find_repeated is_repeated
find_refund-repeated i channel epoch key [] h = refl
find_refund-repeated i channel epoch key (q ∷ rs) h =
    ground (arith, find_refund-repeated i channel epoch key rs)

-- What `next_event` makes.
pub record Made (h : Host) (i : Text) (s : RefundState) (t : Text) (events : List RefundEvent)
    (e : RefundEvent) : Type 0 where
  pub about : e.subject ≡ i
  pub same_state : e.new_state ≡ s
  pub same_time : e.recorded_at ≡ t
  pub numbered : e.sequence ≡ next_sequence (last_event i events)
  pub linked : e.previous_event_hash ≡ previous_hash (last_event i events)
  pub hashed : sha256_canonical_json h (obj e.event) ≡ ok e.event_hash

pub next_event-Made :
    (h : Host) (i : Text) (s : RefundState) (payload : Fields) (t : Text)
    (events : List RefundEvent) (e : RefundEvent)
    → next_event h i s payload t events ≡ ok e
    → Made h i s t events e
unfolding next_event
next_event-Made h i s payload t events e eq =
    let w = >>=-eq-ok (sha256_canonical_json h (obj payload)) _ eq in
    let document =
      event_document i (next_sequence (last_event i events)) s payload w.0
        (previous_hash (last_event i events)) t in
    let v = >>=-eq-ok (sha256_canonical_json h (obj document)) _ w.2 in
    subst (Made h i s t events) (ok-eq v.2) (record {
      about = refl;
      same_state = refl;
      same_time = refl;
      numbered = refl;
      linked = refl;
      hashed = v.1;
    })

pub insert_event-fresh :
    (e : RefundEvent) (events events' : List RefundEvent)
    → insert_event e events ≡ ok events'
    → (events' ≡ events ++ (e ∷ [])) × (has_event_hash e.event_hash events ≡ false)
unfolding insert_event
insert_event-fresh e events events' h = ground arith

pub find_refund-update :
    (i : Text) (f : Refund → Refund) (rs : List Refund) (r : Refund)
    → ((q : Refund) → (f q).refund_id ≡ q.refund_id)
    → find_refund i rs ≡ some r
    → find_refund i (update_refund i f rs) ≡ some (f r)
unfolding find_refund update_refund
find_refund-update i f [] r k h = cc
find_refund-update i f (q ∷ rs) r k h = ground (arith, k q, find_refund-update i f rs r k)
