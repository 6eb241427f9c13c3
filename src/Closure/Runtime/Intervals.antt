-- ===== src/Closure/Runtime/Intervals.antt =====
-- The intervals of the completed refunds of one closure.
use foundry_pay.Base.{
  ◌≡◌, refl, sym, subst, subst⁻¹, ap, ◌∙◌, ◌⊎◌, inl, inr, ℕ, ◌≤◌, Bool, true, false, not, ◌&&◌,
  ◌==◌, none, List, [], ◌∷◌, ◌++◌, Text, text_eq, text_eq_refl, arith, false≢true, All, All-map,
  All-map₂, All-split, All-join, All-every, ok-eq, ok,
}
use foundry_pay.Canonical.Json.{Host}
use foundry_pay.Closure.Table.{
  validated, Refund, ClosureDb, scope_of, in_scope, is_completed, find_refund,
}
use foundry_pay.Closure.Runtime.Change.{Terms, start_of, Evolves, Change, stays, evolves, registers}
use foundry_pay.Closure.Runtime.HighWater.{Below, overlaps-Below}
use foundry_pay.Closure.Runtime.Calls.{Reached}
use foundry_pay.Closure.Runtime.Reached.{Reached-rule}

-- A relation between each element and those after it.
module _ (R : Refund → Refund → Type 0) where
  unfoldable pub Pairs : List Refund → Type 0
  Pairs [] = Unit {0}
  Pairs (x ∷ xs) = All (R x) xs × Pairs xs

pub text_eq_comm : (s t : Text) → text_eq s t ≡ text_eq t s
unfolding text_eq
text_eq_comm [] [] = refl
text_eq_comm [] (d ∷ t) = refl
text_eq_comm (c ∷ s) [] = refl
text_eq_comm (c ∷ s) (d ∷ t) = ground (arith, text_eq_comm s t)

eq_comm : (a b : ℕ) → (a == b) ≡ (b == a)
eq_comm a b = ground arith

-- Two completed refunds of one scope
together : Refund → Refund → Bool
together p q = in_scope (scope_of p) q && is_completed p.state && is_completed q.state

in_scope_comm : (p q : Refund) → in_scope (scope_of p) q ≡ in_scope (scope_of q) p
unfolding in_scope
in_scope_comm p q =
    rw
      (
        text_eq_comm q.channel_id p.channel_id,
        eq_comm q.epoch p.epoch,
        text_eq_comm q.closure_id p.closure_id,
      )
      refl

together_comm : (p q : Refund) → together p q ≡ together q p
unfolding together
together_comm p q =
    rw (in_scope_comm p q)
      (swap (in_scope (scope_of q) p) (is_completed p.state) (is_completed q.state))
  where
    swap : (a b c : Bool) → (a && b && c) ≡ (a && c && b)
    swap a b c = ground arith

-- One refund's interval ends before the other's starts.
record EndsBefore (p q : Refund) : Type 0 where
  from : ℕ
  starts : start_of q.projection ≡ ok from
  under : p.refunded_after ≤ from

pub Apart : Refund → Refund → Type 0
Apart p q =
    (text_eq p.refund_id q.refund_id ≡ false)
    × ((together p q ≡ false) ⊎ (EndsBefore p q ⊎ EndsBefore q p))

pub Apart-id : (p q : Refund) → Apart p q → text_eq p.refund_id q.refund_id ≡ false
unfolding Apart
Apart-id p q a = a.0

pub Apart-sym : (p q : Refund) → Apart p q → Apart q p
unfolding Apart
Apart-sym p q (d, inl t) = (text_eq_comm q.refund_id p.refund_id ∙ d, inl (together_comm q p ∙ t))
Apart-sym p q (d, inr (inl e)) = (text_eq_comm q.refund_id p.refund_id ∙ d, inr (inr e))
Apart-sym p q (d, inr (inr e)) = (text_eq_comm q.refund_id p.refund_id ∙ d, inr (inl e))

module _ (rs : List Refund) (r r' : Refund) (v : Evolves rs r r') where
  -- What is known of another refund when this one changes
  Safe : Refund → Type 0
  Safe x =
      (is_completed r'.state ≡ false)
      ⊎ ((n : ℕ) × (start_of r.projection ≡ ok n) × Below (scope_of r) r.refund_id n x)

  Evolves-Safe : All Safe rs
  unfolding Safe
  Evolves-Safe = elim v.completes [
    | inl d ↦ All-every Safe (λ x. inl d) rs
    | inr c ↦
        All-map (λ x b. inr (c.start, c.starts, b)) rs
          (overlaps-Below (scope_of r) r.refund_id c.start rs c.above)
  ]

  together-unfinished : (x : Refund) → is_completed r'.state ≡ false → together x r' ≡ false
  unfolding together
  together-unfinished x d = ground arith

  together-other :
      (x : Refund)
      → text_eq x.refund_id r.refund_id ≡ false
      → (in_scope (scope_of r) x && is_completed x.state && not (text_eq x.refund_id r.refund_id))
        ≡ false
      → together x r' ≡ false
  unfolding together
  together-other x n b =
      rw (in_scope_comm x r', ap (λ (t : Terms). in_scope t.scope x) v.keeps)
        (none_left (in_scope (scope_of r) x) (is_completed x.state) (is_completed r'.state)
          (text_eq x.refund_id r.refund_id) n b)
    where
      none_left : (a b c e : Bool) → e ≡ false → (a && b && not e) ≡ false → (a && b && c) ≡ false
      none_left a b c e h k = ground arith

  Apart-Evolves : (x : Refund) → Safe x → Apart x r → Apart x r'
  unfolding Safe Apart Below
  Apart-Evolves x s (d, k) =
      (subst⁻¹ (λ (t : Terms). text_eq x.refund_id t.identity ≡ false) v.keeps d, moved s)
    where
      moved : Safe x → (together x r' ≡ false) ⊎ (EndsBefore x r' ⊎ EndsBefore r' x)
      moved (inl f) = inl (together-unfinished x f)
      moved (inr (n, q, inl b)) = inl (together-other x d b)
      moved (inr (n, q, inr le)) = inr (
          inl (record {
            from = n;
            starts = ap (λ (t : Terms). start_of t.document) v.keeps ∙ q;
            under = le;
          }))

  Pairs-Evolves :
      (before after : List Refund)
      → All Safe (before ++ (r ∷ after))
      → Pairs Apart (before ++ (r ∷ after))
      → Pairs Apart (before ++ (r' ∷ after))
  unfolding Pairs
  Pairs-Evolves [] after s p =
      (All-map₂ (λ x k a. Apart-sym x r' (Apart-Evolves x k (Apart-sym r x a))) after s.1 p.0, p.1)
  Pairs-Evolves (x ∷ before) after s p =
      let w = All-split (Apart x) before r after p.0 in
      (
        All-join (Apart x) before r' after w.0 (Apart-Evolves x s.0 w.1) w.2,
        Pairs-Evolves before after s.1 p.1,
      )

Pairs-append :
    (rs : List Refund) (r : Refund)
    → Pairs Apart rs
    → All (λ x. Apart x r) rs
    → Pairs Apart (rs ++ (r ∷ []))
unfolding Pairs
Pairs-append [] r p a = (tt, tt)
Pairs-append (x ∷ rs) r p a = (All-join (Apart x) rs r [] p.0 a.0 tt, Pairs-append rs r p.1 a.1)

-- A refund that is validated only, under a key that is not there
pub new-Apart :
    (rs : List Refund) (r : Refund)
    → find_refund r.refund_id rs ≡ none
    → r.state ≡ validated
    → All (λ x. Apart x r) rs
unfolding find_refund Apart together in_scope
new-Apart [] r h e = tt
new-Apart (x ∷ rs) r h e =
    let w = absent in
    (
      (w.0, inl (rw e (never (in_scope (scope_of x) r) (is_completed x.state)))),
      new-Apart rs r w.1 e,
    )
  where
    absent : (text_eq x.refund_id r.refund_id ≡ false) × (find_refund r.refund_id rs ≡ none)
    absent = ground arith

    never : (a b : Bool) → (a && b && false) ≡ false
    never a b = ground arith

pub Change-Apart :
    (h : Host) (db db' : ClosureDb)
    → Pairs Apart db.refunds
    → Change h db db'
    → Pairs Apart db'.refunds
Change-Apart h db db' p stays = p
Change-Apart h db db' p (evolves before after r r' e eq v n) =
    Pairs-Evolves db.refunds r r' v before after
      (subst (All (Safe db.refunds r r' v)) eq (Evolves-Safe db.refunds r r' v))
      (subst (Pairs Apart) eq p)
Change-Apart h db db' p (registers r e absent s n le w) =
    Pairs-append db.refunds r p (new-Apart db.refunds r absent s)

Pairs-at :
    (before between after : List Refund) (p q : Refund)
    → Pairs Apart (before ++ (p ∷ (between ++ (q ∷ after))))
    → Apart p q
unfolding Pairs
Pairs-at [] between after p q h = let w = All-split (Apart p) between q after h.0 in w.1
Pairs-at (x ∷ before) between after p q h = Pairs-at before between after p q h.1

pub in_scope-same : (p q : Refund) → scope_of p ≡ scope_of q → in_scope (scope_of p) q ≡ true
unfolding in_scope
in_scope-same p q e =
    subst⁻¹ (λ s. in_scope s q ≡ true) e
      (rw (text_eq_refl q.channel_id, eq_refl q.epoch, text_eq_refl q.closure_id) refl)
  where
    eq_refl : (n : ℕ) → (n == n) ≡ true
    eq_refl n = ground arith

EndsBefore-start :
    (p q : Refund) (n : ℕ) → EndsBefore p q → start_of q.projection ≡ ok n → p.refunded_after ≤ n
EndsBefore-start p q n e s = subst (λ m. p.refunded_after ≤ m) (ok-eq (sym e.starts ∙ s)) e.under

-- Whatever calls have been made, in whatever order, two completed refunds of one closure do not
-- overlap: where their projections start from the refunded totals `a` and `b`, the interval of one
-- ends before that of the other starts.
pub completed_disjoint :
    (h : Host) (db : ClosureDb) (before between after : List Refund) (p q : Refund) (a b : ℕ)
    → Reached h db
    → db.refunds ≡ before ++ (p ∷ (between ++ (q ∷ after)))
    → is_completed p.state ≡ true
    → is_completed q.state ≡ true
    → scope_of p ≡ scope_of q
    → start_of p.projection ≡ ok a
    → start_of q.projection ≡ ok b
    → (p.refunded_after ≤ b) ⊎ (q.refunded_after ≤ a)
unfolding Apart together Pairs
completed_disjoint h db before between after p q a b reached eq x y s m n =
    let pairs = Reached-rule h (λ db. Pairs Apart db.refunds) tt (Change-Apart h) db reached in
    let apart = Pairs-at before between after p q (subst (Pairs Apart) eq pairs) in
    elim apart.1 [
      | inl f ↦ elim (false≢true (sym f ∙ rw (in_scope-same p q s, x, y) refl)) [ ]
      | inr (inl e) ↦ inl (EndsBefore-start p q b e n)
      | inr (inr e) ↦ inr (EndsBefore-start q p a e m)
    ]
