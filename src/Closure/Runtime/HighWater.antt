-- ===== src/Closure/Runtime/HighWater.antt =====
-- What the query for the completed refunds of a scope says of each of them.
use foundry_pay.Base.{
  ◌≡◌, refl, ◌⊎◌, inl, inr, ℕ, ◌≤◌, true, false, not, ◌&&◌, Option, none, some, List, [], ◌∷◌, Text,
  text_eq, arith, All, Bool-cases,
}
use foundry_pay.Closure.Table.{Refund, Scope, in_scope, is_completed}
use foundry_pay.Closure.Runtime.Reconcile.{raise_to, other_high_water, overlaps}

-- A refund that is in no one's way from `n` on, for the refund `i` of a scope
unfoldable pub Below : Scope → Text → ℕ → Refund → Type 0
Below s i n x =
    ((in_scope s x && is_completed x.state && not (text_eq x.refund_id i)) ≡ false)
    ⊎ (x.refunded_after ≤ n)

raise_to-overlaps :
    (n a : ℕ) (o : Option ℕ) → overlaps n (raise_to a o) ≡ false → (a ≤ n) × (overlaps n o ≡ false)
unfolding raise_to
raise_to-overlaps n a none h = (ground arith, refl)
raise_to-overlaps n a (some m) h = ground arith

pub overlaps-Below :
    (s : Scope) (i : Text) (n : ℕ) (rs : List Refund)
    → overlaps n (other_high_water s i rs) ≡ false
    → All (Below s i n) rs
unfolding other_high_water Below
overlaps-Below s i n [] h = tt
overlaps-Below s i n (x ∷ rs) h =
    elim (Bool-cases (in_scope s x && is_completed x.state && not (text_eq x.refund_id i))) [
      | inl y ↦
          let w = raise_to-overlaps n x.refunded_after (other_high_water s i rs) (taken y) in
          (inr w.0, overlaps-Below s i n rs w.1)
      | inr f ↦ (inl f, overlaps-Below s i n rs (passed f))
    ]
  where
    taken :
        (in_scope s x && is_completed x.state && not (text_eq x.refund_id i)) ≡ true
        → overlaps n (raise_to x.refunded_after (other_high_water s i rs)) ≡ false
    taken y = ground arith

    passed :
        (in_scope s x && is_completed x.state && not (text_eq x.refund_id i)) ≡ false
        → overlaps n (other_high_water s i rs) ≡ false
    passed f = ground arith
