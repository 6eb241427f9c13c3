-- ===== src/Closure/Runtime/Reserved.antt =====
-- The reservations of the refunds of one closure, against their limits.
use foundry_pay.Base.{
  ◌≡◌, sym, subst, subst⁻¹, ap, ◌⊎◌, inl, inr, ℕ, ◌+◌, ◌≤◌, Bool, true, false, not, ◌&&◌, ◌==◌,
  List, [], ◌∷◌, ◌++◌, text_eq, if◌then◌else◌, arith, false≢true, ◌∙◌,
}
use foundry_pay.Canonical.Json.{Host}
use foundry_pay.Closure.Table.{
  RefundState, Refund, ClosureDb, Scope, scope_of, in_scope, is_releasing, share, reserved,
}
use foundry_pay.Closure.Runtime.Change.{may, Terms, Evolves, Change, stays, evolves, registers}
use foundry_pay.Closure.Runtime.Calls.{Reached}
use foundry_pay.Closure.Runtime.Reached.{Reached-rule}

-- A reservation fits its limit on top of what is used in its scope.
abbrev Fit : (Scope → ℕ) → Refund → Type 0
Fit used r =
    (is_releasing r.state ≡ true) ⊎ (used (scope_of r) + r.requested_amount ≤ r.maximum_refundable)

-- Each reservation fits on top of the earlier ones.
abbrev Fits : (Scope → ℕ) → List Refund → Type 0
Fits used [] = Unit {0}
Fits used (r ∷ rs) = Fit used r × Fits (λ s. used s + share s r) rs

-- Less is used everywhere.
abbrev Less : (Scope → ℕ) → (Scope → ℕ) → Type 0
Less used' used = (s : Scope) → used' s ≤ used s

Fit-Less : (used used' : Scope → ℕ) (r : Refund) → Less used' used → Fit used r → Fit used' r
Fit-Less used used' r l (inl e) = inl e
Fit-Less used used' r l (inr f) = inr (omega (arith, f, l (scope_of r)))

Fits-Less :
    (used used' : Scope → ℕ) (rs : List Refund) → Less used' used → Fits used rs → Fits used' rs
Fits-Less used used' [] l f = tt
Fits-Less used used' (r ∷ rs) l f = (
  Fit-Less used used' r l f.0,
  Fits-Less (λ s. used s + share s r) (λ s. used' s + share s r) rs (λ s. omega (arith, l s)) f.1,
)

-- A releasing state is final.
may-releasing : (s s' : RefundState) → may s s' ≡ true → is_releasing s ≡ false
may-releasing s s' m = ground arith

share_le : (b c : Bool) (n : ℕ) → (if b && not c then n else 0) ≤ (if b && not false then n else 0)
share_le b c n = ground arith

module _ (rs : List Refund) (r r' : Refund) (v : Evolves rs r r') where
  in_scope-Evolves : (s : Scope) → in_scope s r' ≡ in_scope s r
  unfolding in_scope
  in_scope-Evolves s =
      ap
        (λ (t : Terms).
          text_eq t.scope.channel s.channel
          && t.scope.in_epoch == s.in_epoch
          && text_eq t.scope.closure s.closure)
        v.keeps

  share-Evolves : (s : Scope) → share s r' ≤ share s r
  unfolding share
  share-Evolves s =
      rw (in_scope-Evolves s, ap Terms.amount v.keeps, may-releasing r.state r'.state v.moves)
        (share_le (in_scope s r) (is_releasing r'.state) r.requested_amount)

  Fit-Evolves : (used : Scope → ℕ) → Fit used r → Fit used r'
  Fit-Evolves used (inl e) =
      elim (false≢true (sym (may-releasing r.state r'.state v.moves) ∙ e)) [ ]
  Fit-Evolves used (inr f) =
      inr (subst⁻¹ (λ (t : Terms). used t.scope + t.amount ≤ t.limit) v.keeps f)

  Fits-Evolves :
      (used : Scope → ℕ) (before after : List Refund)
      → Fits used (before ++ (r ∷ after))
      → Fits used (before ++ (r' ∷ after))
  Fits-Evolves used [] after f = (
    Fit-Evolves used f.0,
    Fits-Less (λ s. used s + share s r) (λ s. used s + share s r') after
        (λ s. omega (arith, share-Evolves s)) f.1,
  )
  Fits-Evolves used (q ∷ before) after f =
      (f.0, Fits-Evolves (λ s. used s + share s q) before after f.1)

Fits-append :
    (used : Scope → ℕ) (rs : List Refund) (r : Refund)
    → Fits used rs
    → used (scope_of r) + reserved (scope_of r) rs + r.requested_amount ≤ r.maximum_refundable
    → Fits used (rs ++ (r ∷ []))
unfolding reserved
Fits-append used [] r f le = (inr (omega (arith, le)), tt)
Fits-append used (q ∷ rs) r f le =
    (f.0, Fits-append (λ s. used s + share s q) rs r f.1 (omega (arith, le)))

Fits-at :
    (used : Scope → ℕ) (before after : List Refund) (r : Refund)
    → Fits used (before ++ (r ∷ after))
    → is_releasing r.state ≡ false
    → used (scope_of r) + reserved (scope_of r) before + r.requested_amount ≤ r.maximum_refundable
unfolding reserved
Fits-at used [] after r (inl e, g) o = elim (false≢true (sym o ∙ e)) [ ]
Fits-at used [] after r (inr f, g) o = omega (arith, f)
Fits-at used (q ∷ before) after r f o =
    let le = Fits-at (λ s. used s + share s q) before after r f.1 o in omega (arith, le)

Change-Fits :
    (h : Host) (db db' : ClosureDb)
    → Fits (λ s. 0) db.refunds
    → Change h db db'
    → Fits (λ s. 0) db'.refunds
Change-Fits h db db' f stays = f
Change-Fits h db db' f (evolves before after r r' e eq v n) =
    Fits-Evolves db.refunds r r' v (λ s. 0) before after (subst (Fits (λ s. 0)) eq f)
Change-Fits h db db' f (registers r e absent s n le w) =
    Fits-append (λ s. 0) db.refunds r f (omega (arith, le))

-- Whatever calls have been made, in whatever order, a refund that still reserves its amount fits:
-- with all that the refunds registered before it in its closure still reserve, its amount is at most
-- the greatest refundable amount of its own projection.
pub reserved_within :
    (h : Host) (db : ClosureDb) (before after : List Refund) (r : Refund)
    → Reached h db
    → db.refunds ≡ before ++ (r ∷ after)
    → is_releasing r.state ≡ false
    → reserved (scope_of r) before + r.requested_amount ≤ r.maximum_refundable
reserved_within h db before after r reached eq o =
    let fits = Reached-rule h (λ db. Fits (λ s. 0) db.refunds) tt (Change-Fits h) db reached in
    let le = Fits-at (λ s. 0) before after r (subst (Fits (λ s. 0)) eq fits) o in omega (arith, le)
