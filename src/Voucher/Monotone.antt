-- ===== src/Voucher/Monotone.antt =====
-- The order invariant of the ledger: in one domain, live vouchers (verified, or with an activation
-- requested) are ordered by their sequences, and their cumulative totals follow that order.
pub mod Latest
use foundry_pay.Base.{
  ℕ, ◌≤◌, ◌<◌, ◌≡◌, refl, Bool, true, false, Option, none, some, List, [], ◌∷◌, ◌++◌, arith, Text,
  text_eq, All, ◌⊎◌, inl, inr, Bool-cases, sym, ap, ◌∙◌, false≢true, subst, text_eq→eq,
  if◌then◌else◌, All-map, All-map₂, All-append,
}
use foundry_pay.Voucher.Table.{Row, is_live, find_row, update_row}
use foundry_pay.Voucher.Table.Rows.{
  Other, text_eq_sym, text_eq_trans, find_row-id, find_row-none, update_row-Other, find_row-head,
  find_row-tail,
}

text_eq_other : (s t u : Text) → text_eq s t ≡ true → text_eq u s ≡ false → text_eq u t ≡ false
text_eq_other s t u h e = subst (λ v. text_eq u v ≡ false) (text_eq→eq s t h) e

-- A live row with its domain, sequence and total.
pub record Live (r : Row) (key : Text) (s t : ℕ) : Type 0 where
  pub live : is_live r.state ≡ true
  pub domain : r.domain_key ≡ some key
  pub numbered : r.sequence ≡ some s
  pub totalled : r.cumulative_total ≡ some t

abbrev pub Ordered : ℕ → ℕ → ℕ → ℕ → Type 0
Ordered s t s' t' = ((s < s') × (t ≤ t')) ⊎ ((s' < s) × (t' ≤ t))

-- Two rows that are live in one domain are ordered.
pub record Agree (r q : Row) : Type 0 where
  pub at : (key : Text) (s t s' t' : ℕ) → Live r key s t → Live q key s' t' → Ordered s t s' t'

-- The keys are unique, and every two rows agree.
abbrev pub IsMonotone : List Row → Type 0
IsMonotone [] = Unit
IsMonotone (r ∷ rs) = All (λ q. Other r.submission_id q × Agree r q) rs × IsMonotone rs

swapped : {s t s' t' : ℕ} → Ordered s t s' t' → Ordered s' t' s t
swapped (inl h) = inr h
swapped (inr h) = inl h

pub Agree-sym : (r q : Row) → Agree r q → Agree q r
Agree-sym r q h = record { at = λ k s t s' t' l m. swapped (h.at k s' t' s t m l) }

-- A row that is not live agrees with every row.
pub Agree-idle : (r q : Row) → is_live r.state ≡ false → Agree r q
Agree-idle r q h = record { at = λ k s t s' t' l m. absurd (false≢true (sym h ∙ l.live)) }

-- Keeping the columns, or ceasing to be live, keeps the agreement.
pub Agree-keeps :
    (r p q : Row)
    → p.domain_key ≡ r.domain_key
    → p.sequence ≡ r.sequence
    → p.cumulative_total ≡ r.cumulative_total
    → is_live r.state ≡ true
    → Agree r q
    → Agree p q
Agree-keeps r p q d n t live h = record {
  at = λ k s u s' t' l m.
      h.at k s u s' t'
        (record {
          live = live;
          domain = sym d ∙ l.domain;
          numbered = sym n ∙ l.numbered;
          totalled = sym t ∙ l.totalled;
        })
        m;
}

pub All-found :
    (P : Row → Type 0) (id : Text) (rs : List Row) (r : Row)
    → All P rs
    → find_row id rs ≡ some r
    → P r
unfolding find_row
All-found P id [] r h e = cc
All-found P id (q ∷ rs) r h e = elim (Bool-cases (text_eq q.submission_id id)) [
  | inl y ↦ subst P (find_row-head id q rs r y e) h.0
  | inr n ↦ All-found P id rs r h.1 (find_row-tail id q rs n e)
]

-- What the row that is found has to do with the others.
pub found-Agree :
    (id : Text) (rs : List Row) (r : Row)
    → IsMonotone rs
    → find_row id rs ≡ some r
    → All (λ q. Other id q → Agree r q) rs
unfolding find_row
found-Agree id [] r m h = tt
found-Agree id (q ∷ rs) r m h = elim (Bool-cases (text_eq q.submission_id id)) [
  | inl y ↦ (
    λ o. absurd (false≢true (sym o ∙ y)),
    subst (λ x. All (λ p. Other id p → Agree x p) rs) (find_row-head id q rs r y h)
        (All-map (λ p a _. a.1) rs m.0),
  )
  | inr n ↦
      let e = find_row-tail id q rs n h in
      (
        λ _. Agree-sym q r (All-found (λ p. Other q.submission_id p × Agree q p) id rs r m.0 e).1,
        found-Agree id rs r m.1 e,
      )
]

-- A property of all rows survives an update whose new row has it.
All-update :
    (P : Row → Type 0) (id : Text) (g : Row → Row) (rs : List Row) (r : Row)
    → IsMonotone rs
    → find_row id rs ≡ some r
    → P (g r)
    → All P rs
    → All P (update_row id g rs)
unfolding find_row update_row
All-update P id g [] r m h p a = tt
All-update P id g (q ∷ rs) r m h p a = elim (Bool-cases (text_eq q.submission_id id)) [
  | inl y ↦
      rw
        (
          y,
          update_row-Other id g rs
              (All-map (λ x o. text_eq_other q.submission_id id x.submission_id y o.0) rs m.0),
        )
        (subst (λ x. P (g x)) (sym (find_row-head id q rs r y h)) p, a.1)
  | inr n ↦ rw n (a.0, All-update P id g rs r m.1 (find_row-tail id q rs n h) p a.1)
]

pub update-IsMonotone :
    (id : Text) (g : Row → Row) (rs : List Row) (r : Row)
    → IsMonotone rs
    → find_row id rs ≡ some r
    → (g r).submission_id ≡ r.submission_id
    → All (λ q. Other id q → Agree (g r) q) rs
    → IsMonotone (update_row id g rs)
unfolding update_row
update-IsMonotone id g [] r m h k c = tt
update-IsMonotone id g (q ∷ rs) r m h k c = elim (Bool-cases (text_eq q.submission_id id)) [
  | inl y ↦
      let e = find_row-head id q rs r y h in
      rw
        (
          y,
          update_row-Other id g rs
              (All-map (λ x o. text_eq_other q.submission_id id x.submission_id y o.0) rs m.0),
        )
        (
          subst (λ x. All (λ p. Other (g x).submission_id p × Agree (g x) p) rs) (sym e)
              (All-map₂
                (λ x a b. (
                  subst (λ i. Other i x) (ap (λ z. z.submission_id) e ∙ sym k) a.0,
                  b (text_eq_other q.submission_id id x.submission_id y a.0),
                ))
                rs m.0 c.1),
          m.1,
        )
  | inr n ↦
      let e = find_row-tail id q rs n h in
      rw n (
        All-update (λ p. Other q.submission_id p × Agree q p) id g rs r m.1 e
            (
              subst (λ i. text_eq i q.submission_id ≡ false) (sym k)
                  (text_eq_sym q.submission_id r.submission_id (
                    subst (λ i. text_eq q.submission_id i ≡ false)
                      (sym (text_eq→eq r.submission_id id (find_row-id id rs r e))) n)),
              Agree-sym (g r) q (c.0 n),
            )
            m.0,
        update-IsMonotone id g rs r m.1 e k c.1,
      )
]

pub append-IsMonotone :
    (rs : List Row) (p : Row)
    → IsMonotone rs
    → All (Other p.submission_id) rs
    → is_live p.state ≡ false
    → IsMonotone (rs ++ (p ∷ []))
append-IsMonotone [] p m o d = (tt, tt)
append-IsMonotone (q ∷ rs) p m o d = (
  All-append (λ x. Other q.submission_id x × Agree q x) rs (p ∷ []) m.0
      ((text_eq_sym q.submission_id p.submission_id o.0, Agree-sym p q (Agree-idle p q d)), tt),
  append-IsMonotone rs p m.1 o.1 d,
)
