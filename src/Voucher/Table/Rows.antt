-- ===== src/Voucher/Table/Rows.antt =====
-- Lookups, updates and insertions of rows by their primary key.
use foundry_pay.Base.{
  ◌≡◌, refl, subst, true, false, Option, none, some, List, [], ◌∷◌, ◌++◌, arith, Text, text_eq,
  text_eq_refl, text_eq→eq, All, Bool-cases, inl, inr,
}
use foundry_pay.Voucher.Table.{Row, find_row, update_row}

-- A row's key differs from `id`.
abbrev pub Other : Text → Row → Type 0
Other id r = text_eq r.submission_id id ≡ false

pub text_eq_sym : (s t : Text) → text_eq s t ≡ false → text_eq t s ≡ false
text_eq_sym s t h = elim (Bool-cases (text_eq t s)) [
  | inl e ↦ ground (arith, text_eq→eq t s e, text_eq_refl s)
  | inr e ↦ e
]

pub text_eq_trans : (s t u : Text) → text_eq s t ≡ true → text_eq s u ≡ false → text_eq t u ≡ false
text_eq_trans s t u h e = subst (λ v. text_eq v u ≡ false) (text_eq→eq s t h) e

pub find_row-id :
    (id : Text) (rs : List Row) (r : Row)
    → find_row id rs ≡ some r
    → text_eq r.submission_id id ≡ true
unfolding find_row
find_row-id id [] r h = cc
find_row-id id (q ∷ rs) r h = ground (arith, find_row-id id rs r)

pub find_row-none : (id : Text) (rs : List Row) → find_row id rs ≡ none → All (Other id) rs
unfolding find_row
find_row-none id [] h = tt
find_row-none id (q ∷ rs) h = ground (arith, find_row-none id rs)

pub find_row-append :
    (id : Text) (rs : List Row) (q : Row)
    → text_eq q.submission_id id ≡ false
    → find_row id (rs ++ (q ∷ [])) ≡ find_row id rs
unfolding find_row
find_row-append id [] q h = ground arith
find_row-append id (r ∷ rs) q h = ground (arith, find_row-append id rs q h)

pub find_row-append_new :
    (id : Text) (rs : List Row) (q : Row)
    → find_row id rs ≡ none
    → text_eq q.submission_id id ≡ true
    → find_row id (rs ++ (q ∷ [])) ≡ some q
unfolding find_row
find_row-append_new id [] q h e = ground arith
find_row-append_new id (r ∷ rs) q h e = ground (arith, find_row-append_new id rs q)

module _ (g : Row → Row) (keeps : (r : Row) → (g r).submission_id ≡ r.submission_id) where
  pub find_row-update_self :
      (id : Text) (rs : List Row) (r : Row)
      → find_row id rs ≡ some r
      → find_row id (update_row id g rs) ≡ some (g r)
  unfolding find_row update_row
  find_row-update_self id [] r h = cc
  find_row-update_self id (q ∷ rs) r h = ground (arith, keeps q, find_row-update_self id rs r)

  pub find_row-update_ne :
      (id j : Text) (rs : List Row)
      → text_eq id j ≡ false
      → find_row j (update_row id g rs) ≡ find_row j rs
  unfolding find_row update_row
  find_row-update_ne id j [] h = refl
  find_row-update_ne id j (q ∷ rs) h =
      ground (arith, keeps q, text_eq→eq q.submission_id id, find_row-update_ne id j rs h)

pub update_row-Other :
    (id : Text) (g : Row → Row) (rs : List Row) → All (Other id) rs → update_row id g rs ≡ rs
unfolding update_row
update_row-Other id g [] h = refl
update_row-Other id g (q ∷ rs) h = ground (arith, update_row-Other id g rs h.1)

pub find_row-head :
    (id : Text) (q : Row) (rs : List Row) (r : Row)
    → text_eq q.submission_id id ≡ true
    → find_row id (q ∷ rs) ≡ some r
    → q ≡ r
unfolding find_row
find_row-head id q rs r y h = ground arith

pub find_row-tail :
    (id : Text) (q : Row) (rs : List Row) {o : Option Row}
    → text_eq q.submission_id id ≡ false
    → find_row id (q ∷ rs) ≡ o
    → find_row id rs ≡ o
unfolding find_row
find_row-tail id q rs n h = ground arith
