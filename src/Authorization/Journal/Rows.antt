-- ===== src/Authorization/Journal/Rows.antt =====
-- Lookups in rows that a function on rows has gone through.
use foundry_pay.Base.{
  ◌≡◌, refl, true, Option, none, some, List, [], ◌∷◌, ◌++◌, map, arith, Text, text_eq,
  if◌then◌else◌,
}
use foundry_pay.Authorization.Journal.{Row, find, expire, at_key}

abbrev pub mapped : (Row → Row) → Option Row → Option Row
mapped g none = none
mapped g (some r) = some (g r)

pub find-map :
    (g : Row → Row)
    → ((r : Row) → (g r).authorization_id ≡ r.authorization_id)
    → (i : Text) (rs : List Row) → find i (map g rs) ≡ mapped g (find i rs)
unfolding find
find-map g k i [] = refl
find-map g k i (r ∷ rs) = ground (arith, k r, find-map g k i rs)

pub find-append :
    (i : Text) (rs : List Row) (p : Row)
    → find i (rs ++ (p ∷ [])) ≡ (elim (find i rs) [
      | none ↦ if text_eq p.authorization_id i then some p else none
      | some r ↦ some r
    ])
unfolding find
find-append i [] p = refl
find-append i (r ∷ rs) p = ground (arith, find-append i rs p)

pub expire-id : (now : Text) (r : Row) → (expire now r).authorization_id ≡ r.authorization_id
unfolding expire
expire-id now r = ground arith

pub at_key-id :
    (i : Text) (f : Row → Row)
    → ((r : Row) → (f r).authorization_id ≡ r.authorization_id)
    → (r : Row) → (at_key i f r).authorization_id ≡ r.authorization_id
unfolding at_key
at_key-id i f k r = ground (arith, k r)

-- The row that is found has the key.
pub find-id :
    (i : Text) (rs : List Row) (r : Row) → find i rs ≡ some r → text_eq r.authorization_id i ≡ true
unfolding find
find-id i [] r h = cc
find-id i (q ∷ rs) r h = ground (arith, find-id i rs r)
