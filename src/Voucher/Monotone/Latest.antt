-- ===== src/Voucher/Monotone/Latest.antt =====
-- The query for the latest voucher, against the live rows of its domain.
use foundry_pay.Base.{
  ℕ, ◌≤◌, ◌≡◌, true, false, Option, none, some, List, [], ◌∷◌, arith, Text, text_eq→eq,
  text_eq_refl, refl, sym, ap, ◌∙◌, false≢true, subst⁻¹, All, All-map₂, All-map, ◌⊎◌, inl, inr,
  Bool-cases,
}
use foundry_pay.Voucher.Table.{Row, in_domain, is_candidate, later, latest}
use foundry_pay.Voucher.Table.Rows.{Other}
use foundry_pay.Voucher.Monotone.{Live, Ordered, Agree, IsMonotone}

-- The result of the query bounds a sequence and a total.
abbrev pub Covers : Option (ℕ × ℕ) → ℕ → ℕ → Type 0
Covers none s t = ⊥
Covers (some (m, n)) s t = (s ≤ m) × (t ≤ n)

Live-candidate :
    (key id : Text) (r : Row) (s t : ℕ) → Live r key s t → Other id r → is_candidate key id r ≡ true
unfolding is_candidate
Live-candidate key id r s t l o = ground (arith, text_eq_refl key, l.live, l.domain)

in_domain-eq : (o : Option Text) (key : Text) → in_domain o key ≡ true → o ≡ some key
in_domain-eq none key h = cc
in_domain-eq (some k) key h = ap some (text_eq→eq k key h)

candidate-Live :
    (key id : Text) (r : Row) (s t : ℕ)
    → is_candidate key id r ≡ true
    → r.sequence ≡ some s
    → r.cumulative_total ≡ some t
    → Live r key s t
unfolding is_candidate
candidate-Live key id r s t c n u = record {
  live = ground arith;
  domain = in_domain-eq r.domain_key key (ground arith);
  numbered = n;
  totalled = u;
}

-- Whoever is covered by the best row so far is covered after one more row.
Covers-old :
    (o p : Option ℕ) (best : Option (ℕ × ℕ)) (s t : ℕ)
    → Covers best s t
    → ((x y : ℕ) → o ≡ some x → p ≡ some y → Ordered x y s t)
    → Covers (later o p best) s t
unfolding later
Covers-old (some x) (some y) (some (m, n)) s t c d = ground (arith, d x y refl refl)
Covers-old (some x) (some y) none s t c d = absurd c
Covers-old (some x) none best s t c d = c
Covers-old none p best s t c d = c

Covers-new :
    (x y : ℕ) (best : Option (ℕ × ℕ))
    → ((m n : ℕ) → best ≡ some (m, n) → Ordered x y m n)
    → Covers (later (some x) (some y) best) x y
unfolding later
Covers-new x y none d = omega arith
Covers-new x y (some (m, n)) d = ground (arith, d m n refl)

later-cases :
    (o p : Option ℕ) (best : Option (ℕ × ℕ)) (m n : ℕ)
    → later o p best ≡ some (m, n)
    → (best ≡ some (m, n)) ⊎ ((o ≡ some m) × (p ≡ some n))
unfolding later
later-cases (some x) (some y) (some b) m n h = ground arith
later-cases (some x) (some y) none m n h = inr (ground arith, ground arith)
later-cases (some x) none best m n h = inl h
later-cases none p best m n h = inl h

module _ (key id : Text) where
  latest-skip :
      (r : Row) (rs : List Row)
      → is_candidate key id r ≡ false
      → latest key id (r ∷ rs) ≡ latest key id rs
  unfolding latest
  latest-skip r rs h = rw h

  latest-take :
      (r : Row) (rs : List Row)
      → is_candidate key id r ≡ true
      → latest key id (r ∷ rs) ≡ later r.sequence r.cumulative_total (latest key id rs)
  unfolding latest
  latest-take r rs h = rw h

  -- The result of the query stands in order with a row that agrees with all rows.
  latest-Ordered :
      (r : Row) (x y : ℕ) (rs : List Row) (m n : ℕ)
      → Live r key x y
      → All (Agree r) rs
      → latest key id rs ≡ some (m, n)
      → Ordered x y m n
  latest-Ordered r x y [] m n l a h = unfold latest in cc
  latest-Ordered r x y (q ∷ rs) m n l a h = elim (Bool-cases (is_candidate key id q)) [
    | inr skip ↦ latest-Ordered r x y rs m n l a.1 (sym (latest-skip q rs skip) ∙ h)
    | inl hit ↦
        elim (later-cases q.sequence q.cumulative_total (latest key id rs) m n
          (sym (latest-take q rs hit) ∙ h)) [
            | inl old ↦ latest-Ordered r x y rs m n l a.1 old
            | inr new ↦ a.0.at key x y m n l (candidate-Live key id q m n hit new.0 new.1)
          ]
  ]

  -- A result of the query bounds a row if it is live in the domain and has another key.
  abbrev pub Bounds : Option (ℕ × ℕ) → Row → Type 0
  Bounds b q = (s t : ℕ) → Live q key s t → Other id q → Covers b s t

  head_bound :
      (r : Row) (rs : List Row)
      → All (Agree r) rs
      → Bounds (later r.sequence r.cumulative_total (latest key id rs)) r
  head_bound r rs a s t l o =
      rw (l.numbered, l.totalled)
        (Covers-new s t (latest key id rs) (λ x y e. latest-Ordered r s t rs x y l a e))

  -- The query's result bounds every row that is live in the domain and has another key.
  pub latest-Bounds : (rs : List Row) → IsMonotone rs → All (Bounds (latest key id rs)) rs
  latest-Bounds [] m = tt
  latest-Bounds (r ∷ rs) m = elim (Bool-cases (is_candidate key id r)) [
    | inr skip ↦
        subst⁻¹ (λ b. All (Bounds b) (r ∷ rs)) (latest-skip r rs skip)
          (
            (λ s t l o. absurd (false≢true (sym skip ∙ Live-candidate key id r s t l o))),
            latest-Bounds rs m.1,
          )
    | inl hit ↦
        subst⁻¹ (λ b. All (Bounds b) (r ∷ rs)) (latest-take r rs hit)
          (
            head_bound r rs (All-map (λ p a. a.1) rs m.0),
            All-map₂
                (λ q a c s t l o.
                  Covers-old r.sequence r.cumulative_total (latest key id rs) s t (c s t l o)
                    (λ x y e f. a.1.at key x y s t (candidate-Live key id r x y hit e f) l))
                rs m.0 (latest-Bounds rs m.1),
          )
  ]
