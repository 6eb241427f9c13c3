-- ===== src/Canonical/Record/Sealed.antt =====
-- Sealing and verification of self-hashed records of canonical.py.
use foundry_pay.Base.{
  ℕ, ◌≡◌, refl, sym, subst, ap, ◌∙◌, true, none, some, List, ◌∷◌, arith, Text, text_eq→eq,
  text_eq_refl, ok,
}
use foundry_pay.Python.Value.{
  Value, Fields, null, bool, int, float, str, arr, obj, end, field, get, has, without, at,
}
use foundry_pay.Python.Pattern.{is_hash}
use foundry_pay.Canonical.Json.{Host, canonical_json_bytes, sha256_raw_bytes, sha256_canonical_json}
use foundry_pay.Canonical.Record.{
  same_text, verify_declared_hash, unsigned_record_projection, verify_self_hashed_record,
}

same_text-eq : (v : Value) (t : Text) → same_text v t ≡ true → v ≡ str t
same_text-eq (str s) t h = ap str (text_eq→eq s t h)
same_text-eq null t h = cc
same_text-eq (bool b) t h = cc
same_text-eq (int n) t h = cc
same_text-eq (float n) t h = cc
same_text-eq (arr xs) t h = cc
same_text-eq (obj m) t h = cc

declared : (v : Value) (t : Text) → verify_declared_hash v t ≡ ok tt → v ≡ str t
unfolding verify_declared_hash
declared v t h = same_text-eq v t (ground arith)

module _ (h : Host) where
  -- An accepted record is its projection and the hash of that projection's canonical bytes.
  pub record IsSealed (m : Fields) (k : Text) (p : Fields) : Type 0 where
    pub bytes : List ℕ
    pub projected : p ≡ without k m
    pub serialized : canonical_json_bytes h (obj p) ≡ ok bytes
    pub hashed : at k m ≡ str (sha256_raw_bytes h bytes)

  record Steps (m : Fields) (k : Text) (p : Fields) : Type 0 where
    expected : Text
    projected : p ≡ without k m
    digested : sha256_canonical_json h (obj (without k m)) ≡ ok expected
    verified : verify_declared_hash (at k m) expected ≡ ok tt

  accepted-Steps :
      (m : Fields) (k : Text) (p : Fields)
      → verify_self_hashed_record h (obj m) k ≡ ok p
      → Steps m k p
  unfolding verify_self_hashed_record unsigned_record_projection
  accepted-Steps m k p q = ground arith

  digested :
      (v : Value) (t : Text)
      → sha256_canonical_json h v ≡ ok t
      → (bytes : List ℕ) × (canonical_json_bytes h v ≡ ok bytes) × (t ≡ sha256_raw_bytes h bytes)
  unfolding sha256_canonical_json
  digested v t q = ground arith

  -- A self-hashed record that is accepted holds, under its own hash field, the SHA-256 of the canonical
  -- bytes of the record without that field, and that rest is what is returned.
  pub verify_self_hashed_record-IsSealed :
      (m : Fields) (k : Text) (p : Fields)
      → verify_self_hashed_record h (obj m) k ≡ ok p
      → IsSealed m k p
  verify_self_hashed_record-IsSealed m k p q =
      let w = accepted-Steps m k p q in
      let d = digested (obj p) w.expected (
        subst (λ z. sha256_canonical_json h (obj z) ≡ ok w.expected) (sym w.projected)
          w.digested) in
      record {
        bytes = d.0;
        projected = w.projected;
        serialized = d.1;
        hashed = declared (at k m) w.expected w.verified ∙ ap str d.2;
      }

without-absent : (k : Text) (m : Fields) → get k m ≡ none → without k m ≡ m
unfolding get without
without-absent k end e = refl
without-absent k (field j v m) e = ground (arith, without-absent k m)

without-head : (k : Text) (v : Value) (m : Fields) → without k (field k v m) ≡ without k m
unfolding without
without-head k v m = rw (text_eq_refl k)

get-head : (k : Text) (v : Value) (m : Fields) → get k (field k v m) ≡ some v
unfolding get
get-head k v m = rw (text_eq_refl k)

has-head : (k : Text) (v : Value) (m : Fields) → has k (field k v m) ≡ true
unfolding has
has-head k v m = ground (arith, get-head k v m)

at-head : (k : Text) (v : Value) (m : Fields) → at k (field k v m) ≡ v
unfolding at
at-head k v m = rw (get-head k v m)

digest-ok :
    (h : Host) (v : Value) {bytes : List ℕ}
    → canonical_json_bytes h v ≡ ok bytes
    → sha256_canonical_json h v ≡ ok (sha256_raw_bytes h bytes)
unfolding sha256_canonical_json
digest-ok h v e = rw e

module _ (h : Host) (c : ℕ) (name : Text) (p : Fields) {bytes : List ℕ} where
  -- A record that is sealed, by adding the hash of its canonical bytes under a new field with a name
  -- that is not empty, is accepted, and its projection is the record before the seal. The hash has to
  -- have the form of a SHA-256 digest.
  pub verify_self_hashed_record-seal :
      get (c ∷ name) p ≡ none
      → canonical_json_bytes h (obj p) ≡ ok bytes
      → is_hash (sha256_raw_bytes h bytes) ≡ true
      → verify_self_hashed_record h
          (obj (field (c ∷ name) (str (sha256_raw_bytes h bytes)) p))
          (c ∷ name)
        ≡ ok p
  unfolding verify_self_hashed_record unsigned_record_projection verify_declared_hash
  verify_self_hashed_record-seal absent serialized digest =
      let k = c ∷ name in
      let seal = sha256_raw_bytes h bytes in
      ground (
        arith,
        has-head k (str seal) p,
        at-head k (str seal) p,
        without-head k (str seal) p ∙ without-absent k p absent,
        digest-ok h (obj p) serialized,
        text_eq_refl seal,
        digest,
      )
