-- ===== src/Base/Results.antt =====
-- A call that returns or raises. `reject` is the module's own validation error, with its stable code
-- and field, `canonical` that of canonical.py, with its code and stage; the others are exceptions
-- that Python itself and sqlite3 raise.
use Prim.Native.String.{String}
use mathlib.Core.Path.{◌≡◌, refl}
use mathlib.Core.Logic.{◌⊎◌, inl, inr}
use mathlib.Core.Bool.{Bool, true, false}
use mathlib.Core.Option.{Option, none, some}
use foundry_pay.Base.Tests.{if◌then◌else◌}

pub data Failure : Type 0 where
  reject canonical : String → String → Failure
  type_error value_error assertion_error overflow_error database_error : Failure

-- The call raised a failure, or returned a value.
pub data Result {ℓ} (A : Type ℓ) : Type ℓ where
  err : Failure → Result A
  ok : A → Result A

module _ {ℓ κ} {A : Type ℓ} {B : Type κ} where
  infixl 5 ◌>>=◌ ◌>>◌
  -- A statement that may raise, and what follows it.
  abbrev pub ◌>>=◌ : Result A → (A → Result B) → Result B
  err e >>= rest = err e
  ok a >>= rest = rest a

  abbrev pub ◌>>◌ : Result A → Result B → Result B
  err e >> rest = err e
  ok a >> rest = rest

-- `if c: _reject(code, field, detail)`
abbrev pub reject_if : Bool → String → String → Result (Unit {0})
reject_if true code field = err (reject code field)
reject_if false code field = ok tt

module _ {ℓ κ} {A : Type ℓ} {B : Type κ} {b : B} where
  pub >>=-eq-ok :
      (r : Result A) (rest : A → Result B)
      → (r >>= rest) ≡ ok b
      → (a : A) × (r ≡ ok a) × (rest a ≡ ok b)
  >>=-eq-ok (err e) rest h = cc
  >>=-eq-ok (ok a) rest h = (a, refl, h)

  pub >>-eq-ok : (r : Result A) (rest : Result B) → (r >> rest) ≡ ok b → rest ≡ ok b
  >>-eq-ok (err e) rest h = cc
  >>-eq-ok (ok a) rest h = h

-- A check that has passed, and what follows it
pub >>-eq-ok_both {ℓ} :
    {B : Type ℓ} (r : Result (Unit {0})) (rest : Result B) {b : B}
    → (r >> rest) ≡ ok b
    → (r ≡ ok tt) × (rest ≡ ok b)
>>-eq-ok_both (err e) rest h = cc
>>-eq-ok_both (ok a) rest h = (refl, h)

pub reject_if-eq-ok {ℓ} :
    {B : Type ℓ} (c : Bool) (code field : String) (k : Result B) {b : B}
    → (reject_if c code field >> k) ≡ ok b
    → (c ≡ false) × (k ≡ ok b)
reject_if-eq-ok true code field k h = cc
reject_if-eq-ok false code field k h = (refl, h)

pub ok-eq {ℓ} : {A : Type ℓ} {a b : A} → ok a ≡ ok b → a ≡ b
ok-eq h = cc

pub Result-cases {ℓ} :
    {A : Type ℓ} (r : Result A) → ((e : Failure) × (r ≡ err e)) ⊎ ((a : A) × (r ≡ ok a))
Result-cases (err e) = inl (e, refl)
Result-cases (ok a) = inr (a, refl)

-- `try: r = ... except ...: f; else: g`
abbrev pub on_result {ℓ κ} : {A : Type ℓ} {B : Type κ} → Result A → (Failure → B) → (A → B) → B
on_result (err e) f g = f e
on_result (ok a) f g = g a

pub on_result-rule {ℓ κ μ} :
    {A : Type ℓ} {B : Type κ} (P : B → Type μ) (r : Result A) (f : Failure → B) (g : A → B)
    → ((e : Failure) → r ≡ err e → P (f e))
    → ((a : A) → r ≡ ok a → P (g a))
    → P (on_result r f g)
on_result-rule P (err e) f g p q = p e refl
on_result-rule P (ok a) f g p q = q a refl

-- `if row is None: b else: f(row)`
abbrev pub on_option {ℓ κ} : {A : Type ℓ} {B : Type κ} → Option A → B → (A → B) → B
on_option none b f = b
on_option (some a) b f = f a

pub on_option-rule {ℓ κ μ} :
    {A : Type ℓ} {B : Type κ} (P : B → Type μ) (o : Option A) (b : B) (f : A → B)
    → (o ≡ none → P b)
    → ((a : A) → o ≡ some a → P (f a))
    → P (on_option o b f)
on_option-rule P none b f p q = p refl
on_option-rule P (some a) b f p q = q a refl

pub on_if-rule {ℓ κ} :
    {B : Type ℓ} (P : B → Type κ) (c : Bool) (a b : B)
    → (c ≡ true → P a)
    → (c ≡ false → P b)
    → P (if c then a else b)
on_if-rule P true a b p q = p refl
on_if-rule P false a b p q = q refl
