-- ===== src/Channel/Reads.antt =====
-- What the readers of fields guarantee of the values that they accept.
use foundry_pay.Base.{
  ℕ, ◌≤◌, ◌≡◌, sym, ap, true, some, none, Option, arith, String, Text, ok, text_eq→eq,
}
use foundry_pay.Python.Value.{Value, Fields, str, or_null, get, at, py_eq, option_eq}
use foundry_pay.Channel.Checks.{u64_max, amount}

-- An amount is an unsigned 64-bit number.
pub amount-le : (v : Value) (f : String) {n : ℕ} → amount v f ≡ ok n → n ≤ u64_max
unfolding amount
amount-le v f h = ground arith

pub py_eq-str : (s : Text) (w : Value) → py_eq (str s) w ≡ true → w ≡ str s
unfolding py_eq
py_eq-str s (str t) h = ap str (sym (text_eq→eq s t h))
py_eq-str s _ h = cc

amount_value :
    (f g : String) (v w : Value) {x : ℕ} → py_eq v w ≡ true → amount v f ≡ ok x → amount w g ≡ ok x
unfolding amount
amount_value f g (str s) w e h = rw (py_eq-str s w e) (ground arith)
amount_value f g _ w e h = cc

amount_option :
    (f g : String) (o p : Option Value) {x : ℕ}
    → option_eq o p ≡ true
    → amount (or_null o) f ≡ ok x
    → amount (or_null p) g ≡ ok x
unfolding option_eq
amount_option f g (some v) (some w) e h = amount_value f g v w e h
amount_option f g none p e h = unfold amount in cc
amount_option f g (some v) none e h = cc

-- A field that two objects have alike reads alike.
pub amount-unchanged :
    (k : Text) (f g : String) (m n : Fields) {x : ℕ}
    → option_eq (get k m) (get k n) ≡ true
    → amount (at k m) f ≡ ok x
    → amount (at k n) g ≡ ok x
unfolding at
amount-unchanged k f g m n e h = amount_option f g (get k m) (get k n) e h
