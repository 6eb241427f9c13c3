-- ===== src/Python/Decimal.antt =====
-- Decimal texts of natural numbers: `int(text)` on a text of digits, and `str(n)`.
use foundry_pay.Base.{
  ℕ, zero, suc, ◌+◌, ◌-◌, ◌*◌, ◌/◌, ◌%◌, [], ◌∷◌, ltb, if◌then◌else◌, Text, length, Result, ok, err,
  value_error,
}

unfoldable pub from_digits : ℕ → Text → ℕ
from_digits n [] = n
from_digits n (c ∷ s) = from_digits (n * 10 + (c - 48)) s

-- The interpreter refuses to convert a text of more than 4300 digits.
abbrev pub max_str_digits : ℕ
max_str_digits = 4300

-- `int(text)`, for a text of decimal digits.
unfoldable pub int_of_text : Text → Result ℕ
unfolding from_digits
int_of_text s = if ltb max_str_digits (length s) then err value_error else ok (from_digits 0 s)

-- The digits of `n`, put before a text; the fuel is above the number of digits.
digits_before : ℕ → ℕ → Text → Text
digits_before zero n s = s
digits_before (suc fuel) n s =
    let s' = (n % 10 + 48) ∷ s in
    let rest = digits_before fuel (n / 10) s' in if ltb n 10 then s' else rest

-- `str(n)`
unfoldable pub text_of_nat : ℕ → Text
unfolding digits_before
text_of_nat n = digits_before (suc n) n []

-- `f"{n:02d}"`, as `strftime` pads the parts of a time
unfoldable pub two_digits : ℕ → Text
two_digits n = (n / 10 % 10 + 48) ∷ (n % 10 + 48) ∷ []
