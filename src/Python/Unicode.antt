-- ===== src/Python/Unicode.antt =====
-- Digits beyond ASCII, in Unicode 14, which Python 3.11 has: what `\d`, `int` and `str.isdigit` accept.
use foundry_pay.Base.{
  ℕ, ◌+◌, ◌-◌, ◌*◌, Bool, true, false, ◌&&◌, ◌||◌, Option, none, some, List, [], ◌∷◌, leb, ltb,
  if◌then◌else◌, Text, length, all, Result, ok, err, value_error, not,
}
use foundry_pay.Python.Decimal.{max_str_digits}

-- The code points with the decimal value zero; each is followed by the nine other digits.
abbrev decimal_zeros : List ℕ
decimal_zeros =
    0x30 ∷ 0x660 ∷ 0x6f0 ∷ 0x7c0 ∷ 0x966 ∷ 0x9e6 ∷ 0xa66 ∷ 0xae6 ∷ 0xb66 ∷ 0xbe6 ∷ 0xc66 ∷ 0xce6
    ∷ 0xd66 ∷ 0xde6 ∷ 0xe50 ∷ 0xed0 ∷ 0xf20 ∷ 0x1040 ∷ 0x1090 ∷ 0x17e0 ∷ 0x1810 ∷ 0x1946 ∷ 0x19d0
    ∷ 0x1a80 ∷ 0x1a90 ∷ 0x1b50 ∷ 0x1bb0 ∷ 0x1c40 ∷ 0x1c50 ∷ 0xa620 ∷ 0xa8d0 ∷ 0xa900 ∷ 0xa9d0
    ∷ 0xa9f0 ∷ 0xaa50 ∷ 0xabf0 ∷ 0xff10 ∷ 0x104a0 ∷ 0x10d30 ∷ 0x11066 ∷ 0x110f0 ∷ 0x11136 ∷ 0x111d0
    ∷ 0x112f0 ∷ 0x11450 ∷ 0x114d0 ∷ 0x11650 ∷ 0x116c0 ∷ 0x11730 ∷ 0x118e0 ∷ 0x11950 ∷ 0x11c50
    ∷ 0x11d50 ∷ 0x11da0 ∷ 0x16a60 ∷ 0x16ac0 ∷ 0x16b50 ∷ 0x1d7ce ∷ 0x1d7d8 ∷ 0x1d7e2 ∷ 0x1d7ec
    ∷ 0x1d7f6 ∷ 0x1e140 ∷ 0x1e2f0 ∷ 0x1e950 ∷ 0x1fbf0 ∷ []

decimal_in : List ℕ → ℕ → Option ℕ
decimal_in [] c = none
decimal_in (z ∷ zs) c = if leb z c && ltb c (z + 10) then some (c - z) else decimal_in zs c

-- `\d`
unfoldable pub is_decimal : ℕ → Bool
unfolding decimal_in
is_decimal c = elim (decimal_in decimal_zeros c) [ none ↦ false | some _ ↦ true ]

unfoldable pub decimal_value : ℕ → ℕ
unfolding decimal_in
decimal_value c = elim (decimal_in decimal_zeros c) [ none ↦ 0 | some d ↦ d ]

-- The ranges of the code points that are digits without being decimal, such as superscripts.
abbrev other_digits : List (ℕ × ℕ)
other_digits =
    (0xb2, 0xb3)
    ∷ (0xb9, 0xb9)
    ∷ (0x1369, 0x1371)
    ∷ (0x19da, 0x19da)
    ∷ (0x2070, 0x2070)
    ∷ (0x2074, 0x2079)
    ∷ (0x2080, 0x2089)
    ∷ (0x2460, 0x2468)
    ∷ (0x2474, 0x247c)
    ∷ (0x2488, 0x2490)
    ∷ (0x24ea, 0x24ea)
    ∷ (0x24f5, 0x24fd)
    ∷ (0x24ff, 0x24ff)
    ∷ (0x2776, 0x277e)
    ∷ (0x2780, 0x2788)
    ∷ (0x278a, 0x2792)
    ∷ (0x10a40, 0x10a43)
    ∷ (0x10e60, 0x10e68)
    ∷ (0x11052, 0x1105a)
    ∷ (0x1f100, 0x1f10a)
    ∷ []

in_ranges : List (ℕ × ℕ) → ℕ → Bool
in_ranges [] c = false
in_ranges ((lo, hi) ∷ rs) c = (leb lo c && leb c hi) || in_ranges rs c

-- `s.isdigit()`
unfoldable pub is_digit_text : Text → Bool
unfolding is_decimal in_ranges
is_digit_text [] = false
is_digit_text (c ∷ s) = all (λ d. is_decimal d || in_ranges other_digits d) (c ∷ s)

decimal_from : ℕ → Text → ℕ
unfolding decimal_value
decimal_from n [] = n
decimal_from n (c ∷ s) = decimal_from (n * 10 + decimal_value c) s

-- `int(s)`, for a text that `isdigit` accepts.
unfoldable pub int_of_digits : Text → Result ℕ
unfolding decimal_from is_decimal
int_of_digits s =
    if not (all is_decimal s) || ltb max_str_digits (length s)
    then err value_error
    else ok (decimal_from 0 s)
