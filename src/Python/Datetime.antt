-- ===== src/Python/Datetime.antt =====
-- Python's `datetime` in UTC: its parts, its order, and the two ways in which the modules read a
-- timestamp text. The digits that `\d` matches are those of Unicode 14, which Python 3.11 has.
use foundry_pay.Base.{
  ℕ, zero, suc, ◌+◌, ◌-◌, ◌*◌, ◌/◌, ◌%◌, Bool, true, false, not, ◌&&◌, ◌||◌, Option, none, some, [],
  ◌∷◌, ◌++◌, ltb, leb, ◌==◌, if◌then◌else◌, Text, take, drop,
}
use foundry_pay.Python.Pattern.{is_digit}
use foundry_pay.Python.Unicode.{is_decimal, decimal_value}
use foundry_pay.Python.Decimal.{from_digits, text_of_nat, two_digits}

-- `utc`: the time is aware and its offset from UTC is zero.
pub record Datetime : Type 0 where
  pub year : ℕ
  pub month : ℕ
  pub day : ℕ
  pub hour : ℕ
  pub minute : ℕ
  pub second : ℕ
  pub microsecond : ℕ
  pub utc : Bool

is_leap : ℕ → Bool
is_leap y = y % 4 == 0 && (not (y % 100 == 0) || y % 400 == 0)

days_in_month : ℕ → ℕ → ℕ
unfolding is_leap
days_in_month y m =
    if m == 2
    then (if is_leap y then 29 else 28)
    else (if m == 4 || m == 6 || m == 9 || m == 11 then 30 else 31)

-- Days of the year before month `suc m`.
days_before_month : ℕ → ℕ → ℕ
unfolding days_in_month
days_before_month y zero = 0
days_before_month y (suc m) = days_before_month y m + days_in_month y (suc m)

-- Days since 1 January of the year 1.
ordinal : ℕ → ℕ → ℕ → ℕ
unfolding days_before_month
ordinal y m d =
    let p = y - 1 in p * 365 + p / 4 - p / 100 + p / 400 + days_before_month y (m - 1) + (d - 1)

-- A time as microseconds since the year 1: Python orders and subtracts times by it.
unfoldable pub instant : Datetime → ℕ
unfolding ordinal
instant t =
    (((ordinal t.year t.month t.day * 24 + t.hour) * 60 + t.minute) * 60 + t.second) * 1_000_000
    + t.microsecond

-- The checks of the constructor `datetime(...)`.
is_real : ℕ → ℕ → ℕ → ℕ → ℕ → ℕ → Bool
unfolding days_in_month
is_real y m d h mi s =
    leb 1 y
    && leb y 9999
    && leb 1 m
    && leb m 12
    && leb 1 d
    && leb d (days_in_month y m)
    && ltb h 24
    && ltb mi 60
    && ltb s 60

make : ℕ → ℕ → ℕ → ℕ → ℕ → ℕ → Option Datetime
unfolding is_real
make y m d h mi s =
    if is_real y m d h mi s
    then some (record {
      year = y;
      month = m;
      day = d;
      hour = h;
      minute = mi;
      second = s;
      microsecond = 0;
      utc = true;
    })
    else none

-- A text against a shape in which `d` stands for what `digit` accepts.
fits : (ℕ → Bool) → Text → Text → Bool
fits digit [] [] = true
fits digit (p ∷ ps) (c ∷ s) = (if p == b'd' then digit c else p == c) && fits digit ps s
fits digit _ _ = false

-- dddd-dd-ddTdd:dd:ddZ
abbrev shape : Text
shape =
    b'd' ∷ b'd' ∷ b'd' ∷ b'd' ∷ b'-' ∷ b'd' ∷ b'd' ∷ b'-' ∷ b'd' ∷ b'd' ∷ b'T' ∷ b'd' ∷ b'd' ∷ b':'
    ∷ b'd' ∷ b'd' ∷ b':' ∷ b'd' ∷ b'd' ∷ b'Z' ∷ []

part : ℕ → ℕ → Text → ℕ
part from n s = from_digits 0 (take n (drop from s))

-- `_TIMESTAMP.fullmatch(s)`, then `datetime.fromisoformat`, which reads ASCII digits only.
unfoldable pub from_iso : Text → Option Datetime
unfolding fits part make is_digit from_digits
from_iso s =
    if fits is_digit shape s
    then make (part 0 4 s) (part 5 2 s) (part 8 2 s) (part 11 2 s) (part 14 2 s) (part 17 2 s)
    else none

char_at : ℕ → Text → ℕ
char_at i [] = 0
char_at zero (c ∷ s) = c
char_at (suc i) (c ∷ s) = char_at i s

in_range : ℕ → ℕ → ℕ → Bool
in_range lo hi c = leb lo c && leb c hi

-- The two characters of a field as the expressions of `strptime` for %m, %d, %H, %M and %S have them.
is_month : ℕ → ℕ → Bool
unfolding in_range
is_month a b = (a == b'1' && in_range b'0' b'2' b) || (a == b'0' && in_range b'1' b'9' b)

is_day : ℕ → ℕ → Bool
unfolding in_range is_decimal
is_day a b =
    (a == b'3' && in_range b'0' b'1' b)
    || (in_range b'1' b'2' a && is_decimal b)
    || (a == b'0' && in_range b'1' b'9' b)

is_hour : ℕ → ℕ → Bool
unfolding in_range is_decimal
is_hour a b = (a == b'2' && in_range b'0' b'3' b) || (in_range b'0' b'1' a && is_decimal b)

is_minute : ℕ → ℕ → Bool
unfolding in_range is_decimal
is_minute a b = in_range b'0' b'5' a && is_decimal b

is_second : ℕ → ℕ → Bool
unfolding is_minute
is_second a b = (a == b'6' && in_range b'0' b'1' b) || is_minute a b

fields_match : Text → Bool
unfolding is_month is_day is_hour is_minute is_second char_at
fields_match s =
    is_month (char_at 5 s) (char_at 6 s)
    && is_day (char_at 8 s) (char_at 9 s)
    && is_hour (char_at 11 s) (char_at 12 s)
    && is_minute (char_at 14 s) (char_at 15 s)
    && is_second (char_at 17 s) (char_at 18 s)

decimal_part : ℕ → ℕ → Text → ℕ
unfolding decimal_value char_at
decimal_part zero i s = 0
decimal_part (suc n) i s = decimal_part n i s * 10 + decimal_value (char_at (i + n) s)

-- `_TIMESTAMP.fullmatch(s)`, then `datetime.strptime(s, "%Y-%m-%dT%H:%M:%SZ")` in UTC.
unfoldable pub strptime : Text → Option Datetime
unfolding fits fields_match decimal_part make is_decimal
strptime s =
    if fits is_decimal shape s && fields_match s
    then make (decimal_part 4 0 s) (decimal_part 2 5 s) (decimal_part 2 8 s) (decimal_part 2 11 s)
        (decimal_part 2 14 s) (decimal_part 2 17 s)
    else none

-- `t.strftime("%Y-%m-%dT%H:%M:%SZ")`; the year is not padded.
unfoldable pub strftime : Datetime → Text
unfolding text_of_nat two_digits
strftime t =
    text_of_nat t.year
    ++ (b'-' ∷ two_digits t.month)
    ++ (b'-' ∷ two_digits t.day)
    ++ (b'T' ∷ two_digits t.hour)
    ++ (b':' ∷ two_digits t.minute)
    ++ (b':' ∷ two_digits t.second)
    ++ (b'Z' ∷ [])
