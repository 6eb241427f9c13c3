-- ===== src/Python/Pattern.antt =====
-- The regular expressions of the protocol modules, as tests of a whole text (`fullmatch`).
use foundry_pay.Base.{
  ℕ, Bool, false, ◌&&◌, ◌||◌, [], ◌∷◌, leb, ◌==◌, Text, lit, text_eq, length, take, drop, all,
}

between : ℕ → ℕ → ℕ → Bool
between lo hi c = leb lo c && leb c hi

unfoldable pub is_digit : ℕ → Bool
unfolding between
is_digit c = between b'0' b'9' c

unfoldable pub is_lower_hex : ℕ → Bool
unfolding is_digit
is_lower_hex c = is_digit c || between b'a' b'f' c

unfoldable pub is_alphanumeric : ℕ → Bool
unfolding is_digit
is_alphanumeric c = is_digit c || between b'A' b'Z' c || between b'a' b'z' c

-- `[1-9A-HJ-NP-Za-km-z]`
unfoldable pub is_base58 : ℕ → Bool
unfolding between
is_base58 c =
    between b'1' b'9' c
    || between b'A' b'H' c
    || between b'J' b'N' c
    || between b'P' b'Z' c
    || between b'a' b'k' c
    || between b'm' b'z' c

-- `^(0|[1-9][0-9]*)$`
unfoldable pub is_amount : Text → Bool
unfolding is_digit
is_amount [] = false
is_amount (c ∷ []) = is_digit c
is_amount (c ∷ s) = between b'1' b'9' c && all is_digit s

-- `^sha256:[0-9a-f]{64}$`
unfoldable pub is_hash : Text → Bool
unfolding text_eq lit is_lower_hex
is_hash s =
    text_eq (take 7 s) (lit "sha256:") && length (drop 7 s) == 64 && all is_lower_hex (drop 7 s)

is_identifier_char : ℕ → Bool
unfolding is_alphanumeric
is_identifier_char c = is_alphanumeric c || c == b'.' || c == b'_' || c == b':' || c == b'-'

-- `^[A-Za-z0-9][A-Za-z0-9._:-]{0,127}$`
unfoldable pub is_identifier : Text → Bool
unfolding is_identifier_char
is_identifier [] = false
is_identifier (c ∷ s) = is_alphanumeric c && leb (length s) 127 && all is_identifier_char s

-- `^[1-9A-HJ-NP-Za-km-z]{32,44}$`
unfoldable pub is_pubkey : Text → Bool
unfolding is_base58
is_pubkey s = leb 32 (length s) && leb (length s) 44 && all is_base58 s

-- `^[1-9A-HJ-NP-Za-km-z]{64,88}$`
unfoldable pub is_signature : Text → Bool
unfolding is_base58
is_signature s = leb 64 (length s) && leb (length s) 88 && all is_base58 s
