-- ===== src/Cli/Numbers.antt =====
-- parse_int, with the part of strtol (base 10) that it uses.
use tcp_client.Base.{
  ℕ, zero, suc, ◌+◌, ◌-◌, ◌*◌, Bool, true, false, ◌&&◌, Option, none, some, [], ◌∷◌, Bytes, leb,
  ◌==◌, if◌then◌else◌,
}
use tcp_client.Hex.{skip_spaces}

-- An integer: `pos n` is n, and `negsuc n` is -(n + 1).
pub data ℤ : Type 0 where
  pos negsuc : ℕ → ℤ

unfoldable pub is_digit : ℕ → Bool
is_digit c = leb b'0' c && leb c b'9'

-- Digits in front of a text, after some that make `value`, and what follows them.
unfoldable pub read_digits : ℕ → Bytes → ℕ × Bytes
read_digits value [] = (value, [])
read_digits value (c ∷ s) =
    if is_digit c then read_digits (value * 10 + (c - b'0')) s else (value, c ∷ s)

unfoldable pub starts_digit : Bytes → Bool
starts_digit [] = false
starts_digit (c ∷ s) = is_digit c

unfoldable pub negate : ℕ → ℤ
negate zero = pos 0
negate (suc n) = negsuc n

-- The value, where the text is a number as a whole: `*endptr` is then the final NUL. Where no digit
-- stands behind the spaces and the sign, strtol sets `endptr` to the text, which is not empty.
unfoldable pub whole : Bool → Bytes → Option ℤ
whole negative s =
    let (value, left) = read_digits 0 s in
    if starts_digit s
    then elim left [ [] ↦ some (if negative then negate value else pos value) | ◌∷◌ c rest ↦ none ]
    else none

unfoldable pub strtol_sign : Bytes → Option ℤ
strtol_sign [] = none
strtol_sign (c ∷ s) =
    if c == b'-' then whole true s else if c == b'+' then whole false s else whole false (c ∷ s)

unfoldable pub strtol_whole : Bytes → Option ℤ
strtol_whole s = strtol_sign (skip_spaces s)

unfoldable pub int_max : ℕ
int_max = 2147483647

-- INT_MIN ≤ val ≤ INT_MAX. Values beyond the range of long fail with ERANGE, and are out of this one.
unfoldable pub in_int : ℤ → Bool
in_int (pos n) = leb n int_max
in_int (negsuc n) = leb n int_max

unfoldable pub checked : Option ℤ → Option ℤ
checked none = none
checked (some val) = if in_int val then some val else none

-- `none` stands for false.
unfoldable pub parse_int : Option Bytes → Option ℤ
parse_int none = none
parse_int (some []) = none
parse_int (some (c ∷ s)) = checked (strtol_whole (c ∷ s))
