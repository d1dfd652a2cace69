-- ===== src/Hex/Digits.antt =====
-- Facts about single hexadecimal digits, checked at each of the sixteen.
use mathlib.Core.Bool.{Bool, true, false, ◌&&◌, ◌||◌, not}
use tcp_client.Base.{ℕ, ◌<◌, ◌≡◌, refl, arith, Option, none, some, ◌==◌, under, under_lem}
use tcp_client.Hex.{hex_char_to_int, hex_char, is_separator, is_space}

is_digit_of : ℕ → Option ℕ → Bool
is_digit_of n none = false
is_digit_of n (some m) = m == n

good_digit : Bool → ℕ → Bool
good_digit uppercase n =
    let c = hex_char uppercase n in
    is_digit_of n (hex_char_to_int c) && not (is_separator c) && not (c == b'x' || c == b'X')

upper_table : under 16 (good_digit true) ≡ true
unfolding under good_digit is_digit_of hex_char_to_int hex_char is_separator is_space
upper_table = refl

lower_table : under 16 (good_digit false) ≡ true
unfolding under good_digit is_digit_of hex_char_to_int hex_char is_separator is_space
lower_table = refl

good_digits : (u : Bool) (n : ℕ) → n < 16 → good_digit u n ≡ true
good_digits true n h = under_lem (good_digit true) n 16 h upper_table
good_digits false n h = under_lem (good_digit false) n 16 h lower_table

module _ (u : Bool) (n : ℕ) (h : n < 16) where
  pub hex_char_to_int-hex_char : hex_char_to_int (hex_char u n) ≡ some n
  hex_char_to_int-hex_char = unfold good_digit is_digit_of in ground (arith, good_digits u n h)

  pub is_separator-hex_char : is_separator (hex_char u n) ≡ false
  is_separator-hex_char = unfold good_digit is_digit_of in ground (arith, good_digits u n h)

  pub is_space-hex_char : is_space (hex_char u n) ≡ false
  is_space-hex_char = unfold is_separator in ground (arith, is_separator-hex_char)

  pub hex_char-ne-x : (hex_char u n == b'x' || hex_char u n == b'X') ≡ false
  hex_char-ne-x = unfold good_digit is_digit_of in ground (arith, good_digits u n h)

pub hex_char_to_int-lt : (c v : ℕ) → hex_char_to_int c ≡ some v → v < 16
unfolding hex_char_to_int
hex_char_to_int-lt c v h = ground arith
