-- ===== src/Hex/Byte.antt =====
-- `parse_hex_byte` reads one byte between spaces.
use tcp_client.Base.{
  Option, none, err, Bool-cases, inl, inr, join_nibbles, ℕ, ◌/◌, ◌%◌, ◌<◌, ◌≡◌, refl, ap, ◌∙◌,
  arith, Bool, true, false, some, [], ◌∷◌, ◌++◌, Bytes, All, if◌then◌else◌, join_nibbles_lem, ok,
}
use tcp_client.Hex.{
  invalid, is_space, skip_spaces, skip_prefix, hex_char, collect_digits, only_spaces,
  byte_of_digits, parse_digits, parse_hex_byte,
}
use tcp_client.Hex.Digits.{hex_char_to_int-hex_char, is_space-hex_char, hex_char-ne-x}

abbrev pub AreSpaces : Bytes → Type 0
AreSpaces = All (λ c. is_space c ≡ true)

-- Two digits with the optional prefix in front.
abbrev pub digits_of : Bool → Bool → ℕ → Bytes → Bytes
digits_of prefix u b rest =
    (if prefix then b'0' ∷ b'x' ∷ [] else []) ++ hex_char u (b / 16) ∷ hex_char u (b % 16) ∷ rest

pub skip_spaces-append : (pre s : Bytes) → AreSpaces pre → skip_spaces (pre ++ s) ≡ skip_spaces s
unfolding skip_spaces
skip_spaces-append [] s h = refl
skip_spaces-append (c ∷ pre) s (h, hs) = rw (h, skip_spaces) (skip_spaces-append pre s hs)

only_spaces_lem : (post : Bytes) → AreSpaces post → only_spaces post ≡ true
unfolding only_spaces
only_spaces_lem [] h = refl
only_spaces_lem (c ∷ post) (h, hs) = ground (arith, only_spaces_lem post hs)

collect_digits_end : (ds post : Bytes) → AreSpaces post → collect_digits ds post ≡ some (ds, post)
unfolding collect_digits
collect_digits_end ds [] h = refl
collect_digits_end ds (c ∷ post) (h, hs) = ground arith

module _ (u : Bool) (b : ℕ) (h : b < 256) where
  hi : b / 16 < 16
  hi = omega arith

  lo : b % 16 < 16
  lo = omega arith

  skip_in_front :
      (prefix : Bool) (rest : Bytes)
      → skip_prefix (skip_spaces (digits_of prefix u b rest))
        ≡ hex_char u (b / 16) ∷ hex_char u (b % 16) ∷ rest
  unfolding skip_prefix skip_spaces
  skip_in_front true rest = unfold is_space in refl
  skip_in_front false rest = ground (arith, is_space-hex_char u _ hi, hex_char-ne-x u (b % 16) lo)

  parse_digits_lem :
      (post : Bytes)
      → AreSpaces post
      → parse_digits (hex_char u (b / 16) ∷ hex_char u (b % 16) ∷ post) ≡ ok b
  unfolding parse_digits collect_digits byte_of_digits
  parse_digits_lem post hs = ground (
    arith,
    is_space-hex_char u _ hi,
    is_space-hex_char u _ lo,
    hex_char_to_int-hex_char u _ hi,
    hex_char_to_int-hex_char u _ lo,
    collect_digits_end ((b / 16) ∷ (b % 16) ∷ []) post hs,
    only_spaces_lem post hs,
    join_nibbles_lem (b / 16) (b % 16) hi lo,
  )

-- Two digits of either case, with or without "0x" and with any spaces round them, are read by
-- parse_hex_byte as the byte that they write.
pub parse_hex_byte_lem :
    (pre post : Bytes) (prefix u : Bool) (b : ℕ)
    → AreSpaces pre
    → AreSpaces post
    → b < 256
    → parse_hex_byte (some (pre ++ digits_of prefix u b post)) true ≡ ok b
unfolding parse_hex_byte
parse_hex_byte_lem pre post prefix u b hpre hpost h =
    ap (λ s. parse_digits (skip_prefix s)) (skip_spaces-append pre (digits_of prefix u b post) hpre)
    ∙ ap parse_digits (skip_in_front u b h prefix post)
    ∙ parse_digits_lem u b h post hpost

byte_of_digits-byte : (digits : Bytes) (b : ℕ) → byte_of_digits digits ≡ ok b → b < 256
unfolding byte_of_digits join_nibbles
byte_of_digits-byte [] b e = absurd (cc)
byte_of_digits-byte (a ∷ []) b e = ground arith
byte_of_digits-byte (a ∷ d ∷ []) b e = ground arith
byte_of_digits-byte (a ∷ d ∷ f ∷ rest) b e = absurd (cc)

collected-byte :
    (o : Option (Bytes × Bytes)) (b : ℕ)
    → (elim o [
      | none ↦ err invalid
      | some (digits, rest) ↦ if only_spaces rest then byte_of_digits digits else err invalid
    ])
      ≡ ok b
    → b < 256
collected-byte none b e = absurd (cc)
collected-byte (some (digits, rest)) b e = elim (Bool-cases (only_spaces rest)) [
  | inl p ↦ byte_of_digits-byte digits b (ground arith)
  | inr p ↦ absurd (ground arith)
]

parse_digits-byte : (str : Bytes) (b : ℕ) → parse_digits str ≡ ok b → b < 256
unfolding parse_digits
parse_digits-byte [] b e = absurd (cc)
parse_digits-byte (c ∷ str) b e = collected-byte (collect_digits [] (c ∷ str)) b e

-- What parse_hex_byte returns is a byte.
pub parse_hex_byte-byte : (str : Bytes) (b : ℕ) → parse_hex_byte (some str) true ≡ ok b → b < 256
unfolding parse_hex_byte
parse_hex_byte-byte str b e = parse_digits-byte (skip_prefix (skip_spaces str)) b e
