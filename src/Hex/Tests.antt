-- ===== src/Hex/Tests.antt =====
-- The conversions on concrete texts.
use tcp_client.Base.{
  ◌≡◌, refl, arith, true, false, none, some, List, [], ◌∷◌, Bytes, codes, length, join_nibbles, ltb,
  if◌then◌else◌, ok, err,
}
use tcp_client.Hex.{
  overflow, hex_to_bytes, bytes_to_hex, bytes_loop, unescape_string, required_size, hex_char,
  unescape_loop, unescape_one, hex_escape, hex_char_to_int,
}
use tcp_client.Hex.Value.{hex_value}
use tcp_client.Hex.Meaning.{hex_to_bytes_iff}
use tcp_client.Hex.RoundTrip.{hex_to_bytes-bytes_to_hex}
use tcp_client.Hex.Escape.{
  Piece, plain, carriage_return, newline, nul, other, hex, spell, piece_values,
  unescape_string-spell,
}

abbrev two_bytes : Bytes
two_bytes = 0 ∷ 31 ∷ []

hex_to_bytes_iff_example : hex_to_bytes (some (codes " 0x00-1f")) (some 8) ≡ ok two_bytes
unfolding hex_value join_nibbles
hex_to_bytes_iff_example = (hex_to_bytes_iff (codes " 0x00-1f") two_bytes 8).1 (refl, omega arith)

-- A colon is left out, and another character is refused.
meanings : (hex_value (codes "00:1F") ≡ some two_bytes) × (hex_value (codes "00.1F") ≡ none)
unfolding hex_value join_nibbles
meanings = (refl, refl)

written : bytes_to_hex (some (0 ∷ 171 ∷ [])) (some 6) true true ≡ ok (codes "00 AB")
unfolding bytes_to_hex required_size bytes_loop hex_char
written = refl

hex_to_bytes-bytes_to_hex_example : hex_to_bytes (some (codes "00 AB")) (some 2) ≡ ok (0 ∷ 171 ∷ [])
hex_to_bytes-bytes_to_hex_example =
    hex_to_bytes-bytes_to_hex true true (0 ∷ 171 ∷ []) (codes "00 AB") 6 2
      (omega arith, (omega arith, tt)) written (omega arith)

abbrev pieces : List Piece
pieces = plain b'N' ∷ hex false 25 ∷ newline ∷ carriage_return ∷ nul ∷ other b'q' ∷ []

unescape_string-spell_example :
    unescape_string (some (spell pieces)) (some 16)
    ≡ (if ltb 16 (length pieces) then err overflow else ok (piece_values pieces))
unescape_string-spell_example = unescape_string-spell pieces 16 (
  omega arith,
  (
    omega arith,
    (
      tt,
      (
        tt,
        (
          tt,
          (
            (
              omega arith,
              omega arith,
              omega arith,
              omega arith,
              omega arith,
              omega arith,
              omega arith,
            ),
            tt,
          ),
        ),
      ),
    ),
  ),
)

unescaped : unescape_string (some (codes "N\\x19")) (some 16) ≡ ok (b'N' ∷ 25 ∷ [])
unfolding unescape_string unescape_loop unescape_one hex_escape hex_char_to_int join_nibbles
unescaped = refl
