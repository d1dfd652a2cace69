-- ===== src/Hex/Escape.antt =====
-- What the escapes of `unescape_string` mean: a text of pieces, each a character or an escape.
use tcp_client.Base.{
  codes, ℕ, zero, suc, ◌+◌, ◌/◌, ◌%◌, ◌≤◌, ◌<◌, ◌≡◌, ◌≢◌, arith, Bool, some, List, [], ◌∷◌, ◌++◌,
  append-nil, append_assoc, Bytes, All, length, length-append, ltb, leb, if◌then◌else◌,
  join_nibbles, join_nibbles_lem, ok, err, inl, inr, Option-cases,
}
use tcp_client.Hex.{
  overflow, hex_char, hex_escape, simple_escape, unescape_one, unescape_loop, unescape_string,
}
use tcp_client.Hex.Digits.{hex_char_to_int-hex_char}

-- A character as it is, the escapes \r, \n, \t, \0 and \\, a backslash before another character, and
-- `\xHH` in either case of the digits.
pub data Piece : Type 0 where
  plain : ℕ → Piece
  carriage_return newline tab nul backslash : Piece
  other : ℕ → Piece
  hex : Bool → ℕ → Piece

abbrev pub IsPiece : Piece → Type 0
IsPiece (plain c) = c ≢ b'\\'
IsPiece (other c) =
    (c ≢ b'x') × (c ≢ b'X') × (c ≢ b'r') × (c ≢ b'n') × (c ≢ b't') × (c ≢ b'0') × (c ≢ b'\\')
IsPiece (hex u b) = b < 256
IsPiece _ = Unit

abbrev pub spelling : Piece → Bytes
spelling (plain c) = c ∷ []
spelling carriage_return = codes "\\r"
spelling newline = codes "\\n"
spelling tab = codes "\\t"
spelling nul = codes "\\0"
spelling backslash = codes "\\\\"
spelling (other c) = b'\\' ∷ c ∷ []
spelling (hex u b) = b'\\' ∷ b'x' ∷ hex_char u (b / 16) ∷ hex_char u (b % 16) ∷ []

abbrev pub piece_value : Piece → ℕ
piece_value (plain c) = c
piece_value carriage_return = 13
piece_value newline = 10
piece_value tab = 9
piece_value nul = 0
piece_value backslash = 92
piece_value (other c) = c
piece_value (hex u b) = b

abbrev pub spell : List Piece → Bytes
spell [] = []
spell (p ∷ ps) = spelling p ++ spell ps

abbrev pub piece_values : List Piece → Bytes
piece_values [] = []
piece_values (p ∷ ps) = piece_value p ∷ piece_values ps

unescape_loop_piece :
    (max : ℕ) (p : Piece) (rest out : Bytes)
    → IsPiece p
    → unescape_loop max 0 (spelling p ++ rest) out ≡ (
        if leb max (length out)
        then err overflow
        else unescape_loop max 0 rest (out ++ piece_value p ∷ []))
unfolding unescape_loop unescape_one simple_escape
unescape_loop_piece max (plain c) [] out h = ground arith
unescape_loop_piece max (plain c) (d ∷ rest) out h = ground arith
unescape_loop_piece max carriage_return rest out h = ground arith
unescape_loop_piece max newline rest out h = ground arith
unescape_loop_piece max tab rest out h = ground arith
unescape_loop_piece max nul rest out h = ground arith
unescape_loop_piece max backslash rest out h = ground arith
unescape_loop_piece max (other c) rest out h = let (h1, h2, h3, h4, h5, h6, h7) = h in ground arith
unescape_loop_piece max (hex u b) rest out h =
    let hi : b / 16 < 16 = omega arith in
    let lo : b % 16 < 16 = omega arith in
    let join : join_nibbles (b / 16) (b % 16) ≡ b =
      omega (arith, join_nibbles_lem (b / 16) (b % 16) hi lo) in
    unfold hex_escape in
    ground (arith, hex_char_to_int-hex_char u _ hi, hex_char_to_int-hex_char u _ lo, join)

unescape_loop-spell :
    (max : ℕ) (ps : List Piece) (out : Bytes)
    → All IsPiece ps
    → length out ≤ max
    → unescape_loop max 0 (spell ps) out
      ≡ (if ltb max (length out + length ps) then err overflow else ok (out ++ piece_values ps))
unescape_loop-spell max [] out h fits = unfold unescape_loop in ground (arith, append-nil out)
unescape_loop-spell max (p ∷ ps) out (hp, h) fits = ground (
  arith,
  unescape_loop_piece max p (spell ps) out hp,
  unescape_loop-spell max ps (out ++ piece_value p ∷ []) h,
  length-append out (piece_value p ∷ []),
  append_assoc out (piece_value p ∷ []) (piece_values ps),
)

-- On a text of characters and escapes, unescape_string returns the byte of each piece in order if
-- the buffer has room for them, and the overflow error if it has not. The bytes of \r, \n, \t, \0 and
-- \\ are 13, 10, 9, 0 and 92, that of \xHH the number, and that of another escape its character.
pub unescape_string-spell :
    (ps : List Piece) (max : ℕ)
    → All IsPiece ps
    → unescape_string (some (spell ps)) (some max)
      ≡ (if ltb max (length ps) then err overflow else ok (piece_values ps))
unfolding unescape_string
unescape_string-spell ps max h = ground (arith, unescape_loop-spell max ps [] h)

unescape_loop-length :
    (max skip : ℕ) (src out r : Bytes)
    → length out ≤ max
    → unescape_loop max skip src out ≡ ok r
    → (length r ≤ max) × (length r ≤ length out + length src)
unfolding unescape_loop
unescape_loop-length max skip [] out r fits h = ground arith
unescape_loop-length max (suc skip) (c ∷ src) out r fits h =
    omega (arith, unescape_loop-length max skip src out r fits h)
unescape_loop-length max zero (c ∷ src) out r fits h = elim (Option-cases (unescape_one c src)) [
  | inl bad ↦ absurd (ground arith)
  | inr ((b, k), e) ↦
      ground (arith, unescape_loop-length max k src (out ++ b ∷ []) r, length-append out (b ∷ []))
]

-- Whatever the text, what unescape_string returns fits its buffer and is no longer than the text.
pub length-unescape_string :
    (src r : Bytes) (max : ℕ)
    → unescape_string (some src) (some max) ≡ ok r
    → (length r ≤ max) × (length r ≤ length src)
unfolding unescape_string
length-unescape_string src r max h =
    omega (arith, unescape_loop-length max 0 src [] r (omega arith) h)
