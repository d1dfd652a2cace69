-- ===== src/Hex.antt =====
-- src/hex_utils.c: hexadecimal text and bytes, and backslash escapes.
-- A C string is the list of its bytes before the NUL; `none` stands for a NULL pointer.
pub mod Digits
pub mod Value
pub mod Meaning
pub mod RoundTrip
pub mod Bounds
pub mod Byte
pub mod Escape
mod Tests
use tcp_client.Base.{
  ℕ, zero, suc, ◌+◌, ◌-◌, ◌*◌, ◌/◌, ◌%◌, ◌^◌, bit_and, Bool, true, false, ◌&&◌, ◌||◌, Option, none,
  some, [], ◌∷◌, ◌++◌, Bytes, codes, ltb, leb, ◌==◌, if◌then◌else◌, length, get_elem?, join_nibbles,
  Result, ok, err,
}

-- What a call returns in place of 0: `invalid` is -1 and `overflow` is -2.
pub data HexError : Type 0 where
  invalid overflow : HexError

-- `isspace` in the C locale.
unfoldable pub is_space : ℕ → Bool
is_space c = c == b' ' || (leb 9 c && leb c 13)

-- `none` is -1.
unfoldable pub hex_char_to_int : ℕ → Option ℕ
hex_char_to_int c =
    if leb b'0' c && leb c b'9'
    then some (c - b'0')
    else if leb b'a' c && leb c b'f'
    then some (c - b'a' + 10)
    else if leb b'A' c && leb c b'F'
    then some (c - b'A' + 10)
    else none

-- `while (*s != '\0' && isspace(*s)) s++`
unfoldable pub skip_spaces : Bytes → Bytes
skip_spaces [] = []
skip_spaces (c ∷ s) = if is_space c then skip_spaces s else c ∷ s

-- The optional "0x" or "0X".
unfoldable pub skip_prefix : Bytes → Bytes
skip_prefix (a ∷ b ∷ s) = if a == b'0' && (b == b'x' || b == b'X') then s else a ∷ b ∷ s
skip_prefix s = s

-- A separator between hex digits.
unfoldable pub is_separator : ℕ → Bool
is_separator c = is_space c || c == b':' || c == b'-'

-- The loop of `hex_to_bytes`: `first` is `first_nibble`, `out` the bytes written so far.
unfoldable pub hex_loop : ℕ → Bytes → Option ℕ → Bytes → Result HexError Bytes
hex_loop max_buf_size [] none out = ok out
hex_loop max_buf_size [] (some first) out = err invalid
hex_loop max_buf_size (c ∷ s) first out = elim (is_separator c) [
  | true ↦ hex_loop max_buf_size s first out
  | false ↦ elim (hex_char_to_int c) [
    | none ↦ err invalid
    | some val ↦ elim first [
      | none ↦ hex_loop max_buf_size s (some val) out
      | some nibble ↦ elim (leb max_buf_size (length out)) [
        | true ↦ err overflow
        | false ↦ hex_loop max_buf_size s none (out ++ join_nibbles nibble val ∷ [])
      ]
    ]
  ]
]

-- The second argument is the capacity of `out_buf`, `none` where `out_buf` or `out_len` is NULL.
unfoldable pub hex_to_bytes : Option Bytes → Option ℕ → Result HexError Bytes
hex_to_bytes none cap = err invalid
hex_to_bytes (some hex_str) none = err invalid
hex_to_bytes (some hex_str) (some max_buf_size) =
    hex_loop max_buf_size (skip_prefix (skip_spaces hex_str)) none []

-- `hex_chars[n]`: a read past the digits would be the NUL.
unfoldable pub hex_char : Bool → ℕ → ℕ
hex_char uppercase n =
    elim (get_elem? (if uppercase then codes "0123456789ABCDEF" else codes "0123456789abcdef") n) [
      | none ↦ 0
      | some c ↦ c
    ]

-- The loop of `bytes_to_hex`, from byte `i` on.
unfoldable pub bytes_loop : Bool → Bool → Bytes → Bytes
bytes_loop uppercase add_spaces [] = []
bytes_loop uppercase add_spaces (b ∷ rest) =
    hex_char uppercase (bit_and (b / 2 ^ 4) 0x0F)
    ∷ hex_char uppercase (bit_and b 0x0F)
    ∷ ((if add_spaces && ltb 1 (length (b ∷ rest)) then b' ' ∷ [] else [])
        ++ bytes_loop uppercase add_spaces rest)

-- The bytes that the text of `in_len` bytes takes, its NUL included.
unfoldable pub required_size : ℕ → Bool → ℕ
required_size in_len add_spaces =
    let required = if add_spaces then in_len * 3 else in_len * 2 in
    (if ltb 0 in_len && add_spaces then required - 1 else required) + 1

-- The third argument is the capacity of `out_str`; the text returned is followed by a NUL.
unfoldable pub bytes_to_hex : Option Bytes → Option ℕ → Bool → Bool → Result HexError Bytes
bytes_to_hex none cap uppercase add_spaces = err invalid
bytes_to_hex (some in_buf) none uppercase add_spaces = err invalid
bytes_to_hex (some in_buf) (some max_out_size) uppercase add_spaces =
    if max_out_size == 0
    then err invalid
    else if ltb max_out_size (required_size (length in_buf) add_spaces)
    then err invalid
    else ok (bytes_loop uppercase add_spaces in_buf)

-- The digit loop of `parse_hex_byte`: at most two digits, up to a space or the end; what is left.
unfoldable pub collect_digits : Bytes → Bytes → Option (Bytes × Bytes)
collect_digits digits [] = some (digits, [])
collect_digits digits (c ∷ str) = elim (is_space c) [
  | true ↦ some (digits, c ∷ str)
  | false ↦ elim (leb 2 (length digits)) [
    | true ↦ none
    | false ↦ elim (hex_char_to_int c) [
      | none ↦ none
      | some val ↦ collect_digits (digits ++ val ∷ []) str
    ]
  ]
]

-- The last loop of `parse_hex_byte`.
unfoldable pub only_spaces : Bytes → Bool
only_spaces [] = true
only_spaces (c ∷ str) = is_space c && only_spaces str

-- The byte that one or two digits make.
unfoldable pub byte_of_digits : Bytes → Result HexError ℕ
byte_of_digits (a ∷ []) = ok (a % 2 ^ 8)
byte_of_digits (a ∷ b ∷ []) = ok (join_nibbles a b)
byte_of_digits _ = err invalid

unfoldable pub parse_digits : Bytes → Result HexError ℕ
parse_digits [] = err invalid
parse_digits (c ∷ str) = elim (collect_digits [] (c ∷ str)) [
  | none ↦ err invalid
  | some (digits, rest) ↦ if only_spaces rest then byte_of_digits digits else err invalid
]

-- The flag is false where `out_byte` is NULL.
unfoldable pub parse_hex_byte : Option Bytes → Bool → Result HexError ℕ
parse_hex_byte none out = err invalid
parse_hex_byte (some str) false = err invalid
parse_hex_byte (some str) true = parse_digits (skip_prefix (skip_spaces str))

-- `\x` with what follows it: the byte, and how many characters behind the backslash it takes.
unfoldable pub hex_escape : Bytes → Option (ℕ × ℕ)
hex_escape (a ∷ b ∷ s) = elim (hex_char_to_int a) [
  | none ↦ none
  | some h1 ↦ elim (hex_char_to_int b) [ none ↦ none | some h2 ↦ some (join_nibbles h1 h2, 3) ]
]
hex_escape _ = none

-- The byte of the escapes of one character.
unfoldable pub simple_escape : ℕ → ℕ
simple_escape next =
    if next == b'r'
    then b'\r'
    else if next == b'n'
    then b'\n'
    else if next == b't'
    then b'\t'
    else if next == b'0'
    then 0
    else if next == b'\\'
    then b'\\'
    else next

-- The byte that `src[i]` starts, and how far `i` moves on besides its own step; `none` is -1.
unfoldable pub unescape_one : ℕ → Bytes → Option (ℕ × ℕ)
unescape_one c [] = some (c, 0)
unescape_one c (next ∷ s) =
    if c == b'\\'
    then (if next == b'x' || next == b'X' then hex_escape s else some (simple_escape next, 1))
    else some (c, 0)

-- The loop of `unescape_string`: `skip` characters are already read, `out` is written.
unfoldable pub unescape_loop : ℕ → ℕ → Bytes → Bytes → Result HexError Bytes
unescape_loop max_buf_size skip [] out = ok out
unescape_loop max_buf_size (suc skip) (c ∷ src) out = unescape_loop max_buf_size skip src out
unescape_loop max_buf_size zero (c ∷ src) out = elim (leb max_buf_size (length out)) [
  | true ↦ err overflow
  | false ↦ elim (unescape_one c src) [
    | none ↦ err invalid
    | some (b, skip) ↦ unescape_loop max_buf_size skip src (out ++ b ∷ [])
  ]
]

-- The second argument is the capacity of `out_buf`, `none` where `out_buf` or `out_len` is NULL.
unfoldable pub unescape_string : Option Bytes → Option ℕ → Result HexError Bytes
unescape_string none cap = err invalid
unescape_string (some src) none = err invalid
unescape_string (some src) (some max_buf_size) = unescape_loop max_buf_size 0 src []
