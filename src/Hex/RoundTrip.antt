-- ===== src/Hex/RoundTrip.antt =====
-- `hex_to_bytes` on what `bytes_to_hex` writes.
use tcp_client.Base.{
  ℕ, ◌+◌, ◌/◌, ◌%◌, ◌≤◌, ◌<◌, ◌≡◌, refl, sym, ap, ◌∙◌, arith, Bool, true, false, ◌&&◌, none, some,
  [], ◌∷◌, ◌++◌, append-nil, append_assoc, Bytes, AreBytes, length, length-append, ltb, leb,
  if◌then◌else◌, join_nibbles, join_nibbles_lem, high_nibble_lem, low_nibble_lem, ok,
}
use tcp_client.Hex.{
  is_space, is_separator, skip_spaces, skip_prefix, hex_loop, hex_to_bytes, hex_char, bytes_loop,
  bytes_to_hex,
}
use tcp_client.Hex.Digits.{
  hex_char_to_int-hex_char, is_separator-hex_char, is_space-hex_char, hex_char-ne-x,
}

-- The two digits of a byte, in front of any text, are read as that byte.
hex_loop_byte :
    (max b : ℕ) (u : Bool) (rest out : Bytes)
    → b < 256
    → length out < max
    → hex_loop max (hex_char u (b / 16) ∷ hex_char u (b % 16) ∷ rest) none out
      ≡ hex_loop max rest none (out ++ b ∷ [])
unfolding hex_loop
hex_loop_byte max b u rest out h room =
    let hi : b / 16 < 16 = omega arith in
    let lo : b % 16 < 16 = omega arith in
    let full : leb max (length out) ≡ false = ground arith in
    let join : join_nibbles (b / 16) (b % 16) ≡ b =
      omega (arith, join_nibbles_lem (b / 16) (b % 16) hi lo) in
    ground (
      arith,
      is_separator-hex_char u _ hi,
      hex_char_to_int-hex_char u _ hi,
      is_separator-hex_char u _ lo,
      hex_char_to_int-hex_char u _ lo,
      full,
      join,
    )

hex_loop_space :
    (max : ℕ) (b : Bool) (rest out : Bytes)
    → hex_loop max ((if b then b' ' ∷ [] else []) ++ rest) none out ≡ hex_loop max rest none out
unfolding hex_loop is_separator is_space
hex_loop_space max true rest out = refl
hex_loop_space max false rest out = refl

bytes_loop-cons :
    (u sp : Bool) (b : ℕ) (bs : Bytes)
    → b < 256
    → bytes_loop u sp (b ∷ bs)
      ≡ hex_char u (b / 16)
        ∷ hex_char u (b % 16)
        ∷ ((if sp && ltb 1 (length (b ∷ bs)) then b' ' ∷ [] else []) ++ bytes_loop u sp bs)
bytes_loop-cons u sp b bs h = unfold bytes_loop in rw (high_nibble_lem b h, low_nibble_lem b h)

hex_loop-bytes_loop :
    (max : ℕ) (u sp : Bool) (bs out : Bytes)
    → AreBytes bs
    → length out + length bs ≤ max
    → hex_loop max (bytes_loop u sp bs) none out ≡ ok (out ++ bs)
hex_loop-bytes_loop max u sp [] out h room =
    unfold bytes_loop hex_loop in ap ok (sym (append-nil out))
hex_loop-bytes_loop max u sp (b ∷ bs) out (hb, h) room =
    rw (bytes_loop-cons u sp b bs hb, hex_loop_byte max b u _ out hb (omega arith), hex_loop_space)
      (hex_loop-bytes_loop max u sp bs (out ++ b ∷ []) h (omega (arith, length-append out (b ∷ [])))
        ∙ ap ok (append_assoc out (b ∷ []) bs))

-- No space and no prefix is skipped in front of written digits.
skip-bytes_loop :
    (u sp : Bool) (bs : Bytes)
    → AreBytes bs
    → skip_prefix (skip_spaces (bytes_loop u sp bs)) ≡ bytes_loop u sp bs
skip-bytes_loop u sp [] h = unfold bytes_loop skip_prefix skip_spaces in refl
skip-bytes_loop u sp (b ∷ bs) (hb, h) =
    let hi : b / 16 < 16 = omega arith in
    let lo : b % 16 < 16 = omega arith in
    rw (bytes_loop-cons u sp b bs hb) (
      unfold skip_prefix skip_spaces in
      rw (is_space-hex_char u _ hi) (ground (arith, hex_char-ne-x u (b % 16) lo)))

pub hex_to_bytes-bytes_loop :
    (u sp : Bool) (bs : Bytes) (max : ℕ)
    → AreBytes bs
    → length bs ≤ max
    → hex_to_bytes (some (bytes_loop u sp bs)) (some max) ≡ ok bs
unfolding hex_to_bytes
hex_to_bytes-bytes_loop u sp bs max h room =
    rw (skip-bytes_loop u sp bs h) (hex_loop-bytes_loop max u sp bs [] h (omega arith))

-- Whatever bytes_to_hex writes, in either case and with or without spaces, hex_to_bytes reads back
-- as the bytes written, if they fit its buffer.
pub hex_to_bytes-bytes_to_hex :
    (u sp : Bool) (bs text : Bytes) (size max : ℕ)
    → AreBytes bs
    → bytes_to_hex (some bs) (some size) u sp ≡ ok text
    → length bs ≤ max
    → hex_to_bytes (some text) (some max) ≡ ok bs
hex_to_bytes-bytes_to_hex u sp bs text size max h written room =
    let same : text ≡ bytes_loop u sp bs = unfold bytes_to_hex in ground arith in
    rw same (hex_to_bytes-bytes_loop u sp bs max h room)
