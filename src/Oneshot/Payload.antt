-- ===== src/Oneshot/Payload.antt =====
-- What run_oneshot_mode puts into `send_buf` for a payload of bytes, which is HEX or ASCII.
use tcp_client.Base.{
  ℕ, ◌/◌, ◌^◌, Bool, ◌&&◌, [], ◌∷◌, ◌++◌, Bytes, length, take, ltb, leb, if◌then◌else◌, bit_and,
}

-- `sizeof(hex_bytes)` and `sizeof(ascii_bytes)`
unfoldable pub buf_size : ℕ
buf_size = 65536

unfoldable pub shorten : Bool → Bytes → Bytes
shorten add_tcp_len bytes =
    if add_tcp_len && leb 65535 (length bytes) then take 65534 bytes else bytes

unfoldable pub append_char : ℕ → Bytes → Bytes
append_char term_char bytes = if ltb (length bytes) buf_size then bytes ++ term_char ∷ [] else bytes

-- The termination character, where there is one.
unfoldable pub add_term : Bool → ℕ → Bool → Bytes → Bytes
add_term has_term_char term_char add_tcp_len bytes =
    if has_term_char then append_char term_char (shorten add_tcp_len bytes) else bytes

unfoldable pub cut_length : Bytes → Bytes
cut_length bytes = if ltb 65535 (length bytes) then take 65535 bytes else bytes

unfoldable pub with_length : Bytes → Bytes
with_length bytes = bit_and (length bytes / 2 ^ 8) 0xFF ∷ bit_and (length bytes) 0xFF ∷ bytes

-- The length in front, where it is asked for.
unfoldable pub add_length : Bool → Bytes → Bytes
add_length add_tcp_len bytes = if add_tcp_len then with_length (cut_length bytes) else bytes

unfoldable pub send_buf : Bool → ℕ → Bool → Bytes → Bytes
send_buf has_term_char term_char add_tcp_len bytes =
    add_length add_tcp_len (add_term has_term_char term_char add_tcp_len bytes)
