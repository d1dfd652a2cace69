-- ===== src/Oneshot/Prepared.antt =====
-- The payload that is sent, as socket_read_framed takes it.
use tcp_client.Base.{
  ℕ, ◌+◌, ◌/◌, ◌%◌, ◌≤◌, ◌≡◌, refl, sym, ap, ◌∙◌, arith, Bool, true, false, some, List, [], ◌∷◌,
  ◌++◌, Bytes, length, take, take-all, length-take-le, length-append, ltb, leb, Bool-cases, inl,
  inr, low_byte_lem, high_byte_lem, All, ok,
}
use tcp_client.Oneshot.Payload.{
  buf_size, shorten, append_char, add_term, cut_length, with_length, add_length, send_buf,
}
use tcp_client.Socket.Read.{Reply, ends, socket_read_framed}
use tcp_client.Socket.Frames.{IsData, socket_read_framed_lem}

-- The message of a frame: the bytes and the termination character, at most 65535 bytes in all.
abbrev pub message : Bool → ℕ → Bytes → Bytes
message false term_char bytes = take 65535 bytes
message true term_char bytes = take 65534 bytes ++ term_char ∷ []

abbrev pub framed : Bytes → Bytes
framed m = (length m / 256) ∷ (length m % 256) ∷ m

cut_length_lem : (bytes : Bytes) → cut_length bytes ≡ take 65535 bytes
unfolding cut_length
cut_length_lem bytes = elim (Bool-cases (ltb 65535 (length bytes))) [
  | inl p ↦ rw p refl
  | inr p ↦ rw p (sym (take-all 65535 bytes (ground arith)))
]

shorten_lem : (bytes : Bytes) → shorten true bytes ≡ take 65534 bytes
unfolding shorten
shorten_lem bytes = elim (Bool-cases (leb 65535 (length bytes))) [
  | inl p ↦ rw p refl
  | inr p ↦ rw p (sym (take-all 65534 bytes (ground arith)))
]

append_char_lem :
    (term_char : ℕ) (bytes : Bytes)
    → length bytes ≤ 65534
    → append_char term_char bytes ≡ bytes ++ term_char ∷ []
unfolding append_char buf_size
append_char_lem term_char bytes short = ground (arith, short)

with_length_lem : (m : Bytes) → length m ≤ 65535 → with_length m ≡ framed m
unfolding with_length
with_length_lem m short =
    rw (low_byte_lem (length m) (omega arith), high_byte_lem (length m) (omega arith)) refl

length-message : (b : Bool) (t : ℕ) (bytes : Bytes) → length (message b t bytes) ≤ 65535
length-message false t bytes = length-take-le 65535 bytes
length-message true t bytes =
    omega (arith, length-append (take 65534 bytes) (t ∷ []), length-take-le 65534 bytes)

add_term-message :
    (b : Bool) (t : ℕ) (bytes : Bytes) → cut_length (add_term b t true bytes) ≡ message b t bytes
unfolding add_term
add_term-message false t bytes = cut_length_lem bytes
add_term-message true t bytes =
    let short = length-take-le 65534 bytes in
    let size = length-append (take 65534 bytes) (t ∷ []) in
    rw (shorten_lem bytes, append_char_lem t (take 65534 bytes) short)
      (cut_length_lem (take 65534 bytes ++ t ∷ [])
        ∙ take-all 65535 (take 65534 bytes ++ t ∷ []) (omega arith))

-- With a length asked for, what is sent is the message behind its length in two bytes: the bytes of
-- the payload, and the termination character where there is one, cut to 65535 bytes in all so that
-- the termination character stays.
pub send_buf-framed :
    (b : Bool) (t : ℕ) (bytes : Bytes) → send_buf b t true bytes ≡ framed (message b t bytes)
unfolding send_buf add_length
send_buf-framed b t bytes =
    ap with_length (add_term-message b t bytes)
    ∙ with_length_lem (message b t bytes) (length-message b t bytes)

-- A payload sent with its length is read by socket_read_framed as one frame, message and all, and
-- what follows it is left for the next read; if the buffer has room for the longest frame, as many
-- answers come as the frame has bytes, and each hands over something.
pub socket_read_framed-send_buf :
    (max : ℕ) (b : Bool) (t : ℕ) (bytes more : Bytes) (replies : List Reply)
    → 65537 ≤ max
    → All IsData replies
    → 2 + length (message b t bytes) ≤ length replies
    → (rs : List Reply) × (socket_read_framed true max replies (send_buf b t true bytes ++ more)
        ≡ ends (some (ok (2 + length (message b t bytes)))) (framed (message b t bytes)) more rs)
socket_read_framed-send_buf max b t bytes more replies room live enough =
    let m = message b t bytes in
    let short = length-message b t bytes in
    rw (send_buf-framed b t bytes) (
      socket_read_framed_lem max (length m / 256) (length m % 256) m more replies (omega arith)
        (omega arith) (omega arith) (omega arith) live enough)
