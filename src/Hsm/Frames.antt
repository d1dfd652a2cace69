-- ===== src/Hsm/Frames.antt =====
-- Parsing a response that was put together as the protocol says.
use tcp_client.Base.{
  ℕ, ◌+◌, ◌*◌, ◌/◌, ◌%◌, ◌<◌, ◌≤◌, ◌≡◌, ◌≢◌, refl, ap, ◌∙◌, arith, Bool, true, false, ◌&&◌, Option,
  none, some, [], ◌∷◌, ◌++◌, Bytes, length, take, ltb, leb, ◌==◌, join_bytes_lem, length-append,
  take-append, drop-append, take-all, All, Bool-cases, inl, inr,
}
use tcp_client.Hsm.Names.{command_name, error_description}
use tcp_client.Hsm.Response.{
  Response, TcpLength, Header, room, copied, looks_framed, read_tcp_len, read_header, split_payload,
  has_some, copy_trailer, response_of, read_codes, hsm_parse_response,
}

-- `b` is not the end-of-message byte.
abbrev pub IsNotEnd : ℕ → Type 0
IsNotEnd b = b ≢ 0x19

-- The two codes, the payload, and the end-of-message byte with the trailer behind it.
abbrev pub body : ℕ → ℕ → ℕ → ℕ → Bytes → Option Bytes → Bytes
body r1 r2 e1 e2 payload none = r1 ∷ r2 ∷ e1 ∷ e2 ∷ payload
body r1 r2 e1 e2 payload (some trailer) = r1 ∷ r2 ∷ e1 ∷ e2 ∷ payload ++ 0x19 ∷ trailer

-- A message with its length in two bytes, the higher one first.
abbrev pub framed : Bytes → Bytes
framed message = (length message / 256) ∷ (length message % 256) ∷ message

split_payload-end :
    (payload trailer : Bytes)
    → All IsNotEnd payload
    → split_payload (payload ++ 0x19 ∷ trailer)
      ≡ record { payload = payload; behind = some trailer }
unfolding split_payload
split_payload-end [] trailer h = refl
split_payload-end (b ∷ payload) trailer h =
    let apart = h.0 in rw (split_payload-end payload trailer h.1) (ground arith)

split_payload-none :
    (payload : Bytes)
    → All IsNotEnd payload
    → split_payload payload ≡ record { payload = payload; behind = none }
unfolding split_payload
split_payload-none [] h = refl
split_payload-none (b ∷ payload) h =
    let apart = h.0 in rw (split_payload-none payload h.1) (ground arith)

looks-length : (n : ℕ) → looks_framed n (n + 2) ≡ true
unfolding looks_framed
looks-length n = ground arith

read_tcp_len-framed :
    (message : Bytes)
    → length message < 65536
    → read_tcp_len (framed message)
      ≡ record { found = true; value = length message; rest = message }
unfolding read_tcp_len
read_tcp_len-framed message h =
    let e =
      join_bytes_lem (length message / 256) (length message % 256) (omega arith) (omega arith) in
    let whole : length message / 256 * 256 + length message % 256 ≡ length message = omega arith in
    rw (e, whole, looks-length (length message)) refl

copied-fits : (n : ℕ) → n ≤ 63 → copied n ≡ n
unfolding copied room
copied-fits n h = ground arith

read_header-some :
    (header message : Bytes)
    → 0 < length header
    → length header ≤ 63
    → read_header (length header) (header ++ message) ≡ record { bytes = header; rest = message }
unfolding read_header
read_header-some header message some_byte h =
    let whole = length-append header message in
    let test : (ltb 0 (length header) && leb (length header) (length (header ++ message))) ≡ true =
      ground arith in
    rw (test, copied-fits (length header) h, take-append header message, drop-append header message)
      refl

read_header-append :
    (header message : Bytes)
    → length header ≤ 63
    → read_header (length header) (header ++ message) ≡ record { bytes = header; rest = message }
unfolding read_header
read_header-append [] message h = refl
read_header-append (b ∷ header) message h = read_header-some (b ∷ header) message (omega arith) h

-- The trailer, whether there is one and what is kept of it.
abbrev pub trailer_of : Option Bytes → Bytes
trailer_of none = []
trailer_of (some trailer) = take 63 trailer

abbrev pub is_there : Option Bytes → Bool
is_there none = false
is_there (some trailer) = true

-- The parts of a message behind its length of two bytes, as fields.
abbrev pub parts : ℕ → Bytes → ℕ → ℕ → ℕ → ℕ → Bytes → Option Bytes → Response
parts n header r1 r2 e1 e2 payload behind = record {
  has_tcp_len = true;
  tcp_len = n;
  header = header;
  header_len = length header;
  response_code = r1 ∷ r2 ∷ [];
  response_name = command_name r1 r2;
  error_code = e1 ∷ e2 ∷ [];
  error_text = error_description e1 e2;
  is_success = e1 == b'0' && e2 == b'0';
  payload = payload;
  payload_len = length payload;
  has_delimiter = is_there behind;
  trailer = trailer_of behind;
  trailer_len = length (trailer_of behind);
}

copy_trailer_lem : (behind : Option Bytes) → copy_trailer behind ≡ trailer_of behind
unfolding copy_trailer copied room
copy_trailer_lem none = refl
copy_trailer_lem (some trailer) = elim (Bool-cases (ltb (length trailer) 63)) [
  | inl p ↦
      rw (p, take-all (length trailer) trailer (omega arith), take-all 63 trailer (ground arith))
        refl
  | inr p ↦ rw p refl
]

has_some_lem : (behind : Option Bytes) → has_some behind ≡ is_there behind
unfolding has_some
has_some_lem none = refl
has_some_lem (some trailer) = refl

response_of-parts :
    (n : ℕ) (rest header left : Bytes) (r1 r2 e1 e2 : ℕ) (payload : Bytes) (behind : Option Bytes)
    → response_of
        (record { found = true; value = n; rest = rest })
        (record { bytes = header; rest = left })
        r1
        r2
        e1
        e2
        (record { payload = payload; behind = behind })
      ≡ parts n header r1 r2 e1 e2 payload behind
unfolding response_of
response_of-parts n rest header left r1 r2 e1 e2 payload behind =
    rw (copy_trailer_lem behind, has_some_lem behind) refl

read_codes-body :
    (tcp : TcpLength) (h : Header) (r1 r2 e1 e2 : ℕ) (payload : Bytes) (behind : Option Bytes)
    → All IsNotEnd payload
    → read_codes tcp h (body r1 r2 e1 e2 payload behind)
      ≡ some (response_of tcp h r1 r2 e1 e2 (record { payload = payload; behind = behind }))
unfolding read_codes
read_codes-body tcp h r1 r2 e1 e2 payload none p = rw (split_payload-none payload p) refl
read_codes-body tcp h r1 r2 e1 e2 payload (some trailer) p =
    rw (split_payload-end payload trailer p) refl

-- A message behind its length of two bytes: for a header of at most 63 bytes and a payload without
-- the byte 0x19, hsm_parse_response gives the length, the header, the codes with their descriptions, the
-- payload and the first 63 bytes of the trailer that the message was put together from.
pub hsm_parse_response-framed :
    (header : Bytes) (r1 r2 e1 e2 : ℕ) (payload : Bytes) (behind : Option Bytes)
    → length header ≤ 63
    → All IsNotEnd payload
    → length (header ++ body r1 r2 e1 e2 payload behind) < 65536
    → hsm_parse_response (framed (header ++ body r1 r2 e1 e2 payload behind)) (length header)
      ≡ some (
          parts
            (length (header ++ body r1 r2 e1 e2 payload behind))
            header
            r1
            r2
            e1
            e2
            payload
            behind)
unfolding hsm_parse_response
hsm_parse_response-framed header r1 r2 e1 e2 payload behind h p short =
    let message = body r1 r2 e1 e2 payload behind in
    let tcp = read_tcp_len-framed (header ++ message) short in
    rw (tcp, read_header-append header message h)
      (read_codes-body _ _ r1 r2 e1 e2 payload behind p
        ∙ ap some (response_of-parts _ _ header _ r1 r2 e1 e2 payload behind))
