-- ===== src/Hsm/Fits.antt =====
-- The fields of a response that hsm_parse_response accepts, and the rows of ERROR_TABLE.
use tcp_client.Base.{
  ℕ, suc, join_bytes, ◌+◌, ◌≤◌, ◌≡◌, refl, arith, ◌&&◌, Option, none, some, [], ◌∷◌, Bytes, length,
  ltb, leb, ◌==◌, if◌then◌else◌, length-take-le, length-drop, All, Bool-cases, inl, inr,
}
use tcp_client.Hsm.Names.{error_table, error_description, lookup_loop, is_code}
use tcp_client.Hsm.Response.{
  Response, TcpLength, Header, room, copied, looks_framed, read_tcp_len, read_header, split_payload,
  copy_trailer, response_of, read_codes, hsm_parse_response,
}

-- The table has no row that an earlier one hides: looking up the code of each row gives the row's description.
pub error_description-error_table :
    All (λ e. error_description e.first e.second ≡ e.description) error_table
unfolding error_description error_table lookup_loop is_code
error_description-error_table = search

read_header-Fits :
    (n : ℕ) (bytes : Bytes)
    → (length (read_header n bytes).bytes ≤ 63)
      × (length (read_header n bytes).bytes + length (read_header n bytes).rest ≤ length bytes)
unfolding read_header copied room
read_header-Fits n bytes = elim (Bool-cases (ltb 0 n && leb n (length bytes))) [
  | inl p ↦ rw p (
      let kept = length-take-le (if ltb n 63 then n else 63) bytes in
      let left = length-drop n bytes in (ground arith, ground arith))
  | inr p ↦ rw p (omega arith, omega arith)
]

read_tcp_len-Fits :
    (bytes : Bytes)
    → (length (read_tcp_len bytes).rest ≤ length bytes)
      × (length bytes ≤ length (read_tcp_len bytes).rest + 2)
unfolding read_tcp_len
read_tcp_len-Fits [] = (omega arith, omega arith)
read_tcp_len-Fits (hi ∷ []) = (omega arith, omega arith)
read_tcp_len-Fits (hi ∷ lo ∷ bytes) =
    elim (Bool-cases (looks_framed (join_bytes hi lo) (length bytes + 2))) [
      | inl p ↦ rw p (omega arith, omega arith)
      | inr p ↦ rw p (omega arith, omega arith)
    ]

size_of : Option Bytes → ℕ
size_of none = 0
size_of (some bytes) = suc (length bytes)

split_payload-length :
    (bytes : Bytes)
    → length (split_payload bytes).payload + size_of (split_payload bytes).behind ≡ length bytes
unfolding split_payload size_of
split_payload-length [] = refl
split_payload-length (b ∷ bytes) =
    let rest = split_payload-length bytes in
    elim (Bool-cases (b == 0x19)) [ inl p ↦ rw p (omega arith) | inr p ↦ rw p (omega arith) ]

copy_trailer-Fits :
    (behind : Option Bytes)
    → (length (copy_trailer behind) ≤ 63) × (length (copy_trailer behind) ≤ size_of behind)
unfolding copy_trailer copied room size_of
copy_trailer-Fits none = (omega arith, omega arith)
copy_trailer-Fits (some bytes) =
    let kept = length-take-le (if ltb (length bytes) 63 then length bytes else 63) bytes in
    (ground arith, ground arith)

-- The buffers of the response hold what is copied to them, and its parts have room in the input.
pub record Fits (len : ℕ) (r : Response) : Type 0 where
  pub header_fits : r.header_len ≤ 63
  pub trailer_fits : r.trailer_len ≤ 63
  pub parts_fit : r.header_len + 4 + r.payload_len + r.trailer_len ≤ len

FitsIf : ℕ → Option Response → Type 0
FitsIf len none = Unit
FitsIf len (some r) = Fits len r

FitsIf-some :
    (len : ℕ) (o : Option Response) (r : Response) → FitsIf len o → o ≡ some r → Fits len r
unfolding FitsIf
FitsIf-some len o r h e = rw e at h

response_of-Fits :
    (tcp : TcpLength) (h : Header) (r1 r2 e1 e2 : ℕ) (bytes : Bytes) (len : ℕ)
    → length h.bytes ≤ 63
    → length h.bytes + (length bytes + 4) ≤ len
    → Fits len (response_of tcp h r1 r2 e1 e2 (split_payload bytes))
unfolding response_of
response_of-Fits tcp h r1 r2 e1 e2 bytes len small all =
    let cut = split_payload-length bytes in
    let kept = copy_trailer-Fits (split_payload bytes).behind in
    record { header_fits = small; trailer_fits = kept.0; parts_fit = omega arith }

read_codes-Fits :
    (tcp : TcpLength) (h : Header) (bytes : Bytes) (len : ℕ)
    → length h.bytes ≤ 63
    → length h.bytes + length bytes ≤ len
    → FitsIf len (read_codes tcp h bytes)
unfolding read_codes FitsIf
read_codes-Fits tcp h [] len small all = tt
read_codes-Fits tcp h (r1 ∷ []) len small all = tt
read_codes-Fits tcp h (r1 ∷ r2 ∷ []) len small all = tt
read_codes-Fits tcp h (r1 ∷ r2 ∷ e1 ∷ []) len small all = tt
read_codes-Fits tcp h (r1 ∷ r2 ∷ e1 ∷ e2 ∷ bytes) len small all =
    response_of-Fits tcp h r1 r2 e1 e2 bytes len small (omega arith)

-- A response that hsm_parse_response accepts has at most 63 bytes of header and of trailer, and its
-- header, two codes, payload and trailer together are no longer than the buffer.
pub hsm_parse_response-Fits :
    (buf : Bytes) (header_len : ℕ) (r : Response)
    → hsm_parse_response buf header_len ≡ some r
    → Fits (length buf) r
unfolding hsm_parse_response
hsm_parse_response-Fits [] header_len r e = FitsIf-some _ none r (unfold FitsIf in tt) e
hsm_parse_response-Fits (b ∷ buf) header_len r e =
    let tcp = read_tcp_len-Fits (b ∷ buf) in
    let h = read_header-Fits header_len (read_tcp_len (b ∷ buf)).rest in
    FitsIf-some _ _ r (read_codes-Fits _ _ _ _ h.0 (omega arith)) e

read_codes-accepts :
    (tcp : TcpLength) (h : Header) (bytes : Bytes)
    → 4 ≤ length bytes
    → (r : Response) × (read_codes tcp h bytes ≡ some r)
unfolding read_codes
read_codes-accepts tcp h [] four = absurd (omega arith)
read_codes-accepts tcp h (r1 ∷ []) four = absurd (omega arith)
read_codes-accepts tcp h (r1 ∷ r2 ∷ []) four = absurd (omega arith)
read_codes-accepts tcp h (r1 ∷ r2 ∷ e1 ∷ []) four = absurd (omega arith)
read_codes-accepts tcp h (r1 ∷ r2 ∷ e1 ∷ e2 ∷ bytes) four = (_, refl)

read_header-rest : (n : ℕ) (bytes : Bytes) → length bytes ≤ n + length (read_header n bytes).rest
unfolding read_header
read_header-rest n bytes = elim (Bool-cases (ltb 0 n && leb n (length bytes))) [
  | inl p ↦ rw p (let left = length-drop n bytes in omega arith)
  | inr p ↦ rw p (omega arith)
]

-- hsm_parse_response accepts every buffer that has room for a TCP length, the header and two codes.
pub hsm_parse_response-accepts :
    (buf : Bytes) (header_len : ℕ)
    → header_len + 6 ≤ length buf
    → (r : Response) × (hsm_parse_response buf header_len ≡ some r)
unfolding hsm_parse_response
hsm_parse_response-accepts [] header_len long = absurd (omega arith)
hsm_parse_response-accepts (b ∷ buf) header_len long =
    let tcp = read_tcp_len-Fits (b ∷ buf) in
    let rest = read_header-rest header_len (read_tcp_len (b ∷ buf)).rest in
    read_codes-accepts _ _ _ (omega arith)
