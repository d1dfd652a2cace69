-- ===== src/Hsm/Response.antt =====
-- hsm_parse_response: a response is cut into the TCP length, the message header, the response code,
-- the error code, the payload and the trailer behind the end-of-message byte.
use tcp_client.Base.{
  ℕ, ◌+◌, ◌-◌, Bool, true, false, ◌&&◌, ◌||◌, Option, none, some, [], ◌∷◌, Bytes, length, take,
  drop, ltb, leb, ◌==◌, if◌then◌else◌, join_bytes, String,
}
use tcp_client.Hsm.Names.{command_name, error_description}

-- hsm_response_t. A buffer is what is copied to it before its zero byte, and the `_len` field
-- of one is its length, which the code sets with it.
pub record Response : Type 0 where
  pub has_tcp_len : Bool
  pub tcp_len : ℕ
  pub header : Bytes
  pub header_len : ℕ
  pub response_code : Bytes
  pub response_name : String
  pub error_code : Bytes
  pub error_text : String
  pub is_success : Bool
  pub payload : Bytes
  pub payload_len : ℕ
  pub has_delimiter : Bool
  pub trailer : Bytes
  pub trailer_len : ℕ

-- `sizeof(resp->header) - 1`, which is also the room of the trailer.
unfoldable pub room : ℕ
room = 63

-- `(n < room) ? n : room`
unfoldable pub copied : ℕ → ℕ
copied n = if ltb n room then n else room

-- What has been read, and the bytes from `pos` on.
pub record TcpLength : Type 0 where
  pub found : Bool
  pub value : ℕ
  pub rest : Bytes

unfoldable pub looks_framed : ℕ → ℕ → Bool
looks_framed tcp_len len = tcp_len == (len - 2) || (ltb 4 len && leb tcp_len len)

unfoldable pub read_tcp_len : Bytes → TcpLength
read_tcp_len [] = record { found = false; value = 0; rest = [] }
read_tcp_len (hi ∷ []) = record { found = false; value = 0; rest = hi ∷ [] }
read_tcp_len (hi ∷ lo ∷ bytes) =
    if looks_framed (join_bytes hi lo) (length bytes + 2)
    then record { found = true; value = join_bytes hi lo; rest = bytes }
    else record { found = false; value = 0; rest = hi ∷ lo ∷ bytes }

pub record Header : Type 0 where
  pub bytes : Bytes
  pub rest : Bytes

unfoldable pub read_header : ℕ → Bytes → Header
read_header header_len bytes =
    if ltb 0 header_len && leb header_len (length bytes)
    then record { bytes = take (copied header_len) bytes; rest = drop header_len bytes }
    else record { bytes = []; rest = bytes }

-- The payload before the first 0x19, and what stands behind that byte where there is one.
pub record Tail : Type 0 where
  pub payload : Bytes
  pub behind : Option Bytes

unfoldable pub split_payload : Bytes → Tail
split_payload [] = record { payload = []; behind = none }
split_payload (b ∷ bytes) =
    let t = split_payload bytes in
    if b == 0x19
    then record { payload = []; behind = some bytes }
    else record { payload = b ∷ t.payload; behind = t.behind }

unfoldable pub has_some : Option Bytes → Bool
has_some none = false
has_some (some bytes) = true

unfoldable pub copy_trailer : Option Bytes → Bytes
copy_trailer none = []
copy_trailer (some bytes) = take (copied (length bytes)) bytes

unfoldable pub response_of : TcpLength → Header → ℕ → ℕ → ℕ → ℕ → Tail → Response
response_of tcp h r1 r2 e1 e2 t = record {
  has_tcp_len = tcp.found;
  tcp_len = tcp.value;
  header = h.bytes;
  header_len = length h.bytes;
  response_code = r1 ∷ r2 ∷ [];
  response_name = command_name r1 r2;
  error_code = e1 ∷ e2 ∷ [];
  error_text = error_description e1 e2;
  is_success = e1 == b'0' && e2 == b'0';
  payload = t.payload;
  payload_len = length t.payload;
  has_delimiter = has_some t.behind;
  trailer = copy_trailer t.behind;
  trailer_len = length (copy_trailer t.behind);
}

-- The two codes: `none` where the packet is too short for them.
unfoldable pub read_codes : TcpLength → Header → Bytes → Option Response
read_codes tcp h (r1 ∷ r2 ∷ e1 ∷ e2 ∷ bytes) =
    some (response_of tcp h r1 r2 e1 e2 (split_payload bytes))
read_codes tcp h bytes = none

-- `none` stands for -1. Neither pointer is NULL.
unfoldable pub hsm_parse_response : Bytes → ℕ → Option Response
hsm_parse_response [] header_len = none
hsm_parse_response (b ∷ buf) header_len =
    let tcp = read_tcp_len (b ∷ buf) in
    let h = read_header header_len tcp.rest in read_codes tcp h h.rest
