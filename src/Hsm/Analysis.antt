-- ===== src/Hsm/Analysis.antt =====
-- hsm_format_analysis: the text about a response that has been parsed.
-- A line is what its format string and arguments give; `%s` stops at a NUL. The names of a parsed
-- response are never NULL.
use tcp_client.Base.{
  ℕ, ◌+◌, ◌-◌, ◌/◌, ◌%◌, ◌^◌, Bool, true, false, ◌&&◌, ◌||◌, Option, none, some, List, [], ◌∷◌,
  ◌++◌, Bytes, codes, length, take, drop, ltb, leb, ◌==◌, if◌then◌else◌, decimal, Result, ok, err,
}
use tcp_client.Hex.{HexError, hex_char, bytes_to_hex, skip_spaces}
use tcp_client.Cli.Numbers.{read_digits}
use tcp_client.Linenoise.Memory.{◌>>=◌}
use tcp_client.Linenoise.History.{before_nul}
use tcp_client.Hsm.Response.{Response}

-- An array of `capacity` characters: the string in it, and `off`, where the next line goes.
pub record Buffer : Type 0 where
  pub capacity : ℕ
  pub text : Bytes
  pub off : ℕ

-- A text and its NUL are written from `off` on; `none` is a write outside the array.
unfoldable pub write_at : Buffer → Bytes → Option Bytes
write_at b text =
    if ltb (b.off + length text) b.capacity then some (take b.off b.text ++ text) else none

-- vsnprintf writes as much of the line as fits `buf_size` with its NUL, and returns the length of the
-- whole.
unfoldable pub append_breakdown_line : ℕ → Buffer → Bytes → Option Buffer
append_breakdown_line buf_size b line =
    if leb buf_size b.off
    then some b
    else (write_at b (take (buf_size - b.off - 1) line) >>= (λ (text : Bytes). some (record {
      capacity = b.capacity;
      text = text;
      off = if leb buf_size (b.off + length line) then buf_size - 1 else b.off + length line;
    })))

unfoldable pub append_all : ℕ → Buffer → List Bytes → Option Buffer
append_all buf_size b [] = some b
append_all buf_size b (line ∷ lines) =
    append_breakdown_line buf_size b line >>= (λ (t : Buffer). append_all buf_size t lines)

-- strcat() into an array of `size` bytes; `none` is a write outside it.
unfoldable pub strcat : ℕ → Bytes → Bytes → Option Bytes
strcat size dest src = if ltb (length dest + length src) size then some (dest ++ src) else none

unfoldable pub hex_of : Result HexError Bytes → Bytes
hex_of (ok text) = text
hex_of (err e) = []

-- The first 64 bytes in HEX, in an array of 512 characters, with dots where there are more.
unfoldable pub dump : Bytes → Option Bytes
dump [] = some []
dump (c ∷ raw) =
    let text = hex_of (bytes_to_hex (some (take 64 (c ∷ raw))) (some 512) true true) in
    if ltb 64 (length (c ∷ raw)) then strcat 512 text (codes " ...") else some text

-- isprint(), in the C locale.
unfoldable pub is_print : ℕ → Bool
is_print c = leb 32 c && leb c 126

unfoldable pub dotted : Bytes → Bytes
dotted [] = []
dotted (c ∷ payload) = (if is_print c then c else b'.') ∷ dotted payload

-- What fits an array of 256 characters.
unfoldable pub payload_ascii : Bytes → Bytes
payload_ascii payload =
    dotted (take (if ltb (length payload) 255 then length payload else 255) payload)

-- The string, or a text that stands for an empty one.
unfoldable pub or_else : Bytes → Bytes → Bytes
or_else [] other = other
or_else (c ∷ s) other = c ∷ s

-- %04X of a number of 16 bits.
unfoldable pub hex4 : ℕ → Bytes
hex4 n =
    hex_char true (n / 2 ^ 12 % 16)
    ∷ hex_char true (n / 2 ^ 8 % 16)
    ∷ hex_char true (n / 2 ^ 4 % 16)
    ∷ hex_char true (n % 16)
    ∷ []

-- atoi(): whether there is a minus sign, and the digits behind it.
unfoldable pub atoi : Bytes → Bool × ℕ
atoi [] = (false, 0)
atoi (c ∷ s) =
    if c == b'-'
    then (true, (read_digits 0 s).0)
    else if c == b'+'
    then (false, (read_digits 0 s).0)
    else (false, (read_digits 0 (c ∷ s)).0)

-- The cast to size_t.
unfoldable pub as_size : Bool × ℕ → ℕ
as_size (minus, n) = if minus && ltb 0 n then 2 ^ 64 - n else n

-- The length that a TR-31 block states in four digits, or the whole payload if it states none that
-- fits.
unfoldable pub block_len : Bytes → ℕ
block_len payload =
    let stated =
      if leb 5 (length payload)
      then as_size (atoi (skip_spaces (take 4 (drop 1 payload))))
      else 0 in
    if stated == 0 || ltb (length payload) stated then length payload else stated

-- A key of 48, 32 or 16 digits behind its scheme.
unfoldable pub variant_len : ℕ → ℕ
variant_len rem =
    if leb 49 rem then 49 else if leb 33 rem then 33 else if leb 17 rem then 17 else rem

unfoldable pub is_variant : ℕ → Bool
is_variant c = c == b'U' || c == b'T' || c == b'X' || c == b'Z' || c == b'Y' || c == b'M'

-- `[%.*s]` for `len` bytes.
unfoldable pub bracketed : Bytes → ℕ → Bytes → Bytes
bracketed label len bytes = label ++ (codes " = [" ++ (before_nul (take len bytes) ++ codes "]\n"))

unfoldable pub check_value : ℕ → Bytes → List Bytes
check_value key_len payload =
    let kcv_len = length payload - key_len in
    if ltb 0 kcv_len
    then bracketed (codes "Key Check Value (KCV)....") kcv_len (drop key_len payload) ∷ []
    else []

-- A key and its check value.
unfoldable pub key_lines : Bytes → List Bytes
key_lines [] = []
key_lines (scheme ∷ rest) =
    let payload = scheme ∷ rest in
    if scheme == b'S'
    then bracketed (codes "Key Block (TR-31)........") (block_len payload) payload
      ∷ check_value (block_len payload) payload
    else if is_variant scheme
    then (bracketed (codes "Key......................") (variant_len (length payload)) payload
        ∷ check_value (variant_len (length payload)) payload)
    else bracketed (codes "Key Data.................") (length payload) payload ∷ []

unfoldable pub payload_lines : Bytes → List Bytes
payload_lines [] = []
payload_lines (c ∷ payload) =
    bracketed (codes "Data Payload.............") (length (c ∷ payload)) (c ∷ payload) ∷ []

unfoldable pub is_key_response : Bytes → Bool
is_key_response (a ∷ b ∷ rest) = a == b'A' && b == b'1'
is_key_response code = false

unfoldable pub detail_lines : Response → List Bytes
detail_lines resp =
    if resp.is_success
    then (if is_key_response resp.response_code
        then key_lines resp.payload
        else payload_lines resp.payload)
    else (codes "Error Details............ = [" ++ (codes resp.error_text ++ codes "]\n")) ∷ []

unfoldable pub named : Bytes → Bytes → Bytes → Bytes
named label code name =
    label
    ++ (codes " = ["
        ++ (or_else (before_nul code) (codes "N/A") ++ (codes "] " ++ (name ++ codes "\n"))))

unfoldable pub tcp_lines : Response → List Bytes
tcp_lines resp =
    if resp.has_tcp_len
    then (codes "TCP/IP Header............ = ["
        ++ (hex4 resp.tcp_len ++ (codes "] " ++ (decimal resp.tcp_len ++ codes " Bytes\n"))))
      ∷ []
    else []

unfoldable pub header_lines : Response → List Bytes
header_lines resp =
    if ltb 0 resp.header_len
    then (codes "Message Header........... = [" ++ (before_nul resp.header ++ codes "]\n")) ∷ []
    else []

-- The lines of the breakdown, in order.
unfoldable pub breakdown_lines : Response → List Bytes
breakdown_lines resp =
    codes "DETAILED FIELD BREAKDOWN:\n"
    ∷ (tcp_lines resp
        ++ (header_lines resp
            ++ (named (codes "Command Code.............") resp.response_code
                  (codes resp.response_name)
                ∷ named (codes "Error Code...............") resp.error_code (codes resp.error_text)
                ∷ detail_lines resp)))

-- `none` is a write outside the array of 1024 characters.
unfoldable pub breakdown : Response → Option Bytes
breakdown resp =
    append_all 1024 (record { capacity = 1024; text = []; off = 0 }) (breakdown_lines resp)
    >>= (λ (b : Buffer). some b.text)
