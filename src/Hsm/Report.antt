-- ===== src/Hsm/Report.antt =====
-- The report of hsm_format_analysis, and the buffer that it is printed to.
use tcp_client.Base.{
  ℕ, zero, suc, Option, some, [], ◌∷◌, Bytes, joined, codes, take, length, ltb, if◌then◌else◌,
  decimal,
}
use tcp_client.Linenoise.Memory.{◌>>=◌}
use tcp_client.Linenoise.History.{before_nul}
use tcp_client.Hsm.Response.{Response}
use tcp_client.Hsm.Analysis.{dump, payload_ascii, or_else, breakdown}

abbrev pub rule : Bytes
rule = codes "======================================================================\n"

abbrev pub thin_rule : Bytes
thin_rule = codes "----------------------------------------------------------------------\n"

-- The dumps of the payload, where there is one.
unfoldable pub payload_part : Response → Bytes → Bytes
payload_part resp payload_hex =
    if ltb 0 resp.payload_len
    then joined (
        codes "Payload HEX       : "
        ∷ payload_hex
        ∷ codes "\nPayload ASCII     : "
        ∷ payload_ascii resp.payload
        ∷ codes "\n"
        ∷ [])
    else []

-- The whole text, where `raw_len` bytes are dumped as `hex_dump`, and `lines` are the breakdown.
unfoldable pub report : Response → ℕ → Bytes → Bytes → Bytes → Bytes
report resp raw_len hex_dump payload_hex lines = joined (
    rule
    ∷ codes "             payShield 10K HSM RESPONSE DECODER ANALYSIS              \n"
    ∷ rule
    ∷ codes "Raw Packet Length : "
    ∷ decimal raw_len
    ∷ codes " bytes\n"
    ∷ codes "Raw Hex Packet    : "
    ∷ or_else hex_dump (codes "(None)")
    ∷ codes "\n"
    ∷ thin_rule
    ∷ codes "TCP Length Header : "
    ∷ (if resp.has_tcp_len then codes "2 Bytes (Binary Big-Endian)" else codes "None / Omitted")
    ∷ codes "\nMessage Header    : "
    ∷ (if ltb 0 resp.header_len then before_nul resp.header else codes "(None)")
    ∷ codes "\nResponse Code     : '"
    ∷ or_else (before_nul resp.response_code) (codes "N/A")
    ∷ codes "' -> ["
    ∷ codes resp.response_name
    ∷ codes "]\nError Code        : '"
    ∷ or_else (before_nul resp.error_code) (codes "N/A")
    ∷ codes "' -> ["
    ∷ (if resp.is_success then codes "SUCCESS / OK" else codes "ERROR / FAILED")
    ∷ codes "]\n                    Error Description: "
    ∷ codes resp.error_text
    ∷ codes "\n"
    ∷ thin_rule
    ∷ lines
    ∷ thin_rule
    ∷ codes "Response Payload  : "
    ∷ decimal resp.payload_len
    ∷ codes " bytes "
    ∷ (if resp.is_success then [] else codes "(Truncated by HSM due to error)")
    ∷ codes "\n"
    ∷ payload_part resp payload_hex
    ∷ rule
    ∷ [])

-- The string that is left in `out_str`: `none` is a write outside an array. Nothing is written where
-- `max_len` is 0.
unfoldable pub hsm_format_analysis : Response → Bytes → ℕ → Option Bytes
hsm_format_analysis resp raw zero = some []
hsm_format_analysis resp raw (suc n) = do
  hex_dump ← dump raw
  payload_hex ← dump resp.payload
  lines ← breakdown resp
  some (take n (report resp (length raw) hex_dump payload_hex lines))
