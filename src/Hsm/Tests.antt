-- ===== src/Hsm/Tests.antt =====
-- hsm_parse_response on a concrete response.
use tcp_client.Base.{none, [], take, joined, ◌≡◌, arith, some, ◌++◌, Bytes, codes}
use tcp_client.Hsm.Response.{Response, hsm_parse_response}
use tcp_client.Hsm.Analysis.{breakdown, breakdown_lines}
use tcp_client.Hsm.Whole.{breakdown_lem}
use tcp_client.Hsm.Frames.{body, framed, parts, hsm_parse_response-framed}
use tcp_client.Hsm.Fits.{Fits, hsm_parse_response-Fits, hsm_parse_response-accepts}

abbrev message : Bytes
message = body b'N' b'D' b'0' b'0' (codes "26") (some (codes "t"))

hsm_parse_response-framed_example :
    hsm_parse_response (framed (codes "0001" ++ message)) 4
    ≡ some (parts 12 (codes "0001") b'N' b'D' b'0' b'0' (codes "26") (some (codes "t")))
hsm_parse_response-framed_example =
    hsm_parse_response-framed (codes "0001") b'N' b'D' b'0' b'0' (codes "26") (some (codes "t"))
      (omega arith) (omega arith, (omega arith, tt)) (omega arith)

parsed :
    hsm_parse_response (framed (codes "0001" ++ message)) 4
    ≡ some (parts 12 (codes "0001") b'N' b'D' b'0' b'0' (codes "26") (some (codes "t")))
parsed =
    hsm_parse_response-framed (codes "0001") b'N' b'D' b'0' b'0' (codes "26") (some (codes "t"))
      (omega arith) (omega arith, (omega arith, tt)) (omega arith)

hsm_parse_response-Fits_example :
    Fits 14 (parts 12 (codes "0001") b'N' b'D' b'0' b'0' (codes "26") (some (codes "t")))
hsm_parse_response-Fits_example =
    hsm_parse_response-Fits (framed (codes "0001" ++ message)) 4
      (parts 12 (codes "0001") b'N' b'D' b'0' b'0' (codes "26") (some (codes "t"))) parsed

hsm_parse_response-accepts_example :
    (r : Response) × (hsm_parse_response (framed (codes "0001" ++ message)) 4 ≡ some r)
hsm_parse_response-accepts_example =
    hsm_parse_response-accepts (framed (codes "0001" ++ message)) 4 (omega arith)

-- A generated key with its check value.
abbrev key_response : Response
key_response =
    parts 45 [] b'A' b'1' b'0' b'0' (codes "U0123456789ABCDEF0123456789ABCDEF1A2B3C") none

breakdown_lem_example :
    breakdown key_response ≡ some (take 1023 (joined (breakdown_lines key_response)))
breakdown_lem_example = breakdown_lem key_response
