-- ===== src/Oneshot/Mode.antt =====
-- run_oneshot_mode as a whole: the payload, the loop, and the codes that it returns.
use tcp_client.Base.{[], ℕ, Option, none, some, List, Bytes, take, if◌then◌else◌, ok, err, Result}
use tcp_client.Hex.{HexError, hex_to_bytes}
use tcp_client.Cli.Args.{Config}
use tcp_client.Oneshot.Payload.{buf_size, send_buf}
use tcp_client.Hsm.Response.{Response}
use tcp_client.Hsm.Report.{hsm_format_analysis}
use tcp_client.Oneshot.Loop.{State, Round, Outcome, loop, start}

-- The function returns a code before the loop, or the loop is run.
pub data Ran : Type 0 where
  refused : ℕ → Ran
  ran : Outcome → Ran

-- The payload of bytes, with what goes round it.
unfoldable pub prepared : Config → Bytes → Bytes
prepared c bytes = send_buf c.has_term_char c.term_char c.add_tcp_len bytes

unfoldable pub run_hex : Config → Result HexError Bytes → List Round → Ran
run_hex c (err e) rounds = refused 1
run_hex c (ok bytes) rounds = ran (loop c (start (some (prepared c bytes))) rounds)

unfoldable pub run_valid : Config → List Round → Ran
run_valid c rounds =
    if c.is_hex
    then run_hex c (hex_to_bytes (some c.hex_payload) (some buf_size)) rounds
    else if c.is_ascii
    then ran (loop c (start (some (prepared c (take buf_size c.ascii_payload)))) rounds)
    else ran (loop c (start none) rounds)

-- `none` is a negative descriptor or a NULL configuration.
unfoldable pub run_oneshot_mode : Option Config → List Round → Ran
run_oneshot_mode none rounds = refused 5
run_oneshot_mode (some c) rounds = run_valid c rounds

-- The code that the function returns, where it returns.
unfoldable pub code_of : Ran → Option ℕ
code_of (refused n) = some n
code_of (ran o) = o.code

-- What goes to stdout about the response, from an array of 4096 characters.
unfoldable pub text_about : Option (Option Response) → State → Option Bytes
text_about none s = some []
text_about (some none) s = some []
text_about (some (some resp)) s = hsm_format_analysis resp s.accum 4096

unfoldable pub analysis_text : Outcome → Option Bytes
analysis_text o = text_about o.analysed o.last
