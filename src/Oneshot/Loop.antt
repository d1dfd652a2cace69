-- ===== src/Oneshot/Loop.antt =====
-- The loop of run_oneshot_mode (POSIX), one round of poll() after another.
-- What the system answers in a round is a record: the answers that the code does not ask for in that
-- round are not looked at.
use tcp_client.Base.{
  ℕ, ◌+◌, Bool, true, false, ◌&&◌, ◌||◌, not, Option, none, some, List, [], ◌∷◌, ◌++◌, Bytes,
  length, drop, take, ltb, leb, ◌==◌, if◌then◌else◌, join_bytes, ◌*◌, Result, ok, err,
}
use tcp_client.Hex.{HexError, bytes_to_hex}
use tcp_client.Hsm.Response.{Response, hsm_parse_response}
use tcp_client.Socket.Codes.{eintr, is_socket_wouldblock}
use tcp_client.Cli.Args.{Config}
use tcp_client.Oneshot.Stdout.{Write, write_all_fd}

-- recv() and read(): bytes, at least one of them, the end of the stream, or an errno.
pub data Input : Type 0 where
  bytes : ℕ → Bytes → Input
  closed : Input
  failed : ℕ → Input

-- send(): a count, or an errno.
pub data Send : Type 0 where
  sent : ℕ → Send
  send_failed : ℕ → Send

-- poll(): 0, an errno, or events: of the socket, and whether stdin has any.
pub data Poll : Type 0 where
  poll_timeout : Poll
  poll_failed : ℕ → Poll
  polled : Poll

pub record Round : Type 0 where
  pub interrupted : Bool
  pub poll : Poll
  pub has_err : Bool
  pub has_hup : Bool
  pub has_in : Bool
  pub has_out : Bool
  pub stdin_ready : Bool
  pub recv : Input
  pub read : Input
  pub send : Send
  pub writes : List Write

-- `to_send` is `send_buf` from `send_buf_pos` on; `wire` and `out` are what has gone to the server
-- and to stdout, and `shut` says whether shutdown() has been called.
pub record State : Type 0 where
  pub to_send : Bytes
  pub stdin_eof : Bool
  pub shutdown_done : Bool
  pub socket_eof : Bool
  pub accum : Bytes
  pub wire : Bytes
  pub out : Bytes
  pub shut : Bool

-- A part of a round ends with a state, or the function returns a code.
pub data Step : Type 0 where
  goes : State → Step
  exits : ℕ → State → Step

unfoldable pub and_then : Step → (State → Step) → Step
and_then (goes s) f = f s
and_then (exits code s) f = exits code s

unfoldable pub is_sending : State → Bool
is_sending s = ltb 0 (length s.to_send)

-- shutdown(SHUT_WR), once there is nothing more to send.
unfoldable pub shut_down : Config → State → State
shut_down c s =
    if s.stdin_eof && not (is_sending s) && not s.shutdown_done
    then record s {
      shutdown_done = true;
      shut = s.shut || (not c.decode_hsm && not c.has_term_char);
    }
    else s

-- The server has gone: an error while something is still to come.
unfoldable pub disconnect : Config → State → Step
disconnect c s =
    if is_sending s || (not s.stdin_eof && not c.is_hex && not c.is_ascii)
    then exits 5 s
    else goes (record s { socket_eof = true })

-- The received bytes up to the termination character, and whether it is there.
unfoldable pub up_to : ℕ → Bytes → Bytes × Bool
up_to term_char [] = ([], false)
up_to term_char (b ∷ rest) =
    let (part, found) = up_to term_char rest in
    if b == term_char then (b ∷ [], true) else (b ∷ part, found)

unfoldable pub part_of : Config → Bytes → Bytes × Bool
part_of c received = if c.has_term_char then up_to c.term_char received else (received, false)

-- Whether the packet that has accumulated is as long as its first two bytes say.
unfoldable pub is_whole : Bytes → Bool
is_whole (hi ∷ lo ∷ rest) = leb (2 + join_bytes hi lo) (length (hi ∷ lo ∷ rest))
is_whole _ = false

-- `sizeof(hsm_accum_buf)`
unfoldable pub accum_size : ℕ
accum_size = 66048

unfoldable pub accumulate : Bytes → State → State
accumulate part s =
    if leb (length s.accum + length part) accum_size
    then record s {
      accum = s.accum ++ part;
      socket_eof = s.socket_eof || is_whole (s.accum ++ part);
    }
    else record s { socket_eof = true }

-- What has been written stays written where write_all_fd fails.
unfoldable pub written : Bool × Bytes → State → Step
written (true, text) s = goes (record s { out = s.out ++ text })
written (false, text) s = exits 5 (record s { out = s.out ++ text })

unfoldable pub write_out : List Write → Bytes → State → Step
write_out writes text s = written (write_all_fd text writes) s

-- The text of bytes_to_hex and a newline, which the allocated buffer has room for.
unfoldable pub write_hex : List Write → Result HexError Bytes → State → Step
write_hex writes (err e) s = goes s
write_hex writes (ok text) s = write_out writes (text ++ b'\n' ∷ []) s

-- What is done with the part, in the three modes.
unfoldable pub show_part : Config → List Write → Bytes → State → Step
show_part c writes part s =
    if c.decode_hsm
    then goes (accumulate part s)
    else if c.hex_out
    then write_hex writes (bytes_to_hex (some part) (some (length part * 3 + 2)) true true) s
    else write_out writes part s

unfoldable pub end_at : Bool → State → Step
end_at term_found s = if term_found then goes (record s { socket_eof = true }) else goes s

unfoldable pub take_input : Config → List Write → Input → State → Step
take_input c writes (bytes b rest) s =
    let (part, term_found) = part_of c (b ∷ rest) in
    and_then (show_part c writes part s) (end_at term_found)
take_input c writes closed s = disconnect c s
take_input c writes (failed e) s = if is_socket_wouldblock e then goes s else exits 5 s

unfoldable pub hang_up : Config → Round → State → Step
hang_up c r s = if r.has_hup && not r.has_in then disconnect c s else goes s

unfoldable pub receive : Config → Round → State → Step
receive c r s = if r.has_in then take_input c r.writes r.recv s else goes s

unfoldable pub take_line : Input → State → Step
take_line (bytes b rest) s = goes (record s { to_send = b ∷ rest })
take_line closed s = goes (record s { stdin_eof = true })
take_line (failed e) s = if is_socket_wouldblock e then goes s else exits 5 s

-- `asked` says whether stdin was polled.
unfoldable pub read_stdin : Bool → Round → State → Step
read_stdin asked r s = if asked && r.stdin_ready then take_line r.read s else goes s

-- send() takes at most what it is given.
unfoldable pub take_sent : Send → State → Step
take_sent (sent n) s =
    goes (record s { to_send = drop n s.to_send; wire = s.wire ++ take n s.to_send })
take_sent (send_failed e) s = if is_socket_wouldblock e then goes s else exits 5 s

unfoldable pub send_more : Round → State → Step
send_more r s = if r.has_out && is_sending s then take_sent r.send s else goes s

unfoldable pub handle : Config → Round → State → Step
handle c r s =
    let asked = not s.stdin_eof && not (is_sending s) in
    if r.has_err
    then exits 5 s
    else and_then (hang_up c r s) (λ (a : State).
      and_then (receive c r a) (λ (b : State). and_then (read_stdin asked r b) (send_more r)))

unfoldable pub on_poll : Config → Round → Poll → State → Step
on_poll c r poll_timeout s = exits 4 s
on_poll c r (poll_failed e) s = if e == eintr then goes s else exits 5 s
on_poll c r polled s = handle c r s

unfoldable pub round : Config → Round → State → Step
round c r s = on_poll c r r.poll (shut_down c s)

-- The code that is returned, `none` while the call blocks, the last state, and the response that is
-- analysed where there is one; the inner `none` is a packet that cannot be parsed.
pub record Outcome : Type 0 where
  pub code : Option ℕ
  pub last : State
  pub analysed : Option (Option Response)

-- The state before the loop: a payload ends the input, and without one it comes from stdin.
unfoldable pub start : Option Bytes → State
start none = record {
  to_send = [];
  stdin_eof = false;
  shutdown_done = false;
  socket_eof = false;
  accum = [];
  wire = [];
  out = [];
  shut = false;
}
start (some payload) = record {
  to_send = payload;
  stdin_eof = true;
  shutdown_done = false;
  socket_eof = false;
  accum = [];
  wire = [];
  out = [];
  shut = false;
}

unfoldable pub finish : Config → State → Outcome
finish c s = record {
  code = some 0;
  last = shut_down c s;
  analysed =
      if c.decode_hsm && ltb 0 (length s.accum)
      then some (hsm_parse_response s.accum c.hsm_header_len)
      else none;
}

unfoldable pub go_on : Step → (State → Outcome) → Outcome
go_on (goes s) rest = rest s
go_on (exits code s) rest = record { code = some code; last = s; analysed = none }

-- The loop blocks for ever where the answers end.
unfoldable pub loop : Config → State → List Round → Outcome
loop c s [] = if s.socket_eof then finish c s else record { code = none; last = s; analysed = none }
loop c s (r ∷ rounds) =
    let rest = go_on (round c r s) (λ (s' : State). loop c s' rounds) in
    if r.interrupted || s.socket_eof then finish c s else rest
