-- ===== src/Oneshot/Windows.antt =====
-- The loop of run_oneshot_mode on Windows, which waits in slices, watches the clock and asks for stdin
-- apart from the socket. Its parts are those of the POSIX loop where the code is the same.
-- A round holds what get_time_ms_hires() answers, and what check_stdin_ready() finds out.
use tcp_client.Base.{
  ℕ, ◌+◌, ◌-◌, ◌%◌, ◌^◌, Bool, true, false, ◌&&◌, ◌||◌, not, Option, none, some, List, [], ◌∷◌,
  Bytes, take, ltb, leb, if◌then◌else◌, ok, err, Result,
}
use tcp_client.Hex.{HexError, hex_to_bytes}
use tcp_client.Cli.Args.{Config}
use tcp_client.Socket.Windows.{is_socket_wouldblock}
use tcp_client.Oneshot.Payload.{buf_size}
use tcp_client.Oneshot.Loop as Loop
use tcp_client.Oneshot.Stdout.{Write}
use tcp_client.Oneshot.Loop.{
  Input, bytes, closed, failed, Send, sent, send_failed, Poll, poll_timeout, poll_failed, polled,
  State, shut_down, is_sending, disconnect, take_input, take_sent, Outcome, start, finish,
}
use tcp_client.Oneshot.Mode.{Ran, refused, ran, prepared}

-- The handle of stdin: a console with the first of its events, if there is one (whether it is of a key,
-- and whether the key goes down), or anything else, with the count of PeekNamedPipe() unless that fails.
pub data Handle : Type 0 where
  no_handle : Handle
  console : Option (Bool × Bool) → Handle
  stream_handle : Option ℕ → Handle

unfoldable pub check_stdin_ready : Handle → Bool
check_stdin_ready no_handle = false
check_stdin_ready (console none) = false
check_stdin_ready (console (some (is_key, is_down))) = is_key && is_down
check_stdin_ready (stream_handle none) = true
check_stdin_ready (stream_handle (some avail)) = ltb 0 avail

-- `now` is the time at the top of the round; `polled_at`, `recv_at`, `send_at` and `read_at` are the
-- times that the code asks for later on. The events count where poll() reports some.
pub record Round : Type 0 where
  pub interrupted : Bool
  pub now : ℕ
  pub poll : Poll
  pub polled_at : ℕ
  pub has_err : Bool
  pub has_hup : Bool
  pub has_in : Bool
  pub has_out : Bool
  pub recv : Input
  pub recv_at : ℕ
  pub writes : List Write
  pub send : Send
  pub send_at : ℕ
  pub stdin : Handle
  pub read : Input
  pub read_at : ℕ

pub record Timed : Type 0 where
  pub state : State
  pub last_activity : ℕ

pub data Step : Type 0 where
  goes : Timed → Step
  exits : ℕ → State → Step

unfoldable pub and_then : Step → (Timed → Step) → Step
and_then (goes t) f = f t
and_then (exits code s) f = exits code s

-- A part that the POSIX loop has too, at a time of the last activity.
unfoldable pub timed : ℕ → Loop.Step → Step
timed last (Loop.goes s) = goes (record { state = s; last_activity = last })
timed last (Loop.exits code s) = exits code s

-- `now - last_activity`, as a uint64_t.
unfoldable pub elapsed : ℕ → ℕ → ℕ
elapsed now last = (now + 2 ^ 64 - last) % 2 ^ 64

unfoldable pub is_late : Config → ℕ → ℕ → Bool
is_late c now last = leb c.timeout_ms (elapsed now last)

-- How long poll() waits: what is left of the timeout, but 50 ms at most and 1 ms at least.
unfoldable pub slice : Config → ℕ → ℕ → ℕ
slice c now last =
    let left = c.timeout_ms - elapsed now last in
    let short = if ltb 50 left then 50 else left in if ltb short 1 then 1 else short

unfoldable pub retried : ℕ → State → Loop.Step
retried e s = if is_socket_wouldblock e then Loop.goes s else Loop.exits 5 s

unfoldable pub hang_up : Config → Round → Timed → Step
hang_up c r t =
    if r.has_hup && not r.has_in then timed t.last_activity (disconnect c t.state) else goes t

unfoldable pub take_reply : Config → Round → Input → Timed → Step
take_reply c r (bytes b rest) t = timed r.recv_at (take_input c r.writes (bytes b rest) t.state)
take_reply c r closed t = timed t.last_activity (disconnect c t.state)
take_reply c r (failed e) t = timed t.last_activity (retried e t.state)

unfoldable pub receive : Config → Round → Timed → Step
receive c r t = if r.has_in then take_reply c r r.recv t else goes t

unfoldable pub take_count : Round → Send → Timed → Step
take_count r (sent n) t =
    timed (if ltb 0 n then r.send_at else t.last_activity) (take_sent (sent n) t.state)
take_count r (send_failed e) t = timed t.last_activity (retried e t.state)

unfoldable pub send_more : Round → Timed → Step
send_more r t = if r.has_out && is_sending t.state then take_count r r.send t else goes t

-- A _read() that fails ends the input.
unfoldable pub take_line : Round → Input → Timed → Timed
take_line r (bytes b rest) t = record {
  state = let s = t.state in record s { to_send = b ∷ rest };
  last_activity = r.read_at;
}
take_line r closed t = record t { state = let s = t.state in record s { stdin_eof = true } }
take_line r (failed e) t = record t { state = let s = t.state in record s { stdin_eof = true } }

unfoldable pub read_stdin : Round → Timed → Step
read_stdin r t =
    if not t.state.stdin_eof && not (is_sending t.state) && check_stdin_ready r.stdin
    then goes (take_line r r.read t)
    else goes t

unfoldable pub handle : Config → Round → Timed → Step
handle c r t =
    if r.has_err
    then exits 5 t.state
    else and_then (hang_up c r t) (λ (a : Timed).
      and_then (receive c r a) (λ (b : Timed). and_then (send_more r b) (read_stdin r)))

-- The round in which poll() reports no event.
unfoldable pub quiet : Round → Round
quiet r = record r { has_err = false; has_hup = false; has_in = false; has_out = false }

unfoldable pub on_poll : Config → Round → Poll → Timed → Step
on_poll c r poll_timeout t =
    if is_late c r.polled_at t.last_activity then exits 4 t.state else handle c (quiet r) t
on_poll c r (poll_failed e) t = timed t.last_activity (retried e t.state)
on_poll c r polled t = handle c r t

unfoldable pub round : Config → Round → Timed → Step
round c r t =
    let t' = record t { state = shut_down c t.state } in
    if is_late c r.now t'.last_activity then exits 4 t'.state else on_poll c r r.poll t'

unfoldable pub go_on : Step → (Timed → Outcome) → Outcome
go_on (goes t) rest = rest t
go_on (exits code s) rest = record { code = some code; last = s; analysed = none }

-- The loop blocks for ever where the answers end.
unfoldable pub loop : Config → Timed → List Round → Outcome
loop c t [] =
    if t.state.socket_eof
    then finish c t.state
    else record { code = none; last = t.state; analysed = none }
loop c t (r ∷ rounds) =
    let rest = go_on (round c r t) (λ (t' : Timed). loop c t' rounds) in
    if r.interrupted || t.state.socket_eof then finish c t.state else rest

-- `began` is the time in front of the loop.
unfoldable pub run_loop : Config → ℕ → Option Bytes → List Round → Ran
run_loop c began payload rounds =
    ran (loop c (record { state = start payload; last_activity = began }) rounds)

unfoldable pub run_hex : Config → ℕ → Result HexError Bytes → List Round → Ran
run_hex c began (err e) rounds = refused 1
run_hex c began (ok payload) rounds = run_loop c began (some (prepared c payload)) rounds

unfoldable pub run_oneshot_mode : Config → ℕ → List Round → Ran
run_oneshot_mode c began rounds =
    if c.is_hex
    then run_hex c began (hex_to_bytes (some c.hex_payload) (some buf_size)) rounds
    else if c.is_ascii
    then run_loop c began (some (prepared c (take buf_size c.ascii_payload))) rounds
    else run_loop c began none rounds
