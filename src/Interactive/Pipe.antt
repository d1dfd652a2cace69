-- ===== src/Interactive/Pipe.antt =====
-- run_interactive_pipe_mode, POSIX: lines come from a pipe, and go to the server as they are complete.
-- `input` and `incoming` are what stdin and the server still have to give, and the answers of the
-- kernel to poll(), read() and the socket calls are lists. Memory is never short.
use tcp_client.Base.{
  ℕ, suc, ◌+◌, ◌*◌, Bool, true, false, ◌&&◌, not, Option, none, some, List, [], ◌∷◌, ◌++◌, Bytes,
  codes, length, take, drop, ltb, ◌==◌, if◌then◌else◌, ok, err,
}
use tcp_client.Linenoise.History.{before_nul}
use tcp_client.Socket.Codes.{timeout, Code, is_socket_wouldblock}
use tcp_client.Socket.Write as Write
use tcp_client.Socket.Write.{Written, socket_write_all}
use tcp_client.Socket.Read as Read
use tcp_client.Socket.Read.{ReadResult, socket_read}
use tcp_client.Interactive.Commands.{is_exit_command}

pub data Polled : Type 0 where
  poll_failed : ℕ → Polled
  poll_timeout : Polled
  polled : Polled

-- read() is ready to hand over at most n + 1 bytes, or fails with an errno.
pub data Reading : Type 0 where
  takes : ℕ → Reading
  read_failed : ℕ → Reading

-- `gone` stands for POLLHUP or POLLERR of the socket. `drain` is what the calls of socket_read after
-- an exit command meet, until poll() has nothing more to report.
pub record Round : Type 0 where
  pub interrupted : Bool
  pub poll : Polled
  pub sock_in : Bool
  pub gone : Bool
  pub recv : Read.Reply
  pub stdin_ready : Bool
  pub read : Reading
  pub drain : List Read.Reply

-- `line` is the first `line_len` bytes of `line_buf`; `answers` has the kernel's answers for each
-- call of socket_write_all to come.
pub record State : Type 0 where
  pub line : Bytes
  pub line_cap : ℕ
  pub exit_requested : Bool
  pub stdin_eof : Bool
  pub input : Bytes
  pub incoming : Bytes
  pub answers : List (List Write.Round)
  pub wire : Bytes
  pub out : Bytes

-- A part of a round goes on, returns a code, blocks for ever in a socket call, or writes outside
-- `line_buf`.
pub data Step : Type 0 where
  goes : State → Step
  exits : ℕ → State → Step
  blocks : State → Step
  fault : Step

unfoldable pub and_then : Step → (State → Step) → Step
and_then (goes s) f = f s
and_then (exits code s) f = exits code s
and_then (blocks s) f = blocks s
and_then fault f = fault

unfoldable pub first_answers : List (List Write.Round) → List Write.Round
first_answers [] = []
first_answers (rounds ∷ answers) = rounds

-- socket_write_all of the line.
unfoldable pub transmitted : State → Written
transmitted s = socket_write_all (some 0) (some s.line) (first_answers s.answers)

-- What is left of the state after it.
unfoldable pub after_transmit : State → State
after_transmit s = record s { wire = s.wire ++ (transmitted s).wire; answers = drop 1 s.answers }

unfoldable pub emptied : State → State
emptied s = record s { line = [] }

-- The capacity after the check in front of a character.
unfoldable pub grown_cap : ℕ → ℕ → ℕ
grown_cap line_len line_cap =
    if ltb line_cap (line_len + 2)
    then (let new_cap = if line_cap == 0 then 4096 else line_cap * 2 in
        if ltb new_cap (line_len + 2) then line_len + 2 else new_cap)
    else line_cap

-- `line_buf[line_len++] = c`
unfoldable pub push_char : ℕ → State → Step
push_char c s =
    let cap = grown_cap (length s.line) s.line_cap in
    if ltb (length s.line) cap
    then goes (record s { line = s.line ++ c ∷ []; line_cap = cap })
    else fault

-- `line_buf[line_len] = '\0'`, and then is_exit_command(line_buf).
unfoldable pub ends_string : State → (Bool → Step) → Step
ends_string s next =
    if ltb (length s.line) s.line_cap then next (is_exit_command (before_nul s.line)) else fault

-- An exit line is sent too, whatever comes of it.
unfoldable pub send_exit : Option Code → State → Step
send_exit none s = blocks s
send_exit (some code) s = goes (record s { line = []; exit_requested = true })

unfoldable pub send_line : Option Code → State → Step
send_line none s = blocks s
send_line (some (err e)) s = exits 5 s
send_line (some (ok n)) s = goes (emptied s)

unfoldable pub end_line : State → Step
end_line s = ends_string s (λ (is_exit : Bool).
    if is_exit
    then send_exit (transmitted s).code (after_transmit s)
    else send_line (transmitted s).code (after_transmit s))

unfoldable pub take_char : ℕ → State → Step
take_char c s = and_then (push_char c s) (λ (t : State). if c == b'\n' then end_line t else goes t)

unfoldable pub unless_exit : (State → Step) → State → Step
unless_exit next s = elim s.exit_requested [ true ↦ goes s | false ↦ next s ]

-- The loop over the bytes that were read, which an exit line ends.
unfoldable pub take_chars : Bytes → State → Step
take_chars [] s = goes s
take_chars (c ∷ rest) s = and_then (take_char c s) (unless_exit (take_chars rest))

-- The last line, which no newline ends.
unfoldable pub send_last : Option Code → State → Step
send_last none s = blocks s
send_last (some code) s = goes (emptied s)

unfoldable pub room_for_nul : State → State
room_for_nul s =
    if ltb s.line_cap (length s.line + 1) then record s { line_cap = length s.line + 1 } else s

unfoldable pub end_last : State → Step
end_last s = ends_string s (λ (is_exit : Bool).
    if is_exit
    then goes (record s { exit_requested = true })
    else send_last (transmitted s).code (after_transmit s))

-- The loop is left by `break` here, so nothing is drained.
unfoldable pub leave_if_exit : State → Step
leave_if_exit s = if s.exit_requested then exits 0 s else goes s

unfoldable pub end_of_input : State → Step
end_of_input s =
    and_then (if ltb 0 (length s.line) then end_last (room_for_nul s) else goes s) leave_if_exit

unfoldable pub take_input : ℕ → Bytes → State → Step
take_input n [] s = end_of_input (record s { stdin_eof = true })
take_input n (c ∷ input) s =
    take_chars (take (suc n) (c ∷ input)) (record s { input = drop (suc n) (c ∷ input) })

-- read() on stdin; a count of 0 is the end of the input only.
unfoldable pub read_stdin : Reading → State → Step
read_stdin (takes n) s = take_input n s.input s
read_stdin (read_failed e) s =
    if is_socket_wouldblock e then goes s else goes (record s { stdin_eof = true })

unfoldable pub prompt : State → Bytes
prompt s = if s.stdin_eof then [] else codes "> "

unfoldable pub show_data : Code → Bytes → State → Step
show_data (ok n) got s =
    if n == 0 then exits 0 s else goes (record s { out = s.out ++ (got ++ prompt s) })
show_data (err timeout) got s = goes s
show_data (err e) got s = exits 5 s

unfoldable pub read_socket : Read.Reply → State → Step
read_socket r s =
    let result = socket_read true 65536 r s.incoming in
    show_data result.code result.got (record s { incoming = result.incoming })

unfoldable pub socket_event : Round → State → Step
socket_event r s = if r.sock_in then read_socket r.recv s else if r.gone then exits 0 s else goes s

unfoldable pub stdin_event : Bool → Round → State → Step
stdin_event asked r s = if asked && r.stdin_ready then read_stdin r.read s else goes s

-- What is printed before the exit.
unfoldable pub drained : List Read.Reply → Bytes → Bytes
drained [] incoming = []
drained (r ∷ replies) incoming =
    let result = socket_read true 65536 r incoming in
    let more = result.got ++ drained replies result.incoming in
    elim result.code [ ok n ↦ if n == 0 then [] else more | err e ↦ [] ]

unfoldable pub exit_if_requested : Round → State → Step
exit_if_requested r s =
    if s.exit_requested
    then exits 0 (record s { out = s.out ++ drained r.drain s.incoming })
    else goes s

unfoldable pub handle : Round → State → Step
handle r s =
    and_then (socket_event r s)
      (λ (a : State). and_then (stdin_event (not s.stdin_eof) r a) (exit_if_requested r))

unfoldable pub on_poll : Round → Polled → State → Step
on_poll r (poll_failed e) s = if e == 4 then goes s else exits 5 s
on_poll r poll_timeout s = if s.stdin_eof then exits 0 s else goes s
on_poll r polled s = handle r s

unfoldable pub start : Bytes → Bytes → List (List Write.Round) → State
start input incoming answers = record {
  line = [];
  line_cap = 0;
  exit_requested = false;
  stdin_eof = false;
  input = input;
  incoming = incoming;
  answers = answers;
  wire = [];
  out = codes "> ";
}

-- How the function ends: it returns, blocks for ever, or writes outside `line_buf`.
pub data Ended : Type 0 where
  returned : ℕ → State → Ended
  blocked : State → Ended
  faulted : Ended

unfoldable pub go_on : Step → (State → Ended) → Ended
go_on (goes s) rest = rest s
go_on (exits code s) rest = returned code s
go_on (blocks s) rest = blocked s
go_on fault rest = faulted

unfoldable pub loop : State → List Round → Ended
loop s [] = blocked s
loop s (r ∷ rounds) =
    let rest = go_on (on_poll r r.poll s) (λ (t : State). loop t rounds) in
    if r.interrupted then returned 0 s else rest

unfoldable pub run_interactive_pipe_mode :
    Bytes → Bytes → List (List Write.Round) → List Round → Ended
run_interactive_pipe_mode input incoming answers rounds = loop (start input incoming answers) rounds
