-- ===== src/Interactive/Terminal.antt =====
-- run_interactive_tty_mode and run_interactive_mode, POSIX: keys go to the line editor, lines to the
-- handler, and what the server sends is shown above the line.
-- `input` and `incoming` of a session are what stdin and the server still have to give, and the
-- answers of the kernel to poll() and the socket calls are lists.
use tcp_client.Base.{
  ℕ, zero, suc, Bool, false, Option, none, some, List, [], ◌∷◌, Bytes, codes, ◌==◌, if◌then◌else◌,
}
use tcp_client.Cli.Args.{Config}
use tcp_client.Linenoise.State as Linenoise
use tcp_client.Linenoise.State.{again, line, stop, normal, edit_start, edit_stop}
use tcp_client.Linenoise.History.{history_set_max_len, history_load, history_free}
use tcp_client.Linenoise.Feed.{Fed, char, edit_feed}
use tcp_client.Socket.Read as Read
use tcp_client.Interactive.Commands.{interactive_completion_callback}
use tcp_client.Interactive.Pipe as Pipe
use tcp_client.Interactive.Pipe.{
  Polled, poll_failed, poll_timeout, polled, run_interactive_pipe_mode,
}
use tcp_client.Interactive.Handler.{
  Session, carry_on, closed, failed, Handled, returns, blocks, fault, save,
  handle_interactive_command, handle_socket_data,
}

-- `gone` stands for POLLHUP or POLLERR of the socket. Where stdin is ready, a character can be read,
-- and `more` characters can be read behind it at once; a read() that fails counts as the end of
-- stdin, which the code treats alike.
pub record Round : Type 0 where
  pub interrupted : Bool
  pub poll : Polled
  pub sock_in : Bool
  pub gone : Bool
  pub recv : Read.Reply
  pub stdin_ready : Bool
  pub more : ℕ

-- A part of a round goes on, goes to `cleanup` with an exit status, blocks for ever, or faults.
pub data Step : Type 0 where
  goes : Session → Step
  leaves : ℕ → Session → Step
  stuck : Session → Step
  broken : Session → Step

unfoldable pub and_then : Step → (Session → Step) → Step
and_then (goes s) f = f s
and_then (leaves code s) f = leaves code s
and_then (stuck s) f = stuck s
and_then (broken s) f = broken s

-- What follows a handler, where it returns 0, 1 or -1.
unfoldable pub after_handler : Handled → (Session → Step) → Step
after_handler (returns carry_on s) next = next s
after_handler (returns closed s) next = leaves 0 s
after_handler (returns failed s) next = leaves 5 s
after_handler (blocks s) next = stuck s
after_handler (fault s) next = broken s

-- A call of linenoiseEditFeed returns a reply or faults in the session that it found.
pub data Keyed : Type 0 where
  keyed : Linenoise.Reply → Session → Keyed
  overrun : Session → Keyed

unfoldable pub fed : Fed → Session → Keyed
fed none s = overrun s
fed (some (e, r)) s = keyed r (record s { editor = e })

unfoldable pub feed_char : ℕ → Session → Keyed
feed_char c s = fed (edit_feed s.editor (char c)) s

-- `input` is what is left to read.
unfoldable pub feed_next : Bytes → Session → Keyed
feed_next [] s = keyed again s
feed_next (c ∷ input) s = feed_char c (record s { input = input })

-- A round of `while (feed_rc == 0)`.
unfoldable pub key_round : Keyed → Keyed
key_round (keyed again s) = feed_next s.input s
key_round (keyed line s) = keyed line s
key_round (keyed stop s) = keyed stop s
key_round (overrun s) = overrun s

unfoldable pub feed_more : ℕ → Keyed → Keyed
feed_more zero k = k
feed_more (suc n) k = feed_more n (key_round k)

unfoldable pub restarted : Option Linenoise.State → Session → Step
restarted none s = broken s
restarted (some e) s = goes (record s { editor = e })

-- linenoiseEditStart(&l, edit_buf, sizeof(edit_buf), "> "), on the array that the line is in.
unfoldable pub edit_restart : Session → Step
edit_restart s = restarted (edit_start s.editor s.editor.buf 65536 (some (codes "> "))) s

unfoldable pub after_keys : Config → ℕ → Keyed → Step
after_keys config sockfd (keyed again s) = goes s
after_keys config sockfd (keyed stop s) = leaves 0 s
after_keys config sockfd (keyed line s) =
    after_handler (handle_interactive_command config sockfd s) edit_restart
after_keys config sockfd (overrun s) = broken s

unfoldable pub read_stdin : Config → ℕ → ℕ → Bytes → Session → Step
read_stdin config sockfd more [] s = leaves 0 s
read_stdin config sockfd more (c ∷ input) s =
    after_keys config sockfd (feed_more more (feed_char c (record s { input = input })))

unfoldable pub hang_up : Round → Session → Step
hang_up r s = if r.gone then (if r.sock_in then goes s else leaves 0 s) else goes s

unfoldable pub socket_event : Round → Session → Step
socket_event r s = if r.sock_in then after_handler (handle_socket_data r.recv s) goes else goes s

unfoldable pub stdin_event : Config → ℕ → Round → Session → Step
stdin_event config sockfd r s =
    if r.stdin_ready then read_stdin config sockfd r.more s.input s else goes s

unfoldable pub handle : Config → ℕ → Round → Session → Step
handle config sockfd r s =
    and_then (hang_up r s)
      (λ (a : Session). and_then (socket_event r a) (stdin_event config sockfd r))

unfoldable pub on_poll : Config → ℕ → Round → Polled → Session → Step
on_poll config sockfd r (poll_failed e) s = if e == 4 then goes s else leaves 5 s
on_poll config sockfd r poll_timeout s = goes s
on_poll config sockfd r polled s = handle config sockfd r s

-- The function returns an exit status, blocks for ever, or faults.
pub data Ended : Type 0 where
  returned : ℕ → Session → Ended
  blocked : Session → Ended
  faulted : Session → Ended

-- What `cleanup` does.
unfoldable pub cleaned : Session → Session
cleaned s =
    let t = save (record s { editor = edit_stop s.editor }) in
    record t { editor = history_free t.editor }

unfoldable pub go_on : Step → (Session → Ended) → Ended
go_on (goes s) rest = rest s
go_on (leaves code s) rest = returned code (cleaned s)
go_on (stuck s) rest = blocked s
go_on (broken s) rest = faulted s

unfoldable pub loop : Config → ℕ → Session → List Round → Ended
loop config sockfd s [] = blocked s
loop config sockfd s (r ∷ rounds) =
    let rest =
      go_on (on_poll config sockfd r r.poll s) (λ (t : Session). loop config sockfd t rounds) in
    if r.interrupted then returned 0 (cleaned s) else rest

-- The calls in front of the raw mode: the length, the file and the completions of the history.
unfoldable pub set_up : Session → Session
set_up s =
    let e = (history_load (history_set_max_len s.editor 500).0 s.file).0 in
    record s { editor = record e { completion_callback = some interactive_completion_callback } }

-- Raw mode is on; `s.editor.buf` is `edit_buf`.
unfoldable pub run_interactive_tty_mode : Config → ℕ → Session → List Round → Ended
run_interactive_tty_mode config sockfd s rounds =
    go_on (edit_restart (set_up s)) (λ (t : Session). loop config sockfd t rounds)

-- The variables of linenoise.c as the program starts, with `edit_buf` in `buf`.
unfoldable pub fresh : Bytes → Linenoise.State
fresh array = record {
  in_completion = false;
  completion_idx = 0;
  buf = array;
  buflen = 0;
  prompt = [];
  plen = 0;
  pos = 0;
  len = 0;
  history_index = 0;
  esc_state = normal;
  csi_num = 0;
  history = [];
  history_max_len = 500;
  saved_line = none;
  cached_completions = [];
  completion_callback = none;
  out = [];
}

pub data Mode : Type 0 where
  invalid : Mode
  piped : Pipe.Ended → Mode
  terminal : Ended → Mode

-- Which mode is run: `none` is a negative descriptor or a NULL configuration, for which 5 is
-- returned, and raw mode may be refused.
unfoldable pub run_interactive_mode :
    Bool → Bool → Option (Config × ℕ) → Session → List Round → List Pipe.Round → Mode
run_interactive_mode stdin_is_tty raw_mode none s rounds pipe_rounds = invalid
run_interactive_mode stdin_is_tty raw_mode (some (config, sockfd)) s rounds pipe_rounds =
    if stdin_is_tty
    then (if raw_mode
        then terminal (run_interactive_tty_mode config sockfd s rounds)
        else piped (run_interactive_pipe_mode s.input s.incoming s.answers pipe_rounds))
    else piped (run_interactive_pipe_mode s.input s.incoming s.answers pipe_rounds)
