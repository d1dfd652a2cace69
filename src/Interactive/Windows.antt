-- ===== src/Interactive/Windows.antt =====
-- The loops of mode_interactive.c on Windows, over the same handlers: they poll the socket alone, and
-- ask the console or the pipe behind stdin in every round.
-- The error numbers that the handlers see are those of POSIX, as in the modules of the socket.
use tcp_client.Base.{ℕ, true, ◌&&◌, not, List, [], ◌∷◌, Bytes, if◌then◌else◌}
use tcp_client.Cli.Args.{Config}
use tcp_client.Linenoise.State.{again}
use tcp_client.Socket.Windows.{is_socket_wouldblock}
use tcp_client.Socket.Write as Write
use tcp_client.Interactive.Handler.{Session}
use tcp_client.Interactive.Pipe as Pipe
use tcp_client.Interactive.Pipe.{
  Polled, poll_failed, poll_timeout, polled, Reading, takes, read_failed, take_input, end_of_input,
  exit_if_requested,
}
use tcp_client.Interactive.Terminal as Terminal
use tcp_client.Interactive.Terminal.{
  keyed, feed_more, after_keys, edit_restart, set_up, hang_up, socket_event, Ended, blocked,
  returned, cleaned, go_on,
}

-- A round of run_interactive_tty_mode has the fields of the POSIX round: `more` counts how often
-- _kbhit() says that a key is there, and `stdin_ready` is not asked for.
unfoldable pub keyboard_event : Config → ℕ → Terminal.Round → Session → Terminal.Step
keyboard_event config sockfd r s = after_keys config sockfd (feed_more r.more (keyed again s))

unfoldable pub events : Config → ℕ → Terminal.Round → Session → Terminal.Step
events config sockfd r s =
    Terminal.and_then (hang_up r s)
      (λ (a : Session). Terminal.and_then (socket_event r a) (keyboard_event config sockfd r))

unfoldable pub on_poll : Config → ℕ → Terminal.Round → Polled → Session → Terminal.Step
on_poll config sockfd r (poll_failed e) s =
    if is_socket_wouldblock e then keyboard_event config sockfd r s else Terminal.leaves 5 s
on_poll config sockfd r poll_timeout s = keyboard_event config sockfd r s
on_poll config sockfd r polled s = events config sockfd r s

unfoldable pub loop : Config → ℕ → Session → List Terminal.Round → Ended
loop config sockfd s [] = blocked s
loop config sockfd s (r ∷ rounds) =
    let rest =
      go_on (on_poll config sockfd r r.poll s) (λ (t : Session). loop config sockfd t rounds) in
    if r.interrupted then returned 0 (cleaned s) else rest

unfoldable pub run_interactive_tty_mode : Config → ℕ → Session → List Terminal.Round → Ended
run_interactive_tty_mode config sockfd s rounds =
    go_on (edit_restart (set_up s)) (λ (t : Session). loop config sockfd t rounds)

-- _read() on the pipe: a failure is the end of the input, and the last line is sent then, too.
unfoldable pub read_pipe : Reading → Pipe.State → Pipe.Step
read_pipe (takes n) s = take_input n s.input s
read_pipe (read_failed e) s = end_of_input (record s { stdin_eof = true })

-- `stdin_ready` is what check_stdin_ready() answers.
unfoldable pub stdin_event : Pipe.Round → Pipe.State → Pipe.Step
stdin_event r s = if not s.stdin_eof && r.stdin_ready then read_pipe r.read s else Pipe.goes s

unfoldable pub pipe_stdin : Pipe.Round → Pipe.State → Pipe.Step
pipe_stdin r s = Pipe.and_then (stdin_event r s) (exit_if_requested r)

-- Where poll() reports events, a server that has gone ends the mode unless there is data to read.
unfoldable pub pipe_poll : Pipe.Round → Polled → Pipe.State → Pipe.Step
pipe_poll r (poll_failed e) s = if is_socket_wouldblock e then Pipe.goes s else Pipe.exits 5 s
pipe_poll r poll_timeout s = if s.stdin_eof then Pipe.exits 0 s else pipe_stdin r s
pipe_poll r polled s = Pipe.and_then (Pipe.socket_event r s) (pipe_stdin r)

unfoldable pub pipe_loop : Pipe.State → List Pipe.Round → Pipe.Ended
pipe_loop s [] = Pipe.blocked s
pipe_loop s (r ∷ rounds) =
    let rest = Pipe.go_on (pipe_poll r r.poll s) (λ (t : Pipe.State). pipe_loop t rounds) in
    if r.interrupted then Pipe.returned 0 s else rest

unfoldable pub run_interactive_pipe_mode :
    Bytes → Bytes → List (List Write.Round) → List Pipe.Round → Pipe.Ended
run_interactive_pipe_mode input incoming answers rounds =
    pipe_loop (Pipe.start input incoming answers) rounds
