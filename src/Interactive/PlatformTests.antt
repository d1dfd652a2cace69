-- ===== src/Interactive/PlatformTests.antt =====
-- The loops of Windows on a concrete session.
use tcp_client.Base.{◌≡◌, false, true, none, List, [], ◌∷◌, ◌++◌, codes, zeros}
use tcp_client.Cli.Args.{default_config}
use tcp_client.Socket.Write.{sent}
use tcp_client.Socket.Read.{received}
use tcp_client.Interactive.Handler.{Session}
use tcp_client.Interactive.Terminal as Terminal
use tcp_client.Interactive.Terminal.{fresh}
use tcp_client.Interactive.Pipe as Pipe
use tcp_client.Interactive.Pipe.{poll_timeout, polled, takes}
use tcp_client.Interactive.Windows as Windows
use tcp_client.Interactive.Agrees.{session_rounds, run_interactive_tty_mode-posix}
use tcp_client.Interactive.PipeAgrees.{posix_rounds, run_interactive_pipe_mode-posix}

-- A user who types "NC" and Ctrl+D at a server that says "ok".
abbrev console : Session
console = record {
  editor = fresh (zeros 65536);
  file = none;
  can_save = true;
  input = codes "NC" ++ 4 ∷ [];
  incoming = codes "ok";
  answers = [];
  wire = [];
}

abbrev console_rounds : List Terminal.Round
console_rounds =
    record {
      interrupted = false;
      poll = polled;
      sock_in = true;
      gone = false;
      recv = received 2;
      stdin_ready = false;
      more = 2;
    }
    ∷ record {
      interrupted = false;
      poll = poll_timeout;
      sock_in = false;
      gone = false;
      recv = received 0;
      stdin_ready = false;
      more = 1;
    }
    ∷ []

run_interactive_tty_mode-posix_example :
    Windows.run_interactive_tty_mode default_config 3 console console_rounds
    ≡ Terminal.run_interactive_tty_mode default_config 3 console
        (session_rounds default_config 3 console console_rounds)
run_interactive_tty_mode-posix_example =
    run_interactive_tty_mode-posix default_config 3 console console_rounds

-- A pipe that gives a line, while the server says nothing.
abbrev pipe_rounds : List Pipe.Round
pipe_rounds =
    record {
      interrupted = false;
      poll = poll_timeout;
      sock_in = false;
      gone = false;
      recv = received 0;
      stdin_ready = true;
      read = takes 9;
      drain = [];
    }
    ∷ []

run_interactive_pipe_mode-posix_example :
    Windows.run_interactive_pipe_mode (codes "NC\n") [] ((sent 3 ∷ []) ∷ []) pipe_rounds
    ≡ Pipe.run_interactive_pipe_mode
        (codes "NC\n")
        []
        ((sent 3 ∷ []) ∷ [])
        (posix_rounds (Pipe.start (codes "NC\n") [] ((sent 3 ∷ []) ∷ [])) pipe_rounds)
run_interactive_pipe_mode-posix_example =
    run_interactive_pipe_mode-posix (codes "NC\n") [] ((sent 3 ∷ []) ∷ []) pipe_rounds (tt, tt)
