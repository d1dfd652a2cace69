-- ===== src/Main/Program.antt =====
-- main: the command line, the connection, and one of the two modes.
use tcp_client.Base.{
  ℕ, Bool, Option, none, some, List, [], ◌++◌, Bytes, not, ◌==◌, if◌then◌else◌, ok, err,
}
use tcp_client.Cli.Args.{Config, Mode, auto, interactive, oneshot, Opt, parse_cli_args, choose_mode}
use tcp_client.Cli.Usage.{print_usage, print_version}
use tcp_client.Socket.Codes.{SocketError, dns, refused, timeout, io, Code}
use tcp_client.Socket.Write as Write
use tcp_client.Socket.Connect as Connect
use tcp_client.Socket.Connect.{Address, socket_connect, socket_close}
use tcp_client.Oneshot.Loop as Oneshot
use tcp_client.Oneshot.Mode.{code_of, run_oneshot_mode}
use tcp_client.Interactive.Pipe as Pipe
use tcp_client.Interactive.Handler.{Session}
use tcp_client.Interactive.Terminal as Terminal
use tcp_client.Interactive.Terminal.{fresh, run_interactive_mode}

-- What the program meets: its name, the command line, what platform_init, isatty() and getaddrinfo() answer,
-- whether raw mode can be set, the array of the line editor, the history file, what stdin and the
-- server give, and the answers of the kernel in each of the modes.
pub record World : Type 0 where
  pub platform_ok : Bool
  pub prog_name : Option Bytes
  pub opts : List Opt
  pub arguments : List Bytes
  pub stdin_is_tty : Bool
  pub found : Option (List Address)
  pub raw_mode : Bool
  pub edit_buf : Bytes
  pub file : Option Bytes
  pub can_save : Bool
  pub input : Bytes
  pub incoming : Bytes
  pub answers : List (List Write.Round)
  pub tty_rounds : List Terminal.Round
  pub pipe_rounds : List Pipe.Round
  pub oneshot_rounds : List Oneshot.Round

-- The exit code, `none` where the program never ends in an orderly way, the sockets that were opened
-- and closed, oldest first, how often platform_cleanup() was called, and what main itself printed on
-- stdout.
pub record Exit : Type 0 where
  pub code : Option ℕ
  pub opened : List ℕ
  pub closed : List ℕ
  pub cleanups : ℕ
  pub printed : Bytes

-- platform_init() has failed.
unfoldable pub no_platform : Exit
no_platform = record { code = some 5; opened = []; closed = []; cleanups = 0; printed = [] }

-- The program ends before it connects.
unfoldable pub exit : ℕ → Bytes → Exit
exit n text = record { code = some n; opened = []; closed = []; cleanups = 1; printed = text }

-- `-sockfd`
unfoldable pub exit_code : SocketError → ℕ
exit_code dns = 2
exit_code refused = 3
exit_code timeout = 4
exit_code io = 5

unfoldable pub pipe_code : Pipe.Ended → Option ℕ
pipe_code (Pipe.returned n s) = some n
pipe_code (Pipe.blocked s) = none
pipe_code Pipe.faulted = none

unfoldable pub terminal_code : Terminal.Ended → Option ℕ
terminal_code (Terminal.returned n s) = some n
terminal_code (Terminal.blocked s) = none
terminal_code (Terminal.faulted s) = none

unfoldable pub interactive_code : Terminal.Mode → Option ℕ
interactive_code Terminal.invalid = some 5
interactive_code (Terminal.piped e) = pipe_code e
interactive_code (Terminal.terminal e) = terminal_code e

unfoldable pub session : World → Session
session w = record {
  editor = fresh w.edit_buf;
  file = w.file;
  can_save = w.can_save;
  input = w.input;
  incoming = w.incoming;
  answers = w.answers;
  wire = [];
}

unfoldable pub result_code : World → Config → ℕ → Mode → Option ℕ
result_code w config sockfd interactive = interactive_code (
    run_interactive_mode w.stdin_is_tty w.raw_mode (some (config, sockfd)) (session w) w.tty_rounds
      w.pipe_rounds)
result_code w config sockfd oneshot = code_of (run_oneshot_mode (some config) w.oneshot_rounds)
result_code w config sockfd auto = code_of (run_oneshot_mode (some config) w.oneshot_rounds)

-- The socket is closed and the platform left where the mode returns.
unfoldable pub closed_by : Option ℕ → ℕ → List ℕ
closed_by none sockfd = []
closed_by (some n) sockfd = socket_close (some sockfd)

unfoldable pub left_by : Option ℕ → ℕ
left_by none = 0
left_by (some n) = 1

unfoldable pub after_mode : Option ℕ → ℕ → Connect.Outcome → Exit
after_mode code sockfd o = record {
  code = code;
  opened = o.opened;
  closed = o.closed ++ closed_by code sockfd;
  cleanups = left_by code;
  printed = [];
}

unfoldable pub after_connect : World → Config → Code → Connect.Outcome → Exit
after_connect w config (err e) o = record {
  code = some (exit_code e);
  opened = o.opened;
  closed = o.closed;
  cleanups = 1;
  printed = [];
}
after_connect w config (ok sockfd) o = after_mode (result_code w config sockfd config.mode) sockfd o

unfoldable pub connect : World → Config → Exit
connect w config =
    let o = socket_connect (some config.host) config.port w.found in after_connect w config o.code o

-- What follows parse_cli_args.
unfoldable pub after_parse : World → ℕ × Config → Exit
after_parse w (code, config) =
    if not (code == 0)
    then exit 1 []
    else if config.show_help
    then exit 0 (print_usage w.prog_name)
    else if config.show_version
    then exit 0 print_version
    else connect w (record config { mode = choose_mode w.stdin_is_tty config })

unfoldable pub main : World → Exit
main w = if w.platform_ok then after_parse w (parse_cli_args w.opts w.arguments) else no_platform
