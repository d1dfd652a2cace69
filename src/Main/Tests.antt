-- ===== src/Main/Tests.antt =====
-- The program at a host that refuses the connection.
use tcp_client.Base.{
  ◌≡◌, ◌≢◌, ◌≤◌, ◌↔◌, refl, true, false, some, none, [], ◌∷◌, codes, take, zeros, length-zeros,
}
use tcp_client.Cli.Args.{
  opt_port, opt_help, parse_cli_args, finish, each, take_opt, take_argument, default_config,
  set_host, set_port, in_range, validate, choose_mode,
}
use tcp_client.Cli.Numbers.{
  parse_int, checked, in_int, is_digit, read_digits, starts_digit, strtol_sign, strtol_whole, whole,
  int_max,
}
use tcp_client.Hex.{skip_spaces, is_space}
use tcp_client.Socket.Codes.{is_socket_wouldblock, is_socket_refused}
use tcp_client.Socket.Connect.{
  connect_failed, poll_timeout, socket_connect, connect_loop, attempt, try_socket, check_connect,
}
use tcp_client.Main.Program.{World, exit, main, after_parse, connect, after_connect, exit_code}
use tcp_client.Cli.Usage.{name_of, print_usage}
use tcp_client.Main.Clean.{calls, main-IsClean, main_refused_iff}
use tcp_client.Main.Help.{main-help}

abbrev world : World
world = record {
  platform_ok = true;
  prog_name = some (codes "tcp-client");
  opts = [];
  arguments = codes "hsm" ∷ codes "1500" ∷ [];
  stdin_is_tty = true;
  found = some (
      record {
        sockfd = some 4;
        nonblocking = true;
        connect = connect_failed 111;
        poll = poll_timeout;
        so_error = none;
      }
      ∷ []);
  raw_mode = true;
  edit_buf = zeros 65536;
  file = none;
  can_save = false;
  input = [];
  incoming = [];
  answers = [];
  tty_rounds = [];
  pipe_rounds = [];
  oneshot_rounds = [];
}

exits_3 : (main world).code ≡ some 3
unfolding main after_parse connect after_connect exit_code socket_connect connect_loop attempt
    try_socket check_connect is_socket_wouldblock is_socket_refused parse_cli_args finish each
    take_opt take_argument default_config set_host set_port in_range validate choose_mode parse_int
    checked in_int is_digit read_digits starts_digit strtol_sign strtol_whole whole int_max
    skip_spaces is_space
exits_3 = refl

main-IsClean_example :
    (3 ≤ 5) × (((main world).opened ≡ (main world).closed) × ((main world).cleanups ≡ calls true))
main-IsClean_example = main-IsClean world 3 (length-zeros 65536) tt exits_3

main_refused_iff_example :
    ((main world).code ≡ some 1)
    ↔ ((true ≡ true) × ((parse_cli_args [] (codes "hsm" ∷ codes "1500" ∷ [])).0 ≢ 0))
main_refused_iff_example = main_refused_iff world (length-zeros 65536) tt

-- The port in front of the help is accepted, the one behind it is not looked at.
abbrev helped : World
helped = record world { opts = opt_port (codes "99") ∷ opt_help ∷ opt_port (codes "none") ∷ [] }

main-help_example : main helped ≡ exit 0 (print_usage (some (codes "tcp-client")))
unfolding each take_opt set_port in_range default_config parse_int checked in_int is_digit
    read_digits starts_digit strtol_sign strtol_whole whole int_max skip_spaces is_space
main-help_example =
    main-help helped (opt_port (codes "99") ∷ []) (opt_port (codes "none") ∷ [])
      (record default_config { port = 99 }) refl refl refl

-- Without a name of its own the program calls itself ./tcp-client.
unnamed_usage : take 45 (print_usage none) ≡ codes "Usage: ./tcp-client [options] <host> <port>\n "
unfolding print_usage name_of
unnamed_usage = refl
