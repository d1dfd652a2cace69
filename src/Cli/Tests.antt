-- ===== src/Cli/Tests.antt =====
-- parse_cli_args on a concrete command line.
use tcp_client.Base.{◌≡◌, refl, List, [], ◌∷◌, Bytes, codes}
use tcp_client.Cli.Args.{
  Opt, opt_hex, opt_decode_hsm, parse_cli_args, finish, each, take_opt, set_hex, take_argument,
  default_config, set_host, set_port, in_range, validate,
}
use tcp_client.Hex.{
  hex_to_bytes, hex_loop, skip_prefix, skip_spaces, is_space, is_separator, hex_char_to_int,
}
use tcp_client.Cli.Numbers.{
  parse_int, checked, in_int, is_digit, read_digits, starts_digit, strtol_sign, strtol_whole, whole,
  int_max,
}
use tcp_client.Cli.Checked.{InRange, parse_cli_args-InRange}

abbrev options : List Opt
options = opt_hex (codes "00 06") ∷ opt_decode_hsm ∷ []

abbrev arguments : List Bytes
arguments = codes "hsm" ∷ codes "1500" ∷ []

parse_cli_args-InRange_example : InRange (parse_cli_args options arguments).1
parse_cli_args-InRange_example = parse_cli_args-InRange options arguments

accepted : (parse_cli_args options arguments).0 ≡ 0
unfolding parse_cli_args finish each take_opt set_hex take_argument default_config set_host set_port
    in_range validate hex_to_bytes hex_loop skip_prefix skip_spaces is_space is_separator
    hex_char_to_int parse_int checked in_int is_digit read_digits starts_digit strtol_sign
    strtol_whole whole int_max
accepted = refl
