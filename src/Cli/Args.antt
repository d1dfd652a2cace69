-- ===== src/Cli/Args.antt =====
-- parse_cli_args: what getopt_long returns, one option after another, is taken as a list.
use tcp_client.Base.{
  ℕ, Bool, true, false, ◌||◌, Option, none, some, List, [], ◌∷◌, Bytes, length, ltb, leb, ◌==◌,
  if◌then◌else◌, ok, err, Result,
}
use tcp_client.Hex.{HexError, hex_to_bytes, unescape_string, parse_hex_byte}
use tcp_client.Cli.Numbers.{ℤ, pos, negsuc, parse_int}

-- client_mode_t
pub data Mode : Type 0 where
  auto interactive oneshot : Mode

-- cli_config_t. A `char` array is the text before its NUL.
pub record Config : Type 0 where
  pub host : Bytes
  pub port : ℕ
  pub timeout_ms : ℕ
  pub force_interactive : Bool
  pub verbose : Bool
  pub show_help : Bool
  pub show_version : Bool
  pub mode : Mode
  pub hex_payload : Bytes
  pub is_hex : Bool
  pub hex_out : Bool
  pub ascii_payload : Bytes
  pub is_ascii : Bool
  pub add_tcp_len : Bool
  pub decode_hsm : Bool
  pub hsm_header_len : ℕ
  pub has_term_char : Bool
  pub term_char : ℕ

-- The labels of the switch, with `optarg` where the option takes one; `other` is '?' and the default.
pub data Opt : Type 0 where
  opt_host opt_port opt_timeout opt_hex opt_ascii opt_term opt_header_len : Bytes → Opt
  opt_hex_out opt_add_tcp_len opt_decode_hsm opt_interactive opt_verbose opt_help opt_version
        other :
      Opt

-- What the body of a loop does: go on, or return a code.
pub data Step : Type 0 where
  next : Config → Step
  stop : ℕ → Config → Step

unfoldable pub default_config : Config
default_config = record {
  host = [];
  port = 0;
  timeout_ms = 5000;
  force_interactive = false;
  verbose = false;
  show_help = false;
  show_version = false;
  mode = auto;
  hex_payload = [];
  is_hex = false;
  hex_out = false;
  ascii_payload = [];
  is_ascii = false;
  add_tcp_len = false;
  decode_hsm = false;
  hsm_header_len = 0;
  has_term_char = false;
  term_char = 0;
}

-- A number that parse_int reads and that is between `low` and `high`.
unfoldable pub in_range : ℕ → ℕ → Option ℤ → Option ℕ
in_range low high none = none
in_range low high (some (negsuc n)) = none
in_range low high (some (pos n)) = if ltb n low || ltb high n then none else some n

-- A number that is not negative.
unfoldable pub natural : Option ℤ → Option ℕ
natural none = none
natural (some (negsuc n)) = none
natural (some (pos n)) = some n

unfoldable pub set_host : Bytes → Config → Step
set_host text c = if leb 256 (length text) then stop 1 c else next (record c { host = text })

unfoldable pub set_port : Option ℕ → Config → Step
set_port none c = stop 1 c
set_port (some n) c = next (record c { port = n })

unfoldable pub set_timeout : Option ℕ → Config → Step
set_timeout none c = stop 1 c
set_timeout (some n) c = next (record c { timeout_ms = n })

unfoldable pub set_header_len : Option ℕ → Config → Step
set_header_len none c = stop 1 c
set_header_len (some n) c = next (record c { hsm_header_len = n })

unfoldable pub set_hex : Bytes → Result HexError Bytes → Config → Step
set_hex text (err e) c = stop 1 c
set_hex text (ok bytes) c = next (record c { hex_payload = text; is_hex = true })

unfoldable pub set_ascii : Result HexError Bytes → Config → Step
set_ascii (err e) c = stop 1 c
set_ascii (ok bytes) c = next (record c { ascii_payload = bytes; is_ascii = true })

unfoldable pub set_term : Result HexError ℕ → Config → Step
set_term (err e) c = stop 1 c
set_term (ok b) c = next (record c { term_char = b; has_term_char = true })

-- One round of the switch.
unfoldable pub take_opt : Opt → Config → Step
take_opt (opt_host arg) c = set_host arg c
take_opt (opt_port arg) c = set_port (in_range 1 65535 (parse_int (some arg))) c
take_opt (opt_timeout arg) c = set_timeout (natural (parse_int (some arg))) c
take_opt (opt_hex arg) c =
    if leb 65536 (length arg)
    then stop 1 c
    else set_hex arg (hex_to_bytes (some arg) (some 65536)) c
take_opt (opt_ascii arg) c = set_ascii (unescape_string (some arg) (some 65536)) c
take_opt (opt_term arg) c = set_term (parse_hex_byte (some arg) true) c
take_opt (opt_header_len arg) c = set_header_len (in_range 0 64 (parse_int (some arg))) c
take_opt opt_hex_out c = next (record c { hex_out = true })
take_opt opt_add_tcp_len c = next (record c { add_tcp_len = true })
take_opt opt_decode_hsm c = next (record c { decode_hsm = true })
take_opt opt_interactive c = next (record c { force_interactive = true; mode = interactive })
take_opt opt_verbose c = next (record c { verbose = true })
take_opt opt_help c = stop 0 (record c { show_help = true })
take_opt opt_version c = stop 0 (record c { show_version = true })
take_opt other c = stop 1 c

-- One positional argument.
unfoldable pub take_argument : Bytes → Config → Step
take_argument arg c =
    if length c.host == 0
    then set_host arg c
    else if c.port == 0
    then set_port (in_range 1 65535 (parse_int (some arg))) c
    else stop 1 c

-- A loop over what is left: it ends early where its body returns.
unfoldable pub each {ℓ} : {A : Type ℓ} → (A → Config → Step) → List A → Step → Step
each f [] s = s
each f (a ∷ rest) (stop code c) = stop code c
each f (a ∷ rest) (next c) = each f rest (f a c)

-- The checks after the loops.
unfoldable pub validate : Config → ℕ
validate c =
    if c.show_help || c.show_version
    then 0
    else if length c.host == 0
    then 1
    else if c.port == 0
    then 1
    else 0

unfoldable pub finish : Step → ℕ × Config
finish (stop code c) = (code, c)
finish (next c) = (validate c, c)

-- The code that is returned, and the configuration. `arguments` are those that are no options.
unfoldable pub parse_cli_args : List Opt → List Bytes → ℕ × Config
parse_cli_args opts arguments =
    finish (each take_argument arguments (each take_opt opts (next default_config)))

-- main's choice of the mode, where MODE_AUTO stands for none yet.
unfoldable pub choose_mode : Bool → Config → Mode
choose_mode stdin_is_tty c = elim c.mode [
  | auto ↦
      if c.is_hex || c.is_ascii
      then oneshot
      else if stdin_is_tty || c.force_interactive
      then interactive
      else oneshot
  | interactive ↦ interactive
  | oneshot ↦ oneshot
]
