-- ===== src/Console/Raw.antt =====
-- linenoiseEnableRawMode and linenoiseDisableRawMode of src/linenoise.c, and the handlers of
-- src/signal_handler.c, for POSIX. isatty(), tcgetattr() and tcsetattr() are calls of the system: whether
-- they work is an argument, and a tcsetattr() that works sets all that it is given.
use tcp_client.Base.{ℕ, Bool, true, false, ◌&&◌, not, List, [], ◌∷◌, if◌then◌else◌}

-- The flags that the code names, and all others. CS8 is the value of a field, for eight bits.
pub data InputFlag : Type 0 where
  brkint icrnl inpck istrip ixon : InputFlag
  other_input : ℕ → InputFlag

pub data OutputFlag : Type 0 where
  opost : OutputFlag
  other_output : ℕ → OutputFlag

pub data ControlFlag : Type 0 where
  cs8 : ControlFlag
  other_control : ℕ → ControlFlag

pub data LocalFlag : Type 0 where
  echo icanon iexten isig : LocalFlag
  other_local : ℕ → LocalFlag

pub record Termios : Type 0 where
  pub c_iflag : InputFlag → Bool
  pub c_oflag : OutputFlag → Bool
  pub c_cflag : ControlFlag → Bool
  pub c_lflag : LocalFlag → Bool
  pub vmin : ℕ
  pub vtime : ℕ

-- `&= ~(BRKINT | ICRNL | INPCK | ISTRIP | IXON)`
unfoldable pub raw_input : (InputFlag → Bool) → InputFlag → Bool
raw_input flags brkint = false
raw_input flags icrnl = false
raw_input flags inpck = false
raw_input flags istrip = false
raw_input flags ixon = false
raw_input flags (other_input n) = flags (other_input n)

-- `&= ~(OPOST)`
unfoldable pub raw_output : (OutputFlag → Bool) → OutputFlag → Bool
raw_output flags opost = false
raw_output flags (other_output n) = flags (other_output n)

-- `|= (CS8)`
unfoldable pub raw_control : (ControlFlag → Bool) → ControlFlag → Bool
raw_control flags cs8 = true
raw_control flags (other_control n) = flags (other_control n)

-- `&= ~(ECHO | ICANON | IEXTEN | ISIG)`
unfoldable pub raw_local : (LocalFlag → Bool) → LocalFlag → Bool
raw_local flags echo = false
raw_local flags icanon = false
raw_local flags iexten = false
raw_local flags isig = false
raw_local flags (other_local n) = flags (other_local n)

unfoldable pub made_raw : Termios → Termios
made_raw t = record {
  c_iflag = raw_input t.c_iflag;
  c_oflag = raw_output t.c_oflag;
  c_cflag = raw_control t.c_cflag;
  c_lflag = raw_local t.c_lflag;
  vmin = 1;
  vtime = 0;
}

-- What is given to atexit().
pub data Handler : Type 0 where
  restore_terminal linenoise_at_exit : Handler

-- `tty` is what the terminal is set to, and `handlers` are those of atexit(), the newest first. The
-- other fields are the variables of the two files, and whether SIGPIPE is ignored and SIGINT and
-- SIGTERM are handled.
pub record State : Type 0 where
  pub tty : Termios
  pub rawmode : Bool
  pub orig_termios : Termios
  pub atexit_registered : Bool
  pub g_termios_saved : Bool
  pub g_orig_termios : Termios
  pub g_interrupted : Bool
  pub handlers : List Handler
  pub ignores_sigpipe : Bool
  pub handles_signals : Bool

-- How isatty(), tcgetattr() and tcsetattr() go in a call.
pub record Answers : Type 0 where
  pub is_tty : Bool
  pub gets : Bool
  pub sets : Bool

unfoldable pub tcsetattr : Bool → Termios → State → State
tcsetattr works t s = if works then record s { tty = t } else s

unfoldable pub register_at_exit : State → State
register_at_exit s =
    if s.atexit_registered
    then s
    else record s { atexit_registered = true; handlers = linenoise_at_exit ∷ s.handlers }

-- With the attributes saved, raw mode is set.
unfoldable pub set_raw : Bool → State → Bool × State
set_raw works s =
    if works
    then (true, register_at_exit (record s { tty = made_raw s.orig_termios; rawmode = true }))
    else (false, s)

-- Whether 0 is returned, or -1.
unfoldable pub enable_raw_mode : Answers → State → Bool × State
enable_raw_mode a s =
    if s.rawmode
    then (true, s)
    else if not a.is_tty
    then (false, s)
    else if not a.gets
    then (false, s)
    else set_raw a.sets (record s { orig_termios = s.tty })

unfoldable pub disable_raw_mode : Bool → State → State
disable_raw_mode works s =
    if s.rawmode
    then (let t = tcsetattr works s.orig_termios s in record t { rawmode = false })
    else s

-- The attributes are saved for the end of the program.
unfoldable pub save_terminal : Answers → State → State
save_terminal a s =
    if a.is_tty && a.gets
    then record s {
      g_orig_termios = s.tty;
      g_termios_saved = true;
      handlers = restore_terminal ∷ s.handlers;
    }
    else s

unfoldable pub setup_signal_handlers : Answers → State → State
setup_signal_handlers a s =
    let t = save_terminal a s in record t { ignores_sigpipe = true; handles_signals = true }

-- handle_signal(), which SIGINT or SIGTERM calls.
unfoldable pub handle_signal : State → State
handle_signal s = record s { g_interrupted = true }

unfoldable pub signal_handler_is_interrupted : State → Bool
signal_handler_is_interrupted s = s.g_interrupted

unfoldable pub run_handler : Bool → Handler → State → State
run_handler works restore_terminal s =
    if s.g_termios_saved then tcsetattr works s.g_orig_termios s else s
run_handler works linenoise_at_exit s = disable_raw_mode works s

-- exit(): the handlers from the newest to the oldest, each with a tcsetattr() that works or not.
unfoldable pub run_handlers : (Handler → Bool) → List Handler → State → State
run_handlers works [] s = s
run_handlers works (h ∷ handlers) s = run_handlers works handlers (run_handler (works h) h s)

unfoldable pub exit : (Handler → Bool) → State → State
exit works s = run_handlers works s.handlers s

-- The program begins, at a terminal with some attributes.
unfoldable pub initial : Termios → Termios → State
initial tty unset = record {
  tty = tty;
  rawmode = false;
  orig_termios = unset;
  atexit_registered = false;
  g_termios_saved = false;
  g_orig_termios = unset;
  g_interrupted = false;
  handlers = [];
  ignores_sigpipe = false;
  handles_signals = false;
}
