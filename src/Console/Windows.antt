-- ===== src/Console/Windows.antt =====
-- linenoiseEnableRawMode and linenoiseDisableRawMode of src/linenoise.c on Windows, where raw mode is a
-- mode of the console for input and one for output. GetStdHandle(), GetConsoleMode() and SetConsoleMode()
-- are calls of the system: whether they work is an argument. One that works does what it is told, one
-- that fails changes nothing, and the standard handles stay those of the same console.
use tcp_client.Base.{ℕ, Bool, true, false, ◌&&◌, ◌||◌, not, if◌then◌else◌}

-- The flags of the input that the code names, and all others.
pub data InputMode : Type 0 where
  line_input echo_input processed_input virtual_terminal_input : InputMode
  other_input_mode : ℕ → InputMode

pub data OutputMode : Type 0 where
  virtual_terminal_processing disable_newline_auto_return : OutputMode
  other_output_mode : ℕ → OutputMode

unfoldable pub raw_in : (InputMode → Bool) → InputMode → Bool
raw_in mode line_input = false
raw_in mode echo_input = false
raw_in mode processed_input = false
raw_in mode virtual_terminal_input = true
raw_in mode (other_input_mode n) = mode (other_input_mode n)

unfoldable pub raw_out : (OutputMode → Bool) → OutputMode → Bool
raw_out mode virtual_terminal_processing = true
raw_out mode disable_newline_auto_return = true
raw_out mode (other_output_mode n) = mode (other_output_mode n)

-- The modes of the console, and the variables of the file. `has_stdin` says that hStdin is not
-- INVALID_HANDLE_VALUE, and `atexit_registered` that linenoiseAtExit has been given to atexit().
pub record State : Type 0 where
  pub input : InputMode → Bool
  pub output : OutputMode → Bool
  pub rawmode : Bool
  pub has_stdin : Bool
  pub has_stdout : Bool
  pub orig_stdin_mode : InputMode → Bool
  pub orig_stdout_mode : OutputMode → Bool
  pub atexit_registered : Bool

-- How the calls go for stdin and for stdout.
pub record Answers : Type 0 where
  pub finds_stdin : Bool
  pub finds_stdout : Bool
  pub gets_stdin : Bool
  pub gets_stdout : Bool
  pub sets_stdin : Bool
  pub sets_stdout : Bool

-- Whether the mode of the output can be set is not looked at.
unfoldable pub set_output : Bool → State → State
set_output works s = if works then record s { output = raw_out s.orig_stdout_mode } else s

unfoldable pub set_modes : Answers → State → Bool × State
set_modes a s =
    if a.sets_stdin
    then (
      true,
      record (set_output a.sets_stdout (record s { input = raw_in s.orig_stdin_mode })) {
        rawmode = true;
        atexit_registered = true;
      },
    )
    else (false, s)

-- With both handles at hand, the modes are saved.
unfoldable pub save_modes : Answers → State → Bool × State
save_modes a s =
    if not a.gets_stdin
    then (false, s)
    else if not a.gets_stdout
    then (false, record s { orig_stdin_mode = s.input })
    else set_modes a (record s { orig_stdin_mode = s.input; orig_stdout_mode = s.output })

-- Whether 0 is returned, or -1.
unfoldable pub enable_raw_mode : Answers → State → Bool × State
enable_raw_mode a s =
    if s.rawmode
    then (true, s)
    else if not a.finds_stdin || not a.finds_stdout
    then (false, record s { has_stdin = a.finds_stdin; has_stdout = a.finds_stdout })
    else save_modes a (record s { has_stdin = true; has_stdout = true })

unfoldable pub restore_input : Bool → State → State
restore_input works s = if s.has_stdin && works then record s { input = s.orig_stdin_mode } else s

unfoldable pub restore_output : Bool → State → State
restore_output works s =
    if s.has_stdout && works then record s { output = s.orig_stdout_mode } else s

-- With whether SetConsoleMode() works for stdin and for stdout.
unfoldable pub disable_raw_mode : Bool → Bool → State → State
disable_raw_mode works_in works_out s =
    if s.rawmode
    then (let t = restore_output works_out (restore_input works_in s) in
        record t { rawmode = false })
    else s

-- exit(), which runs linenoiseAtExit() where it has been registered.
unfoldable pub exit : Bool → Bool → State → State
exit works_in works_out s = if s.atexit_registered then disable_raw_mode works_in works_out s else s

-- The program begins, at a console in some modes.
unfoldable pub initial : (InputMode → Bool) → (OutputMode → Bool) → State
initial input output = record {
  input = input;
  output = output;
  rawmode = false;
  has_stdin = false;
  has_stdout = false;
  orig_stdin_mode = λ f. false;
  orig_stdout_mode = λ f. false;
  atexit_registered = false;
}
