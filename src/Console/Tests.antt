-- ===== src/Console/Tests.antt =====
-- The terminal of a concrete run.
use tcp_client.Base.{◌≡◌, refl, Bool, true, false, if◌then◌else◌}
use tcp_client.Console.Raw.{
  Termios, made_raw, Handler, restore_terminal, linenoise_at_exit, State, Answers, enable_raw_mode,
  disable_raw_mode, handle_signal, exit,
}
use tcp_client.Console.Restored.{
  enabled, disabled, signalled, here, next, begun, exit-restores, Reach-balanced,
}
use tcp_client.Console.Windows as Windows
use tcp_client.Console.Windows.{InputMode, OutputMode}
use tcp_client.Console.ModesRestored as Modes
use tcp_client.Console.ModesRestored.{exit-restores_modes}

abbrev cooked : Termios
cooked = record {
  c_iflag = λ f. true;
  c_oflag = λ f. true;
  c_cflag = λ f. true;
  c_lflag = λ f. true;
  vmin = 4;
  vtime = 9;
}

abbrev answers : Answers
answers = record { is_tty = true; gets = true; sets = true }

-- Raw mode is set, a signal comes, and the program ends there.
abbrev interrupted : State
interrupted = handle_signal (enable_raw_mode answers (begun answers cooked cooked)).1

-- tcsetattr() fails where raw mode would be left.
abbrev last_works : Handler → Bool
last_works restore_terminal = true
last_works linenoise_at_exit = false

exit-restores_example : (exit last_works interrupted).tty ≡ cooked
exit-restores_example =
    exit-restores cooked cooked answers last_works refl refl refl
      (next (next here (enabled answers _)) (signalled _))

-- Raw mode is set, left and set again.
abbrev twice : State
twice =
    (enable_raw_mode answers
      (disable_raw_mode true (enable_raw_mode answers (begun answers cooked cooked)).1)).1

Reach-balanced_example : twice.tty ≡ (if twice.rawmode then made_raw cooked else cooked)
Reach-balanced_example =
    Reach-balanced cooked cooked answers
      (next (next (next here (enabled answers _)) (disabled true _ refl)) (enabled answers _))

abbrev in_modes : InputMode → Bool
in_modes f = true

abbrev out_modes : OutputMode → Bool
out_modes f = false

-- The output cannot be set.
abbrev half_set : Windows.Answers
half_set = record {
  finds_stdin = true;
  finds_stdout = true;
  gets_stdin = true;
  gets_stdout = true;
  sets_stdin = true;
  sets_stdout = false;
}

-- Raw mode is set, left and set again, and the program ends there.
abbrev console_twice : Windows.State
console_twice =
    (Windows.enable_raw_mode half_set (
      Windows.disable_raw_mode true true
        (Windows.enable_raw_mode half_set (Windows.initial in_modes out_modes)).1)).1

exit-restores_modes_example :
    ((Windows.exit true true console_twice).input ≡ in_modes)
    × ((Windows.exit true true console_twice).output ≡ out_modes)
exit-restores_modes_example = exit-restores_modes in_modes out_modes (
    Modes.next (Modes.next (Modes.next Modes.here (Modes.enabled half_set _)) (Modes.disabled _))
      (Modes.enabled half_set _))
