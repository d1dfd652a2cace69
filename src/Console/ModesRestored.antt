-- ===== src/Console/ModesRestored.antt =====
-- The modes of the Windows console, from the first raw mode to exit().
use tcp_client.Base.{◌≡◌, arith, Bool, true, false}
use tcp_client.Console.Windows.{
  InputMode, OutputMode, State, Answers, set_output, set_modes, save_modes, enable_raw_mode,
  restore_input, restore_output, disable_raw_mode, exit, initial,
}

-- What the program does with the console, where leaving raw mode works.
pub data Step : State → State → Type 0 where
  enabled : (a : Answers) (s : State) → Step s (enable_raw_mode a s).1
  disabled : (s : State) → Step s (disable_raw_mode true true s)

pub data Reach (s : State) : State → Type 0 where
  here : Reach s s
  next : {t u : State} → Reach s t → Step t u → Reach s u

-- Out of raw mode the console is in the modes that it was found in; in raw mode they are kept, with
-- what it takes to go back to them.
record IsKept (input : InputMode → Bool) (output : OutputMode → Bool) (s : State) : Type 0 where
  pub cooked : s.rawmode ≡ false → (s.input ≡ input) × (s.output ≡ output)
  pub kept : s.rawmode ≡ true → (s.orig_stdin_mode ≡ input) × (s.orig_stdout_mode ≡ output)
  pub handles : s.rawmode ≡ true → (s.has_stdin ≡ true) × (s.has_stdout ≡ true)
  pub registered : s.rawmode ≡ true → s.atexit_registered ≡ true

module _ {input : InputMode → Bool} {output : OutputMode → Bool} where
  enable-IsKept :
      (a : Answers) (s : State)
      → IsKept input output s
      → IsKept input output (enable_raw_mode a s).1
  unfolding enable_raw_mode save_modes set_modes set_output
  enable-IsKept a s h = ground (arith, h.cooked, h.kept, h.handles, h.registered)

  disable-IsKept :
      (s : State) → IsKept input output s → IsKept input output (disable_raw_mode true true s)
  unfolding disable_raw_mode restore_input restore_output
  disable-IsKept s h = ground (arith, h.cooked, h.kept, h.handles, h.registered)

  Step-IsKept : {s t : State} → Step s t → IsKept input output s → IsKept input output t
  Step-IsKept (enabled a s) h = enable-IsKept a s h
  Step-IsKept (disabled s) h = disable-IsKept s h

  Reach-IsKept : {s t : State} → IsKept input output s → Reach s t → IsKept input output t
  Reach-IsKept h here = h
  Reach-IsKept h (next r st) = Step-IsKept st (Reach-IsKept h r)

  initial-IsKept : IsKept input output (initial input output)
  unfolding initial
  initial-IsKept = ground arith

  exit-IsKept :
      (s : State)
      → IsKept input output s
      → ((exit true true s).input ≡ input) × ((exit true true s).output ≡ output)
  unfolding exit disable_raw_mode restore_input restore_output
  exit-IsKept s h = ground (arith, h.cooked, h.kept, h.handles, h.registered)

-- However often the program sets raw mode and leaves it on Windows, and whichever call fails while it
-- is set, the console is in the modes that it was found in once exit() has run its handler; if the
-- calls of SetConsoleMode() that leave raw mode work.
pub exit-restores_modes :
    (input : InputMode → Bool) (output : OutputMode → Bool) {s : State}
    → Reach (initial input output) s
    → ((exit true true s).input ≡ input) × ((exit true true s).output ≡ output)
exit-restores_modes input output {s} r = exit-IsKept s (Reach-IsKept initial-IsKept r)
