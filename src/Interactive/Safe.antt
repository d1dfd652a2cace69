-- ===== src/Interactive/Safe.antt =====
-- The arrays of a whole session at the terminal, however long it is.
use tcp_client.Base.{
  ℕ, ◌≡◌, refl, ap, ◌∙◌, Bool, true, false, List, [], ◌∷◌, All, length, if◌then◌else◌, inl,
}
use tcp_client.Cli.Args.{Config}
use tcp_client.Linenoise.Memory.{HasNoNul}
use tcp_client.Linenoise.Strings.{
  history_load-HasNoNul, history_set_max_len-HasNoNul, history_load-buf,
}
use tcp_client.Linenoise.History.{history_free}
use tcp_client.Interactive.Completions.{interactive_completion_callback-IsSound}
use tcp_client.Interactive.Handler.{Session}
use tcp_client.Interactive.Terminal.{
  Round, Step, Ended, returned, cleaned, go_on, loop, set_up, run_interactive_tty_mode,
}
use tcp_client.Interactive.Sound.{AreBytes, IsHeld, IsOpen}
use tcp_client.Interactive.Steps.{
  EndsWell, IsSafe, safe_goes, safe_leaves, safe_stuck, safe_broken, edit_restart-IsSafe,
  on_poll-IsSafe,
}

module _ (config : Config) (sockfd : ℕ) where
  cleaned_freed : (s : Session) → (cleaned s).editor.history ≡ []
  unfolding cleaned history_free
  cleaned_freed s = refl

  go_on-EndsWell :
      {x : Step} (rest : Session → Ended)
      → IsSafe x
      → ((s : Session) → IsOpen s → EndsWell (rest s))
      → EndsWell (go_on x rest)
  unfolding go_on
  go_on-EndsWell rest (safe_goes o) h = h _ o
  go_on-EndsWell rest (safe_leaves c) h = (c, cleaned_freed _)
  go_on-EndsWell rest safe_stuck h = tt
  go_on-EndsWell rest (safe_broken over) h = over

  loop-EndsWell :
      (rounds : List Round) (s : Session) → IsOpen s → EndsWell (loop config sockfd s rounds)
  unfolding loop
  loop-EndsWell [] s o = tt
  loop-EndsWell (r ∷ rounds) s o =
      one_of _ r.interrupted
        (go_on-EndsWell _ (on_poll-IsSafe config sockfd r r.poll s o) (loop-EndsWell rounds))
    where
      one_of :
          (x : Ended) (b : Bool) → EndsWell x → EndsWell (if b then returned 0 (cleaned s) else x)
      one_of x true h = (inl refl, cleaned_freed s)
      one_of x false h = h

  set_up-IsHeld :
      (s : Session)
      → length s.editor.buf ≡ 65536
      → All HasNoNul s.editor.history
      → AreBytes s.input
      → IsHeld (set_up s)
  unfolding set_up
  set_up-IsHeld s size lines bytes = record {
    size = ap length (history_load-buf s.editor 500 s.file) ∙ size;
    lines = history_load-HasNoNul _ s.file (history_set_max_len-HasNoNul s.editor 500 lines);
    callback = interactive_completion_callback-IsSound;
    bytes = bytes;
  }

-- Whatever is typed, whatever the server sends and however the calls of the kernel go, the terminal
-- mode makes no access outside its buffers, the history and the completions, and returns 0 or 5
-- with the history freed, unless it blocks; the one fault left is a digit that takes the number of
-- an escape sequence past the largest int. The line buffer has its 65536 bytes, and the history
-- holds C strings as the mode begins.
pub run_interactive_tty_mode-EndsWell :
    (config : Config) (sockfd : ℕ) (s : Session) (rounds : List Round)
    → length s.editor.buf ≡ 65536
    → All HasNoNul s.editor.history
    → AreBytes s.input
    → EndsWell (run_interactive_tty_mode config sockfd s rounds)
unfolding run_interactive_tty_mode
run_interactive_tty_mode-EndsWell config sockfd s rounds size lines bytes =
    go_on-EndsWell config sockfd _
      (edit_restart-IsSafe _ (set_up-IsHeld config sockfd s size lines bytes))
      (loop-EndsWell config sockfd rounds)
