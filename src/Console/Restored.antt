-- ===== src/Console/Restored.antt =====
-- The attributes of the terminal, from setup_signal_handlers() to exit().
use tcp_client.Base.{
  ◌≡◌, sym, ap, ◌∙◌, arith, Bool, true, false, [], ◌∷◌, if◌then◌else◌, Bool-cases, inl, inr,
}
use tcp_client.Console.Raw.{
  Termios, made_raw, Handler, restore_terminal, linenoise_at_exit, State, Answers, tcsetattr,
  register_at_exit, set_raw, enable_raw_mode, disable_raw_mode, save_terminal,
  setup_signal_handlers, handle_signal, run_handler, run_handlers, exit, initial,
}

-- What may happen to the terminal while the program runs; `P` says which answers of tcsetattr() are
-- met when raw mode is left.
pub data Step (P : Bool → Type 0) : State → State → Type 0 where
  enabled : (a : Answers) (s : State) → Step P s (enable_raw_mode a s).1
  disabled : (works : Bool) (s : State) → P works → Step P s (disable_raw_mode works s)
  signalled : (s : State) → Step P s (handle_signal s)

pub data Reach (P : Bool → Type 0) (s : State) : State → Type 0 where
  here : Reach P s s
  next : {t u : State} → Reach P s t → Step P t u → Reach P s u

-- main() calls setup_signal_handlers() before anything else.
abbrev pub begun : Answers → Termios → Termios → State
begun a tty unset = setup_signal_handlers a (initial tty unset)

-- The attributes that were found are saved, and the handler that sets them is the last to run.
record IsSaved (found : Termios) (s : State) : Type 0 where
  pub saved : s.g_termios_saved ≡ true
  pub original : s.g_orig_termios ≡ found
  pub order : s.handlers ≡ (
      if s.atexit_registered
      then linenoise_at_exit ∷ restore_terminal ∷ []
      else restore_terminal ∷ [])

module _ {found : Termios} where
  enable-IsSaved :
      (a : Answers) (s : State) → IsSaved found s → IsSaved found (enable_raw_mode a s).1
  unfolding enable_raw_mode set_raw register_at_exit
  enable-IsSaved a s h = ground arith

  disable-IsSaved :
      (works : Bool) (s : State) → IsSaved found s → IsSaved found (disable_raw_mode works s)
  unfolding disable_raw_mode tcsetattr
  disable-IsSaved works s h = ground arith

  Step-IsSaved : {P : Bool → Type 0} {s t : State} → Step P s t → IsSaved found s → IsSaved found t
  Step-IsSaved (enabled a s) h = enable-IsSaved a s h
  Step-IsSaved (disabled works s p) h = disable-IsSaved works s h
  Step-IsSaved (signalled s) h =
      unfold handle_signal in record { saved = h.saved; original = h.original; order = h.order }

  Reach-IsSaved :
      {P : Bool → Type 0} {s t : State} → IsSaved found s → Reach P s t → IsSaved found t
  Reach-IsSaved h here = h
  Reach-IsSaved h (next r st) = Step-IsSaved st (Reach-IsSaved h r)

  exit-IsSaved :
      (works : Handler → Bool) (s : State)
      → works restore_terminal ≡ true
      → IsSaved found s
      → (exit works s).tty ≡ found
  unfolding exit run_handlers run_handler disable_raw_mode tcsetattr
  exit-IsSaved works s w h = ground arith

  begun-IsSaved :
      (a : Answers) (unset : Termios)
      → a.is_tty ≡ true
      → a.gets ≡ true
      → IsSaved found (begun a found unset)
  unfolding setup_signal_handlers save_terminal initial
  begun-IsSaved a unset h k = ground arith

-- However often the program sets raw mode, leaves it or meets a signal, and whichever of its calls of
-- tcsetattr() fail, the terminal has the attributes that it was found with once exit() has run its
-- handlers; if they could be read at the beginning, and the last call of tcsetattr() works.
pub exit-restores :
    (found unset : Termios) {s : State} (a : Answers) (works : Handler → Bool)
    → a.is_tty ≡ true
    → a.gets ≡ true
    → works restore_terminal ≡ true
    → Reach (λ b. Unit) (begun a found unset) s
    → (exit works s).tty ≡ found
exit-restores found unset {s} a works h k w r =
    exit-IsSaved works s w (Reach-IsSaved (begun-IsSaved a unset h k) r)

-- Out of raw mode the terminal is as it was found, and in it only made raw; the attributes to go back
-- to are kept.
record IsBalanced (found : Termios) (s : State) : Type 0 where
  pub cooked : s.rawmode ≡ false → s.tty ≡ found
  pub is_raw : s.rawmode ≡ true → (s.tty ≡ made_raw found) × (s.orig_termios ≡ found)

module _ {found : Termios} where
  enable-IsBalanced :
      (a : Answers) (s : State) → IsBalanced found s → IsBalanced found (enable_raw_mode a s).1
  unfolding enable_raw_mode set_raw register_at_exit
  enable-IsBalanced a s h = ground (arith, h.cooked, h.is_raw)

  disable-IsBalanced : (s : State) → IsBalanced found s → IsBalanced found (disable_raw_mode true s)
  unfolding disable_raw_mode tcsetattr
  disable-IsBalanced s h = ground (arith, h.cooked, h.is_raw)

  Step-IsBalanced :
      {s t : State} → Step (λ b. b ≡ true) s t → IsBalanced found s → IsBalanced found t
  Step-IsBalanced (enabled a s) h = enable-IsBalanced a s h
  Step-IsBalanced (disabled works s p) h = rw p (disable-IsBalanced s h)
  Step-IsBalanced (signalled s) h =
      unfold handle_signal in record { cooked = h.cooked; is_raw = h.is_raw }

  Reach-IsBalanced :
      {s t : State} → IsBalanced found s → Reach (λ b. b ≡ true) s t → IsBalanced found t
  Reach-IsBalanced h here = h
  Reach-IsBalanced h (next r st) = Step-IsBalanced st (Reach-IsBalanced h r)

  begun-IsBalanced : (a : Answers) (unset : Termios) → IsBalanced found (begun a found unset)
  unfolding setup_signal_handlers save_terminal initial
  begun-IsBalanced a unset = ground arith

-- While tcsetattr() works, the terminal is in raw mode exactly where the program believes it to be:
-- with the attributes that it was found with otherwise, and those made raw in between, however often
-- raw mode is set and left.
pub Reach-balanced :
    (found unset : Termios) {s : State} (a : Answers)
    → Reach (λ b. b ≡ true) (begun a found unset) s
    → s.tty ≡ (if s.rawmode then made_raw found else found)
Reach-balanced found unset {s} a r =
    let h = Reach-IsBalanced (begun-IsBalanced a unset) r in
    let tty_is = λ (b : Bool). if b then made_raw found else found in
    elim (Bool-cases s.rawmode) [
      | inl p ↦ (h.is_raw p).0 ∙ ap tty_is (sym p)
      | inr p ↦ h.cooked p ∙ ap tty_is (sym p)
    ]
