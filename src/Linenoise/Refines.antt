-- ===== src/Linenoise/Refines.antt =====
-- The editor beside the line with a cursor: it is fed what the terminal sends for a list of commands.
use tcp_client.Base.{ℕ, ◌-◌, ◌≡◌, refl, ◌∙◌, some, List, [], ◌∷◌, All, true, false}
use tcp_client.Linenoise.State.{normal, State}
use tcp_client.Linenoise.Keys.{handle_left, handle_right, handle_home, handle_end, handle_delete}
use tcp_client.Linenoise.Feed.{
  arrow_key, feed_csi, tilde_key, feed_csi_num, feed_ss3, win_key, feed_win_ext,
}
use tcp_client.Linenoise.Plain.{IsPlain}
use tcp_client.Linenoise.Line.{
  Line, Command, insert, backspace, delete, clear, cut, home, last, left, right, redraw, Way,
  control, letter, application, number, other_number, windows, windows_zero, home_keys, end_keys,
  left_keys, right_keys, delete_keys, over, to_left, to_right, tail_of, apply, apply_all, keys_of,
  all_keys,
}
use tcp_client.Linenoise.Zipper.{home-Gives, last-Gives, left-Gives, right-Gives, delete-Gives}
use tcp_client.Linenoise.Sequences.{
  in_state, after_csi, letter-Runs, application-Runs, windows-Runs, number-Runs,
}
use tcp_client.Linenoise.Controls as Controls
use tcp_client.Linenoise.Controls.{
  Edits, feed_keys, Runs, backspace-Runs, ctrl_h-Runs, clear-Runs, cut-Runs, redraw-Runs,
  insert-Runs,
}

module _ {size : ℕ} {s : State} {l : Line} (d : Edits size s l) where
  home-Runs :
      (way : Way)
      → Runs size s (home_keys way) (record { before = []; behind = over l.behind l.before })
  unfolding home_keys feed_csi feed_csi_num feed_ss3 feed_win_ext arrow_key tilde_key win_key
  home-Runs control = Controls.home-Runs d
  home-Runs letter =
      letter-Runs d b'H' (handle_home (in_state s normal s.csi_num)) [] _ refl
        (home-Gives l.before l.behind (after_csi d s.csi_num).shows)
  home-Runs application =
      application-Runs d b'H' (handle_home (in_state s normal s.csi_num)) [] _ refl
        (home-Gives l.before l.behind (after_csi d s.csi_num).shows)
  home-Runs number =
      number-Runs d b'1' 1 (handle_home (in_state s normal 1)) [] _ refl refl
        (home-Gives l.before l.behind (after_csi d 1).shows)
  home-Runs other_number =
      number-Runs d b'7' 7 (handle_home (in_state s normal 7)) [] _ refl refl
        (home-Gives l.before l.behind (after_csi d 7).shows)
  home-Runs windows =
      windows-Runs d false 71 (handle_home (in_state s normal s.csi_num)) [] _ refl
        (home-Gives l.before l.behind (after_csi d s.csi_num).shows)
  home-Runs windows_zero =
      windows-Runs d true 71 (handle_home (in_state s normal s.csi_num)) [] _ refl
        (home-Gives l.before l.behind (after_csi d s.csi_num).shows)

  end-Runs :
      (way : Way)
      → Runs size s (end_keys way) (record { before = over l.before l.behind; behind = [] })
  unfolding end_keys feed_csi feed_csi_num feed_ss3 feed_win_ext arrow_key tilde_key win_key
  end-Runs control = Controls.last-Runs d
  end-Runs letter =
      letter-Runs d b'F' (handle_end (in_state s normal s.csi_num)) _ [] refl
        (last-Gives l.before l.behind (after_csi d s.csi_num).shows)
  end-Runs application =
      application-Runs d b'F' (handle_end (in_state s normal s.csi_num)) _ [] refl
        (last-Gives l.before l.behind (after_csi d s.csi_num).shows)
  end-Runs number =
      number-Runs d b'4' 4 (handle_end (in_state s normal 4)) _ [] refl refl
        (last-Gives l.before l.behind (after_csi d 4).shows)
  end-Runs other_number =
      number-Runs d b'8' 8 (handle_end (in_state s normal 8)) _ [] refl refl
        (last-Gives l.before l.behind (after_csi d 8).shows)
  end-Runs windows =
      windows-Runs d false 79 (handle_end (in_state s normal s.csi_num)) _ [] refl
        (last-Gives l.before l.behind (after_csi d s.csi_num).shows)
  end-Runs windows_zero =
      windows-Runs d true 79 (handle_end (in_state s normal s.csi_num)) _ [] refl
        (last-Gives l.before l.behind (after_csi d s.csi_num).shows)

  left-Runs : (way : Way) → Runs size s (left_keys way) (to_left l.before l.behind)
  unfolding left_keys feed_csi feed_csi_num feed_ss3 feed_win_ext arrow_key tilde_key win_key
  left-Runs control =
      letter-Runs d b'D' (handle_left (in_state s normal s.csi_num)) _ _ refl
        (left-Gives l.before l.behind (after_csi d s.csi_num).shows)
  left-Runs letter =
      letter-Runs d b'D' (handle_left (in_state s normal s.csi_num)) _ _ refl
        (left-Gives l.before l.behind (after_csi d s.csi_num).shows)
  left-Runs application =
      application-Runs d b'D' (handle_left (in_state s normal s.csi_num)) _ _ refl
        (left-Gives l.before l.behind (after_csi d s.csi_num).shows)
  left-Runs number =
      letter-Runs d b'D' (handle_left (in_state s normal s.csi_num)) _ _ refl
        (left-Gives l.before l.behind (after_csi d s.csi_num).shows)
  left-Runs other_number =
      letter-Runs d b'D' (handle_left (in_state s normal s.csi_num)) _ _ refl
        (left-Gives l.before l.behind (after_csi d s.csi_num).shows)
  left-Runs windows =
      windows-Runs d false 75 (handle_left (in_state s normal s.csi_num)) _ _ refl
        (left-Gives l.before l.behind (after_csi d s.csi_num).shows)
  left-Runs windows_zero =
      windows-Runs d true 75 (handle_left (in_state s normal s.csi_num)) _ _ refl
        (left-Gives l.before l.behind (after_csi d s.csi_num).shows)

  right-Runs : (way : Way) → Runs size s (right_keys way) (to_right l.before l.behind)
  unfolding right_keys feed_csi feed_csi_num feed_ss3 feed_win_ext arrow_key tilde_key win_key
  right-Runs control =
      letter-Runs d b'C' (handle_right (in_state s normal s.csi_num)) _ _ refl
        (right-Gives l.before l.behind (after_csi d s.csi_num).shows)
  right-Runs letter =
      letter-Runs d b'C' (handle_right (in_state s normal s.csi_num)) _ _ refl
        (right-Gives l.before l.behind (after_csi d s.csi_num).shows)
  right-Runs application =
      application-Runs d b'C' (handle_right (in_state s normal s.csi_num)) _ _ refl
        (right-Gives l.before l.behind (after_csi d s.csi_num).shows)
  right-Runs number =
      letter-Runs d b'C' (handle_right (in_state s normal s.csi_num)) _ _ refl
        (right-Gives l.before l.behind (after_csi d s.csi_num).shows)
  right-Runs other_number =
      letter-Runs d b'C' (handle_right (in_state s normal s.csi_num)) _ _ refl
        (right-Gives l.before l.behind (after_csi d s.csi_num).shows)
  right-Runs windows =
      windows-Runs d false 77 (handle_right (in_state s normal s.csi_num)) _ _ refl
        (right-Gives l.before l.behind (after_csi d s.csi_num).shows)
  right-Runs windows_zero =
      windows-Runs d true 77 (handle_right (in_state s normal s.csi_num)) _ _ refl
        (right-Gives l.before l.behind (after_csi d s.csi_num).shows)

  delete-Runs :
      (way : Way)
      → Runs size s (delete_keys way) (record { before = l.before; behind = tail_of l.behind })
  unfolding delete_keys feed_csi feed_csi_num feed_ss3 feed_win_ext arrow_key tilde_key win_key
  delete-Runs control =
      number-Runs d b'3' 3 (handle_delete (in_state s normal 3)) l.before (tail_of l.behind) refl
        refl (delete-Gives l.before l.behind (after_csi d 3).shows)
  delete-Runs letter =
      number-Runs d b'3' 3 (handle_delete (in_state s normal 3)) l.before (tail_of l.behind) refl
        refl (delete-Gives l.before l.behind (after_csi d 3).shows)
  delete-Runs application =
      number-Runs d b'3' 3 (handle_delete (in_state s normal 3)) l.before (tail_of l.behind) refl
        refl (delete-Gives l.before l.behind (after_csi d 3).shows)
  delete-Runs number =
      number-Runs d b'3' 3 (handle_delete (in_state s normal 3)) l.before (tail_of l.behind) refl
        refl (delete-Gives l.before l.behind (after_csi d 3).shows)
  delete-Runs other_number =
      number-Runs d b'3' 3 (handle_delete (in_state s normal 3)) l.before (tail_of l.behind) refl
        refl (delete-Gives l.before l.behind (after_csi d 3).shows)
  delete-Runs windows =
      windows-Runs d false 83 (handle_delete (in_state s normal s.csi_num)) l.before
        (tail_of l.behind) refl (delete-Gives l.before l.behind (after_csi d s.csi_num).shows)
  delete-Runs windows_zero =
      windows-Runs d true 83 (handle_delete (in_state s normal s.csi_num)) l.before
        (tail_of l.behind) refl (delete-Gives l.before l.behind (after_csi d s.csi_num).shows)

  erase-Runs :
      (way : Way)
      → Runs size s
          (keys_of way backspace)
          (record { before = tail_of l.before; behind = l.behind })
  unfolding keys_of
  erase-Runs control = ctrl_h-Runs d
  erase-Runs letter = backspace-Runs d
  erase-Runs application = backspace-Runs d
  erase-Runs number = backspace-Runs d
  erase-Runs other_number = backspace-Runs d
  erase-Runs windows = backspace-Runs d
  erase-Runs windows_zero = backspace-Runs d

-- A command types a printable character, or none.
abbrev pub IsTypable : Command → Type 0
IsTypable (insert c) = IsPlain c
IsTypable _ = Unit

command-Runs :
    {size : ℕ} {s : State} {l : Line} (way : Way) (k : Command)
    → IsTypable k
    → Edits size s l
    → Runs size s (keys_of way k) (apply (size - 1) k l)
unfolding keys_of apply
command-Runs way (insert c) plain d = insert-Runs d c plain
command-Runs way backspace plain d = erase-Runs d way
command-Runs way delete plain d = delete-Runs d way
command-Runs way clear plain d = clear-Runs d
command-Runs way cut plain d = cut-Runs d
command-Runs way home plain d = home-Runs d way
command-Runs way last plain d = end-Runs d way
command-Runs way left plain d = left-Runs d way
command-Runs way right plain d = right-Runs d way
command-Runs way redraw plain d = redraw-Runs d

-- Fed what a terminal or Windows sends for a list of editing commands, each in any way in which it may
-- come, linenoiseEditFeed answers 0 to every character and shows the line that the commands promise:
-- typing at the cursor up to the room of the buffer, Backspace, Delete, Left, Right, Home, End,
-- Ctrl+A, Ctrl+E, Ctrl+U, Ctrl+K and Ctrl+L; where the characters that are typed are printable, and
-- the editor begins between two keys, with no completion.
pub feed_keys-Edits :
    (size : ℕ) (commands : List (Way × Command)) (s : State) (l : Line)
    → All (λ (k : Way × Command). IsTypable k.1) commands
    → Edits size s l
    → (s' : State) × (feed_keys s (all_keys commands) ≡ some s')
      × Edits size s' (apply_all (size - 1) commands l)
unfolding all_keys apply_all
feed_keys-Edits size [] s l plain d = (s, refl, d)
feed_keys-Edits size ((way, k) ∷ commands) s l (plain, all_plain) d =
    let (t, fed, dt) = command-Runs way k plain d in
    let (s', e, d') = feed_keys-Edits size commands t _ all_plain dt in
    (s', fed (all_keys commands) ∙ e, d')
