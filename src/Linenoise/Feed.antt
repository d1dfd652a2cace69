-- ===== src/Linenoise/Feed.antt =====
-- linenoiseEditFeed: one character at a time, with the escape sequences of terminals and of Windows.
use tcp_client.Base.{
  ℕ, ◌+◌, ◌-◌, ◌*◌, ◌%◌, ◌&&◌, ◌||◌, not, Option, none, some, ltb, leb, ◌==◌, if◌then◌else◌,
}
use tcp_client.Linenoise.State.{
  EscState, normal, esc, csi, csi_num_state, ss3, win_ext, State, Reply, again, line, stop,
  edit_redraw, clear_screen,
}
use tcp_client.Linenoise.Keys.{
  handle_up, handle_down, handle_left, handle_right, handle_home, handle_end, handle_delete,
  handle_backspace, kill_line, kill_to_end, insert_char, abort_line, accept_line, end_completion,
  handle_tab,
}

-- The argument `c`: -1 at the end of the input, or an unsigned char.
pub data Key : Type 0 where
  eof : Key
  char : ℕ → Key

abbrev pub Fed : Type 0
Fed = Option (State × Reply)

abbrev pub return : Reply → Option State → Fed
return r none = none
return r (some s) = some (s, r)

abbrev pub to_normal : State → State
to_normal s = record s { esc_state = normal }

unfoldable pub feed_esc : State → ℕ → Fed
feed_esc s c =
    if c == b'['
    then some (record s { esc_state = csi }, again)
    else if c == b'O'
    then some (record s { esc_state = ss3 }, again)
    else some (to_normal s, again)

-- The letters that CSI and SS3 sequences share.
unfoldable pub arrow_key : State → ℕ → Option State
arrow_key s c =
    if c == b'A'
    then handle_up s
    else if c == b'B'
    then handle_down s
    else if c == b'C'
    then handle_right s
    else if c == b'D'
    then handle_left s
    else if c == b'H'
    then handle_home s
    else if c == b'F'
    then handle_end s
    else some s

unfoldable pub feed_csi : State → ℕ → Fed
feed_csi s c =
    if leb b'0' c && leb c b'9'
    then some (record s { csi_num = c - b'0'; esc_state = csi_num_state }, again)
    else return again (arrow_key (to_normal s) c)

abbrev pub int_max : ℕ
int_max = 2147483647

-- What `ESC [ n ~` does.
unfoldable pub tilde_key : State → Option State
tilde_key s =
    if s.csi_num == 3
    then handle_delete s
    else if s.csi_num == 1 || s.csi_num == 7
    then handle_home s
    else if s.csi_num == 4 || s.csi_num == 8
    then handle_end s
    else some s

-- `csi_num * 10 + (c - '0')` is int arithmetic: past `int_max` it is a fault.
unfoldable pub feed_csi_num : State → ℕ → Fed
feed_csi_num s c =
    let n = s.csi_num * 10 + (c - b'0') in
    if c == b'~'
    then return again (tilde_key (to_normal s))
    else if leb b'0' c && leb c b'9'
    then (if ltb int_max n then none else some (record s { csi_num = n }, again))
    else some (to_normal s, again)

unfoldable pub feed_ss3 : State → ℕ → Fed
feed_ss3 s c = return again (arrow_key (to_normal s) c)

unfoldable pub win_key : State → ℕ → Option State
win_key s c =
    if c == 72
    then handle_up s
    else if c == 80
    then handle_down s
    else if c == 75
    then handle_left s
    else if c == 77
    then handle_right s
    else if c == 71
    then handle_home s
    else if c == 79
    then handle_end s
    else if c == 83
    then handle_delete s
    else some s

unfoldable pub feed_win_ext : State → ℕ → Fed
feed_win_ext s c = return again (win_key (to_normal s) c)

-- The control characters that move, erase or redraw, and printable characters.
unfoldable pub edit_key : State → ℕ → Option State
edit_key s c =
    if c == 8 || c == 127
    then handle_backspace s
    else if c == 21
    then kill_line s
    else if c == 11
    then kill_to_end s
    else if c == 1
    then handle_home s
    else if c == 5
    then handle_end s
    else if c == 12
    then edit_redraw (clear_screen s)
    else if leb 32 c && not (c % 256 == 127)
    then insert_char s c
    else some s

-- What is left when Enter, Ctrl+C and Ctrl+D are told apart.
unfoldable pub feed_plain : State → ℕ → Fed
feed_plain s c =
    if c == 13 || c == 10
    then return line (accept_line s)
    else if c == 3
    then return stop (abort_line s)
    else if c == 4
    then (if s.len == 0 then some (s, stop) else return again (handle_delete s))
    else return again (edit_key s c)

unfoldable pub feed_normal : State → ℕ → Fed
feed_normal s c =
    if c == 27
    then some (record (end_completion s) { esc_state = esc }, again)
    else if c == 0 || c % 256 == 0xE0
    then some (record (end_completion s) { esc_state = win_ext }, again)
    else if c == 9
    then return again (handle_tab s)
    else feed_plain (end_completion s) c

unfoldable pub feed_in : EscState → State → ℕ → Fed
feed_in esc s c = feed_esc s c
feed_in csi s c = feed_csi s c
feed_in csi_num_state s c = feed_csi_num s c
feed_in ss3 s c = feed_ss3 s c
feed_in win_ext s c = feed_win_ext s c
feed_in normal s c = feed_normal s c

unfoldable pub feed_key : State → Key → Fed
feed_key s eof = some (s, stop)
feed_key s (char c) = feed_in s.esc_state s c

unfoldable pub edit_feed : State → Key → Fed
edit_feed s k = if s.buflen == 0 then some (s, again) else feed_key s k
