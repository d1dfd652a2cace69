-- ===== src/Linenoise/Keys.antt =====
-- The editing keys of linenoiseEditFeed: the labels `handle_…` and the control characters.
use tcp_client.Base.{
  ℕ, ◌+◌, ◌-◌, ◌%◌, true, false, ◌&&◌, not, Option, none, some, List, [], ◌∷◌, ◌++◌, Bytes, codes,
  length, get_elem?, leb, ltb, ◌==◌, if◌then◌else◌,
}
use tcp_client.Linenoise.Memory.{◌>>=◌, poke, memmove, memcpy, c_string}
use tcp_client.Linenoise.State.{State, text_of, print, puts, edit_redraw}

-- The buffer takes the text `h`, cut to its size, with the cursor at the end.
unfoldable pub show_line : State → Bytes → Option State
show_line s h = do
  let n = if leb s.buflen (length h) then s.buflen - 1 else length h
  b ← memcpy s.buf h n
  b' ← poke b n 0
  edit_redraw (record s { buf = b'; len = n; pos = n })

-- The line typed so far is saved when the history is entered.
unfoldable pub save_line : State → Option State
save_line s =
    if s.history_index == length s.history
    then (do saved ← c_string s.buf; some (record s { saved_line = some saved }))
    else some s

unfoldable pub handle_up : State → Option State
handle_up s =
    if ltb 0 (length s.history) && ltb 0 s.history_index
    then (do
      s' ← save_line s
      h ← get_elem? s'.history (s'.history_index - 1)
      show_line (record s' { history_index = s'.history_index - 1 }) h)
    else some s

-- The line below the current one: the saved line behind the newest entry.
unfoldable pub line_below : State → Option Bytes
line_below s =
    if s.history_index + 1 == length s.history
    then some (text_of s.saved_line)
    else get_elem? s.history (s.history_index + 1)

unfoldable pub handle_down : State → Option State
handle_down s =
    if ltb 0 (length s.history) && ltb s.history_index (length s.history)
    then (do h ← line_below s; show_line (record s { history_index = s.history_index + 1 }) h)
    else some s

unfoldable pub handle_left : State → Option State
handle_left s = if ltb 0 s.pos then edit_redraw (record s { pos = s.pos - 1 }) else some s

unfoldable pub handle_right : State → Option State
handle_right s = if ltb s.pos s.len then edit_redraw (record s { pos = s.pos + 1 }) else some s

unfoldable pub handle_home : State → Option State
handle_home s = edit_redraw (record s { pos = 0 })

unfoldable pub handle_end : State → Option State
handle_end s = edit_redraw (record s { pos = s.len })

unfoldable pub handle_delete : State → Option State
handle_delete s =
    if ltb s.pos s.len
    then (do
      b ← memmove s.buf s.pos (s.pos + 1) (s.len - s.pos)
      edit_redraw (record s { buf = b; len = s.len - 1 }))
    else some s

-- Ctrl+H and DEL.
unfoldable pub handle_backspace : State → Option State
handle_backspace s =
    if ltb 0 s.pos
    then (do
      b ← memmove s.buf (s.pos - 1) s.pos (s.len - s.pos + 1)
      edit_redraw (record s { buf = b; pos = s.pos - 1; len = s.len - 1 }))
    else some s

-- Ctrl+U.
unfoldable pub kill_line : State → Option State
kill_line s = do b ← poke s.buf 0 0; edit_redraw (record s { buf = b; len = 0; pos = 0 })

-- Ctrl+K.
unfoldable pub kill_to_end : State → Option State
kill_to_end s = do b ← poke s.buf s.pos 0; edit_redraw (record s { buf = b; len = s.pos })

-- Opens a cell at the cursor, if it is not at the end.
unfoldable pub open_cell : State → Option Bytes
open_cell s =
    if ltb s.pos s.len then memmove s.buf (s.pos + 1) s.pos (s.len - s.pos) else some s.buf

unfoldable pub insert_char : State → ℕ → Option State
insert_char s c =
    if ltb s.len (s.buflen - 1)
    then (do
      b ← open_cell s
      b' ← poke b s.pos (c % 256)
      b'' ← poke b' (s.len + 1) 0
      edit_redraw (record s { buf = b''; pos = s.pos + 1; len = s.len + 1 }))
    else some s

-- Ctrl+C.
unfoldable pub abort_line : State → Option State
abort_line s = do
  b ← poke s.buf 0 0
  some (print (record s { buf = b; len = 0; pos = 0 }) (puts (codes "^C" ++ 13 ∷ 10 ∷ []) ∷ []))

-- Enter.
unfoldable pub accept_line : State → Option State
accept_line s = do
  b ← poke s.buf s.len 0
  some (print (record s { buf = b }) (puts (13 ∷ 10 ∷ []) ∷ []))

abbrev pub without_completion : State → State
without_completion s = record s {
  in_completion = false;
  completion_idx = 0;
  cached_completions = [];
}

unfoldable pub end_completion : State → State
end_completion s = if s.in_completion then without_completion s else s

-- The entries that the callback found are kept, and the first one is chosen.
unfoldable pub offer : State → List Bytes → Option State
offer s [] = none
offer s (c ∷ cs) =
    some (record s { cached_completions = c ∷ cs; in_completion = true; completion_idx = 0 })

-- The state in which Tab shows an entry; `none` inside where the callback found nothing. The
-- remainder by the length of an empty list is a fault.
unfoldable pub next_completion : State → (Bytes → List Bytes) → Option (Option State)
next_completion s callback =
    if not s.in_completion
    then (do typed ← c_string s.buf; some (offer s (callback typed)))
    else if length s.cached_completions == 0
    then none
    else some
        (some (record s { completion_idx = (s.completion_idx + 1) % length s.cached_completions }))

unfoldable pub show_completion : Option State → State → Option State
show_completion none s = some (record s { cached_completions = [] })
show_completion (some s') s = do
  comp ← get_elem? s'.cached_completions s'.completion_idx
  show_line s' comp

unfoldable pub tab_with : Option (Bytes → List Bytes) → State → Option State
tab_with none s = some s
tab_with (some callback) s = do found ← next_completion s callback; show_completion found s

-- Tab.
unfoldable pub handle_tab : State → Option State
handle_tab s = tab_with s.completion_callback s
