-- ===== src/Linenoise/History.antt =====
-- The history of linenoise.c: adding lines, the bound, and the history file.
-- A file is the list of its bytes; `none` stands for a NULL name or a file that cannot be opened.
use tcp_client.Base.{
  ℕ, ◌-◌, Bool, true, false, ◌&&◌, ◌||◌, Option, none, some, List, [], ◌∷◌, ◌++◌, Bytes, length,
  take, drop, leb, ◌==◌, if◌then◌else◌,
}
use tcp_client.Linenoise.State.{State}

-- `strcmp(a, b) == 0`
unfoldable pub str_equal : Bytes → Bytes → Bool
str_equal [] [] = true
str_equal (a ∷ s) (b ∷ t) = a == b && str_equal s t
str_equal _ _ = false

-- `history_len > 0` and the newest entry is `line`.
unfoldable pub repeats_last : List Bytes → Bytes → Bool
repeats_last [] line = false
repeats_last (h ∷ []) line = str_equal h line
repeats_last (h ∷ h' ∷ hs) line = repeats_last (h' ∷ hs) line

-- A `len` below 1 is refused; the oldest entries beyond `len` go.
unfoldable pub history_set_max_len : State → ℕ → State × ℕ
history_set_max_len s len =
    if len == 0
    then (s, 0)
    else (record s { history = drop (length s.history - len) s.history; history_max_len = len }, 1)

-- The array with `line` added: the oldest entry makes room where the history is full.
unfoldable pub history_push : ℕ → List Bytes → Bytes → List Bytes
history_push max h line =
    if leb max (length h) then take (max - 1) (drop 1 h) ++ line ∷ drop max h else h ++ line ∷ []

unfoldable pub history_add : State → Bytes → State × ℕ
history_add s [] = (s, 0)
history_add s (c ∷ line) =
    if s.history_max_len == 0
    then (s, 0)
    else if repeats_last s.history (c ∷ line)
    then (s, 0)
    else (record s { history = history_push s.history_max_len s.history (c ∷ line) }, 1)

-- `fprintf(fp, "%s\n", history[i])` for each entry.
unfoldable pub history_text : List Bytes → Bytes
history_text [] = []
history_text (h ∷ hs) = h ++ (b'\n' ∷ history_text hs)

-- What linenoiseHistorySave leaves in the file that it opened.
unfoldable pub history_save : State → Bytes
history_save s = history_text s.history

-- At the end of the file fgets returns what it has read, or NULL if that is nothing.
unfoldable pub last_chunk : Bytes → List Bytes
last_chunk [] = []
last_chunk (c ∷ cur) = (c ∷ cur) ∷ []

-- The chunks that fgets returns with a buffer of `size` bytes: a line with its newline, or as many
-- characters as fit beside the NUL. `cur` is read, and there is room for `room` more.
unfoldable pub fgets_chunks : ℕ → ℕ → Bytes → Bytes → List Bytes
fgets_chunks size room cur [] = last_chunk cur
fgets_chunks size room cur (c ∷ file) = elim (c == b'\n' || leb room 1) [
  | true ↦ (cur ++ c ∷ []) ∷ fgets_chunks size (size - 1) [] file
  | false ↦ fgets_chunks size (room - 1) (cur ++ c ∷ []) file
]

-- The characters before the first NUL.
unfoldable pub before_nul : Bytes → Bytes
before_nul [] = []
before_nul (c ∷ s) = if c == 0 then [] else c ∷ before_nul s

-- The line without the carriage returns and newlines at its end.
unfoldable pub strip_newlines : Bytes → Bytes
strip_newlines [] = []
strip_newlines (c ∷ s) = elim (strip_newlines s) [
  | [] ↦ if c == b'\r' || c == b'\n' then [] else c ∷ []
  | d ∷ t ↦ c ∷ d ∷ t
]

unfoldable pub add_lines : State → List Bytes → State
add_lines s [] = s
add_lines s (l ∷ ls) = add_lines (history_add s (strip_newlines (before_nul l))).0 ls

-- The file's content, or `none` where it cannot be opened: the state, and whether -1 is returned.
unfoldable pub history_load : State → Option Bytes → State × Bool
history_load s none = (s, false)
history_load s (some file) = (add_lines s (fgets_chunks 4096 4095 [] file), true)

unfoldable pub history_free : State → State
history_free s = record s { history = []; saved_line = none }
