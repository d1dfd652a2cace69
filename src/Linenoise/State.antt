-- ===== src/Linenoise/State.antt =====
-- The editor's state: linenoiseState, and the file-level variables of linenoise.c beside it.
-- Strings that the program keeps are lists without their NUL; `buf` is the array itself, NUL and all.
-- `history_len` is the length of `history`, and a completion list's `len` that of `cached_completions`.
use tcp_client.Base.{
  ℕ, ◌-◌, Bool, false, Option, none, some, List, [], ◌∷◌, ◌++◌, Bytes, codes, length, take, ltb,
  ◌==◌, if◌then◌else◌,
}
use tcp_client.Linenoise.Memory.{◌>>=◌, poke}

pub data EscState : Type 0 where
  normal esc csi csi_num_state ss3 win_ext : EscState

-- What goes to stdout: text, and the escape sequence that moves the cursor back.
pub data Output : Type 0 where
  puts : Bytes → Output
  cursor_back : ℕ → Output

pub record State : Type 0 where
  pub in_completion : Bool
  pub completion_idx : ℕ
  pub buf : Bytes
  pub buflen : ℕ
  pub prompt : Bytes
  pub plen : ℕ
  pub pos : ℕ
  pub len : ℕ
  pub history_index : ℕ
  pub esc_state : EscState
  pub csi_num : ℕ
  pub history : List Bytes
  pub history_max_len : ℕ
  pub saved_line : Option Bytes
  pub cached_completions : List Bytes
  pub completion_callback : Option (Bytes → List Bytes)
  pub out : List Output

-- What linenoiseEditFeed returns: 0, 1 and -1.
pub data Reply : Type 0 where
  again line stop : Reply

abbrev pub print : State → List Output → State
print s o = record s { out = s.out ++ o }

-- "\r\x1b[2K"
abbrev pub clear_line : Output
clear_line = puts (13 ∷ 27 ∷ codes "[2K")

-- What a redraw writes.
unfoldable pub redraw_output : State → List Output
redraw_output s =
    (clear_line ∷ [])
    ++ ((if ltb 0 s.plen then puts s.prompt ∷ [] else [])
        ++ ((if ltb 0 s.len then puts (take s.len s.buf) ∷ [] else [])
            ++ (if ltb s.pos s.len then cursor_back (s.len - s.pos) ∷ [] else [])))

-- `fwrite` reads `len` bytes of the buffer, which is a fault past its end.
unfoldable pub edit_redraw : State → Option State
edit_redraw s = if ltb (length s.buf) s.len then none else some (print s (redraw_output s))

-- "\x1b[H\x1b[2J"
unfoldable pub clear_screen : State → State
clear_screen s = print s (puts (27 ∷ codes "[H" ++ 27 ∷ codes "[2J") ∷ [])

abbrev pub text_of : Option Bytes → Bytes
text_of none = []
text_of (some p) = p

-- The array has at least `buflen` cells; `none` is a NULL prompt.
unfoldable pub edit_start : State → Bytes → ℕ → Option Bytes → Option State
edit_start s array size prompt = if size == 0 then some s else (do
  b ← poke array 0 0
  let text = text_of prompt
  edit_redraw (record s {
    in_completion = false;
    completion_idx = 0;
    buf = b;
    buflen = size;
    prompt = text;
    plen = length text;
    pos = 0;
    len = 0;
    history_index = length s.history;
    saved_line = none;
    esc_state = normal;
    csi_num = 0;
    cached_completions = [];
  }))

unfoldable pub edit_stop : State → State
edit_stop s = record s {
  in_completion = false;
  completion_idx = 0;
  esc_state = normal;
  csi_num = 0;
  cached_completions = [];
  saved_line = none;
}
