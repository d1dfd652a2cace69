-- ===== src/Linenoise/Shows.antt =====
-- What a state shows: the text before and behind the cursor, NUL-terminated in the buffer.
use tcp_client.Base.{
  ℕ, suc, ◌+◌, ◌-◌, ◌≤◌, ◌<◌, ◌≡◌, refl, sym, ap, ◌∙◌, arith, Bool, Option, some, List, [], ◌∷◌,
  ◌++◌, Bytes, All-take, length, length-append, take, length-take, length-drop, drop-cons, ◌≢◌, leb,
  if◌then◌else◌,
}
use tcp_client.Linenoise.Memory.{HasNoNul, poke, poke_parts, memcpy, memcpy-take, ◌>>=◌}
use tcp_client.Linenoise.State.{State, EscState, print, redraw_output, edit_redraw}
use tcp_client.Linenoise.Keys.{show_line}

pub record Shows (s : State) (left right : Bytes) : Type 0 where
  pub rest : Bytes
  pub buf_is : s.buf ≡ left ++ (right ++ 0 ∷ rest)
  pub pos_is : s.pos ≡ length left
  pub len_is : s.len ≡ length left + length right
  pub buflen_is : s.buflen ≡ length s.buf
  pub left_no_nul : HasNoNul left
  pub right_no_nul : HasNoNul right

-- All of a state but the text, the cursor and the output: what only the history keys and Tab change.
pub record Frame : Type 0 where
  pub buflen : ℕ
  pub prompt : Bytes
  pub plen : ℕ
  pub in_completion : Bool
  pub completion_idx : ℕ
  pub history_index : ℕ
  pub esc_state : EscState
  pub csi_num : ℕ
  pub history : List Bytes
  pub history_max_len : ℕ
  pub saved_line : Option Bytes
  pub cached_completions : List Bytes
  pub completion_callback : Option (Bytes → List Bytes)

abbrev pub frame : State → Frame
frame s = record {
  buflen = s.buflen;
  prompt = s.prompt;
  plen = s.plen;
  in_completion = s.in_completion;
  completion_idx = s.completion_idx;
  history_index = s.history_index;
  esc_state = s.esc_state;
  csi_num = s.csi_num;
  history = s.history;
  history_max_len = s.history_max_len;
  saved_line = s.saved_line;
  cached_completions = s.cached_completions;
  completion_callback = s.completion_callback;
}

-- The call meets no fault, and its state shows this text and keeps all else of `s`.
abbrev pub Gives : Option State → State → Bytes → Bytes → Type 0
Gives o s left right = (s' : State) × (o ≡ some s') × Shows s' left right × (frame s' ≡ frame s)

pub length-buf :
    {s : State} {left right : Bytes} (v : Shows s left right)
    → length s.buf ≡ length left + length right + suc (length v.rest)
length-buf {s} {left} {right} v = omega (
  arith,
  ap length v.buf_is,
  length-append left (right ++ 0 ∷ v.rest),
  length-append right (0 ∷ v.rest),
)

pub edit_redraw_lem :
    (s : State) → s.len ≤ length s.buf → edit_redraw s ≡ some (print s (redraw_output s))
unfolding edit_redraw
edit_redraw_lem s h = ground arith

pub edit_redraw-Gives :
    {s : State} {left right : Bytes} → Shows s left right → Gives (edit_redraw s) s left right
edit_redraw-Gives {s} {left} {right} v = (
  print s (redraw_output s),
  edit_redraw_lem s (omega (arith, v.len_is, length-buf v)),
  record {
    rest = v.rest;
    buf_is = v.buf_is;
    pos_is = v.pos_is;
    len_is = v.len_is;
    buflen_is = v.buflen_is;
    left_no_nul = v.left_no_nul;
    right_no_nul = v.right_no_nul;
  },
  refl,
)

-- A state that shows a text, where a redraw is all that is left to do.
pub redrawn :
    (s t : State) (left right : Bytes)
    → Shows t left right
    → frame t ≡ frame s
    → Gives (edit_redraw t) s left right
redrawn s t left right v k = let (s', e, v', k') = edit_redraw-Gives v in (s', e, v', k' ∙ k)

-- As much of a text as the buffer holds, with its NUL.
abbrev pub fitting : ℕ → Bytes → Bytes
fitting size h = take (if leb size (length h) then size - 1 else length h) h

show_first :
    (s : State) (h : Bytes) (n : ℕ)
    → s.buflen ≡ length s.buf
    → n < s.buflen
    → n ≤ length h
    → HasNoNul h
    → Gives
        (do
          b ← memcpy s.buf h n
          b' ← poke b n 0
          edit_redraw (record s { buf = b'; len = n; pos = n }))
        s
        (take n h)
        []
show_first s h n size room fits hn =
    let (x, z, e) = drop-cons n s.buf (omega arith) in
    let cut : length (take n h) ≡ n = length-take n h fits in
    let copied : memcpy s.buf h n ≡ some (take n h ++ x ∷ z) =
      memcpy-take s.buf h n (omega arith) fits ∙ ap (λ t. some (take n h ++ t)) e in
    let ended : poke (take n h ++ x ∷ z) n 0 ≡ some (take n h ++ 0 ∷ z) =
      poke_parts (take n h) x 0 z refl (sym cut) in
    let t : State = record s { buf = take n h ++ 0 ∷ z; len = n; pos = n } in
    let shown : Shows t (take n h) [] = record {
      rest = z;
      buf_is = refl;
      pos_is = sym cut;
      len_is = omega arith;
      buflen_is = omega (arith, ap length e, length-drop n s.buf, length-append (take n h) (0 ∷ z));
      left_no_nul = All-take (λ c. c ≢ 0) n h hn;
      right_no_nul = tt;
    } in
    rw (copied, ◌>>=◌) (rw (ended, ◌>>=◌) (redrawn s t (take n h) [] shown refl))

-- A history entry or a completion replaces the text, cut to the buffer, with the cursor behind it.
pub show_line-Gives :
    {s : State} {left right : Bytes} (h : Bytes)
    → Shows s left right
    → HasNoNul h
    → Gives (show_line s h) s (fitting s.buflen h) []
unfolding show_line
show_line-Gives {s} {left} {right} h v hn =
    let n : ℕ = if leb s.buflen (length h) then s.buflen - 1 else length h in
    let size = length-buf v in
    show_first s h n v.buflen_is (ground (arith, v.buflen_is)) (ground arith) hn
