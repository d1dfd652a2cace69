-- ===== src/Linenoise/Recall.antt =====
-- The history keys and Tab: which text they show, and which position they remember.
use tcp_client.Base.{
  ℕ, ◌+◌, ◌-◌, ◌≤◌, ◌<◌, ◌≡◌, ◌≢◌, sym, ap, ◌∙◌, arith, true, false, Option, some, [], ◌∷◌, ◌++◌,
  append_assoc, Bytes, All-append, All, length, length-append, take-all, leb, get_elem?,
  get_elem?-All, ◌==◌, if◌then◌else◌, Bool-cases, inl, inr,
}
use tcp_client.Linenoise.Memory.{HasNoNul, c_string, c_string-append, ◌>>=◌}
use tcp_client.Linenoise.State.{State, text_of}
use tcp_client.Linenoise.Keys.{save_line, handle_up, line_below, handle_down}
use tcp_client.Linenoise.Shows.{frame, Shows, fitting, show_line-Gives, length-buf}

-- The call meets no fault, shows `h` as far as it fits, and its state is `t` otherwise.
abbrev pub Recalls : Option State → State → Bytes → Type 0
Recalls o t h =
    (s' : State) × (o ≡ some s') × Shows s' (fitting t.buflen h) [] × (frame s' ≡ frame t)

-- The buffer is a C string that reads back as the text.
pub c_string_buf :
    {s : State} {left right : Bytes} → Shows s left right → c_string s.buf ≡ some (left ++ right)
c_string_buf {s} {left} {right} v =
    ap c_string (v.buf_is ∙ sym (append_assoc left right (0 ∷ v.rest)))
    ∙ c_string-append (left ++ right) v.rest
        (All-append (λ c. c ≢ 0) left right v.left_no_nul v.right_no_nul)

-- The frame does not matter to what a state shows.
pub Shows-frame :
    {s : State} {left right : Bytes} (index : ℕ) (saved : Option Bytes)
    → Shows s left right
    → Shows (record s { history_index = index; saved_line = saved }) left right
Shows-frame index saved v = record {
  rest = v.rest;
  buf_is = v.buf_is;
  pos_is = v.pos_is;
  len_is = v.len_is;
  buflen_is = v.buflen_is;
  left_no_nul = v.left_no_nul;
  right_no_nul = v.right_no_nul;
}

-- What is saved as the typed line when the history is gone up from this state.
abbrev pub saved_by_up : State → Bytes → Option Bytes
saved_by_up s typed = if s.history_index == length s.history then some typed else s.saved_line

save_line_lem :
    {s : State} {left right : Bytes}
    → Shows s left right
    → save_line s ≡ some (record s { saved_line = saved_by_up s (left ++ right) })
unfolding save_line
save_line_lem {s} v = elim (Bool-cases (s.history_index == length s.history)) [
  | inl e ↦ rw (e, save_line) (rw (c_string_buf v))
  | inr e ↦ rw (e, save_line)
]

-- Up shows the entry before the current one and saves the line if it was the one being typed.
pub handle_up_lem :
    {s : State} {left right : Bytes} (h : Bytes)
    → Shows s left right
    → 0 < s.history_index
    → s.history_index ≤ length s.history
    → get_elem? s.history (s.history_index - 1) ≡ some h
    → HasNoNul h
    → Recalls
        (handle_up s)
        (record s {
          history_index = s.history_index - 1;
          saved_line = saved_by_up s (left ++ right);
        })
        h
unfolding handle_up
handle_up_lem {s} {left} {right} h v pos bound e hn =
    let saved = saved_by_up s (left ++ right) in
    let shown = Shows-frame (s.history_index - 1) saved v in
    let (s', done, v', k) = show_line-Gives h shown hn in
    (s', ground (arith, save_line_lem v), v', k)

pub handle_up_top : (s : State) → s.history_index ≡ 0 → handle_up s ≡ some s
unfolding handle_up
handle_up_top s e = ground arith

-- Down shows the entry behind the current one, or the saved line behind the newest.
pub handle_down_lem :
    {s : State} {left right : Bytes} (h : Bytes)
    → Shows s left right
    → s.history_index < length s.history
    → line_below s ≡ some h
    → HasNoNul h
    → Recalls (handle_down s) (record s { history_index = s.history_index + 1 }) h
unfolding handle_down
handle_down_lem {s} h v bound e hn =
    let shown = Shows-frame (s.history_index + 1) s.saved_line v in
    let (s', done, v', k) = show_line-Gives h shown hn in (s', ground arith, v', k)

pub handle_down_bottom : (s : State) → length s.history ≤ s.history_index → handle_down s ≡ some s
unfolding handle_down
handle_down_bottom s e = ground arith

-- A text that the buffer holds is not cut.
pub fitting_shown :
    {s : State} {left right : Bytes}
    → Shows s left right
    → fitting s.buflen (left ++ right) ≡ left ++ right
fitting_shown {s} {left} {right} v =
    let size = length-append left right in
    let short : length (left ++ right) < s.buflen = omega (arith, v.buflen_is, length-buf v) in
    let test : leb s.buflen (length (left ++ right)) ≡ false = ground arith in
    rw test (take-all _ (left ++ right) (omega arith))

handle_down_back :
    {u : State} {left right : Bytes} (typed : Bytes)
    → Shows u left right
    → u.history_index + 1 ≡ length u.history
    → u.saved_line ≡ some typed
    → HasNoNul typed
    → fitting u.buflen typed ≡ typed
    → (d : State) × (handle_down u ≡ some d)
      × Shows d typed []
      × (d.history_index ≡ length u.history)
handle_down_back {u} typed v last saved hn fits =
    let behind : (u.history_index + 1 == length u.history) ≡ true = ground arith in
    let below : line_below u ≡ some typed =
      unfold line_below in rw behind (ap (λ o. some (text_of o)) saved) in
    let (d, down, vd, kd) = handle_down_lem typed v (omega arith) below hn in
    (d, down, rw fits at vd, ap (λ f. f.history_index) kd ∙ last)

-- From a line being typed, with a history that is not empty and has no NUL in its lines, Up and then
-- Down bring the line back, with the cursor at its end, and the position in the history is the one
-- before.
pub handle_down-handle_up :
    {s : State} {left right : Bytes}
    → Shows s left right
    → s.history_index ≡ length s.history
    → 0 < length s.history
    → All HasNoNul s.history
    → (s' : State) × ((handle_up s >>= handle_down) ≡ some s')
      × Shows s' (left ++ right) []
      × (s'.history_index ≡ s.history_index)
handle_down-handle_up {s} {left} {right} v newest some_history lines =
    let (h, e, hn) = get_elem?-All HasNoNul s.history (s.history_index - 1) lines (omega arith) in
    let (u, up, vu, ku) = handle_up_lem h v (omega arith) (omega arith) e hn in
    let here : (s.history_index == length s.history) ≡ true = ground arith in
    let typed = All-append (λ c. c ≢ 0) left right v.left_no_nul v.right_no_nul in
    let saved : u.saved_line ≡ some (left ++ right) = ap (λ f. f.saved_line) ku ∙ rw here in
    let index : u.history_index ≡ s.history_index - 1 = ap (λ f. f.history_index) ku in
    let same : u.history ≡ s.history = ap (λ f. f.history) ku in
    let size : u.buflen ≡ s.buflen = ap (λ f. f.buflen) ku in
    let last : u.history_index + 1 ≡ length u.history =
      omega (arith, ap (length {A = Bytes}) same) in
    let fits : fitting u.buflen (left ++ right) ≡ left ++ right =
      ap (λ n. fitting n (left ++ right)) size ∙ fitting_shown v in
    let (d, down, vd, end) = handle_down_back (left ++ right) vu last saved typed fits in
    (d, ap (λ o. o >>= handle_down) up ∙ down, vd, end ∙ ap length same ∙ sym newest)
