-- ===== src/Linenoise/Ready.antt =====
-- The invariant of the editor between two keys.

use tcp_client.Base.{
  ℕ, ◌+◌, ◌-◌, ◌≤◌, ◌<◌, ◌≡◌, ◌≢◌, refl, sym, ap, ◌∙◌, arith, true, Option, none, some, List, [],
  ◌∷◌, ◌++◌, Bytes, All, All-append, length, get_elem?-All, ltb, ◌==◌, Bool-cases, inl, inr, ◌⊎◌,
}
use mathlib.Core.Path.{subst}
use tcp_client.Linenoise.Memory.{HasNoNul}
use tcp_client.Linenoise.State.{State, text_of, edit_redraw}
use tcp_client.Linenoise.Keys.{
  handle_up, line_below, handle_down, handle_left, handle_right, handle_home, handle_end,
  handle_delete, handle_backspace, kill_line, kill_to_end, insert_char,
}
use tcp_client.Linenoise.Shows.{Frame, frame, Shows, Gives, edit_redraw-Gives}
use tcp_client.Linenoise.Edits.{
  handle_backspace-Gives, handle_delete-Gives, kill_line-Gives, kill_to_end-Gives,
  insert_char-Gives,
}
use tcp_client.Linenoise.Moves.{
  handle_left-Gives, handle_right-Gives, handle_home-Gives, handle_end-Gives,
}
use tcp_client.Linenoise.Recall.{
  handle_up_lem, handle_up_top, handle_down_lem, handle_down_bottom, saved_by_up,
}

abbrev pub OptionHasNoNul : Option Bytes → Type 0
OptionHasNoNul none = Unit
OptionHasNoNul (some h) = HasNoNul h

-- The buffer has `cells` cells, the indices into the history and into the completions are in range, and the strings are C strings.
pub record IsSound (cells : ℕ) (f : Frame) : Type 0 where
  pub size_is : f.buflen ≡ cells
  pub index_le : f.history_index ≤ length f.history
  pub lines : All HasNoNul f.history
  pub saved : OptionHasNoNul f.saved_line
  pub completions : All HasNoNul f.cached_completions
  pub completing : f.in_completion ≡ true → f.completion_idx < length f.cached_completions
  pub callback :
      (g : Bytes → List Bytes)
      → f.completion_callback ≡ some g
      → (typed : Bytes) → All HasNoNul (g typed)

-- The buffer shows some text, NUL-terminated within it, the cursor stands in the text, and the rest
-- of the state is sound.
pub record IsReady (cells : ℕ) (s : State) : Type 0 where
  pub left : Bytes
  pub right : Bytes
  pub shows : Shows s left right
  pub sound : IsSound cells (frame s)

-- The call meets no fault and leaves the editor ready.
abbrev pub Keeps : ℕ → Option State → Type 0
Keeps cells o = (s' : State) × (o ≡ some s') × IsReady cells s'

pub Keeps-same :
    {cells : ℕ} {o : Option State} (s : State) → o ≡ some s → IsReady cells s → Keeps cells o
Keeps-same s e r = (s, e, r)

pub Gives-Keeps :
    {cells : ℕ} {o : Option State} (s : State) {left right : Bytes}
    → Gives o s left right
    → IsSound cells (frame s)
    → Keeps cells o
Gives-Keeps {cells} s {left = l} {right = r} (s', e, v, k) sound =
    (s', e, record { left = l; right = r; shows = v; sound = subst (IsSound cells) (sym k) sound })

pub Keeps-eq : {cells : ℕ} {o p : Option State} → o ≡ p → Keeps cells p → Keeps cells o
Keeps-eq e (s', d, r) = (s', e ∙ d, r)

-- A text is empty or has a last character.
snoc_cases : (t : Bytes) → (t ≡ []) ⊎ ((l : Bytes) × (c : ℕ) × (t ≡ l ++ c ∷ []))
snoc_cases [] = inl refl
snoc_cases (x ∷ t) = elim (snoc_cases t) [
  | inl e ↦ inr ([], x, ap (λ r. x ∷ r) e)
  | inr (l, c, e) ↦ inr (x ∷ l, c, ap (λ r. x ∷ r) e)
]

module _ {cells : ℕ} {s : State} (r : IsReady cells s) where
  at_start : r.left ≡ [] → s.pos ≡ 0
  at_start e = r.shows.pos_is ∙ ap length e

  pub handle_left-Keeps : Keeps cells (handle_left s)
  handle_left-Keeps = elim (snoc_cases r.left) [
    | inl e ↦ Keeps-same s (let p = at_start e in unfold handle_left in ground arith) r
    | inr (l, c, e) ↦ Gives-Keeps s (handle_left-Gives l c (rw e at r.shows)) r.sound
  ]

  pub handle_backspace-Keeps : Keeps cells (handle_backspace s)
  handle_backspace-Keeps = elim (snoc_cases r.left) [
    | inl e ↦ Keeps-same s (let p = at_start e in unfold handle_backspace in ground arith) r
    | inr (l, c, e) ↦ Gives-Keeps s (handle_backspace-Gives l c (rw e at r.shows)) r.sound
  ]

  pub handle_home-Keeps : Keeps cells (handle_home s)
  handle_home-Keeps = Gives-Keeps s (handle_home-Gives r.shows) r.sound

  pub handle_end-Keeps : Keeps cells (handle_end s)
  handle_end-Keeps = Gives-Keeps s (handle_end-Gives r.shows) r.sound

  pub kill_line-Keeps : Keeps cells (kill_line s)
  kill_line-Keeps = Gives-Keeps s (kill_line-Gives r.shows) r.sound

  pub kill_to_end-Keeps : Keeps cells (kill_to_end s)
  kill_to_end-Keeps = Gives-Keeps s (kill_to_end-Gives r.shows) r.sound

  pub edit_redraw-Keeps : Keeps cells (edit_redraw s)
  edit_redraw-Keeps = Gives-Keeps s (edit_redraw-Gives r.shows) r.sound

  at_end : r.right ≡ [] → s.pos ≡ s.len
  at_end e = omega (arith, r.shows.pos_is, r.shows.len_is, ap length e)

  pub handle_right-Keeps : Keeps cells (handle_right s)
  handle_right-Keeps = right_of r.right refl
    where
      right_of : (t : Bytes) → r.right ≡ t → Keeps cells (handle_right s)
      right_of [] e = Keeps-same s (let p = at_end e in unfold handle_right in ground arith) r
      right_of (c ∷ t) e = Gives-Keeps s (handle_right-Gives c t (rw e at r.shows)) r.sound

  pub handle_delete-Keeps : Keeps cells (handle_delete s)
  handle_delete-Keeps = right_of r.right refl
    where
      right_of : (t : Bytes) → r.right ≡ t → Keeps cells (handle_delete s)
      right_of [] e = Keeps-same s (let p = at_end e in unfold handle_delete in ground arith) r
      right_of (c ∷ t) e = Gives-Keeps s (handle_delete-Gives c t (rw e at r.shows)) r.sound

  pub insert_char-Keeps : (c : ℕ) → c < 256 → c ≢ 0 → Keeps cells (insert_char s c)
  insert_char-Keeps c small nonzero = elim (Bool-cases (ltb s.len (s.buflen - 1))) [
    | inl room ↦ Gives-Keeps s (insert_char-Gives c r.shows small nonzero (ground arith)) r.sound
    | inr full ↦ Keeps-same s (unfold insert_char in ground arith) r
  ]

  handle_up-IsSound :
      (saved : Option Bytes) (i : ℕ)
      → OptionHasNoNul saved
      → i ≤ length s.history
      → IsSound cells (frame (record s { history_index = i; saved_line = saved }))
  handle_up-IsSound saved i h le = record {
    index_le = le;
    lines = r.sound.lines;
    saved = h;
    completions = r.sound.completions;
    size_is = r.sound.size_is;
    completing = r.sound.completing;
    callback = r.sound.callback;
  }

  typed_no_nul : HasNoNul (r.left ++ r.right)
  typed_no_nul = All-append (λ c. c ≢ 0) r.left r.right r.shows.left_no_nul r.shows.right_no_nul

  saved_no_nul : OptionHasNoNul (saved_by_up s (r.left ++ r.right))
  saved_no_nul = elim (Bool-cases (s.history_index == length s.history)) [
    | inl e ↦ rw e typed_no_nul
    | inr e ↦ rw e r.sound.saved
  ]

  pub handle_up-Keeps : Keeps cells (handle_up s)
  handle_up-Keeps = elim (Bool-cases (ltb 0 s.history_index)) [
    | inl pos ↦
        let (h, e, hn) =
          get_elem?-All HasNoNul s.history (s.history_index - 1) r.sound.lines
            (ground (arith, r.sound.index_le)) in
        let t : State = record s {
          history_index = s.history_index - 1;
          saved_line = saved_by_up s (r.left ++ r.right);
        } in
        Gives-Keeps t (handle_up_lem h r.shows (ground arith) r.sound.index_le e hn)
          (handle_up-IsSound _ (s.history_index - 1) saved_no_nul (omega (arith, r.sound.index_le)))
    | inr top ↦ Keeps-same s (handle_up_top s (ground arith)) r
  ]

  -- What Down shows is a C string.
  line_below-some :
      s.history_index < length s.history → (h : Bytes) × (line_below s ≡ some h) × HasNoNul h
  line_below-some lt = elim (Bool-cases (s.history_index + 1 == length s.history)) [
    | inl e ↦
        (text_of s.saved_line, unfold line_below in rw e, text_no_nul s.saved_line r.sound.saved)
    | inr e ↦
        let (h, g, hn) =
          get_elem?-All HasNoNul s.history (s.history_index + 1) r.sound.lines (ground arith) in
        (h, unfold line_below in rw e g, hn)
  ]
    where
      text_no_nul : (o : Option Bytes) → OptionHasNoNul o → HasNoNul (text_of o)
      text_no_nul none h = tt
      text_no_nul (some t) h = h

  pub handle_down-Keeps : Keeps cells (handle_down s)
  handle_down-Keeps = elim (Bool-cases (ltb s.history_index (length s.history))) [
    | inl below ↦
        let lt : s.history_index < length s.history = ground arith in
        let (h, e, hn) = line_below-some lt in
        let t : State = record s { history_index = s.history_index + 1 } in
        Gives-Keeps t (handle_down_lem h r.shows lt e hn)
          (handle_up-IsSound s.saved_line (s.history_index + 1) r.sound.saved (omega arith))
    | inr bottom ↦ Keeps-same s (handle_down_bottom s (ground arith)) r
  ]
