-- ===== src/Linenoise/Controls.antt =====
-- Keys of one character beside the commands on a line with a cursor.
use tcp_client.Base.{
  ℕ, ◌+◌, ◌-◌, ◌<◌, ◌≡◌, refl, ap, ◌∙◌, arith, false, Option, none, some, [], ◌∷◌, ◌++◌, Bytes,
  length, ltb, Bool-cases, inl, inr,
}
use tcp_client.Linenoise.State.{normal, State, again, line, stop, edit_redraw, clear_screen}
use tcp_client.Linenoise.Keys.{
  handle_home, handle_end, handle_backspace, kill_line, kill_to_end, insert_char, end_completion,
}
use tcp_client.Linenoise.Shows.{frame, Shows, Gives, redrawn, length-buf}
use tcp_client.Linenoise.Edits.{kill_line-Gives, kill_to_end-Gives, insert_char-Gives}
use tcp_client.Linenoise.Feed.{char, return, edit_key, feed_plain, feed_normal, edit_feed}
use tcp_client.Linenoise.Plain.{
  IsPlain, edit_feed_normal, edit_feed_plain, end_completion_off, insert_char_full,
}
use tcp_client.Linenoise.Line.{Line, insert, back, over, tail_of, apply, length-back}
use tcp_client.Linenoise.Zipper.{backspace-Gives, home-Gives, last-Gives}

-- The editor, between two keys and with no completion, shows the line in a buffer of `size` bytes.
pub record Edits (size : ℕ) (s : State) (l : Line) : Type 0 where
  pub shows : Shows s (back l.before) l.behind
  pub normal_state : s.esc_state ≡ normal
  pub no_completion : s.in_completion ≡ false
  pub size_is : s.buflen ≡ size

-- Keys that are all answered by 0; `none` if one is not.
abbrev pub feed_keys : State → Bytes → Option State
feed_keys s [] = some s
feed_keys s (c ∷ keys) = elim (edit_feed s (char c)) [
  | none ↦ none
  | some (s', r) ↦ elim r [ again ↦ feed_keys s' keys | line ↦ none | stop ↦ none ]
]

pub feed_keys-cons :
    (s s' : State) (c : ℕ) (keys : Bytes)
    → edit_feed s (char c) ≡ some (s', again)
    → feed_keys s (c ∷ keys) ≡ feed_keys s' keys
feed_keys-cons s s' c keys e = rw (e, feed_keys) refl

-- Fed these keys, and whatever follows, the editor comes to show the line.
abbrev pub Runs : ℕ → State → Bytes → Line → Type 0
Runs size s keys l =
    (s' : State) × ((rest : Bytes) → feed_keys s (keys ++ rest) ≡ feed_keys s' rest)
    × Edits size s' l

module _ {size : ℕ} {s : State} {l : Line} (d : Edits size s l) where
  pub kept :
      {s' : State} (b a : Bytes)
      → Shows s' (back b) a
      → frame s' ≡ frame s
      → Edits size s' (record { before = b; behind = a })
  kept b a v k = record {
    shows = v;
    normal_state = ap (λ f. f.esc_state) k ∙ d.normal_state;
    no_completion = ap (λ f. f.in_completion) k ∙ d.no_completion;
    size_is = ap (λ f. f.buflen) k ∙ d.size_is;
  }

  pub some_room : 0 < s.buflen
  some_room = omega (arith, d.shows.buflen_is, length-buf d.shows)

  -- One key that is answered at once.
  single :
      (c : ℕ) (o : Option State) (b a : Bytes)
      → edit_feed s (char c) ≡ return again o
      → Gives o s (back b) a
      → Runs size s (c ∷ []) (record { before = b; behind = a })
  single c o b a fed (s', e, v, k) =
      (s', λ rest. feed_keys-cons s s' c rest (fed ∙ ap (return again) e), kept b a v k)

  -- A control character.
  control :
      (c : ℕ) (o : Option State) (b a : Bytes)
      → feed_normal s c ≡ feed_plain (end_completion s) c
      → feed_plain s c ≡ return again o
      → Gives o s (back b) a
      → Runs size s (c ∷ []) (record { before = b; behind = a })
  control c o b a plain fed g =
      single c o b a
        (edit_feed_normal s c d.normal_state some_room
          ∙ plain
          ∙ ap (λ u. feed_plain u c) (end_completion_off s d.no_completion)
          ∙ fed)
        g

  pub backspace-Runs :
      Runs size s (127 ∷ []) (record { before = tail_of l.before; behind = l.behind })
  unfolding feed_normal feed_plain edit_key
  backspace-Runs =
      control 127 (handle_backspace s) _ _ refl refl (backspace-Gives l.before l.behind d.shows)

  pub ctrl_h-Runs : Runs size s (8 ∷ []) (record { before = tail_of l.before; behind = l.behind })
  unfolding feed_normal feed_plain edit_key
  ctrl_h-Runs =
      control 8 (handle_backspace s) _ _ refl refl (backspace-Gives l.before l.behind d.shows)

  pub clear-Runs : Runs size s (21 ∷ []) (record { before = []; behind = [] })
  unfolding feed_normal feed_plain edit_key
  clear-Runs = control 21 (kill_line s) [] [] refl refl (kill_line-Gives d.shows)

  pub cut-Runs : Runs size s (11 ∷ []) (record { before = l.before; behind = [] })
  unfolding feed_normal feed_plain edit_key
  cut-Runs = control 11 (kill_to_end s) l.before [] refl refl (kill_to_end-Gives d.shows)

  pub home-Runs : Runs size s (1 ∷ []) (record { before = []; behind = over l.behind l.before })
  unfolding feed_normal feed_plain edit_key
  home-Runs = control 1 (handle_home s) [] _ refl refl (home-Gives l.before l.behind d.shows)

  pub last-Runs : Runs size s (5 ∷ []) (record { before = over l.before l.behind; behind = [] })
  unfolding feed_normal feed_plain edit_key
  last-Runs = control 5 (handle_end s) _ [] refl refl (last-Gives l.before l.behind d.shows)

  cleared : Gives (edit_redraw (clear_screen s)) s (back l.before) l.behind
  unfolding clear_screen
  cleared =
      redrawn s _ (back l.before) l.behind
        (record {
          rest = d.shows.rest;
          buf_is = d.shows.buf_is;
          pos_is = d.shows.pos_is;
          len_is = d.shows.len_is;
          buflen_is = d.shows.buflen_is;
          left_no_nul = d.shows.left_no_nul;
          right_no_nul = d.shows.right_no_nul;
        })
        refl

  pub redraw-Runs : Runs size s (12 ∷ []) l
  unfolding feed_normal feed_plain edit_key
  redraw-Runs = control 12 (edit_redraw (clear_screen s)) l.before l.behind refl refl cleared

  -- A printable character goes in, if there is room.
  pub insert-Runs : (c : ℕ) → IsPlain c → Runs size s (c ∷ []) (apply (size - 1) (insert c) l)
  unfolding apply
  insert-Runs c plain =
      let fed = edit_feed_plain s c plain d.normal_state d.no_completion some_room in
      let held = length-back l.before in
      elim (Bool-cases (ltb (length l.before + length l.behind) (size - 1))) [
        | inl room ↦ rw room (
            single c (insert_char s c) (c ∷ l.before) l.behind fed (
              insert_char-Gives c d.shows (omega arith) (ground arith)
                (ground (arith, d.shows.len_is, d.size_is))))
        | inr full ↦ rw full (
          s,
          λ rest. feed_keys-cons s s c rest (
              fed
              ∙ ap (return again)
                  (insert_char_full s c (ground (arith, d.shows.len_is, d.size_is)))),
          d,
        )
      ]
