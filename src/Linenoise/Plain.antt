-- ===== src/Linenoise/Plain.antt =====
-- Printable characters and Enter, as linenoiseEditFeed takes them at the end of a line.
use tcp_client.Base.{
  ℕ, ◌-◌, ◌≤◌, ◌<◌, ◌≡◌, ◌≢◌, refl, ap, ◌∙◌, arith, false, some, List, [], ◌∷◌, ◌++◌, append-nil,
  Bytes, length, length-append, take, take-all, take-append, ltb, ◌==◌, if◌then◌else◌, Bool-cases,
  inl, inr,
}
use tcp_client.Linenoise.Memory.{c_string}
use tcp_client.Linenoise.State.{EscState, State, Output, print, puts, again, line, normal}
use tcp_client.Linenoise.Keys.{end_completion, insert_char, accept_line}
use tcp_client.Linenoise.Shows.{frame, Shows, length-buf}
use tcp_client.Linenoise.Edits.{insert_char-Gives, accept_line_lem}
use tcp_client.Linenoise.Recall.{c_string_buf}
use tcp_client.Linenoise.Feed.{
  char, return, feed_in, feed_key, feed_normal, feed_plain, edit_key, edit_feed,
}

-- A printable character: not a control character, DEL, or the byte taken for a Windows key.
abbrev pub IsPlain : ℕ → Type 0
IsPlain c = (32 ≤ c) × (c < 256) × (c ≢ 127) × (c ≢ 0xE0)

-- The line `text` has been typed, and the cursor stands at its end.
pub record Typed (s : State) (text : Bytes) : Type 0 where
  pub shows : Shows s text []
  pub normal_state : s.esc_state ≡ normal
  pub no_completion : s.in_completion ≡ false

edit_key_plain : (s : State) (c : ℕ) → IsPlain c → edit_key s c ≡ insert_char s c
unfolding edit_key
edit_key_plain s c plain = ground arith

feed_plain_lem : (s : State) (c : ℕ) → IsPlain c → feed_plain s c ≡ return again (edit_key s c)
unfolding feed_plain
feed_plain_lem s c plain = ground arith

feed_normal_plain :
    (s : State) (c : ℕ) → IsPlain c → feed_normal s c ≡ feed_plain (end_completion s) c
unfolding feed_normal
feed_normal_plain s c plain = ground arith

pub end_completion_off : (s : State) → s.in_completion ≡ false → end_completion s ≡ s
unfolding end_completion
end_completion_off s off = ground arith

pub edit_feed_in :
    (s : State) (e : EscState) (c : ℕ)
    → s.esc_state ≡ e
    → 0 < s.buflen
    → edit_feed s (char c) ≡ feed_in e s c
unfolding edit_feed feed_key
edit_feed_in s e c in_state pos =
    let some_room : (s.buflen == 0) ≡ false = ground arith in
    ap (λ b. if b then some (s, again) else feed_in s.esc_state s c) some_room
    ∙ ap (λ x. feed_in x s c) in_state

pub edit_feed_normal :
    (s : State) (c : ℕ)
    → s.esc_state ≡ normal
    → 0 < s.buflen
    → edit_feed s (char c) ≡ feed_normal s c
unfolding feed_in
edit_feed_normal s c e pos = edit_feed_in s normal c e pos

pub edit_feed_plain :
    (s : State) (c : ℕ)
    → IsPlain c
    → s.esc_state ≡ normal
    → s.in_completion ≡ false
    → 0 < s.buflen
    → edit_feed s (char c) ≡ return again (insert_char s c)
edit_feed_plain s c plain e off pos =
    edit_feed_normal s c e pos
    ∙ feed_normal_plain s c plain
    ∙ ap (λ t. feed_plain t c) (end_completion_off s off)
    ∙ feed_plain_lem s c plain
    ∙ ap (return again) (edit_key_plain s c plain)

pub insert_char_full : (s : State) (c : ℕ) → s.buflen - 1 ≤ s.len → insert_char s c ≡ some s
unfolding insert_char
insert_char_full s c full = ground arith

-- A plain character is added to the line as long as there is room, and dropped after that.
pub Typed-char :
    {s : State} (text : Bytes) (c : ℕ)
    → IsPlain c
    → Typed s text
    → (s' : State) × (edit_feed s (char c) ≡ some (s', again))
      × Typed s' (take (s.buflen - 1) (text ++ c ∷ []))
      × (frame s' ≡ frame s)
Typed-char {s} text c plain t =
    let size = length-buf t.shows in
    let fed =
      edit_feed_plain s c plain t.normal_state t.no_completion (omega (arith, t.shows.buflen_is)) in
    let longer = length-append text (c ∷ []) in
    elim (Bool-cases (ltb s.len (s.buflen - 1))) [
      | inl room ↦
          let (s', e, v, k) =
            insert_char-Gives c t.shows (omega arith) (ground arith) (ground arith) in
          let whole : take (s.buflen - 1) (text ++ c ∷ []) ≡ text ++ c ∷ [] =
            take-all (s.buflen - 1) (text ++ c ∷ []) (ground (arith, t.shows.len_is)) in
          (
            s',
            fed ∙ ap (return again) e,
            record {
              shows = rw whole v;
              normal_state = ap (λ f. f.esc_state) k ∙ t.normal_state;
              no_completion = ap (λ f. f.in_completion) k ∙ t.no_completion;
            },
            k,
          )
      | inr full ↦
          let exact : s.buflen - 1 ≡ length text =
            ground (arith, t.shows.len_is, t.shows.buflen_is) in
          (
            s,
            fed ∙ ap (return again) (insert_char_full s c (ground arith)),
            record {
              shows = rw (exact, take-append text (c ∷ [])) t.shows;
              normal_state = t.normal_state;
              no_completion = t.no_completion;
            },
            refl,
          )
    ]

Typed-print : {s : State} {text : Bytes} (o : List Output) → Typed s text → Typed (print s o) text
Typed-print o t = record {
  shows = record {
    rest = t.shows.rest;
    buf_is = t.shows.buf_is;
    pos_is = t.shows.pos_is;
    len_is = t.shows.len_is;
    buflen_is = t.shows.buflen_is;
    left_no_nul = t.shows.left_no_nul;
    right_no_nul = t.shows.right_no_nul;
  };
  normal_state = t.normal_state;
  no_completion = t.no_completion;
}

-- The buffer reads back as what was typed.
pub Typed-c_string : {s : State} {text : Bytes} → Typed s text → c_string s.buf ≡ some text
Typed-c_string {text = text} t = c_string_buf t.shows ∙ ap some (append-nil text)

-- Enter ends the line, which stays in the buffer.
pub Typed-enter :
    {s : State} {text : Bytes}
    → Typed s text
    → (s' : State) × (edit_feed s (char 13) ≡ some (s', line))
      × Typed s' text
      × (frame s' ≡ frame s)
Typed-enter {s} {text} t =
    let size = length-buf t.shows in
    let normal_fed = edit_feed_normal s 13 t.normal_state (omega (arith, t.shows.buflen_is)) in
    let plain : feed_normal s 13 ≡ feed_plain (end_completion s) 13 = unfold feed_normal in refl in
    let entered : feed_plain s 13 ≡ return line (accept_line s) = unfold feed_plain in refl in
    (
      print s (puts (13 ∷ 10 ∷ []) ∷ []),
      normal_fed
          ∙ plain
          ∙ ap (λ u. feed_plain u 13) (end_completion_off s t.no_completion)
          ∙ entered
          ∙ ap (return line) (accept_line_lem t.shows),
      Typed-print (puts (13 ∷ 10 ∷ []) ∷ []) t,
      refl,
    )
