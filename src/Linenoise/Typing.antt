-- ===== src/Linenoise/Typing.antt =====
-- linenoise(): characters are fed to the editor until the line is done.
use tcp_client.Base.{
  ℕ, ◌-◌, ◌<◌, ◌≡◌, sym, ap, ◌∙◌, arith, Option, none, some, [], ◌∷◌, ◌++◌, append-nil,
  append_assoc, Bytes, All, length, take, take-all, take-take_append,
}
use tcp_client.Linenoise.Memory.{c_string, ◌>>=◌}
use tcp_client.Linenoise.State.{State, again, line, stop, edit_start, edit_stop}
use tcp_client.Linenoise.Shows.{frame, length-buf}
use tcp_client.Linenoise.Begun.{begun, edit_start-Gives}
use tcp_client.Linenoise.Feed.{char, edit_feed}
use tcp_client.Linenoise.Plain.{IsPlain, Typed, Typed-char, Typed-c_string, Typed-enter}

-- What the loop of linenoise() returns: the line, or `none` for NULL.
abbrev pub Line : Type 0
Line = Option (State × Option Bytes)

-- The loop of linenoise(), raw mode on: `input` is what read() will return, and nothing behind it.
unfoldable pub linenoise_loop : State → Bytes → Line
linenoise_loop s [] = some (edit_stop s, none)
linenoise_loop s (c ∷ input) = elim (edit_feed s (char c)) [
  | none ↦ none
  | some (s', r) ↦ elim r [
    | again ↦ linenoise_loop s' input
    | line ↦ (do text ← c_string s'.buf; some (edit_stop s', some text))
    | stop ↦ some (edit_stop s', none)
  ]
]

-- linenoise() with raw mode on: the editor is started on an array of 4096 bytes.
unfoldable pub linenoise : State → Bytes → Option Bytes → Bytes → Line
linenoise s array prompt input = do s' ← edit_start s array 4096 prompt; linenoise_loop s' input

linenoise_loop-char :
    (s s' : State) (c : ℕ) (input : Bytes)
    → edit_feed s (char c) ≡ some (s', again)
    → linenoise_loop s (c ∷ input) ≡ linenoise_loop s' input
unfolding linenoise_loop
linenoise_loop-char s s' c input e = rw (e, linenoise_loop)

linenoise_loop-enter :
    (s s' : State) (text input : Bytes)
    → edit_feed s (char 13) ≡ some (s', line)
    → c_string s'.buf ≡ some text
    → linenoise_loop s (13 ∷ input) ≡ some (edit_stop s', some text)
unfolding linenoise_loop
linenoise_loop-enter s s' text input e t = rw (e, linenoise_loop) (rw (t, ◌>>=◌))

-- The line that comes back, cut to what the buffer holds beside its NUL.
pub linenoise_loop-Typed :
    (typed input : Bytes) {s : State} {text : Bytes}
    → Typed s text
    → All IsPlain typed
    → (s' : State) × (linenoise_loop s (typed ++ 13 ∷ input)
        ≡ some (s', some (take (s.buflen - 1) (text ++ typed))))
linenoise_loop-Typed [] input {s} {text} t plain =
    let (s', e, after, same) = Typed-enter t in
    let size = length-buf t.shows in
    let whole : take (s.buflen - 1) (text ++ []) ≡ text =
      ap (take (s.buflen - 1)) (append-nil text)
      ∙ take-all (s.buflen - 1) text (omega (arith, t.shows.buflen_is)) in
    (
      edit_stop s',
      linenoise_loop-enter s s' text input e (Typed-c_string after)
          ∙ ap (λ x. some (edit_stop s', some x)) (sym whole),
    )
linenoise_loop-Typed (c ∷ typed) input {s} {text} t plain =
    let (u, fed, tu, same) = Typed-char text c plain.0 t in
    let (s', e) = linenoise_loop-Typed typed input tu plain.1 in
    (
      s',
      linenoise_loop-char s u c (typed ++ 13 ∷ input) fed
          ∙ e
          ∙ ap (λ x. some (s', some x))
              (ap (λ f. take (f.buflen - 1) (take (s.buflen - 1) (text ++ c ∷ []) ++ typed)) same
                ∙ take-take_append (s.buflen - 1) (text ++ c ∷ []) typed
                ∙ ap (take (s.buflen - 1)) (append_assoc text (c ∷ []) typed)),
    )

pub edit_start-Typed :
    (s : State) (array : Bytes) (size : ℕ) (prompt : Option Bytes)
    → 0 < size
    → length array ≡ size
    → (s' : State) × (edit_start s array size prompt ≡ some s')
      × Typed s' []
      × (frame s' ≡ frame (begun s size prompt))
edit_start-Typed s array size prompt pos same =
    let (s', done, v, k) = edit_start-Gives s array size prompt pos same in
    (
      s',
      done,
      record {
        shows = v;
        normal_state = ap (λ f. f.esc_state) k;
        no_completion = ap (λ f. f.in_completion) k;
      },
      k,
    )

-- Plain characters and Enter: linenoise() returns the characters, the first 4095 of them if there
-- are more, whatever was in its buffer and whatever input follows.
pub linenoise-typed :
    (s : State) (array : Bytes) (prompt : Option Bytes) (typed input : Bytes)
    → length array ≡ 4096
    → All IsPlain typed
    → (s' : State) × (linenoise s array prompt (typed ++ 13 ∷ input)
        ≡ some (s', some (take 4095 typed)))
unfolding linenoise
linenoise-typed s array prompt typed input size plain =
    let (t, started, begun, same) = edit_start-Typed s array 4096 prompt (omega arith) size in
    let (s', e) = linenoise_loop-Typed typed input begun plain in
    (
      s',
      ap (λ o. o >>= λ u. linenoise_loop u (typed ++ 13 ∷ input)) started
          ∙ e
          ∙ ap (λ f. some (s', some (take (f.buflen - 1) typed))) same,
    )
