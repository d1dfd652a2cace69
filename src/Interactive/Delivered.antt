-- ===== src/Interactive/Delivered.antt =====
-- What the server gets from the lines of a pipe, up to an exit command.
use tcp_client.Base.{
  joined, ℕ, ◌≡◌, refl, sym, ap, ◌∙◌, arith, Bool, true, false, ◌||◌, List, [], ◌∷◌, ◌++◌,
  append-nil, append_assoc, Bytes, length, ◌==◌, ==_iff, Bool-cases, inl, inr,
}
use tcp_client.Interactive.Pipe.{State, Step, goes, and_then, unless_exit, take_chars}
use tcp_client.Interactive.Reads.{take_reads, take_reads-joined}
use tcp_client.Interactive.Lines.{
  complete, partial, is_exit_line, until_exit, has_exit, CanTake, Delivers, pushed, sent_line,
  take_char_newline, take_char_other,
}

goes_on :
    {x : Step} (u t : State) (f : State → Step)
    → x ≡ goes u
    → u.exit_requested ≡ false
    → f u ≡ goes t
    → and_then x (unless_exit f) ≡ goes t
unfolding and_then unless_exit
goes_on u t f e going h = ground (arith, e, going, h)

stops :
    {x : Step} (u : State) (f : State → Step)
    → x ≡ goes u
    → u.exit_requested ≡ true
    → and_then x (unless_exit f) ≡ goes u
unfolding and_then unless_exit
stops u f e stop = ground (arith, e, stop)

module _ (c : ℕ) (line rest : Bytes) (e : (c == b'\n') ≡ false) where
  complete_other : complete line (c ∷ rest) ≡ complete (line ++ c ∷ []) rest
  complete_other = rw (e, complete) refl

  partial_other : partial line (c ∷ rest) ≡ partial (line ++ c ∷ []) rest
  partial_other = rw (e, partial) refl

until_exit_on :
    (l : Bytes) (ls : List Bytes) → is_exit_line l ≡ false → until_exit (l ∷ ls) ≡ l ∷ until_exit ls
until_exit_on l ls e = rw (e, until_exit) refl

until_exit_at : (l : Bytes) (ls : List Bytes) → is_exit_line l ≡ true → until_exit (l ∷ ls) ≡ l ∷ []
until_exit_at l ls e = rw (e, until_exit) refl

has_exit_lem :
    (l : Bytes) (ls : List Bytes) {b : Bool}
    → is_exit_line l ≡ b
    → has_exit (l ∷ ls) ≡ (b || has_exit ls)
has_exit_lem l ls e = rw (e, has_exit) refl

other-Delivers :
    (c : ℕ) (rest : Bytes) (s t : State)
    → (c == b'\n') ≡ false
    → Delivers (pushed c s) rest t
    → Delivers s (c ∷ rest) t
unfolding pushed
other-Delivers c rest s t e d = record {
  wire_is = rw (complete_other c s.line rest e) d.wire_is;
  exit_is = rw (complete_other c s.line rest e) d.exit_is;
  line_is = λ g. rw (partial_other c s.line rest e) (d.line_is g);
}

on-Delivers :
    (rest : Bytes) (s t : State)
    → is_exit_line (s.line ++ b'\n' ∷ []) ≡ false
    → Delivers (sent_line false (pushed b'\n' s)) rest t
    → Delivers s (b'\n' ∷ rest) t
unfolding pushed
on-Delivers rest s t x d = record {
  wire_is =
      rw (until_exit_on _ (complete [] rest) x)
        (d.wire_is ∙ append_assoc s.wire (s.line ++ b'\n' ∷ []) _);
  exit_is = rw (has_exit_lem _ (complete [] rest) x) d.exit_is;
  line_is = d.line_is;
}

exit-Delivers :
    (rest : Bytes) (s : State)
    → is_exit_line (s.line ++ b'\n' ∷ []) ≡ true
    → Delivers s (b'\n' ∷ rest) (sent_line true (pushed b'\n' s))
unfolding pushed
exit-Delivers rest s x = record {
  wire_is =
      rw (until_exit_at _ (complete [] rest) x)
        (ap (λ l. s.wire ++ l) (sym (append-nil (s.line ++ b'\n' ∷ []))));
  exit_is = rw (has_exit_lem _ (complete [] rest) x) refl;
  line_is = λ g. absurd (cc);
}

-- The bytes are taken with no fault, they deliver their lines, and the socket answers as before.
abbrev Taken : ℕ → State → Bytes → Step → Type 0
Taken max s chunk x = (t : State) × (x ≡ goes t) × Delivers s chunk t

going_on : (c : ℕ) (s : State) → s.exit_requested ≡ false → (pushed c s).exit_requested ≡ false
unfolding pushed
going_on c s h = h

take_chars_lem :
    (max : ℕ) (chunk : Bytes) (s : State)
    → s.exit_requested ≡ false
    → CanTake max (length chunk) s
    → Taken max s chunk (take_chars chunk s)
unfolding take_chars
take_chars_lem max [] s going can =
    (s, refl, record { wire_is = sym (append-nil s.wire); exit_is = going; line_is = λ e. refl })
take_chars_lem max (c ∷ rest) s going can = elim (Bool-cases (c == b'\n')) [
  | inr e ↦
      let (step, can') = take_char_other max (length rest) c s can e in
      let (t, stays, d) = take_chars_lem max rest (pushed c s) (going_on c s going) can' in
      (
        t,
        goes_on (pushed c s) t (take_chars rest) step (going_on c s going) stays,
        other-Delivers c rest s t e d,
      )
  | inl e ↦ rw ((==_iff c b'\n').0 e) (elim (Bool-cases (is_exit_line (s.line ++ b'\n' ∷ []))) [
    | inl x ↦
        let (step, can') = take_char_newline max (length rest) s true can x in
        let u : State = sent_line true (pushed b'\n' s) in
        (u, stops u (take_chars rest) step refl, exit-Delivers rest s x)
    | inr x ↦
        let (step, can') = take_char_newline max (length rest) s false can x in
        let u : State = sent_line false (pushed b'\n' s) in
        let (t, stays, d) = take_chars_lem max rest u (going_on b'\n' s going) can' in
        (
          t,
          goes_on u t (take_chars rest) step (going_on b'\n' s going) stays,
          on-Delivers rest s t x d,
        )
  ])
]

-- However the reads cut up what comes from the pipe, the server gets the complete lines in order, up
-- to the first one that says exit or quit and with it, and what follows the last newline is kept;
-- no read blocks, fails or writes outside the line buffer; if no exit has been asked for before, and
-- the socket takes every line.
pub take_reads-Delivers :
    (max : ℕ) (chunks : List Bytes) (s : State)
    → s.exit_requested ≡ false
    → CanTake max (length (joined chunks)) s
    → (t : State) × (take_reads chunks s ≡ goes t) × Delivers s (joined chunks) t
take_reads-Delivers max chunks s going can =
    let (t, e, d) = take_chars_lem max (joined chunks) s going can in
    (t, take_reads-joined chunks s going ∙ e, d)
