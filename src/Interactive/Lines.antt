-- ===== src/Interactive/Lines.antt =====
-- The lines that the server gets from the input of a pipe.
use tcp_client.Base.{
  ℕ, suc, ◌+◌, ◌≤◌, ◌<◌, ◌≡◌, refl, ap, ◌∙◌, arith, Bool, true, false, ◌||◌, some, List, [], ◌∷◌,
  ◌++◌, Bytes, joined, All, length, length-append, drop, drop-cons, ◌==◌, ok,
}
use tcp_client.Linenoise.History.{before_nul}
use tcp_client.Socket.Write as Write
use tcp_client.Socket.Write.{Written}
use tcp_client.Socket.Sent.{IsLive, sends, socket_write_all_lem}
use tcp_client.Interactive.Commands.{is_exit_command}
use tcp_client.Interactive.Pipe.{
  State, Step, goes, and_then, first_answers, transmitted, after_transmit, emptied, grown_cap,
  push_char, ends_string, send_exit, send_line, end_line, take_char,
}

-- The lines of a text that end in a newline, behind a line already begun; and what follows them.
abbrev pub complete : Bytes → Bytes → List Bytes
complete line [] = []
complete line (c ∷ rest) = elim (c == b'\n') [
  | true ↦ (line ++ c ∷ []) ∷ complete [] rest
  | false ↦ complete (line ++ c ∷ []) rest
]

abbrev pub partial : Bytes → Bytes → Bytes
partial line [] = line
partial line (c ∷ rest) = elim (c == b'\n') [
  | true ↦ partial [] rest
  | false ↦ partial (line ++ c ∷ []) rest
]

abbrev pub is_exit_line : Bytes → Bool
is_exit_line l = is_exit_command (before_nul l)

-- The lines up to the first one that says exit or quit, which is among them.
abbrev pub until_exit : List Bytes → List Bytes
until_exit [] = []
until_exit (l ∷ ls) = elim (is_exit_line l) [ true ↦ l ∷ [] | false ↦ l ∷ until_exit ls ]

abbrev pub has_exit : List Bytes → Bool
has_exit [] = false
has_exit (l ∷ ls) = is_exit_line l || has_exit ls

-- The socket takes a whole line of at most `max` bytes.
abbrev pub CanSend : ℕ → List Write.Round → Type 0
CanSend max rounds = All IsLive rounds × (max ≤ sends rounds)

-- The answers serve for `k` more bytes of input.
pub record CanTake (max k : ℕ) (s : State) : Type 0 where
  pub live : All (CanSend max) s.answers
  pub enough : k ≤ length s.answers
  pub fits : length s.line + k ≤ max

grown_cap-room : (n cap : ℕ) → n + 2 ≤ grown_cap n cap
unfolding grown_cap
grown_cap-room n cap = ground arith

unfoldable pub pushed : ℕ → State → State
pushed c s = record s { line = s.line ++ c ∷ []; line_cap = grown_cap (length s.line) s.line_cap }

push_char_lem : (c : ℕ) (s : State) → push_char c s ≡ goes (pushed c s)
unfolding push_char pushed
push_char_lem c s = ground (arith, grown_cap-room (length s.line) s.line_cap)

ends_string_lem :
    (s : State) (next : Bool → Step)
    → length s.line < s.line_cap
    → ends_string s next ≡ next (is_exit_line s.line)
unfolding ends_string
ends_string_lem s next room = ground arith

transmitted_lem :
    (s : State) (rounds : List Write.Round) (more : List (List Write.Round))
    → s.answers ≡ rounds ∷ more
    → CanSend (length s.line) rounds
    → transmitted s ≡ record { code = some (ok (length s.line)); wire = s.line }
unfolding transmitted first_answers
transmitted_lem s rounds more e (live, enough) =
    rw e (socket_write_all_lem 0 s.line rounds live enough)

-- The state behind a line that has been sent.
abbrev pub sent_line : Bool → State → State
sent_line true t = record t {
  wire = t.wire ++ t.line;
  answers = drop 1 t.answers;
  line = [];
  exit_requested = true;
}
sent_line false t = record t { wire = t.wire ++ t.line; answers = drop 1 t.answers; line = [] }

end_line_lem :
    (t : State) (b : Bool)
    → is_exit_line t.line ≡ b
    → length t.line < t.line_cap
    → transmitted t ≡ record { code = some (ok (length t.line)); wire = t.line }
    → end_line t ≡ goes (sent_line b t)
unfolding end_line after_transmit
end_line_lem t true e room sent = ends_string_lem t _ room ∙ rw (e, sent) (unfold send_exit in refl)
end_line_lem t false e room sent =
    ends_string_lem t _ room ∙ rw (e, sent) (unfold send_line emptied in refl)

-- What taking some bytes in a state comes to.
pub record Delivers (s : State) (chunk : Bytes) (t : State) : Type 0 where
  pub wire_is : t.wire ≡ s.wire ++ joined (until_exit (complete s.line chunk))
  pub exit_is : t.exit_requested ≡ has_exit (complete s.line chunk)
  pub line_is : t.exit_requested ≡ false → t.line ≡ partial s.line chunk

CanTake-sent_line :
    (max k : ℕ) (s : State) (b : Bool)
    → All (CanSend max) (drop 1 s.answers)
    → k ≤ length (drop 1 s.answers)
    → k ≤ max
    → CanTake max k (sent_line b s)
CanTake-sent_line max k s true live enough fits = record {
  live = live;
  enough = enough;
  fits = omega arith;
}
CanTake-sent_line max k s false live enough fits = record {
  live = live;
  enough = enough;
  fits = omega arith;
}

pub take_char_newline :
    (max k : ℕ) (s : State) (b : Bool)
    → CanTake max (suc k) s
    → is_exit_line (s.line ++ b'\n' ∷ []) ≡ b
    → (take_char b'\n' s ≡ goes (sent_line b (pushed b'\n' s)))
      × CanTake max k (sent_line b (pushed b'\n' s))
unfolding take_char
take_char_newline max k s b can e =
    let t : State = pushed b'\n' s in
    let (rounds, more, a) = drop-cons 0 s.answers (omega (arith, can.enough)) in
    let live : All (CanSend max) (rounds ∷ more) = rw a at can.live in
    let size = length-append s.line (b'\n' ∷ []) in
    let room = grown_cap-room (length s.line) s.line_cap in
    let sent : transmitted t ≡ record { code = some (ok (length t.line)); wire = t.line } =
      transmitted_lem t rounds more (unfold pushed in a)
        (live.0.0, unfold pushed in omega (arith, live.0.1, can.fits)) in
    let rest : drop 1 s.answers ≡ more = ap (λ l. drop 1 l) a in
    (
      rw (push_char_lem b'\n' s) (
          unfold and_then in
          end_line_lem t b (unfold pushed in e) (unfold pushed in omega arith) sent),
      CanTake-sent_line max k t b (unfold pushed in rw rest live.1)
          (unfold pushed in omega (arith, ap length a, ap length rest, can.enough))
          (omega (arith, can.fits)),
    )

pub take_char_other :
    (max k c : ℕ) (s : State)
    → CanTake max (suc k) s
    → (c == b'\n') ≡ false
    → (take_char c s ≡ goes (pushed c s)) × CanTake max k (pushed c s)
unfolding take_char
take_char_other max k c s can e = (
  rw (push_char_lem c s) (unfold and_then in rw e refl),
  unfold pushed in
      record {
        live = can.live;
        enough = omega (arith, can.enough);
        fits = omega (arith, can.fits, length-append s.line (c ∷ []));
      },
)
