-- ===== src/Linenoise/Recorded.antt =====
-- What the history holds, and what a save and a load make of it.
use tcp_client.Base.{
  ℕ, zero, suc, ◌+◌, ◌-◌, ◌≤◌, ◌<◌, ◌≡◌, ◌≢◌, ◌↔◌, refl, sym, ap, ◌∙◌, arith, true, false, ◌||◌,
  some, List, [], ◌∷◌, ◌++◌, append-nil, append_assoc, Bytes, All, length, length-append, take,
  drop, take-all, length-drop, leb, ◌==◌, if◌then◌else◌, inl, inr, Bool-cases,
}
use tcp_client.Linenoise.State.{State}
use tcp_client.Linenoise.History.{
  str_equal, repeats_last, history_set_max_len, history_push, history_add, history_text,
  history_save, last_chunk, fgets_chunks, before_nul, strip_newlines, add_lines, history_load,
  history_free,
}

abbrev pub IsBounded : State → Type 0
IsBounded s = length s.history ≤ s.history_max_len

drop-all : (n : ℕ) (h : List Bytes) → length h ≤ n → drop n h ≡ []
drop-all zero [] e = refl
drop-all zero (x ∷ h) e = elim e [ ]
drop-all (suc n) [] e = refl
drop-all (suc n) (x ∷ h) e = drop-all n h (omega arith)

-- The newest `max` entries, the new line among them.
pub history_push_lem :
    (max : ℕ) (h : List Bytes) (line : Bytes)
    → 0 < max
    → length h ≤ max
    → history_push max h line ≡ drop (length h + 1 - max) (h ++ line ∷ [])
unfolding history_push
history_push_lem max [] line pos fits =
    let room : leb max 0 ≡ false = ground arith in
    let kept : 1 - max ≡ 0 = omega arith in rw (room, kept)
history_push_lem max (x ∷ h) line pos fits = elim (Bool-cases (leb max (length (x ∷ h)))) [
  | inl full ↦
      let one : suc (length h) + 1 - max ≡ 1 = ground arith in
      let all : take (max - 1) h ≡ h = take-all (max - 1) h (ground arith) in
      let none_left : drop max (x ∷ h) ≡ [] = drop-all max (x ∷ h) fits in
      rw full (rw (all, none_left) (sym (ap (λ n. drop n (x ∷ (h ++ line ∷ []))) one)))
  | inr room ↦
      let kept : suc (length h) + 1 - max ≡ 0 = ground arith in
      rw room (sym (ap (λ n. drop n (x ∷ (h ++ line ∷ []))) kept))
]

-- Adding a line that is not empty and does not repeat the newest entry keeps the newest entries up
-- to the bound, the line last; other lines change nothing.
pub history_add_lem :
    (s : State) (line : Bytes)
    → IsBounded s
    → 0 < s.history_max_len
    → (history_add s line).0.history ≡ (
        if length line == 0 || repeats_last s.history line
        then s.history
        else drop (length s.history + 1 - s.history_max_len) (s.history ++ line ∷ []))
unfolding history_add
history_add_lem s [] bound pos = refl
history_add_lem s (c ∷ line) bound pos =
    ground (arith, history_push_lem s.history_max_len s.history (c ∷ line) pos bound)

length-history_push :
    (max : ℕ) (h : List Bytes) (line : Bytes)
    → 0 < max
    → length h ≤ max
    → length (history_push max h line) ≤ max
length-history_push max h line pos fits = omega (
  arith,
  ap (length {A = Bytes}) (history_push_lem max h line pos fits),
  length-drop (length h + 1 - max) (h ++ line ∷ []),
  length-append h (line ∷ []),
)

history_add-IsBounded : (s : State) (line : Bytes) → IsBounded s → IsBounded (history_add s line).0
unfolding history_add
history_add-IsBounded s [] bound = bound
history_add-IsBounded s (c ∷ line) bound = elim (Bool-cases (s.history_max_len == 0)) [
  | inl e ↦ ground arith
  | inr pos ↦
      ground
        (arith, length-history_push s.history_max_len s.history (c ∷ line) (ground arith) bound)
]

-- The history never outgrows its bound: not by adding a line, and not by setting the bound.
pub history-IsBounded :
    (s : State) (line : Bytes) (len : ℕ)
    → IsBounded s
    → IsBounded (history_add s line).0 × IsBounded (history_set_max_len s len).0
history-IsBounded s line len bound = (
  history_add-IsBounded s line bound,
  unfold history_set_max_len in ground (arith, length-drop (length s.history - len) s.history),
)

str_equal_iff : (a b : Bytes) → (str_equal a b ≡ true) ↔ (a ≡ b)
unfolding str_equal
str_equal_iff (x ∷ a) (y ∷ b) = ground (arith, str_equal_iff a b)
str_equal_iff _ _ = ground arith

-- A line of a history file: not empty, short enough for the buffer of fgets, and no line break.
abbrev pub IsHistoryLine : Bytes → Type 0
IsHistoryLine h =
    (h ≢ [])
    × (length h < 4095)
    × All (λ c. c ≢ 0) h
    × All (λ c. c ≢ b'\n') h
    × All (λ c. c ≢ b'\r') h

-- No entry repeats the one before it.
abbrev pub NoRepeat : List Bytes → Type 0
NoRepeat [] = Unit
NoRepeat (h ∷ []) = Unit
NoRepeat (h ∷ h' ∷ hs) = (h ≢ h') × NoRepeat (h' ∷ hs)

-- A line and its newline come back in one piece.
fgets_line :
    (h file cur : Bytes) (room : ℕ)
    → length h < room
    → All (λ c. c ≢ b'\n') h
    → fgets_chunks 4096 room cur (h ++ b'\n' ∷ file)
      ≡ (cur ++ (h ++ b'\n' ∷ [])) ∷ fgets_chunks 4096 4095 [] file
unfolding fgets_chunks
fgets_line [] file cur room fits h = refl
fgets_line (c ∷ h) file cur room fits (hc, hh) = ground (
  arith,
  fgets_line h file (cur ++ c ∷ []) (room - 1) (omega arith) hh,
  append_assoc cur (c ∷ []) (h ++ b'\n' ∷ []),
)

pub before_nul_line :
    (h : Bytes) → All (λ c. c ≢ 0) h → before_nul (h ++ b'\n' ∷ []) ≡ h ++ b'\n' ∷ []
unfolding before_nul
before_nul_line [] h = refl
before_nul_line (c ∷ s) (hc, h) = ground (arith, before_nul_line s h)

pub strip_line :
    (h : Bytes)
    → All (λ c. c ≢ b'\n') h
    → All (λ c. c ≢ b'\r') h
    → strip_newlines (h ++ b'\n' ∷ []) ≡ h
unfolding strip_newlines
strip_line [] n r = refl
strip_line (c ∷ h) (hn, n) (hr, r) = ground (arith, strip_line h n r)

repeats_last-append :
    (done : List Bytes) (line : Bytes) (rest : List Bytes)
    → NoRepeat (done ++ line ∷ rest)
    → repeats_last done line ≡ false
unfolding repeats_last
repeats_last-append [] line rest h = refl
repeats_last-append (d ∷ []) line rest h = ground (arith, str_equal_iff d line)
repeats_last-append (d ∷ d' ∷ done) line rest h = repeats_last-append (d' ∷ done) line rest h.1

history_add_new :
    (s : State) (h : Bytes)
    → h ≢ []
    → length s.history < s.history_max_len
    → repeats_last s.history h ≡ false
    → history_add s h ≡ (record s { history = s.history ++ h ∷ [] }, 1)
unfolding history_add history_push
history_add_new s [] ne room new = absurd (ne refl)
history_add_new s (c ∷ h) ne room new = ground arith

add_lines-cons :
    (s : State) (h : Bytes) (rest : List Bytes)
    → IsHistoryLine h
    → add_lines s ((h ++ b'\n' ∷ []) ∷ rest) ≡ add_lines (history_add s h).0 rest
unfolding add_lines
add_lines-cons s h rest (ne, short, nuls, newlines, returns) =
    rw (before_nul_line h nuls, strip_line h newlines returns)

-- Loading lines behind those that are there.
load_lines :
    (hs : List Bytes) (s : State)
    → All IsHistoryLine hs
    → NoRepeat (s.history ++ hs)
    → length s.history + length hs ≤ s.history_max_len
    → (add_lines s (fgets_chunks 4096 4095 [] (history_text hs))).history ≡ s.history ++ hs
load_lines [] s lines distinct fits =
    unfold history_text fgets_chunks last_chunk add_lines in sym (append-nil s.history)
load_lines (h ∷ hs) s (line, lines) distinct fits =
    let t : State = record s { history = s.history ++ h ∷ [] } in
    let new = repeats_last-append s.history h hs distinct in
    let added = history_add_new s h line.0 (omega arith) new in
    let chunks : fgets_chunks 4096 4095 [] (history_text (h ∷ hs))
        ≡ (h ++ b'\n' ∷ []) ∷ fgets_chunks 4096 4095 [] (history_text hs) =
      unfold history_text in fgets_line h (history_text hs) [] 4095 line.1 line.3 in
    let later = fgets_chunks 4096 4095 [] (history_text hs) in
    let regroup = append_assoc s.history (h ∷ []) hs in
    let size = length-append s.history (h ∷ []) in
    ap (λ l. (add_lines s l).history) chunks
    ∙ ap (λ u. u.history) (add_lines-cons s h later line)
    ∙ ap (λ p. (add_lines p.0 later).history) added
    ∙ load_lines hs t lines (rw regroup distinct) (omega arith)
    ∙ regroup

-- A history saved and loaded into an empty one comes back entry for entry, if its lines fit the
-- load's buffer and hold no line break, no entry repeats the one before it and the bound holds.
pub history_load-history_save :
    (s : State)
    → All IsHistoryLine s.history
    → NoRepeat s.history
    → IsBounded s
    → (history_load (history_free s) (some (history_save s))).0.history ≡ s.history
unfolding history_load history_save history_free
history_load-history_save s lines distinct bound =
    load_lines s.history (history_free s) lines distinct (omega arith)
