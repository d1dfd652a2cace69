-- ===== src/Linenoise/Line.antt =====
-- A line with a cursor, and what the editing keys of linenoiseEditFeed promise to do to it.
use tcp_client.Base.{
  ℕ, ◌+◌, ◌≡◌, refl, sym, ◌∙◌, arith, List, [], ◌∷◌, ◌++◌, append-nil, append_assoc, Bytes, length,
  length-append, ltb, if◌then◌else◌,
}

-- The characters before the cursor, the nearest one first, and those behind it.
pub record Line : Type 0 where
  pub before : Bytes
  pub behind : Bytes

pub data Command : Type 0 where
  insert : ℕ → Command
  backspace delete clear cut home last left right redraw : Command

abbrev pub back : Bytes → Bytes
back [] = []
back (c ∷ b) = back b ++ c ∷ []

-- `a` with `b` put back in front of it, and `b` with `a` gone over.
unfoldable pub over : Bytes → Bytes → Bytes
over b [] = b
over b (c ∷ a) = over (c ∷ b) a

unfoldable pub to_left : Bytes → Bytes → Line
to_left [] a = record { before = []; behind = a }
to_left (c ∷ b) a = record { before = b; behind = c ∷ a }

unfoldable pub to_right : Bytes → Bytes → Line
to_right b [] = record { before = b; behind = [] }
to_right b (c ∷ a) = record { before = c ∷ b; behind = a }

unfoldable pub tail_of : Bytes → Bytes
tail_of [] = []
tail_of (c ∷ b) = b

-- A line of at most `room` characters.
unfoldable pub apply : ℕ → Command → Line → Line
apply room (insert c) l =
    if ltb (length l.before + length l.behind) room
    then record { before = c ∷ l.before; behind = l.behind }
    else l
apply room backspace l = record { before = tail_of l.before; behind = l.behind }
apply room delete l = record { before = l.before; behind = tail_of l.behind }
apply room clear l = record { before = []; behind = [] }
apply room cut l = record { before = l.before; behind = [] }
apply room home l = record { before = []; behind = over l.behind l.before }
apply room last l = record { before = over l.before l.behind; behind = [] }
apply room left l = to_left l.before l.behind
apply room right l = to_right l.before l.behind
apply room redraw l = l

-- The ways in which keys come: as a control character, behind ESC [ or ESC O, as a number between
-- ESC [ and ~, as its other number, and behind the byte 0xE0 or 0 on Windows.
pub data Way : Type 0 where
  control letter application number other_number windows windows_zero : Way

-- What comes for a key: Ctrl+A or Home, Ctrl+E or End, an arrow, or Delete.
unfoldable pub home_keys : Way → Bytes
home_keys control = 1 ∷ []
home_keys letter = 27 ∷ b'[' ∷ b'H' ∷ []
home_keys application = 27 ∷ b'O' ∷ b'H' ∷ []
home_keys number = 27 ∷ b'[' ∷ b'1' ∷ b'~' ∷ []
home_keys other_number = 27 ∷ b'[' ∷ b'7' ∷ b'~' ∷ []
home_keys windows = 0xE0 ∷ 71 ∷ []
home_keys windows_zero = 0 ∷ 71 ∷ []

unfoldable pub end_keys : Way → Bytes
end_keys control = 5 ∷ []
end_keys letter = 27 ∷ b'[' ∷ b'F' ∷ []
end_keys application = 27 ∷ b'O' ∷ b'F' ∷ []
end_keys number = 27 ∷ b'[' ∷ b'4' ∷ b'~' ∷ []
end_keys other_number = 27 ∷ b'[' ∷ b'8' ∷ b'~' ∷ []
end_keys windows = 0xE0 ∷ 79 ∷ []
end_keys windows_zero = 0 ∷ 79 ∷ []

unfoldable pub left_keys : Way → Bytes
left_keys application = 27 ∷ b'O' ∷ b'D' ∷ []
left_keys windows = 0xE0 ∷ 75 ∷ []
left_keys windows_zero = 0 ∷ 75 ∷ []
left_keys _ = 27 ∷ b'[' ∷ b'D' ∷ []

unfoldable pub right_keys : Way → Bytes
right_keys application = 27 ∷ b'O' ∷ b'C' ∷ []
right_keys windows = 0xE0 ∷ 77 ∷ []
right_keys windows_zero = 0 ∷ 77 ∷ []
right_keys _ = 27 ∷ b'[' ∷ b'C' ∷ []

unfoldable pub delete_keys : Way → Bytes
delete_keys windows = 0xE0 ∷ 83 ∷ []
delete_keys windows_zero = 0 ∷ 83 ∷ []
delete_keys _ = 27 ∷ b'[' ∷ b'3' ∷ b'~' ∷ []

-- Backspace is DEL or Ctrl+H; Ctrl+U, Ctrl+K and Ctrl+L come in one way.
unfoldable pub keys_of : Way → Command → Bytes
keys_of way (insert c) = c ∷ []
keys_of control backspace = 8 ∷ []
keys_of _ backspace = 127 ∷ []
keys_of way delete = delete_keys way
keys_of way clear = 21 ∷ []
keys_of way cut = 11 ∷ []
keys_of way home = home_keys way
keys_of way last = end_keys way
keys_of way left = left_keys way
keys_of way right = right_keys way
keys_of way redraw = 12 ∷ []

-- Commands one after another, each with the way in which it comes.
unfoldable pub apply_all : ℕ → List (Way × Command) → Line → Line
apply_all room [] l = l
apply_all room ((way, k) ∷ ks) l = apply_all room ks (apply room k l)

unfoldable pub all_keys : List (Way × Command) → Bytes
all_keys [] = []
all_keys ((way, k) ∷ ks) = keys_of way k ++ all_keys ks

pub length-back : (b : Bytes) → length (back b) ≡ length b
length-back [] = refl
length-back (c ∷ b) = omega (arith, length-append (back b) (c ∷ []), length-back b)

-- Going over `a` puts it behind `b`.
pub back-over : (b a : Bytes) → back (over b a) ≡ back b ++ a
unfolding over
back-over b [] = sym (append-nil (back b))
back-over b (c ∷ a) = back-over (c ∷ b) a ∙ append_assoc (back b) (c ∷ []) a

-- Going back over `b` puts it in front of `a`.
pub over-back : (b a : Bytes) → over a b ≡ back b ++ a
unfolding over
over-back [] a = refl
over-back (c ∷ b) a = over-back b (c ∷ a) ∙ sym (append_assoc (back b) (c ∷ []) a)
