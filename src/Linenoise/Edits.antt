-- ===== src/Linenoise/Edits.antt =====
-- The keys that insert and erase: what they do to the text, and that no access leaves the buffer.
use tcp_client.Base.{
  ℕ, suc, ◌+◌, ◌-◌, ◌%◌, ◌<◌, ◌≡◌, ◌≢◌, refl, sym, ap, ◌∙◌, arith, some, [], ◌∷◌, ◌++◌,
  append_assoc, Bytes, All-append, All-left, drop-cons, length, length-append,
}
use tcp_client.Linenoise.Memory.{poke, poke_parts, memmove, memmove_parts, ◌>>=◌}
use tcp_client.Linenoise.State.{State, print, puts}
use tcp_client.Linenoise.Keys.{
  handle_delete, handle_backspace, kill_line, kill_to_end, open_cell, insert_char, accept_line,
}
use tcp_client.Linenoise.Shows.{Shows, Gives, redrawn, length-buf}

-- The move that closes the gap of one character takes the NUL along.
close_gap :
    {b : Bytes} {dst src n : ℕ} (left : Bytes) (x : ℕ) (right rest : Bytes)
    → b ≡ left ++ x ∷ (right ++ 0 ∷ rest)
    → dst ≡ length left
    → src ≡ suc (length left)
    → n ≡ suc (length right)
    → memmove b dst src n ≡ some (left ++ (right ++ 0 ∷ 0 ∷ rest))
close_gap left x right rest e hd hs hn =
    memmove_parts left (x ∷ (right ++ 0 ∷ rest)) (left ++ x ∷ []) (right ++ 0 ∷ []) rest
      (left ++ x ∷ right) (0 ∷ rest) e (e ∙ simp append_assoc) (e ∙ simp append_assoc) hd
      (omega (arith, length-append left (x ∷ []))) (omega (arith, length-append right (0 ∷ [])))
      (omega (arith, length-append left (x ∷ right)))
    ∙ simp append_assoc

-- Backspace removes the character before the cursor.
pub handle_backspace-Gives :
    {s : State} {right : Bytes} (left : Bytes) (c : ℕ)
    → Shows s (left ++ c ∷ []) right
    → Gives (handle_backspace s) s left right
unfolding handle_backspace
handle_backspace-Gives {s} {right} left c v =
    let b : Bytes = left ++ (right ++ 0 ∷ 0 ∷ v.rest) in
    let size = length-append left (right ++ 0 ∷ 0 ∷ v.rest) in
    let size' = length-append right (0 ∷ 0 ∷ v.rest) in
    let front = length-append left (c ∷ []) in
    let moved : memmove s.buf (s.pos - 1) s.pos (s.len - s.pos + 1) ≡ some b =
      close_gap left c right v.rest (v.buf_is ∙ append_assoc left (c ∷ []) _)
        (omega (arith, v.pos_is)) (omega (arith, v.pos_is)) (omega (arith, v.pos_is, v.len_is)) in
    let t : State = record s { buf = b; pos = s.pos - 1; len = s.len - 1 } in
    let shown : Shows t left right = record {
      rest = 0 ∷ v.rest;
      buf_is = refl;
      pos_is = omega (arith, v.pos_is);
      len_is = omega (arith, v.len_is);
      buflen_is = omega (arith, v.buflen_is, length-buf v);
      left_no_nul = All-left (λ d. d ≢ 0) left (c ∷ []) v.left_no_nul;
      right_no_nul = v.right_no_nul;
    } in
    let behind : 0 < s.pos = omega (arith, v.pos_is) in
    let (s', e, v', k) = redrawn s t left right shown refl in (s', ground arith, v', k)

-- Delete removes the character behind the cursor.
pub handle_delete-Gives :
    {s : State} {left : Bytes} (x : ℕ) (right : Bytes)
    → Shows s left (x ∷ right)
    → Gives (handle_delete s) s left right
unfolding handle_delete
handle_delete-Gives {s} {left} x right v =
    let b : Bytes = left ++ (right ++ 0 ∷ 0 ∷ v.rest) in
    let size = length-append left (right ++ 0 ∷ 0 ∷ v.rest) in
    let size' = length-append right (0 ∷ 0 ∷ v.rest) in
    let moved : memmove s.buf s.pos (s.pos + 1) (s.len - s.pos) ≡ some b =
      close_gap left x right v.rest v.buf_is v.pos_is (omega (arith, v.pos_is))
        (omega (arith, v.pos_is, v.len_is)) in
    let t : State = record s { buf = b; len = s.len - 1 } in
    let shown : Shows t left right = record {
      rest = 0 ∷ v.rest;
      buf_is = refl;
      pos_is = v.pos_is;
      len_is = omega (arith, v.len_is);
      buflen_is = omega (arith, v.buflen_is, length-buf v);
      left_no_nul = v.left_no_nul;
      right_no_nul = v.right_no_nul.1;
    } in
    let inside : s.pos < s.len = omega (arith, v.pos_is, v.len_is) in
    let (s', e, v', k) = redrawn s t left right shown refl in (s', ground arith, v', k)

-- Ctrl+U clears the line.
pub kill_line-Gives :
    {s : State} {left right : Bytes} → Shows s left right → Gives (kill_line s) s [] []
unfolding kill_line
kill_line-Gives {s} {left} {right} v =
    let (x, z, e) = drop-cons 0 s.buf (omega (arith, length-buf v)) in
    let written : poke s.buf 0 0 ≡ some (0 ∷ z) = poke_parts [] x 0 z e refl in
    let t : State = record s { buf = 0 ∷ z; len = 0; pos = 0 } in
    let shown : Shows t [] [] = record {
      rest = z;
      buf_is = refl;
      pos_is = refl;
      len_is = omega arith;
      buflen_is = omega (arith, v.buflen_is, ap length e);
      left_no_nul = tt;
      right_no_nul = tt;
    } in
    rw (written, ◌>>=◌) (redrawn s t [] [] shown refl)

-- A NUL at the cursor ends the text there.
cut_at : (right rest : Bytes) → (x : ℕ) × (z : Bytes) × (right ++ 0 ∷ rest ≡ x ∷ z)
cut_at [] rest = (0, rest, refl)
cut_at (x ∷ right) rest = (x, right ++ 0 ∷ rest, refl)

-- Ctrl+K erases all behind the cursor.
pub kill_to_end-Gives :
    {s : State} {left right : Bytes} → Shows s left right → Gives (kill_to_end s) s left []
unfolding kill_to_end
kill_to_end-Gives {s} {left} {right} v =
    let (x, z, e) = cut_at right v.rest in
    let parts : s.buf ≡ left ++ x ∷ z = v.buf_is ∙ ap (λ r. left ++ r) e in
    let written : poke s.buf s.pos 0 ≡ some (left ++ 0 ∷ z) =
      poke_parts left x 0 z parts v.pos_is in
    let t : State = record s { buf = left ++ 0 ∷ z; len = s.pos } in
    let size = length-append left (x ∷ z) in
    let size' = length-append left (0 ∷ z) in
    let shown : Shows t left [] = record {
      rest = z;
      buf_is = refl;
      pos_is = v.pos_is;
      len_is = omega (arith, v.pos_is);
      buflen_is = omega (arith, v.buflen_is, ap length parts);
      left_no_nul = v.left_no_nul;
      right_no_nul = tt;
    } in
    rw (written, ◌>>=◌) (redrawn s t left [] shown refl)

-- Room for one more character: the cell behind the NUL.
room_for :
    {s : State} {left right : Bytes} (v : Shows s left right)
    → s.len < s.buflen - 1
    → (y : ℕ) × (rest : Bytes) × (s.buf ≡ left ++ (right ++ 0 ∷ y ∷ rest))
room_for {s} {left} {right} v h =
    let (y, rest, e) = drop-cons 0 v.rest (omega (arith, v.len_is, v.buflen_is, length-buf v)) in
    (y, rest, v.buf_is ∙ ap (λ r. left ++ (right ++ 0 ∷ r)) e)

-- The cell at the cursor is free, and the rest of the text stands behind it, whatever the cell
-- behind the text holds.
open_cell_lem :
    {s : State} {left : Bytes} (right : Bytes) (y : ℕ) (rest : Bytes)
    → Shows s left right
    → s.buf ≡ left ++ (right ++ 0 ∷ y ∷ rest)
    → (x z : ℕ) × (open_cell s ≡ some (left ++ x ∷ (right ++ z ∷ rest)))
unfolding open_cell
open_cell_lem {s} {left} [] y rest v e = (0, y, ground (arith, v.pos_is, v.len_is, e))
open_cell_lem {s} {left} (x ∷ right) y rest v e =
    let moved : memmove s.buf (s.pos + 1) s.pos (s.len - s.pos)
        ≡ some ((left ++ x ∷ []) ++ ((x ∷ right) ++ y ∷ rest)) =
      memmove_parts (left ++ x ∷ []) (right ++ 0 ∷ y ∷ rest) left (x ∷ right) (0 ∷ y ∷ rest)
        (left ++ x ∷ (right ++ 0 ∷ [])) (y ∷ rest) (e ∙ simp append_assoc) e (e ∙ simp append_assoc)
        (omega (arith, v.pos_is, length-append left (x ∷ []))) v.pos_is
        (omega (arith, v.pos_is, v.len_is))
        (omega (
          arith,
          v.pos_is,
          v.len_is,
          length-append left (x ∷ (right ++ 0 ∷ [])),
          length-append right (0 ∷ []),
        )) in
    let inside : s.pos < s.len = omega (arith, v.pos_is, v.len_is) in
    (x, y, ground (arith, append_assoc left (x ∷ []) (x ∷ (right ++ y ∷ rest))))

-- A printable character goes in at the cursor, if the buffer has room for it and the NUL.
pub insert_char-Gives :
    {s : State} {left right : Bytes} (c : ℕ)
    → Shows s left right
    → c < 256
    → c ≢ 0
    → s.len < s.buflen - 1
    → Gives (insert_char s c) s (left ++ c ∷ []) right
unfolding insert_char
insert_char-Gives {s} {left} {right} c v small nonzero room =
    let (y, rest, e) = room_for v room in
    let (x, z, opened) = open_cell_lem right y rest v e in
    let byte : c % 256 ≡ c = omega arith in
    let put : poke (left ++ x ∷ (right ++ z ∷ rest)) s.pos (c % 256)
        ≡ some (left ++ c ∷ (right ++ z ∷ rest)) =
      rw byte (poke_parts left x c (right ++ z ∷ rest) refl v.pos_is) in
    let b : Bytes = (left ++ c ∷ []) ++ (right ++ 0 ∷ rest) in
    let front = length-append left (c ∷ []) in
    let whole = length-append (left ++ c ∷ []) right in
    let ended : poke (left ++ c ∷ (right ++ z ∷ rest)) (s.len + 1) 0 ≡ some b =
      poke_parts ((left ++ c ∷ []) ++ right) z 0 rest (simp append_assoc) (omega (arith, v.len_is))
      ∙ simp append_assoc in
    let t : State = record s { buf = b; pos = s.pos + 1; len = s.len + 1 } in
    let shown : Shows t (left ++ c ∷ []) right = record {
      rest = rest;
      buf_is = refl;
      pos_is = omega (arith, v.pos_is);
      len_is = omega (arith, v.len_is);
      buflen_is = omega (
        arith,
        v.buflen_is,
        ap length e,
        length-append left (right ++ 0 ∷ y ∷ rest),
        length-append right (0 ∷ y ∷ rest),
        length-append (left ++ c ∷ []) (right ++ 0 ∷ rest),
        length-append right (0 ∷ rest),
      );
      left_no_nul = All-append (λ d. d ≢ 0) left (c ∷ []) v.left_no_nul (nonzero, tt);
      right_no_nul = v.right_no_nul;
    } in
    let (s', done, v', k) = redrawn s t (left ++ c ∷ []) right shown refl in
    (s', ground arith, v', k)

-- Enter writes the NUL that is already there.
pub accept_line_lem :
    {s : State} {left right : Bytes}
    → Shows s left right
    → accept_line s ≡ some (print s (puts (13 ∷ 10 ∷ []) ∷ []))
unfolding accept_line
accept_line_lem {s} {left} {right} v =
    let parts : s.buf ≡ (left ++ right) ++ 0 ∷ v.rest =
      v.buf_is ∙ sym (append_assoc left right _) in
    let written : poke s.buf s.len 0 ≡ some s.buf =
      poke_parts (left ++ right) 0 0 v.rest parts (v.len_is ∙ sym (length-append left right))
      ∙ ap some (sym parts) in
    rw (written, ◌>>=◌)
