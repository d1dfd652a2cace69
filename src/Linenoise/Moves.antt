-- ===== src/Linenoise/Moves.antt =====
-- The keys that move the cursor: the text stays, and where they go.
use tcp_client.Base.{
  ℕ, ◌+◌, ◌-◌, ◌<◌, ◌≡◌, refl, sym, ap, ◌∙◌, arith, [], ◌∷◌, ◌++◌, append-nil, append_assoc, Bytes,
  All-append, All-left, All-right, length, length-append, ◌≢◌,
}
use tcp_client.Linenoise.State.{State}
use tcp_client.Linenoise.Keys.{handle_left, handle_right, handle_home, handle_end}
use tcp_client.Linenoise.Shows.{Shows, Gives, redrawn}

-- The cursor may stand anywhere in the text.
pub split_elsewhere :
    {s : State} {left right : Bytes} (p : ℕ) (l r : Bytes)
    → Shows s left right
    → left ++ right ≡ l ++ r
    → p ≡ length l
    → Shows (record s { pos = p }) l r
split_elsewhere {s} {left} {right} p l r v e h =
    let all = All-append (λ c. c ≢ 0) left right v.left_no_nul v.right_no_nul in
    record {
      rest = v.rest;
      buf_is =
          v.buf_is
          ∙ sym (append_assoc left right _)
          ∙ ap (λ t. t ++ 0 ∷ v.rest) e
          ∙ append_assoc l r _;
      pos_is = h;
      len_is = omega (arith, v.len_is, ap length e, length-append left right, length-append l r);
      buflen_is = v.buflen_is;
      left_no_nul = All-left (λ c. c ≢ 0) l r (rw e at all);
      right_no_nul = All-right (λ c. c ≢ 0) l r (rw e at all);
    }

-- Left moves the cursor before the last character of what stands before it.
pub handle_left-Gives :
    {s : State} {right : Bytes} (left : Bytes) (c : ℕ)
    → Shows s (left ++ c ∷ []) right
    → Gives (handle_left s) s left (c ∷ right)
unfolding handle_left
handle_left-Gives {s} {right} left c v =
    let front = length-append left (c ∷ []) in
    let shown =
      split_elsewhere (s.pos - 1) left (c ∷ right) v (append_assoc left (c ∷ []) right)
        (omega (arith, v.pos_is)) in
    let behind : 0 < s.pos = omega (arith, v.pos_is) in
    let (s', e, v', k) = redrawn s (record s { pos = s.pos - 1 }) left (c ∷ right) shown refl in
    (s', ground arith, v', k)

-- Right moves the cursor behind the next character.
pub handle_right-Gives :
    {s : State} {left : Bytes} (c : ℕ) (right : Bytes)
    → Shows s left (c ∷ right)
    → Gives (handle_right s) s (left ++ c ∷ []) right
unfolding handle_right
handle_right-Gives {s} {left} c right v =
    let front = length-append left (c ∷ []) in
    let shown =
      split_elsewhere (s.pos + 1) (left ++ c ∷ []) right v (sym (append_assoc left (c ∷ []) right))
        (omega (arith, v.pos_is)) in
    let inside : s.pos < s.len = omega (arith, v.pos_is, v.len_is) in
    let (s', e, v', k) =
      redrawn s (record s { pos = s.pos + 1 }) (left ++ c ∷ []) right shown refl in
    (s', ground arith, v', k)

pub handle_home-Gives :
    {s : State} {left right : Bytes}
    → Shows s left right
    → Gives (handle_home s) s [] (left ++ right)
unfolding handle_home
handle_home-Gives {s} {left} {right} v =
    redrawn s (record s { pos = 0 }) [] (left ++ right)
      (split_elsewhere 0 [] (left ++ right) v refl refl) refl

pub handle_end-Gives :
    {s : State} {left right : Bytes}
    → Shows s left right
    → Gives (handle_end s) s (left ++ right) []
unfolding handle_end
handle_end-Gives {s} {left} {right} v =
    redrawn s (record s { pos = s.len }) (left ++ right) []
      (split_elsewhere s.len (left ++ right) [] v (sym (append-nil _))
        (omega (arith, v.len_is, length-append left right)))
      refl
