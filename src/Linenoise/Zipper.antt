-- ===== src/Linenoise/Zipper.antt =====
-- What the keys that move and erase do to a line with a cursor, at its ends too.
use tcp_client.Base.{refl, arith, [], ◌∷◌, Bytes}
use tcp_client.Linenoise.State.{State}
use tcp_client.Linenoise.Keys.{
  handle_left, handle_right, handle_home, handle_end, handle_delete, handle_backspace,
}
use tcp_client.Linenoise.Shows.{Shows, Gives}
use tcp_client.Linenoise.Edits.{handle_backspace-Gives, handle_delete-Gives}
use tcp_client.Linenoise.Moves.{
  handle_left-Gives, handle_right-Gives, handle_home-Gives, handle_end-Gives,
}
use tcp_client.Linenoise.Line.{back, over, to_left, to_right, tail_of, back-over, over-back}

module _ {s : State} where
  pub left-Gives :
      (b a : Bytes)
      → Shows s (back b) a
      → Gives (handle_left s) s (back (to_left b a).before) (to_left b a).behind
  unfolding to_left
  left-Gives [] a v = (s, let p = v.pos_is in unfold handle_left in ground arith, v, refl)
  left-Gives (c ∷ b) a v = handle_left-Gives (back b) c v

  pub right-Gives :
      (b a : Bytes)
      → Shows s (back b) a
      → Gives (handle_right s) s (back (to_right b a).before) (to_right b a).behind
  unfolding to_right
  right-Gives b [] v =
      (s, let p = v.pos_is in let n = v.len_is in unfold handle_right in ground arith, v, refl)
  right-Gives b (c ∷ a) v = handle_right-Gives c a v

  pub backspace-Gives :
      (b a : Bytes) → Shows s (back b) a → Gives (handle_backspace s) s (back (tail_of b)) a
  unfolding tail_of
  backspace-Gives [] a v = (s, let p = v.pos_is in unfold handle_backspace in ground arith, v, refl)
  backspace-Gives (c ∷ b) a v = handle_backspace-Gives (back b) c v

  pub delete-Gives :
      (b a : Bytes) → Shows s (back b) a → Gives (handle_delete s) s (back b) (tail_of a)
  unfolding tail_of
  delete-Gives b [] v =
      (s, let p = v.pos_is in let n = v.len_is in unfold handle_delete in ground arith, v, refl)
  delete-Gives b (c ∷ a) v = handle_delete-Gives c a v

  pub home-Gives : (b a : Bytes) → Shows s (back b) a → Gives (handle_home s) s [] (over a b)
  home-Gives b a v = rw (over-back b a) (handle_home-Gives v)

  pub last-Gives : (b a : Bytes) → Shows s (back b) a → Gives (handle_end s) s (back (over b a)) []
  last-Gives b a v = rw (back-over b a) (handle_end-Gives v)
