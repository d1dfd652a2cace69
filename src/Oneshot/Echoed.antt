-- ===== src/Oneshot/Echoed.antt =====
-- What a whole run of the one-shot mode writes to stdout.
use tcp_client.Base.{
  ℕ, ◌≡◌, refl, sym, ap, ◌∙◌, arith, Bool, true, false, ◌&&◌, ◌||◌, not, Option, none, some, List,
  [], ◌∷◌, ◌++◌, append-nil, append_assoc, Bytes, joined, ◌==◌, if◌then◌else◌, Bool-cases, inl, inr,
}
use mathlib.Core.List.{map}
use mathlib.Core.Path.{subst}
use tcp_client.Cli.Args.{Config}
use tcp_client.Socket.Codes.{eintr}
use tcp_client.Oneshot.Stdout.{Write, write_all_fd}
use tcp_client.Oneshot.Loop.{
  Input, bytes, closed, failed, Poll, poll_timeout, poll_failed, polled, Round, State, Step, goes,
  exits, and_then, is_sending, shut_down, disconnect, part_of, written, write_out, show_part,
  end_at, take_input, hang_up, receive, read_stdin, send_more, handle, on_poll, round, go_on,
  finish, Outcome, start, loop,
}
use tcp_client.Oneshot.Received.{input_bytes, polled_bytes, arrived, loop-socket_eof}
use tcp_client.Oneshot.Wrote.{
  read_stdin-IsMute, send_more-IsMute, Begins, Begins-same, write_all_fd-Begins, part_of-Begins,
  Wrote, IsMute, if_Wrote, goes-Wrote, exits-Wrote, mute-Wrote, and_then-Wrote, and_then-IsMute,
}

regroup :
    (out piece left : Bytes) {text part rest : Bytes}
    → text ≡ part ++ left
    → part ≡ piece ++ rest
    → rest ≡ []
    → out ++ text ≡ (out ++ piece) ++ left
regroup out piece left split cut nothing =
    rw (split, cut, nothing) (simp (append_assoc, append-nil))

eof-Wrote : (s : State) → Wrote s.out (goes (record s { socket_eof = true }))
unfolding Wrote
eof-Wrote s = Begins-same s.out

more-Wrote : (code : ℕ) (s : State) (text : Bytes) → Wrote (s.out ++ text) (exits code s)
unfolding Wrote
more-Wrote code s text = (text, refl, λ p. absurd p)

-- What the outcome has on stdout is a part of `text`, from its beginning on.
abbrev pub Echoes : Bytes → Outcome → Type 0
Echoes text o = (unseen : Bytes) × (text ≡ o.last.out ++ unseen)

if_Echoes :
    (text : Bytes) (x y : Outcome) (b : Bool)
    → Echoes text x
    → Echoes text y
    → Echoes text (if b then x else y)
if_Echoes text x y true hx hy = hx
if_Echoes text x y false hx hy = hy

module _ (c : Config) where
  disconnect-Wrote : (s : State) → Wrote s.out (disconnect c s)
  unfolding disconnect
  disconnect-Wrote s = if_Wrote s.out _ _ _ (exits-Wrote 5 s) (eof-Wrote s)

  hang_up-Wrote : (r : Round) (s : State) → Wrote s.out (hang_up c r s)
  unfolding hang_up
  hang_up-Wrote r s = if_Wrote s.out _ _ _ (disconnect-Wrote s) (goes-Wrote s)

  shut_down-out : (s : State) → (shut_down c s).out ≡ s.out
  unfolding shut_down
  shut_down-out s = ground arith

  finish-Echoes : (s : State) (more : Bytes) → Echoes (s.out ++ more) (finish c s)
  unfolding finish
  finish-Echoes s more = (more, ap (λ o. o ++ more) (sym (shut_down-out s)))

  module _ (plain : c.decode_hsm ≡ false) (not_hex : c.hex_out ≡ false) where
    -- The part is written, and the loop ends where the termination character was found.
    written-Wrote :
        (text : Bytes) (s : State) (found : Bool) (part : Bytes) (w : Bool × Bytes)
        → Begins (found ≡ false) text part
        → Begins (w.0 ≡ true) part w.1
        → Wrote (s.out ++ text) (and_then (written w s) (end_at found))
    unfolding written and_then end_at Wrote
    written-Wrote text s true part (true, piece) (left, split, whole) (rest, cut, all) =
        (left, regroup s.out piece left split cut (all refl), λ p. absurd (cc))
    written-Wrote text s false part (true, piece) (left, split, whole) (rest, cut, all) =
        (left, regroup s.out piece left split cut (all refl), λ p. whole refl)
    written-Wrote text s found part (false, piece) (left, split, whole) (rest, cut, all) =
        (rest ++ left, rw (split, cut) (simp append_assoc), λ p. absurd p)

    show_part-plain :
        (writes : List Write) (part : Bytes) (s : State)
        → show_part c writes part s ≡ write_out writes part s
    unfolding show_part
    show_part-plain writes part s = rw (plain, not_hex) refl

    take_input-Wrote :
        (writes : List Write) (i : Input) (s : State)
        → Wrote (s.out ++ input_bytes i) (take_input c writes i s)
    unfolding take_input write_out
    take_input-Wrote writes (bytes b rest) s =
        let part = (part_of c (b ∷ rest)).0 in
        rw (show_part-plain writes part s) (
          written-Wrote (b ∷ rest) s (part_of c (b ∷ rest)).1 part (write_all_fd part writes)
            (part_of-Begins c (b ∷ rest)) (write_all_fd-Begins part writes))
    take_input-Wrote writes closed s = rw (append-nil s.out) (disconnect-Wrote s)
    take_input-Wrote writes (failed e) s =
        rw (append-nil s.out) (if_Wrote s.out _ _ _ (goes-Wrote s) (exits-Wrote 5 s))

    -- What follows the receiving writes nothing.
    rest-IsMute :
        (asked : Bool) (r : Round) (s : State)
        → IsMute s (and_then (read_stdin asked r s) (send_more r))
    rest-IsMute asked r s =
        and_then-IsMute s (read_stdin asked r s) (send_more r) (read_stdin-IsMute asked r s)
          (send_more-IsMute r)

    received-Wrote :
        (asked : Bool) (r : Round) (s : State) (has_in has_hup : Bool)
        → Wrote (s.out ++ polled_bytes polled has_in r.recv) (
            and_then (if has_hup && not has_in then disconnect c s else goes s) (λ (a : State).
              and_then
                (if has_in then take_input c r.writes r.recv a else goes a)
                (λ (b : State). and_then (read_stdin asked r b) (send_more r))))
    unfolding and_then
    received-Wrote asked r s true true =
        and_then-Wrote _ _ _ (take_input-Wrote r.writes r.recv s) (rest-IsMute asked r)
    received-Wrote asked r s true false =
        and_then-Wrote _ _ _ (take_input-Wrote r.writes r.recv s) (rest-IsMute asked r)
    received-Wrote asked r s false true =
        rw (append-nil s.out) (and_then-Wrote _ _ _ (disconnect-Wrote s) (rest-IsMute asked r))
    received-Wrote asked r s false false =
        rw (append-nil s.out) (mute-Wrote _ s _ (goes-Wrote s) (rest-IsMute asked r s))

    handle-Wrote :
        (r : Round) (s : State)
        → Wrote (s.out ++ polled_bytes polled r.has_in r.recv) (handle c r s)
    unfolding handle hang_up receive
    handle-Wrote r s =
        if_Wrote _ _ _ r.has_err (more-Wrote 5 s _)
          (received-Wrote (not s.stdin_eof && not (is_sending s)) r s r.has_in r.has_hup)

    on_poll-Wrote :
        (p : Poll) (r : Round) (s : State)
        → Wrote (s.out ++ polled_bytes p r.has_in r.recv) (on_poll c r p s)
    unfolding on_poll
    on_poll-Wrote poll_timeout r s = more-Wrote 4 s _
    on_poll-Wrote (poll_failed e) r s =
        rw (append-nil s.out) (if_Wrote s.out _ _ (e == eintr) (goes-Wrote s) (exits-Wrote 5 s))
    on_poll-Wrote polled r s = handle-Wrote r s

    round-Wrote : (r : Round) (s : State) → Wrote (s.out ++ arrived r) (round c r s)
    unfolding round
    round-Wrote r s =
        subst (λ o. Wrote (o ++ arrived r) (on_poll c r r.poll (shut_down c s))) (shut_down-out s)
          (on_poll-Wrote r.poll r (shut_down c s))

    go_on-Echoes :
        (rounds : List Round) (text more : Bytes) (x : Step)
        → Wrote text x
        → ((t : State) → Echoes (t.out ++ more) (loop c t rounds))
        → Echoes (text ++ more) (go_on x (λ (t : State). loop c t rounds))
    unfolding go_on Wrote
    go_on-Echoes rounds text more (exits code t) (left, split, whole) rest =
        (left ++ more, rw split (append_assoc t.out left more))
    go_on-Echoes rounds text more (goes t) (left, split, whole) rest =
        elim (Bool-cases t.socket_eof) [
          | inl eof ↦
              let (unseen, same) = finish-Echoes t (left ++ more) in
              rw (loop-socket_eof c t rounds eof)
                (unseen, rw split (append_assoc t.out left more ∙ same))
          | inr on ↦
              let same : text ≡ t.out =
                split ∙ ap (λ l. t.out ++ l) (whole on) ∙ append-nil t.out in
              rw same (rest t)
        ]

    loop-Echoes :
        (rounds : List Round) (s : State)
        → Echoes (s.out ++ joined (map arrived rounds)) (loop c s rounds)
    unfolding loop
    loop-Echoes [] s = if_Echoes _ _ _ s.socket_eof (finish-Echoes s []) ([], refl)
    loop-Echoes (r ∷ rounds) s =
        if_Echoes _ _ _ (r.interrupted || s.socket_eof) (finish-Echoes s _) (
          rw⁻¹ (append_assoc s.out (arrived r) (joined (map arrived rounds))) (
            go_on-Echoes rounds (s.out ++ arrived r) (joined (map arrived rounds)) (round c r s)
              (round-Wrote r s) (loop-Echoes rounds)))

-- However a run of the one-shot mode goes and however it ends, what it has written to stdout is a part
-- of what came from the server, from its beginning on: nothing else is written, nothing twice and
-- nothing out of order, also where write() fails in between; where the bytes are written as they are.
pub loop-start-Echoes :
    (c : Config) (payload : Option Bytes) (rounds : List Round)
    → c.decode_hsm ≡ false
    → c.hex_out ≡ false
    → Echoes (joined (map arrived rounds)) (loop c (start payload) rounds)
unfolding start
loop-start-Echoes c none rounds plain not_hex = loop-Echoes c plain not_hex rounds _
loop-start-Echoes c (some payload) rounds plain not_hex = loop-Echoes c plain not_hex rounds _
