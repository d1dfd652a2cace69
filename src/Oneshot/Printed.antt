-- ===== src/Oneshot/Printed.antt =====
-- Up to the termination character: what goes to stdout when the bytes of the server are written as they
-- are.
use tcp_client.Base.{
  ℕ, ◌≡◌, ◌≢◌, ◌⊎◌, refl, ap, ◌∙◌, arith, Bool, true, false, some, List, [], ◌∷◌, ◌++◌,
  append_assoc, append-nil, sym, joined, Bytes, All, inl, inr,
}
use mathlib.Core.List.{map}
use tcp_client.Cli.Args.{Config}
use tcp_client.Oneshot.Stdout.{Write, GoesOn, write_all_fd-GoesOn}
use tcp_client.Oneshot.Loop.{
  Input, bytes, closed, failed, Poll, poll_timeout, poll_failed, polled, Round, round, State, goes,
  and_then, shut_down, up_to, part_of, written, write_out, show_part, end_at, take_input, Outcome,
  start, finish, loop,
}
use tcp_client.Oneshot.Mode.{ran, run_oneshot_mode}
use tcp_client.Oneshot.Received.{
  polled_bytes, arrived, MayReceive, IsFine, may_receive, Received, shut_down-Received, got,
  round-fine, loop-socket_eof, loop-round, run_oneshot_mode-text,
}

-- A piece holds bytes in front of the termination character only, or the first of them.
up_to-split :
    (t : ℕ) (part more reply rest : Bytes)
    → All (λ b. b ≢ t) reply
    → part ++ more ≡ reply ++ t ∷ rest
    → ((left : Bytes) × (reply ≡ part ++ left)
        × (more ≡ left ++ t ∷ rest)
        × (All (λ b. b ≢ t) left)
        × (up_to t part ≡ (part, false)))
      ⊎ (up_to t part ≡ (reply ++ t ∷ [], true))
unfolding up_to
up_to-split t [] more reply rest h e = inl (reply, refl, e, h, refl)
up_to-split t (b ∷ part) more [] rest h e = inr (ground arith)
up_to-split t (b ∷ part) more (d ∷ reply) rest (differs, h) e =
    elim (up_to-split t part more reply rest h (cc)) [
      | inl (left, reply_is, more_is, free, cut) ↦
          inl (left, ground arith, more_is, free, ground arith)
      | inr cut ↦ inr (ground arith)
    ]

regroup :
    (out part left : Bytes) (t : ℕ) {reply : Bytes}
    → reply ≡ part ++ left
    → (out ++ part) ++ (left ++ t ∷ []) ≡ out ++ (reply ++ t ∷ [])
regroup out part left t e = rw e (simp append_assoc)

-- In the round write() takes something each time, or is interrupted.
abbrev pub IsWritten : Round → Type 0
IsWritten r = All GoesOn r.writes

-- The mode returns 0, and the text is what has gone to stdout.
abbrev pub Prints : Outcome → Bytes → Type 0
Prints o text = (o.code ≡ some 0) × (o.last.out ≡ text)

module _ (c : Config) (has_term : c.has_term_char ≡ true) (plain : c.decode_hsm ≡ false)
    (not_hex : c.hex_out ≡ false) where
  take_input-text :
      (b : ℕ) (rest : Bytes) (writes : List Write) (s : State) (part : Bytes) (found : Bool)
      {out accum : Bytes}
      → All GoesOn writes
      → up_to c.term_char (b ∷ rest) ≡ (part, found)
      → Received s out accum false
      → (t : State) × (take_input c writes (bytes b rest) s ≡ goes t)
        × Received t (out ++ part) accum found
  unfolding take_input part_of show_part and_then write_out written end_at
  take_input-text b rest writes s part true w e (out_is, accum_is, eof, done) =
      rw (has_term, plain, not_hex, e, write_all_fd-GoesOn part writes w)
        (_, refl, (ap (λ o. o ++ part) out_is, accum_is, refl, done))
  take_input-text b rest writes s part false w e (out_is, accum_is, eof, done) =
      rw (has_term, plain, not_hex, e, write_all_fd-GoesOn part writes w)
        (_, refl, (ap (λ o. o ++ part) out_is, accum_is, eof, done))

  -- Nothing has arrived.
  nothing-text :
      (s : State) (part : Bytes) (found : Bool) {out accum : Bytes}
      → up_to c.term_char [] ≡ (part, found)
      → Received s out accum false
      → Received s (out ++ part) accum found
  unfolding up_to
  nothing-text s part found {out} e (out_is, accum_is, eof, done) =
      let none_found : false ≡ found = ap (λ p. p.1) e in
      let no_part : [] ≡ part = ap (λ p. p.0) e in
      (out_is ∙ sym (append-nil out) ∙ ap (λ l. out ++ l) no_part, accum_is, eof ∙ none_found, done)

  got-text :
      (p : Poll) (has_in : Bool) (i : Input) (writes : List Write) (s : State) (part : Bytes)
      (found : Bool) {out accum : Bytes}
      → MayReceive p has_in i
      → All GoesOn writes
      → up_to c.term_char (polled_bytes p has_in i) ≡ (part, found)
      → Received s out accum false
      → (t : State) × (got c writes p has_in i s ≡ goes t) × Received t (out ++ part) accum found
  unfolding got
  got-text poll_timeout has_in i writes s part found h w e k =
      (s, refl, nothing-text s part found e k)
  got-text (poll_failed x) has_in i writes s part found h w e k =
      (s, refl, nothing-text s part found e k)
  got-text polled false i writes s part found h w e k = (s, refl, nothing-text s part found e k)
  got-text polled true (bytes b rest) writes s part found h w e k =
      take_input-text b rest writes s part found w e k
  got-text polled true closed writes s part found h w e k = absurd h
  got-text polled true (failed x) writes s part found h w e k =
      (s, unfold take_input in rw h refl, nothing-text s part found e k)

  round-text :
      (r : Round) (s : State) (part : Bytes) (found : Bool) {out accum : Bytes}
      → IsFine r
      → All GoesOn r.writes
      → up_to c.term_char (arrived r) ≡ (part, found)
      → Received s out accum false
      → (u : State) × (round c r s ≡ goes u) × Received u (out ++ part) accum found
  round-text r s part found fine w e h =
      let k = shut_down-Received c s h in
      let (t, taken, kept) =
        got-text r.poll r.has_in r.recv r.writes (shut_down c s) part found (may_receive r fine) w e
          k in
      round-fine c r s t fine k.3 taken kept

  finish-Prints :
      (s : State) {out accum : Bytes} → Received s out accum true → Prints (finish c s) out
  unfolding finish
  finish-Prints s h = (refl, (shut_down-Received c s h).0)

  loop-Prints :
      (rounds after : List Round) (reply rest : Bytes) (s : State) {out accum : Bytes}
      → All IsFine rounds
      → All IsWritten rounds
      → All (λ b. b ≢ c.term_char) reply
      → joined (map arrived rounds) ≡ reply ++ c.term_char ∷ rest
      → Received s out accum false
      → Prints (loop c s (rounds ++ after)) (out ++ (reply ++ c.term_char ∷ []))
  loop-Prints [] after [] rest s fine w free e h = cc
  loop-Prints [] after (b ∷ reply) rest s fine w free e h = cc
  loop-Prints (r ∷ rounds) after reply rest s {out} (fine, fs) (w, ws) free e h =
      elim (up_to-split c.term_char (arrived r) (joined (map arrived rounds)) reply rest free e) [
        | inl (left, reply_is, more_is, free', cut) ↦
            let (u, goes_on, k) = round-text r s (arrived r) false fine w cut h in
            let (ended, shown) = loop-Prints rounds after left rest u fs ws free' more_is k in
            rw (loop-round c r s u (rounds ++ after) fine.0 h.2 goes_on)
              (ended, shown ∙ regroup out (arrived r) left c.term_char reply_is)
        | inr cut ↦
            let (u, goes_on, k) = round-text r s (reply ++ c.term_char ∷ []) true fine w cut h in
            rw
              (
                loop-round c r s u (rounds ++ after) fine.0 h.2 goes_on,
                loop-socket_eof c u (rounds ++ after) k.2,
              )
              (finish-Prints u k)
      ]

-- However recv() cuts up what the server sends, and write() what is printed, the one-shot mode returns 0
-- with the bytes up to the first termination character on stdout, and with it, and nothing behind it.
-- The payload is a text, a termination character is set, and the bytes are written as they are, not in
-- HEX and not decoded. Up to the round in which the character arrives poll() does not time out, and
-- reports no error and a hang-up only beside data; the server does not close; poll() and write() fail
-- with EINTR at most, and recv() and send() where they would block; write() takes something each time;
-- and no signal ends the loop. Rounds in which nothing arrives, or something is sent, may come anywhere.
pub run_oneshot_mode-Prints :
    (c : Config) (rounds after : List Round) (reply rest : Bytes)
    → c.is_hex ≡ false
    → c.is_ascii ≡ true
    → c.has_term_char ≡ true
    → c.decode_hsm ≡ false
    → c.hex_out ≡ false
    → All IsFine rounds
    → All IsWritten rounds
    → All (λ b. b ≢ c.term_char) reply
    → joined (map arrived rounds) ≡ reply ++ c.term_char ∷ rest
    → (o : Outcome) × (run_oneshot_mode (some c) (rounds ++ after) ≡ ran o)
      × Prints o (reply ++ c.term_char ∷ [])
unfolding start
run_oneshot_mode-Prints c rounds after reply rest no_hex text has_term plain not_hex fs ws free e =
    (
      _,
      run_oneshot_mode-text c (rounds ++ after) no_hex text,
      loop-Prints c has_term plain not_hex rounds after reply rest _ fs ws free e
          (refl, refl, refl, refl),
    )
