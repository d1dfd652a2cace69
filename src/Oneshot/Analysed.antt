-- ===== src/Oneshot/Analysed.antt =====
-- From the socket to the decoder: the response of an HSM that arrives in pieces.
use tcp_client.Base.{
  ℕ, ◌+◌, ◌/◌, ◌%◌, ◌≤◌, ◌<◌, ◌≡◌, refl, sym, ap, ◌∙◌, arith, Bool, true, false, ◌&&◌, Option, none,
  some, List, [], ◌∷◌, ◌++◌, append_assoc, append-nil, joined, Bytes, All, length, length-append,
  leb, ltb, join_bytes, join_bytes_lem, if◌then◌else◌,
}
use mathlib.Core.List.{map}
use tcp_client.Cli.Args.{Config}
use tcp_client.Hsm.Response.{Response, hsm_parse_response}
use tcp_client.Hsm.Frames.{IsNotEnd, body, parts, framed, hsm_parse_response-framed}
use tcp_client.Oneshot.Stdout.{Write}
use tcp_client.Oneshot.Loop.{
  Input, closed, failed, Poll, poll_timeout, poll_failed, polled, bytes, Round, round, State, goes,
  and_then, shut_down, part_of, accumulate, accum_size, is_whole, show_part, end_at, take_input,
  Outcome, start, finish, loop,
}
use tcp_client.Oneshot.Mode.{ran, run_oneshot_mode}
use tcp_client.Oneshot.Received.{
  polled_bytes, arrived, MayReceive, IsFine, may_receive, Received, shut_down-Received, got,
  round-fine, loop-socket_eof, loop-round, run_oneshot_mode-text,
}

join_bytes-length :
    (m : Bytes) → length m < 65536 → join_bytes (length m / 256) (length m % 256) ≡ length m
join_bytes-length m short =
    join_bytes_lem (length m / 256) (length m % 256) (omega arith) (omega arith) ∙ omega arith

is_whole-framed : (m : Bytes) → length m < 65536 → is_whole (framed m) ≡ true
unfolding is_whole
is_whole-framed m short = rw (join_bytes-length m short) (ground arith)

-- Less than the frame is not the whole of it.
is_whole-prefix :
    (m accum : Bytes) (b : ℕ) (more : Bytes)
    → length m < 65536
    → accum ++ b ∷ more ≡ framed m
    → is_whole accum ≡ false
unfolding is_whole
is_whole-prefix m [] b more short e = refl
is_whole-prefix m (hi ∷ []) b more short e = refl
is_whole-prefix m (hi ∷ lo ∷ rest) b more short e =
    let size = ap (length {A = ℕ}) e in
    let hi_is : hi ≡ length m / 256 = cc in
    let lo_is : lo ≡ length m % 256 = cc in
    let split = length-append rest (b ∷ more) in
    rw (hi_is, lo_is, join_bytes-length m short) (ground arith)

-- The mode returns 0, the packet is the frame, and what is analysed is what hsm_parse_response makes of
-- it.
abbrev pub Analyses : Config → Outcome → Bytes → Type 0
Analyses c o frame =
    (o.code ≡ some 0)
    × (o.last.accum ≡ frame)
    × (o.analysed ≡ some (hsm_parse_response frame c.hsm_header_len))

module _ (c : Config) (no_term : c.has_term_char ≡ false) (decodes : c.decode_hsm ≡ true) where
  take_input-accum :
      (b : ℕ) (rest : Bytes) (writes : List Write) (s : State) {out accum : Bytes}
      → Received s out accum false
      → length (accum ++ b ∷ rest) ≤ 66048
      → (t : State) × (take_input c writes (bytes b rest) s ≡ goes t)
        × Received t out (accum ++ b ∷ rest) (is_whole (accum ++ b ∷ rest))
  unfolding take_input part_of show_part and_then end_at accumulate accum_size
  take_input-accum b rest writes s {accum} (out_is, accum_is, eof, done) room =
      let size = length-append accum (b ∷ rest) in
      let fits : leb (length accum + length (b ∷ rest)) 66048 ≡ true = ground arith in
      rw (no_term, decodes, accum_is, fits, eof) (_, refl, (out_is, refl, refl, done))

  -- Nothing has arrived, and the packet was not whole before.
  nothing-accum :
      (s : State) {out accum : Bytes}
      → is_whole accum ≡ false
      → Received s out accum false
      → Received s out (accum ++ []) (is_whole (accum ++ []))
  nothing-accum s {accum} partly h = rw (append-nil accum, partly) h

  got-accum :
      (p : Poll) (has_in : Bool) (i : Input) (writes : List Write) (s : State) {out accum : Bytes}
      → MayReceive p has_in i
      → is_whole accum ≡ false
      → Received s out accum false
      → length (accum ++ polled_bytes p has_in i) ≤ 66048
      → (t : State) × (got c writes p has_in i s ≡ goes t)
        × Received t out
            (accum ++ polled_bytes p has_in i)
            (is_whole (accum ++ polled_bytes p has_in i))
  unfolding got
  got-accum poll_timeout has_in i writes s h partly k room = (s, refl, nothing-accum s partly k)
  got-accum (poll_failed x) has_in i writes s h partly k room = (s, refl, nothing-accum s partly k)
  got-accum polled false i writes s h partly k room = (s, refl, nothing-accum s partly k)
  got-accum polled true (bytes b rest) writes s h partly k room =
      take_input-accum b rest writes s k room
  got-accum polled true closed writes s h partly k room = absurd h
  got-accum polled true (failed x) writes s h partly k room =
      (s, unfold take_input in rw h refl, nothing-accum s partly k)

  round-accum :
      (r : Round) (s : State) {out accum : Bytes}
      → IsFine r
      → is_whole accum ≡ false
      → Received s out accum false
      → length (accum ++ arrived r) ≤ 66048
      → (u : State) × (round c r s ≡ goes u)
        × Received u out (accum ++ arrived r) (is_whole (accum ++ arrived r))
  round-accum r s fine partly h room =
      let k = shut_down-Received c s h in
      let (t, taken, kept) =
        got-accum r.poll r.has_in r.recv r.writes (shut_down c s) (may_receive r fine) partly k
          room in
      round-fine c r s t fine k.3 taken kept

  finish-Analyses :
      (m : Bytes) (s : State) {out : Bytes} {e : Bool}
      → Received s out (framed m) e
      → Analyses c (finish c s) (framed m)
  unfolding finish
  finish-Analyses m s h = (
    refl,
    (shut_down-Received c s h).1,
    ap (λ b. if b && ltb 0 (length s.accum) then some (parsed s.accum) else none) decodes
        ∙ ap (λ a. if ltb 0 (length a) then some (parsed a) else none) h.1
        ∙ ap (λ b. if b then some (parsed (framed m)) else none) some_byte,
  )
    where
      parsed : Bytes → Option Response
      parsed accum = hsm_parse_response accum c.hsm_header_len

      some_byte : ltb 0 (length (framed m)) ≡ true
      some_byte = ground arith

  -- What comes behind a round: nothing, or the rest of the frame.
  behind-Analyses :
      (m : Bytes) (rounds : List Round) (u : State) (left : Bytes) {out accum : Bytes}
      → length m < 65536
      → accum ++ left ≡ framed m
      → Received u out accum (is_whole accum)
      → ((d : ℕ) (more : Bytes)
          → left ≡ d ∷ more
          → Received u out accum false
          → Analyses c (loop c u rounds) (framed m))
      → Analyses c (loop c u rounds) (framed m)
  behind-Analyses m rounds u [] {out} {accum} short total k rest =
      let whole : accum ≡ framed m = sym (append-nil accum) ∙ total in
      let ended = k.2 ∙ ap is_whole whole ∙ is_whole-framed m short in
      rw (loop-socket_eof c u rounds ended) (finish-Analyses m u (k.0, k.1 ∙ whole, ended, k.3))
  behind-Analyses m rounds u (d ∷ left) {out} {accum} short total k rest =
      rest d left refl (k.0, k.1, k.2 ∙ is_whole-prefix m accum d left short total, k.3)

  -- The frame is not whole in front of `b`, which is still to come.
  loop-Analyses :
      (m : Bytes) (rounds after : List Round) (s : State) (b : ℕ) (more : Bytes) {out accum : Bytes}
      → length m < 65536
      → All IsFine rounds
      → joined (map arrived rounds) ≡ b ∷ more
      → accum ++ b ∷ more ≡ framed m
      → Received s out accum false
      → Analyses c (loop c s (rounds ++ after)) (framed m)
  loop-Analyses m [] after s b more short fine coming e h = cc
  loop-Analyses m (r ∷ rounds) after s b more {out} {accum} short (fine, fs) coming e h =
      let partly = is_whole-prefix m accum b more short e in
      let total : (accum ++ arrived r) ++ joined (map arrived rounds) ≡ framed m =
        append_assoc accum (arrived r) (joined (map arrived rounds))
        ∙ ap (λ l. accum ++ l) coming
        ∙ e in
      let size = length-append (accum ++ arrived r) (joined (map arrived rounds)) in
      let total_size = ap (length {A = ℕ}) total in
      let (u, goes_on, k) = round-accum r s fine partly h (omega arith) in
      rw (loop-round c r s u (rounds ++ after) fine.0 h.2 goes_on) (
        behind-Analyses m (rounds ++ after) u (joined (map arrived rounds)) short total k
          (λ d left still k'.
            loop-Analyses m rounds after u d left short fs still
              (ap (λ l. (accum ++ arrived r) ++ l) (sym still) ∙ total) k'))

-- The response of an HSM, a message behind its length, is analysed as the parts that it was put
-- together from, and the one-shot mode returns 0, however recv() cuts up the frame. The payload that is
-- sent is a text, decoding is asked for and no termination character is set; the header of the response
-- is as long as the option says, at most 63 bytes, its payload holds no byte 0x19, and the message has
-- less than 65536 bytes. Until the frame is there poll() does not time out, and reports no error and a
-- hang-up only beside data; the server does not close; poll() fails with EINTR at most, and recv() and
-- send() where they would block; and no signal ends the loop. Rounds in which nothing arrives, or
-- something is sent, may come anywhere.
pub run_oneshot_mode-Analyses :
    (c : Config) (rounds after : List Round) (header : Bytes) (r1 r2 e1 e2 : ℕ) (payload : Bytes)
    (behind : Option Bytes)
    → c.is_hex ≡ false
    → c.is_ascii ≡ true
    → c.has_term_char ≡ false
    → c.decode_hsm ≡ true
    → c.hsm_header_len ≡ length header
    → length header ≤ 63
    → All IsNotEnd payload
    → length (header ++ body r1 r2 e1 e2 payload behind) < 65536
    → All IsFine rounds
    → joined (map arrived rounds) ≡ framed (header ++ body r1 r2 e1 e2 payload behind)
    → (o : Outcome) × (run_oneshot_mode (some c) (rounds ++ after) ≡ ran o)
      × (o.code ≡ some 0)
      × (o.analysed
          ≡ some (
              some (
                parts
                  (length (header ++ body r1 r2 e1 e2 payload behind))
                  header
                  r1
                  r2
                  e1
                  e2
                  payload
                  behind)))
unfolding start
run_oneshot_mode-Analyses c rounds after header r1 r2 e1 e2 payload behind no_hex text no_term
      decodes n h free short fine e =
    let m = header ++ body r1 r2 e1 e2 payload behind in
    let (ended, _, analysed) =
      loop-Analyses c no_term decodes m rounds after _ _ _ short fine e refl
        (refl, refl, refl, refl) in
    (
      _,
      run_oneshot_mode-text c (rounds ++ after) no_hex text,
      ended,
      analysed
          ∙ ap (λ k. some (hsm_parse_response (framed m) k)) n
          ∙ ap some (hsm_parse_response-framed header r1 r2 e1 e2 payload behind h free short),
    )
