-- ===== src/Oneshot/Received.antt =====
-- What the one-shot mode writes to stdout, and the response that it analyses, while the bytes of the
-- server arrive in pieces.
use tcp_client.Base.{
  ◌≡◌, refl, ap, ◌∙◌, arith, Bool, true, false, ◌&&◌, ◌||◌, ◌==◌, not, some, List, [], ◌∷◌, Bytes,
  take, Bool-cases, inl, inr, if◌then◌else◌,
}
use tcp_client.Cli.Args.{Config}
use tcp_client.Socket.Codes.{eintr, is_socket_wouldblock}
use tcp_client.Oneshot.Stdout.{Write}
use tcp_client.Oneshot.Loop.{
  Input, bytes, closed, failed, Send, sent, send_failed, Poll, poll_timeout, poll_failed, polled,
  Round, State, Step, goes, exits, disconnect, and_then, is_sending, shut_down, take_input, hang_up,
  receive, read_stdin, take_sent, send_more, handle, on_poll, round, go_on, finish, loop, start,
}
use tcp_client.Oneshot.Payload.{buf_size}
use tcp_client.Oneshot.Mode.{ran, prepared, run_valid, run_oneshot_mode}

-- The bytes that recv() hands over.
abbrev pub input_bytes : Input → Bytes
input_bytes (bytes b rest) = b ∷ rest
input_bytes closed = []
input_bytes (failed e) = []

-- The bytes that arrive in a round: where poll() reports them.
abbrev pub polled_bytes : Poll → Bool → Input → Bytes
polled_bytes polled true i = input_bytes i
polled_bytes _ _ _ = []

abbrev pub arrived : Round → Bytes
arrived r = polled_bytes r.poll r.has_in r.recv

-- recv(), where it is called, gives bytes or would block.
abbrev pub Receives : Bool → Input → Type 0
Receives true closed = ⊥
Receives true (failed e) = is_socket_wouldblock e ≡ true
Receives _ _ = Unit

-- send() takes some bytes or would block.
abbrev pub Sends : Send → Type 0
Sends (sent n) = Unit
Sends (send_failed e) = is_socket_wouldblock e ≡ true

-- poll() is interrupted, or reports any events but an error, and a hang-up only beside data.
abbrev pub Passes : Poll → Round → Type 0
Passes poll_timeout r = ⊥
Passes (poll_failed e) r = e ≡ eintr
Passes polled r =
    (r.has_err ≡ false)
    × ((r.has_hup && not r.has_in) ≡ false)
    × Receives r.has_in r.recv
    × Sends r.send

-- A round in which nothing fails and no signal ends the loop; whether anything arrives or is sent is
-- left open.
abbrev pub IsFine : Round → Type 0
IsFine r = (r.interrupted ≡ false) × Passes r.poll r

-- recv() is not called where poll() reports nothing.
abbrev pub MayReceive : Poll → Bool → Input → Type 0
MayReceive polled has_in i = Receives has_in i
MayReceive _ _ _ = Unit

Passes-MayReceive : (p : Poll) (r : Round) → Passes p r → MayReceive p r.has_in r.recv
Passes-MayReceive poll_timeout r h = tt
Passes-MayReceive (poll_failed e) r h = tt
Passes-MayReceive polled r h = h.2

pub may_receive : (r : Round) → IsFine r → MayReceive r.poll r.has_in r.recv
may_receive r fine = Passes-MayReceive r.poll r fine.1

-- What a state has received, while no input is to come from stdin.
abbrev pub Received : State → Bytes → Bytes → Bool → Type 0
Received s out accum socket_eof =
    (s.out ≡ out) × (s.accum ≡ accum) × (s.socket_eof ≡ socket_eof) × (s.stdin_eof ≡ true)

module _ (c : Config) where
  pub shut_down-Received :
      (s : State) {out accum : Bytes} {e : Bool}
      → Received s out accum e
      → Received (shut_down c s) out accum e
  unfolding shut_down
  shut_down-Received s h = ground arith

  take_sent-Received :
      (x : Send) (s : State) {out accum : Bytes} {e : Bool}
      → Sends x
      → Received s out accum e
      → (t : State) × (take_sent x s ≡ goes t) × Received t out accum e
  unfolding take_sent
  take_sent-Received (sent n) s h k = (_, refl, k)
  take_sent-Received (send_failed x) s h k = rw h (s, refl, k)

  send_more-Received :
      (r : Round) (s : State) {out accum : Bytes} {e : Bool}
      → Sends r.send
      → Received s out accum e
      → (t : State) × (send_more r s ≡ goes t) × Received t out accum e
  unfolding send_more
  send_more-Received r s h k = elim (Bool-cases (r.has_out && is_sending s)) [
    | inl sending ↦ rw sending (take_sent-Received r.send s h k)
    | inr idle ↦ rw idle (s, refl, k)
  ]

  pub read_stdin-eof :
      (r : Round) (s t : State)
      → s.stdin_eof ≡ true
      → read_stdin (not s.stdin_eof && not (is_sending s)) r t ≡ goes t
  unfolding read_stdin
  read_stdin-eof r s t eof = rw eof refl

  -- The receiving part of a round.
  unfoldable pub got : List Write → Poll → Bool → Input → State → Step
  got writes polled has_in i s = if has_in then take_input c writes i s else goes s
  got writes poll_timeout has_in i s = goes s
  got writes (poll_failed e) has_in i s = goes s

  -- The other parts of the round stop nothing.
  handle-fine :
      (r : Round) (s t : State)
      → s.stdin_eof ≡ true
      → Passes polled r
      → got r.writes polled r.has_in r.recv s ≡ goes t
      → handle c r s ≡ send_more r t
  unfolding handle hang_up receive and_then got
  handle-fine r s t eof (no_err, no_hup, receives, sends) e =
      ap
        (λ b.
          if b
          then exits 5 s
          else rest (if r.has_hup && not r.has_in then disconnect c s else goes s))
        no_err
      ∙ ap (λ b. rest (if b then disconnect c s else goes s)) no_hup
      ∙ ap (λ x. and_then x tail) e
      ∙ ap (λ x. and_then x (send_more r)) (read_stdin-eof r s t eof)
    where
      tail : State → Step
      tail b = and_then (read_stdin (not s.stdin_eof && not (is_sending s)) r b) (send_more r)

      rest : Step → Step
      rest x = and_then x (λ (a : State). and_then (receive c r a) tail)

  on_poll-fine :
      (p : Poll) (r : Round) (s t : State) {out accum : Bytes} {e : Bool}
      → Passes p r
      → s.stdin_eof ≡ true
      → got r.writes p r.has_in r.recv s ≡ goes t
      → Received t out accum e
      → (u : State) × (on_poll c r p s ≡ goes u) × Received u out accum e
  unfolding on_poll got
  on_poll-fine poll_timeout r s t h eof taken k = absurd h
  on_poll-fine (poll_failed x) r s t h eof taken k =
      let interrupted : (x == eintr) ≡ true = ground arith in rw interrupted (t, taken, k)
  on_poll-fine polled r s t h eof taken k =
      let (u, sent_on, after) = send_more-Received r t h.3 k in
      (u, handle-fine r s t eof h taken ∙ sent_on, after)

  pub round-fine :
      (r : Round) (s t : State) {out accum : Bytes} {e : Bool}
      → IsFine r
      → (shut_down c s).stdin_eof ≡ true
      → got r.writes r.poll r.has_in r.recv (shut_down c s) ≡ goes t
      → Received t out accum e
      → (u : State) × (round c r s ≡ goes u) × Received u out accum e
  unfolding round
  round-fine r s t fine eof taken k = on_poll-fine r.poll r (shut_down c s) t fine.1 eof taken k

  -- The loop ends where the stream has ended.
  pub loop-socket_eof :
      (s : State) (rounds : List Round) → s.socket_eof ≡ true → loop c s rounds ≡ finish c s
  unfolding loop
  loop-socket_eof s [] h = rw h refl
  loop-socket_eof s (r ∷ rounds) h = ground arith

  pub loop-round :
      (r : Round) (s u : State) (rounds : List Round)
      → r.interrupted ≡ false
      → s.socket_eof ≡ false
      → round c r s ≡ goes u
      → loop c s (r ∷ rounds) ≡ loop c u rounds
  unfolding loop go_on
  loop-round r s u rounds calm h e =
      ap
        (λ b.
          if b || s.socket_eof
          then finish c s
          else go_on (round c r s) (λ (t : State). loop c t rounds))
        calm
      ∙ ap (λ b. if b then finish c s else go_on (round c r s) (λ (t : State). loop c t rounds)) h
      ∙ ap (λ x. go_on x (λ (t : State). loop c t rounds)) e

  -- What run_oneshot_mode comes to for a payload of text.
  pub run_oneshot_mode-text :
      (rounds : List Round)
      → c.is_hex ≡ false
      → c.is_ascii ≡ true
      → run_oneshot_mode (some c) rounds
        ≡ ran (loop c (start (some (prepared c (take buf_size c.ascii_payload)))) rounds)
  unfolding run_oneshot_mode run_valid
  run_oneshot_mode-text rounds no_hex text = ground arith
