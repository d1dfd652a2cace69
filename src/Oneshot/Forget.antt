-- ===== src/Oneshot/Forget.antt =====
-- A round of the Windows loop, but for the time, is a round of the POSIX loop.
use tcp_client.Base.{
  ℕ, ◌≡◌, refl, sym, ap, ◌∙◌, arith, Bool, true, false, ◌&&◌, not, Bytes, Bool-cases, inl, inr,
  if◌then◌else◌,
}
use mathlib.Core.Path.{subst}
use tcp_client.Cli.Args.{Config}
use tcp_client.Oneshot.Loop as Loop
use tcp_client.Oneshot.Loop.{
  Input, bytes, closed, failed, Send, sent, send_failed, polled, State, shut_down, is_sending,
  disconnect, take_input, take_sent, Outcome, start, finish,
}
use tcp_client.Oneshot.Kept.{Keeps, StepKeeps, shut_down-Keeps, hang_up-Keeps, receive-Keeps}
use tcp_client.Oneshot.Received.{read_stdin-eof}
use tcp_client.Oneshot.Windows.{
  check_stdin_ready, Round, Timed, Step, goes, exits, and_then, timed, is_late, hang_up, take_reply,
  receive, take_count, send_more, read_stdin, handle, on_poll, round,
}

-- What happens, as the POSIX loop meets it.
unfoldable pub posix : Round → Loop.Round
posix r = record {
  interrupted = r.interrupted;
  poll = r.poll;
  has_err = r.has_err;
  has_hup = r.has_hup;
  has_in = r.has_in;
  has_out = r.has_out;
  stdin_ready = check_stdin_ready r.stdin;
  recv = r.recv;
  read = r.read;
  send = r.send;
  writes = r.writes;
}

-- recv() and send() do not fail: the errors have other numbers.
abbrev pub Receives : Input → Type 0
Receives (bytes b rest) = Unit
Receives closed = Unit
Receives (failed e) = ⊥

abbrev pub Sends : Send → Type 0
Sends (sent n) = Unit
Sends (send_failed e) = ⊥

-- A step without its time.
unfoldable pub forget : Step → Loop.Step
forget (goes t) = Loop.goes t.state
forget (exits code s) = Loop.exits code s

forget-timed : (last : ℕ) (x : Loop.Step) → forget (timed last x) ≡ x
unfolding forget timed
forget-timed last (Loop.goes s) = refl
forget-timed last (Loop.exits code s) = refl

forget-if :
    (x y : Step) (x' y' : Loop.Step) (b : Bool)
    → forget x ≡ x'
    → forget y ≡ y'
    → forget (if b then x else y) ≡ (if b then x' else y')
forget-if x y x' y' true h k = h
forget-if x y x' y' false h k = k

module _ (payload : Bytes) where
  forget-and_then :
      (x : Step) (x' : Loop.Step) (f : Timed → Step) (g : State → Loop.Step)
      → forget x ≡ x'
      → StepKeeps payload x'
      → ((t : Timed) → Keeps payload t.state → forget (f t) ≡ g t.state)
      → forget (and_then x f) ≡ Loop.and_then x' g
  unfolding and_then Loop.and_then forget StepKeeps
  forget-and_then (goes t) x' f g e k h =
      h t (subst (StepKeeps payload) (sym e) k) ∙ ap (λ y. Loop.and_then y g) e
  forget-and_then (exits code s) x' f g e k h = ap (λ y. Loop.and_then y g) e

  eof_of : (s : State) → Keeps payload s → s.stdin_eof ≡ true
  unfolding Keeps
  eof_of s k = k.1

  module _ (c : Config) (r : Round) where
    forget-hang_up : (t : Timed) → forget (hang_up c r t) ≡ Loop.hang_up c (posix r) t.state
    unfolding hang_up Loop.hang_up posix forget
    forget-hang_up t =
        forget-if _ _ _ _ (r.has_hup && not r.has_in) (forget-timed _ (disconnect c t.state)) refl

    forget-take_reply :
        (i : Input) (t : Timed)
        → Receives i
        → forget (take_reply c r i t) ≡ take_input c r.writes i t.state
    unfolding take_reply
    forget-take_reply (bytes b rest) t h = forget-timed _ _
    forget-take_reply closed t h = unfold take_input in forget-timed _ _
    forget-take_reply (failed e) t h = absurd h

    forget-receive :
        (t : Timed) → Receives r.recv → forget (receive c r t) ≡ Loop.receive c (posix r) t.state
    unfolding receive Loop.receive posix forget
    forget-receive t h = forget-if _ _ _ _ r.has_in (forget-take_reply r.recv t h) refl

    -- Nothing is read from stdin behind it.
    forget-sent :
        (i : Send) (t : Timed)
        → Sends i
        → t.state.stdin_eof ≡ true
        → forget (and_then (take_count r i t) (read_stdin r)) ≡ take_sent i t.state
    unfolding take_count take_sent timed and_then read_stdin forget
    forget-sent (sent n) t h eof = ground arith
    forget-sent (send_failed e) t h eof = absurd h

    nothing_read :
        (t : Timed)
        → t.state.stdin_eof ≡ true
        → forget (and_then (goes t) (read_stdin r)) ≡ Loop.goes t.state
    unfolding forget and_then read_stdin
    nothing_read t eof = ground arith

    forget-send_more :
        (t : Timed)
        → Sends r.send
        → t.state.stdin_eof ≡ true
        → forget (and_then (send_more r t) (read_stdin r)) ≡ Loop.send_more (posix r) t.state
    unfolding send_more Loop.send_more posix
    forget-send_more t h eof = elim (Bool-cases (r.has_out && is_sending t.state)) [
      | inl p ↦ rw p (forget-sent r.send t h eof)
      | inr p ↦ rw p (nothing_read t eof)
    ]

    forget-handle :
        (t : Timed)
        → Receives r.recv
        → Sends r.send
        → Keeps payload t.state
        → forget (handle c r t) ≡ Loop.handle c (posix r) t.state
    unfolding handle Loop.handle Loop.and_then posix
    forget-handle t receives sends k = forget-if _ _ _ _ r.has_err (unfold forget in refl) (
        forget-and_then _ _ _ _ (forget-hang_up t) (hang_up-Keeps payload c (posix r) t.state k)
          (λ (a : Timed) (ka : Keeps payload a.state).
            forget-and_then _ _ _ _ (forget-receive a receives)
              (receive-Keeps payload c (posix r) a.state ka)
              (λ (b : Timed) (kb : Keeps payload b.state).
                forget-send_more b sends (eof_of b.state kb)
                ∙ ap (λ y. Loop.and_then y (Loop.send_more (posix r)))
                    (sym (read_stdin-eof c (posix r) t.state b.state (eof_of t.state k))))))

    pub forget-round :
        (t : Timed)
        → r.poll ≡ polled
        → Receives r.recv
        → Sends r.send
        → is_late c r.now t.last_activity ≡ false
        → Keeps payload t.state
        → forget (round c r t) ≡ Loop.round c (posix r) t.state
    unfolding round Loop.round on_poll Loop.on_poll posix
    forget-round t polls receives sends early k =
        let t' = record t { state = shut_down c t.state } in
        rw early (
          ap (λ p. forget (on_poll c r p t')) polls
          ∙ forget-handle t' receives sends (shut_down-Keeps payload c t.state k)
          ∙ ap (λ p. Loop.on_poll c (posix r) p t'.state) (sym polls))
