-- ===== src/Oneshot/Agrees.antt =====
-- The loop of the one-shot mode on Windows beside the one of POSIX, for a payload.
use tcp_client.Base.{
  ℕ, ◌≡◌, refl, sym, ap, ◌∙◌, arith, true, false, ◌||◌, some, List, [], ◌∷◌, Bytes, take,
  if◌then◌else◌,
}
use mathlib.Core.List.{map}
use mathlib.Core.Path.{subst}
use tcp_client.Cli.Args.{Config}
use tcp_client.Oneshot.Loop as Loop
use tcp_client.Oneshot.Loop.{
  Input, bytes, closed, failed, Send, sent, send_failed, polled, State, shut_down, is_sending,
  disconnect, take_input, take_sent, Outcome, start, finish,
}
use tcp_client.Oneshot.Kept.{Keeps, StepKeeps, round-Keeps}
use tcp_client.Oneshot.Received.{run_oneshot_mode-text}
use tcp_client.Oneshot.Windows.{
  Round, Timed, Step, goes, exits, is_late, round, go_on, loop, run_loop, run_oneshot_mode,
}
use tcp_client.Oneshot.Payload.{buf_size}
use tcp_client.Oneshot.Mode as Mode
use tcp_client.Oneshot.Mode.{Ran, ran, prepared}
use tcp_client.Oneshot.Forget.{posix, Receives, Sends, forget, forget-round}

-- poll() reports events, and no round begins as late as the timeout.
unfoldable pub InTime : Config → Timed → List Round → Type 0
InTime c t [] = Unit
InTime c t (r ∷ rounds) =
    (r.poll ≡ polled)
    × Receives r.recv
    × Sends r.send
    × (is_late c r.now t.last_activity ≡ false)
    × ((u : Timed) → round c r t ≡ goes u → InTime c u rounds)

module _ (payload : Bytes) where
  -- The next states are kept, too.
  next-Keeps :
      (c : Config) (r : Round) (t u : Timed)
      → Keeps payload t.state
      → forget (round c r t) ≡ Loop.round c (posix r) t.state
      → round c r t ≡ goes u
      → Keeps payload u.state
  unfolding forget StepKeeps
  next-Keeps c r t u k same e =
      subst (StepKeeps payload) (sym same ∙ ap forget e) (round-Keeps payload c (posix r) t.state k)

  go_on-forget :
      (x : Step) (x' : Loop.Step) (f : Timed → Outcome) (g : State → Outcome)
      → forget x ≡ x'
      → ((u : Timed) → x ≡ goes u → f u ≡ g u.state)
      → go_on x f ≡ Loop.go_on x' g
  unfolding go_on Loop.go_on forget
  go_on-forget (goes u) x' f g e h = h u refl ∙ ap (λ y. Loop.go_on y g) e
  go_on-forget (exits code s) x' f g e h = ap (λ y. Loop.go_on y g) e

  loop-posix :
      (c : Config) (t : Timed) (rounds : List Round)
      → Keeps payload t.state
      → InTime c t rounds
      → loop c t rounds ≡ Loop.loop c t.state (map posix rounds)
  unfolding loop Loop.loop InTime posix
  loop-posix c t [] k h = refl
  loop-posix c t (r ∷ rounds) k (polls, receives, sends, early, later) =
      let same = forget-round payload c r t polls receives sends early k in
      ap (λ x. if r.interrupted || t.state.socket_eof then finish c t.state else x)
        (go_on-forget _ _ _ _ same
          (λ u e. loop-posix c u rounds (next-Keeps c r t u k same e) (later u e)))

start-Keeps : (payload : Bytes) → Keeps payload (start (some payload))
unfolding start Keeps
start-Keeps payload = (refl, refl, omega arith)

windows-text :
    (c : Config) (began : ℕ) (rounds : List Round)
    → c.is_hex ≡ false
    → c.is_ascii ≡ true
    → run_oneshot_mode c began rounds
      ≡ ran (
          loop c
            (record {
              state = start (some (prepared c (take buf_size c.ascii_payload)));
              last_activity = began;
            })
            rounds)
unfolding run_oneshot_mode run_loop
windows-text c began rounds no_hex text = ground arith

-- For a payload of text, the loop of Windows comes to what the loop of POSIX comes to where the same
-- happens: the code, what goes to the server and to stdout, the packet, and the response that is
-- analysed; if poll() reports events in each round, recv() and send() do not fail, and no round begins
-- as late as the timeout.
pub run_oneshot_mode-posix :
    (c : Config) (began : ℕ) (rounds : List Round)
    → c.is_hex ≡ false
    → c.is_ascii ≡ true
    → InTime c
        (record {
          state = start (some (prepared c (take buf_size c.ascii_payload)));
          last_activity = began;
        })
        rounds
    → run_oneshot_mode c began rounds ≡ Mode.run_oneshot_mode (some c) (map posix rounds)
run_oneshot_mode-posix c began rounds no_hex text h =
    let payload = prepared c (take buf_size c.ascii_payload) in
    windows-text c began rounds no_hex text
    ∙ ap ran (loop-posix payload c _ rounds (start-Keeps payload) h)
    ∙ sym (run_oneshot_mode-text c (map posix rounds) no_hex text)
