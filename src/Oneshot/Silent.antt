-- ===== src/Oneshot/Silent.antt =====
-- The clock of the Windows loop, where the server says nothing.
use tcp_client.Base.{
  ℕ, ◌+◌, ◌-◌, ◌^◌, ◌≤◌, ◌<◌, ◌≡◌, refl, ap, ◌∙◌, ◌⊎◌, arith, Bool, true, false, Option, none, some,
  take, Bytes, List, [], ◌∷◌, length, if◌then◌else◌, Bool-cases, inl, inr,
}
use tcp_client.Cli.Args.{Config}
use tcp_client.Oneshot.Loop.{poll_timeout, State, shut_down, start}
use tcp_client.Oneshot.Windows.{
  check_stdin_ready, Round, Timed, goes, exits, and_then, elapsed, is_late, slice, hang_up, receive,
  send_more, read_stdin, handle, quiet, on_poll, round, go_on, loop, run_hex, run_loop,
  run_oneshot_mode,
}
use tcp_client.Oneshot.Mode.{Ran, prepared, code_of}
use tcp_client.Oneshot.Payload.{buf_size}
use tcp_client.Hex.{hex_to_bytes}

-- The time that has passed, where the clock has not been set back and has not run over.
elapsed_lem : (now last : ℕ) → last ≤ now → now < 2 ^ 64 → elapsed now last ≡ now - last
unfolding elapsed
elapsed_lem now last h k = omega arith

-- Nothing happens, and nobody asks the program to stop.
pub record IsSilent (r : Round) : Type 0 where
  pub goes_on : r.interrupted ≡ false
  pub nothing : r.poll ≡ poll_timeout
  pub no_input : check_stdin_ready r.stdin ≡ false

module _ (c : Config) where
  -- Poll() waits for the whole slice, and the clock runs on from `time` without running over.
  unfoldable pub Passes : (last time : ℕ) → List Round → Type 0
  Passes last time [] = time < 2 ^ 64
  Passes last time (r ∷ rounds) =
      IsSilent r
      × (time ≤ r.now)
      × (r.now + slice c r.now last ≤ r.polled_at)
      × (r.polled_at < 2 ^ 64)
      × Passes last r.polled_at rounds

  handle-quiet :
      (r : Round) (t : Timed) → check_stdin_ready r.stdin ≡ false → handle c (quiet r) t ≡ goes t
  unfolding handle quiet hang_up receive send_more read_stdin and_then
  handle-quiet r t h = ground arith

  pos_slice : (now last : ℕ) → 1 ≤ slice c now last
  unfolding slice
  pos_slice now last = ground arith

  late :
      (now last : ℕ)
      → last ≤ now
      → now < 2 ^ 64
      → c.timeout_ms ≤ now - last
      → is_late c now last ≡ true
  unfolding is_late
  late now last h k passed = rw (elapsed_lem now last h k) (ground arith)

  in_time :
      (now last : ℕ)
      → last ≤ now
      → now < 2 ^ 64
      → now - last < c.timeout_ms
      → is_late c now last ≡ false
  unfolding is_late
  in_time now last h k soon = rw (elapsed_lem now last h k) (ground arith)

  soon_of :
      (now last : ℕ)
      → last ≤ now
      → now < 2 ^ 64
      → is_late c now last ≡ false
      → now - last < c.timeout_ms
  unfolding is_late
  soon_of now last h k e = ground (arith, elapsed_lem now last h k)

  shut : Timed → Timed
  shut t = record t { state = shut_down c t.state }

  open_still : (s : State) → s.socket_eof ≡ false → (shut_down c s).socket_eof ≡ false
  unfolding shut_down
  open_still s h = ground arith

  -- A silent round ends the loop, or leaves it as it was but for shutdown().
  round-silent :
      (r : Round) (t : Timed)
      → IsSilent r
      → (round c r t ≡ exits 4 (shut_down c t.state))
        ⊎ ((round c r t ≡ goes (shut t)) × (is_late c r.polled_at t.last_activity ≡ false))
  unfolding round on_poll shut
  round-silent r t h = elim (Bool-cases (is_late c r.now t.last_activity)) [
    | inl p ↦ inl (rw p refl)
    | inr p ↦ elim (Bool-cases (is_late c r.polled_at t.last_activity)) [
      | inl q ↦ inl (rw p (ap (λ x. on_poll c r x (shut t)) h.nothing ∙ rw q refl))
      | inr q ↦ inr (
        rw p (
            ap (λ x. on_poll c r x (shut t)) h.nothing ∙ rw q (handle-quiet r (shut t) h.no_input)),
        q,
      )
    ]
  ]

  loop-round :
      (r : Round) (t : Timed) (rounds : List Round)
      → t.state.socket_eof ≡ false
      → r.interrupted ≡ false
      → loop c t (r ∷ rounds) ≡ go_on (round c r t) (λ (u : Timed). loop c u rounds)
  unfolding loop
  loop-round r t rounds h k = ground arith

  loop-silent :
      (rounds : List Round) (t : Timed) (time : ℕ)
      → t.state.socket_eof ≡ false
      → t.last_activity ≤ time
      → time - t.last_activity < c.timeout_ms
      → c.timeout_ms ≤ (time - t.last_activity) + length rounds
      → Passes t.last_activity time rounds
      → (loop c t rounds).code ≡ some 4
  unfolding Passes go_on shut
  loop-silent [] t time is_open h soon long passes = absurd (omega arith)
  loop-silent (r ∷ rounds) t time is_open h soon long (silent, waits, polls, fits, passes) =
      ap (λ o. o.code) (loop-round r t rounds is_open silent.goes_on)
      ∙ elim (round-silent r t silent) [
        | inl ends ↦ rw ends refl
        | inr (again, early) ↦
            let grows = pos_slice r.now t.last_activity in
            let later : t.last_activity ≤ r.polled_at = omega arith in
            rw again (
              loop-silent rounds (shut t) r.polled_at (open_still t.state is_open) later
                (soon_of r.polled_at t.last_activity later fits early) (omega arith) passes)
      ]

start-open : (payload : Option Bytes) → (start payload).socket_eof ≡ false
unfolding start
start-open none = refl
start-open (some payload) = refl

run_loop-silent :
    (c : Config) (began : ℕ) (rounds : List Round)
    → 0 < c.timeout_ms
    → c.timeout_ms ≤ length rounds
    → Passes c began began rounds
    → (payload : Option Bytes) → code_of (run_loop c began payload rounds) ≡ some 4
unfolding run_loop code_of
run_loop-silent c began rounds some_time long passes payload =
    loop-silent c rounds _ began (start-open payload) (omega arith) (omega arith) (omega arith)
      passes

-- On Windows, a server that says nothing is given up with the code 4, after as many rounds as the
-- timeout has milliseconds at most; where poll() waits as long as it is asked to, nothing comes from
-- stdin, no signal comes and the clock is not set back, for a payload that is no HEX and a timeout
-- above 0.
pub run_oneshot_mode-silent :
    (c : Config) (began : ℕ) (rounds : List Round)
    → c.is_hex ≡ false
    → 0 < c.timeout_ms
    → c.timeout_ms ≤ length rounds
    → Passes c began began rounds
    → code_of (run_oneshot_mode c began rounds) ≡ some 4
unfolding run_oneshot_mode
run_oneshot_mode-silent c began rounds no_hex some_time long passes =
    ap (λ b. code_of (if b then hex else other)) no_hex
    ∙ if_lem _ _ c.is_ascii (run_loop-silent c began rounds some_time long passes _)
        (run_loop-silent c began rounds some_time long passes _)
  where
    hex : Ran
    hex = run_hex c began (hex_to_bytes (some c.hex_payload) (some buf_size)) rounds

    other : Ran
    other =
        if c.is_ascii
        then run_loop c began (some (prepared c (take buf_size c.ascii_payload))) rounds
        else run_loop c began none rounds

    if_lem :
        (x y : Ran) (b : Bool)
        → code_of x ≡ some 4
        → code_of y ≡ some 4
        → code_of (if b then x else y) ≡ some 4
    if_lem x y true h k = h
    if_lem x y false h k = k
