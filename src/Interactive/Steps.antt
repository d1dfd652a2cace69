-- ===== src/Interactive/Steps.antt =====
-- The arrays in a round of the terminal mode.
use tcp_client.Base.{
  ℕ, zero, suc, ◌+◌, ◌-◌, ◌*◌, ◌<◌, ◌≡◌, ◌≢◌, ◌⊎◌, refl, arith, Bool, true, false, ◌&&◌, Option,
  some, [], ◌∷◌, Bytes, codes, ltb, leb, ◌==◌, if◌then◌else◌, Bool-cases, inl, inr,
}
use tcp_client.Cli.Args.{Config}
use tcp_client.Linenoise.State as Linenoise
use tcp_client.Linenoise.State.{
  EscState, normal, esc, csi, csi_num_state, ss3, win_ext, again, line, stop,
}
use tcp_client.Linenoise.Ready.{Keeps}
use tcp_client.Linenoise.Begun.{edit_start-IsReady}
use tcp_client.Linenoise.Feed.{Fed, char, int_max}
use tcp_client.Linenoise.Total.{FedReady, edit_feed-IsReady, edit_feed_overflow}
use tcp_client.Interactive.Pipe.{Polled, poll_failed, poll_timeout, polled}
use tcp_client.Interactive.Handler.{
  Session, carry_on, closed, failed, Handled, returns, blocks, fault,
}
use tcp_client.Interactive.Terminal.{
  Round, Step, goes, leaves, stuck, broken, and_then, after_handler, Keyed, keyed, overrun, fed,
  feed_char, feed_next, key_round, feed_more, restarted, edit_restart, after_keys, read_stdin,
  hang_up, socket_event, stdin_event, handle, on_poll, Ended, returned, blocked, faulted,
}
use tcp_client.Interactive.Sound.{
  AreBytes, IsHeld, IsOpen, Fine, fine_return, fine_block, handle_interactive_command-Fine,
  handle_socket_data-Fine,
}

-- A digit may take the number of the escape sequence past the largest int.
abbrev pub Overflows : Linenoise.State → Type 0
Overflows e = (e.esc_state ≡ csi_num_state) × (int_max < e.csi_num * 10 + 9)

abbrev pub IsStatus : ℕ → Type 0
IsStatus code = (code ≡ 0) ⊎ (code ≡ 5)

-- The mode returns 0 or 5 with the history freed, blocks, or faults by an overflow.
abbrev pub EndsWell : Ended → Type 0
EndsWell (returned code s) = IsStatus code × (s.editor.history ≡ [])
EndsWell (blocked s) = Unit
EndsWell (faulted s) = Overflows s.editor

pub data IsSafe : Step → Type 0 where
  safe_goes : {s : Session} → IsOpen s → IsSafe (goes s)
  safe_leaves : {code : ℕ} {s : Session} → IsStatus code → IsSafe (leaves code s)
  safe_stuck : {s : Session} → IsSafe (stuck s)
  safe_broken : {s : Session} → Overflows s.editor → IsSafe (broken s)

data IsSafeKeyed : Keyed → Type 0 where
  safe_keyed : {r : Linenoise.Reply} {s : Session} → IsOpen s → IsSafeKeyed (keyed r s)
  safe_overrun : {s : Session} → Overflows s.editor → IsSafeKeyed (overrun s)

if_IsSafe : {x y : Step} (b : Bool) → IsSafe x → IsSafe y → IsSafe (if b then x else y)
if_IsSafe true hx hy = hx
if_IsSafe false hx hy = hy

and_then-IsSafe :
    {x : Step} (f : Session → Step)
    → IsSafe x
    → ((s : Session) → IsOpen s → IsSafe (f s))
    → IsSafe (and_then x f)
unfolding and_then
and_then-IsSafe f (safe_goes o) h = h _ o
and_then-IsSafe f (safe_leaves c) h = safe_leaves c
and_then-IsSafe f safe_stuck h = safe_stuck
and_then-IsSafe f (safe_broken over) h = safe_broken over

after_handler-IsSafe :
    {P : Session → Type 0} (x : Handled) (next : Session → Step)
    → Fine P x
    → ((s : Session) → P s → IsSafe (next s))
    → IsSafe (after_handler x next)
unfolding after_handler
after_handler-IsSafe (returns carry_on s) next (fine_return h) k = k s h
after_handler-IsSafe (returns closed s) next (fine_return h) k = safe_leaves (inl refl)
after_handler-IsSafe (returns failed s) next (fine_return h) k = safe_leaves (inr refl)
after_handler-IsSafe (blocks s) next fine_block k = safe_stuck
after_handler-IsSafe (fault s) next h k = elim h [ ]

fed-IsSafe : {o : Fed} (s : Session) → AreBytes s.input → FedReady 65536 o → IsSafeKeyed (fed o s)
unfolding fed
fed-IsSafe s bytes (e, r, same, ready) =
    rw same (safe_keyed (record { ready = ready; bytes = bytes }))

csi_cases : (e : EscState) → (e ≡ csi_num_state) ⊎ (e ≢ csi_num_state)
csi_cases csi_num_state = inl refl
csi_cases normal = inr (λ e. absurd (cc))
csi_cases esc = inr (λ e. absurd (cc))
csi_cases csi = inr (λ e. absurd (cc))
csi_cases ss3 = inr (λ e. absurd (cc))
csi_cases win_ext = inr (λ e. absurd (cc))

-- A character is a fault only if it takes the number of an escape sequence past the largest int.
feed_char-IsSafe : (c : ℕ) (s : Session) → c < 256 → IsOpen s → IsSafeKeyed (feed_char c s)
unfolding feed_char
feed_char-IsSafe c s small o =
    let e = s.editor in
    elim (csi_cases e.esc_state) [
      | inr other ↦
          fed-IsSafe s o.bytes (edit_feed-IsReady (char c) o.ready small (λ h. absurd (other h)))
      | inl in_csi ↦
          elim (Bool-cases
            (leb b'0' c && leb c b'9' && ltb int_max (e.csi_num * 10 + (c - b'0')))) [
              | inr fits ↦
                  fed-IsSafe s o.bytes
                    (edit_feed-IsReady (char c) o.ready small (λ h low high. ground arith))
              | inl over ↦
                  let room : 0 < e.buflen = omega (arith, o.ready.sound.size_is) in
                  rw
                    (edit_feed_overflow e c room in_csi (ground arith) (ground arith)
                      (ground arith))
                    (unfold fed in safe_overrun {s = s} (in_csi, ground arith))
            ]
    ]

feed_next-IsSafe :
    (input : Bytes) (s : Session) → AreBytes input → IsOpen s → IsSafeKeyed (feed_next input s)
unfolding feed_next
feed_next-IsSafe [] s bytes o = safe_keyed o
feed_next-IsSafe (c ∷ input) s (small, bytes) o =
    feed_char-IsSafe c _ small (record { ready = o.ready; bytes = bytes })

key_round-IsSafe : (k : Keyed) → IsSafeKeyed k → IsSafeKeyed (key_round k)
unfolding key_round
key_round-IsSafe (keyed again s) (safe_keyed o) = feed_next-IsSafe s.input s o.bytes o
key_round-IsSafe (keyed line s) h = h
key_round-IsSafe (keyed stop s) h = h
key_round-IsSafe (overrun s) h = h

feed_more-IsSafe : (n : ℕ) (k : Keyed) → IsSafeKeyed k → IsSafeKeyed (feed_more n k)
unfolding feed_more
feed_more-IsSafe zero k h = h
feed_more-IsSafe (suc n) k h = feed_more-IsSafe n (key_round k) (key_round-IsSafe k h)

pub edit_restart-IsSafe : (s : Session) → IsHeld s → IsSafe (edit_restart s)
unfolding edit_restart restarted
edit_restart-IsSafe s h = started _ (
    edit_start-IsReady s.editor s.editor.buf 65536 (some (codes "> ")) (omega arith) h.size h.lines
      h.callback)
  where
    started : (x : Option Linenoise.State) → Keeps 65536 x → IsSafe (restarted x s)
    started x (e, same, ready) = rw same (safe_goes (record { ready = ready; bytes = h.bytes }))

module _ (config : Config) (sockfd : ℕ) where
  after_keys-IsSafe : (k : Keyed) → IsSafeKeyed k → IsSafe (after_keys config sockfd k)
  unfolding after_keys
  after_keys-IsSafe (keyed again s) (safe_keyed o) = safe_goes o
  after_keys-IsSafe (keyed stop s) (safe_keyed o) = safe_leaves (inl refl)
  after_keys-IsSafe (keyed line s) (safe_keyed o) =
      after_handler-IsSafe _ edit_restart (handle_interactive_command-Fine o config sockfd)
        edit_restart-IsSafe
  after_keys-IsSafe (overrun s) (safe_overrun over) = safe_broken over

  read_stdin-IsSafe :
      (more : ℕ) (input : Bytes) (s : Session)
      → AreBytes input
      → IsOpen s
      → IsSafe (read_stdin config sockfd more input s)
  unfolding read_stdin
  read_stdin-IsSafe more [] s bytes o = safe_leaves (inl refl)
  read_stdin-IsSafe more (c ∷ input) s (small, bytes) o = after_keys-IsSafe _ (
      feed_more-IsSafe more _
        (feed_char-IsSafe c _ small (record { ready = o.ready; bytes = bytes })))

  module _ (r : Round) where
    hang_up-IsSafe : (s : Session) → IsOpen s → IsSafe (hang_up r s)
    unfolding hang_up
    hang_up-IsSafe s o =
        if_IsSafe r.gone (if_IsSafe r.sock_in (safe_goes o) (safe_leaves {code = 0} (inl refl)))
          (safe_goes o)

    socket_event-IsSafe : (s : Session) → IsOpen s → IsSafe (socket_event r s)
    unfolding socket_event
    socket_event-IsSafe s o =
        if_IsSafe r.sock_in
          (after_handler-IsSafe _ goes (handle_socket_data-Fine r.recv o) (λ t. safe_goes))
          (safe_goes o)

    stdin_event-IsSafe : (s : Session) → IsOpen s → IsSafe (stdin_event config sockfd r s)
    unfolding stdin_event
    stdin_event-IsSafe s o =
        if_IsSafe r.stdin_ready (read_stdin-IsSafe r.more s.input s o.bytes o) (safe_goes o)

    pub on_poll-IsSafe :
        (p : Polled) (s : Session) → IsOpen s → IsSafe (on_poll config sockfd r p s)
    unfolding on_poll handle
    on_poll-IsSafe (poll_failed e) s o =
        if_IsSafe (e == 4) (safe_goes o) (safe_leaves {code = 5} (inr refl))
    on_poll-IsSafe poll_timeout s o = safe_goes o
    on_poll-IsSafe polled s o =
        and_then-IsSafe _ (hang_up-IsSafe s o)
          (λ a oa. and_then-IsSafe _ (socket_event-IsSafe a oa) stdin_event-IsSafe)
