-- ===== src/Oneshot/Ends.antt =====
-- Which codes a round of the one-shot mode returns.
use tcp_client.Base.{
  ℕ, ◌≡◌, ◌⊎◌, refl, Bool, true, false, ◌&&◌, ◌||◌, not, List, ◌∷◌, Bytes, ◌==◌, if◌then◌else◌, inl,
  inr, ok, err, Result,
}
use tcp_client.Hex.{HexError}
use tcp_client.Socket.Codes.{eintr, is_socket_wouldblock}
use tcp_client.Cli.Args.{Config}
use tcp_client.Oneshot.Stdout.{Write, write_all_fd}
use tcp_client.Oneshot.Loop.{
  Input, bytes, closed, failed, Send, sent, send_failed, Poll, poll_timeout, poll_failed, polled,
  Round, State, Step, goes, exits, and_then, shut_down, disconnect, part_of, accumulate, written,
  write_out, write_hex, show_part, end_at, take_input, hang_up, receive, take_line, read_stdin,
  take_sent, send_more, handle, on_poll, round, is_sending,
}

-- The codes that the loop may return.
abbrev pub IsExit : ℕ → Type 0
IsExit n = (n ≡ 0) ⊎ (n ≡ 4) ⊎ (n ≡ 5)

-- A part of a round returns one of the codes, if any.
pub data IsSound : Step → Type 0 where
  sound_goes : {s : State} → IsSound (goes s)
  sound_exits : {n : ℕ} {s : State} → IsExit n → IsSound (exits n s)

exits_5 : {s : State} → IsSound (exits 5 s)
exits_5 = sound_exits {n = 5} (inr (inr refl))

if_IsSound : {x y : Step} (b : Bool) → IsSound x → IsSound y → IsSound (if b then x else y)
if_IsSound true hx hy = hx
if_IsSound false hx hy = hy

and_then-IsSound :
    {x : Step} (f : State → Step)
    → IsSound x
    → ((s : State) → IsSound (f s))
    → IsSound (and_then x f)
unfolding and_then
and_then-IsSound f sound_goes h = h _
and_then-IsSound f (sound_exits e) h = sound_exits e

disconnect-IsSound : (c : Config) (s : State) → IsSound (disconnect c s)
unfolding disconnect
disconnect-IsSound c s =
    if_IsSound (is_sending s || (not s.stdin_eof && not c.is_hex && not c.is_ascii)) exits_5
      sound_goes

written-IsSound : (w : Bool × Bytes) (s : State) → IsSound (written w s)
unfolding written
written-IsSound (true, text) s = sound_goes
written-IsSound (false, text) s = exits_5

write_out-IsSound :
    (writes : List Write) (text : Bytes) (s : State) → IsSound (write_out writes text s)
unfolding write_out
write_out-IsSound writes text s = written-IsSound (write_all_fd text writes) s

write_hex-IsSound :
    (writes : List Write) (t : Result HexError Bytes) (s : State) → IsSound (write_hex writes t s)
unfolding write_hex
write_hex-IsSound writes (err e) s = sound_goes
write_hex-IsSound writes (ok text) s = write_out-IsSound writes _ s

show_part-IsSound :
    (c : Config) (writes : List Write) (part : Bytes) (s : State)
    → IsSound (show_part c writes part s)
unfolding show_part
show_part-IsSound c writes part s =
    if_IsSound c.decode_hsm (sound_goes {s = accumulate part s})
      (if_IsSound c.hex_out (write_hex-IsSound writes _ s) (write_out-IsSound writes part s))

end_at-IsSound : (found : Bool) (s : State) → IsSound (end_at found s)
unfolding end_at
end_at-IsSound found s = if_IsSound found sound_goes sound_goes

retried-IsSound :
    (e : ℕ) (s : State) → IsSound (if is_socket_wouldblock e then goes s else exits 5 s)
retried-IsSound e s = if_IsSound (is_socket_wouldblock e) sound_goes exits_5

take_input-IsSound :
    (c : Config) (writes : List Write) (i : Input) (s : State) → IsSound (take_input c writes i s)
unfolding take_input
take_input-IsSound c writes (bytes b rest) s =
    and_then-IsSound _ (show_part-IsSound c writes (part_of c (b ∷ rest)).0 s)
      (end_at-IsSound (part_of c (b ∷ rest)).1)
take_input-IsSound c writes closed s = disconnect-IsSound c s
take_input-IsSound c writes (failed e) s = retried-IsSound e s

take_line-IsSound : (i : Input) (s : State) → IsSound (take_line i s)
unfolding take_line
take_line-IsSound (bytes b rest) s = sound_goes
take_line-IsSound closed s = sound_goes
take_line-IsSound (failed e) s = retried-IsSound e s

take_sent-IsSound : (x : Send) (s : State) → IsSound (take_sent x s)
unfolding take_sent
take_sent-IsSound (sent n) s = sound_goes
take_sent-IsSound (send_failed e) s = retried-IsSound e s

module _ (c : Config) (r : Round) where
  hang_up-IsSound : (s : State) → IsSound (hang_up c r s)
  unfolding hang_up
  hang_up-IsSound s = if_IsSound (r.has_hup && not r.has_in) (disconnect-IsSound c s) sound_goes

  receive-IsSound : (s : State) → IsSound (receive c r s)
  unfolding receive
  receive-IsSound s = if_IsSound r.has_in (take_input-IsSound c r.writes r.recv s) sound_goes

  read_stdin-IsSound : (asked : Bool) (s : State) → IsSound (read_stdin asked r s)
  unfolding read_stdin
  read_stdin-IsSound asked s =
      if_IsSound (asked && r.stdin_ready) (take_line-IsSound r.read s) sound_goes

  send_more-IsSound : (s : State) → IsSound (send_more r s)
  unfolding send_more
  send_more-IsSound s =
      if_IsSound (r.has_out && is_sending s) (take_sent-IsSound r.send s) sound_goes

  handle-IsSound : (s : State) → IsSound (handle c r s)
  unfolding handle
  handle-IsSound s = if_IsSound r.has_err exits_5 (
      and_then-IsSound _ (hang_up-IsSound s) (λ a. and_then-IsSound _ (receive-IsSound a) (λ b.
        and_then-IsSound _ (read_stdin-IsSound (not s.stdin_eof && not (is_sending s)) b)
          send_more-IsSound)))

  on_poll-IsSound : (p : Poll) (s : State) → IsSound (on_poll c r p s)
  unfolding on_poll
  on_poll-IsSound poll_timeout s = sound_exits (inr (inl refl))
  on_poll-IsSound (poll_failed e) s = if_IsSound (e == eintr) sound_goes exits_5
  on_poll-IsSound polled s = handle-IsSound s

  pub round-IsSound : (s : State) → IsSound (round c r s)
  unfolding round
  round-IsSound s = on_poll-IsSound r.poll (shut_down c s)
