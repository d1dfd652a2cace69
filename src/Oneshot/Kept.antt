-- ===== src/Oneshot/Kept.antt =====
-- What every round of the loop keeps of the payload and of the packet that accumulates.
use tcp_client.Base.{
  ℕ, ◌+◌, ◌≤◌, ◌≡◌, refl, sym, ap, ◌∙◌, arith, Bool, true, false, ◌&&◌, ◌||◌, not, some, List, [],
  ◌∷◌, ◌++◌, append_assoc, Bytes, length, length-append, take, drop, take-append-drop, leb,
  if◌then◌else◌, Bool-cases, inl, inr, Result, ok, err,
}
use tcp_client.Hex.{HexError}
use tcp_client.Cli.Args.{Config}
use tcp_client.Oneshot.Stdout.{Write}
use tcp_client.Oneshot.Loop.{
  Input, bytes, closed, failed, Send, sent, send_failed, Poll, poll_timeout, poll_failed, polled,
  Round, State, Step, goes, exits, and_then, is_sending, shut_down, disconnect, accum_size,
  accumulate, written, write_out, write_hex, show_part, end_at, take_input, hang_up, receive,
  read_stdin, take_sent, send_more, handle, on_poll, round, Outcome, go_on, start, finish, loop,
}

-- `payload` is sent or still to be sent, nothing more will come from stdin, and the packet fits.
unfoldable pub Keeps : Bytes → State → Type 0
Keeps payload s = (payload ≡ s.wire ++ s.to_send) × (s.stdin_eof ≡ true) × (length s.accum ≤ 66048)

unfoldable pub StepKeeps : Bytes → Step → Type 0
StepKeeps payload (goes s) = Keeps payload s
StepKeeps payload (exits code s) = Keeps payload s

module _ (payload : Bytes) where
  goes-Keeps : (s : State) → Keeps payload s → StepKeeps payload (goes s)
  unfolding StepKeeps
  goes-Keeps s h = h

  exits-Keeps : (code : ℕ) (s : State) → Keeps payload s → StepKeeps payload (exits code s)
  unfolding StepKeeps
  exits-Keeps code s h = h

  if_Keeps :
      (x y : Step) (b : Bool)
      → StepKeeps payload x
      → StepKeeps payload y
      → StepKeeps payload (if b then x else y)
  if_Keeps x y true h k = h
  if_Keeps x y false h k = k

  and_then-Keeps :
      (x : Step) (f : State → Step)
      → StepKeeps payload x
      → ((s : State) → Keeps payload s → StepKeeps payload (f s))
      → StepKeeps payload (and_then x f)
  unfolding and_then StepKeeps
  and_then-Keeps (goes s) f h k = k s h
  and_then-Keeps (exits code s) f h k = h

  pub shut_down-Keeps : (c : Config) (s : State) → Keeps payload s → Keeps payload (shut_down c s)
  unfolding shut_down Keeps
  shut_down-Keeps c s h =
      elim (Bool-cases (s.stdin_eof && not (is_sending s) && not s.shutdown_done)) [
        | inl p ↦ rw p h
        | inr p ↦ rw p h
      ]

  pub disconnect-Keeps :
      (c : Config) (s : State) → Keeps payload s → StepKeeps payload (disconnect c s)
  unfolding disconnect Keeps
  disconnect-Keeps c s h = if_Keeps _ _ _ (exits-Keeps _ _ h) (goes-Keeps _ h)

  accumulate-Keeps :
      (part : Bytes) (s : State) → Keeps payload s → Keeps payload (accumulate part s)
  unfolding accumulate accum_size Keeps
  accumulate-Keeps part s (sent_is, eof, fits) =
      let size = length-append s.accum part in
      elim (Bool-cases (leb (length s.accum + length part) 66048)) [
        | inl p ↦ rw p (sent_is, eof, ground arith)
        | inr p ↦ rw p (sent_is, eof, fits)
      ]

  written-Keeps :
      (done : Bool) (text : Bytes) (s : State)
      → Keeps payload s
      → StepKeeps payload (written (done, text) s)
  unfolding written Keeps
  written-Keeps true text s h = goes-Keeps _ h
  written-Keeps false text s h = exits-Keeps _ _ h

  write_out-Keeps :
      (w : List Write) (text : Bytes) (s : State)
      → Keeps payload s
      → StepKeeps payload (write_out w text s)
  unfolding write_out
  write_out-Keeps w text s h = written-Keeps _ _ s h

  write_hex-Keeps :
      (w : List Write) (r : Result HexError Bytes) (s : State)
      → Keeps payload s
      → StepKeeps payload (write_hex w r s)
  unfolding write_hex
  write_hex-Keeps w (err e) s h = goes-Keeps _ h
  write_hex-Keeps w (ok text) s h = write_out-Keeps w _ s h

  show_part-Keeps :
      (c : Config) (w : List Write) (part : Bytes) (s : State)
      → Keeps payload s
      → StepKeeps payload (show_part c w part s)
  unfolding show_part
  show_part-Keeps c w part s h =
      if_Keeps _ _ _ (goes-Keeps _ (accumulate-Keeps part s h))
        (if_Keeps _ _ _ (write_hex-Keeps w _ s h) (write_out-Keeps w _ s h))

  end_at-Keeps : (found : Bool) (s : State) → Keeps payload s → StepKeeps payload (end_at found s)
  unfolding end_at Keeps
  end_at-Keeps true s h = goes-Keeps _ h
  end_at-Keeps false s h = goes-Keeps _ h

  take_input-Keeps :
      (c : Config) (w : List Write) (i : Input) (s : State)
      → Keeps payload s
      → StepKeeps payload (take_input c w i s)
  unfolding take_input
  take_input-Keeps c w (bytes b rest) s h =
      and_then-Keeps _ _ (show_part-Keeps c w _ s h) (end_at-Keeps _)
  take_input-Keeps c w closed s h = disconnect-Keeps c s h
  take_input-Keeps c w (failed e) s h = if_Keeps _ _ _ (goes-Keeps _ h) (exits-Keeps _ _ h)

  pub hang_up-Keeps :
      (c : Config) (r : Round) (s : State) → Keeps payload s → StepKeeps payload (hang_up c r s)
  unfolding hang_up
  hang_up-Keeps c r s h = if_Keeps _ _ _ (disconnect-Keeps c s h) (goes-Keeps _ h)

  pub receive-Keeps :
      (c : Config) (r : Round) (s : State) → Keeps payload s → StepKeeps payload (receive c r s)
  unfolding receive
  receive-Keeps c r s h = if_Keeps _ _ _ (take_input-Keeps c r.writes r.recv s h) (goes-Keeps _ h)

  read_stdin-Keeps :
      (asked : Bool) (r : Round) (s : State)
      → asked ≡ false
      → Keeps payload s
      → StepKeeps payload (read_stdin asked r s)
  unfolding read_stdin
  read_stdin-Keeps asked r s e h = rw e (goes-Keeps _ h)

  take_sent-Keeps : (i : Send) (s : State) → Keeps payload s → StepKeeps payload (take_sent i s)
  unfolding take_sent Keeps
  take_sent-Keeps (sent n) s (sent_is, eof, fits) = goes-Keeps _ (
    sent_is
        ∙ ap (λ l. s.wire ++ l) (sym (take-append-drop n s.to_send))
        ∙ sym (append_assoc s.wire (take n s.to_send) (drop n s.to_send)),
    eof,
    fits,
  )
  take_sent-Keeps (send_failed e) s h = if_Keeps _ _ _ (goes-Keeps _ h) (exits-Keeps _ _ h)

  send_more-Keeps : (r : Round) (s : State) → Keeps payload s → StepKeeps payload (send_more r s)
  unfolding send_more
  send_more-Keeps r s h = if_Keeps _ _ _ (take_sent-Keeps r.send s h) (goes-Keeps _ h)

  not_asked : (s : State) → Keeps payload s → (not s.stdin_eof && not (is_sending s)) ≡ false
  unfolding Keeps
  not_asked s (sent_is, eof, fits) = rw eof refl

  handle-Keeps :
      (c : Config) (r : Round) (s : State) → Keeps payload s → StepKeeps payload (handle c r s)
  unfolding handle
  handle-Keeps c r s h = if_Keeps _ _ _ (exits-Keeps _ _ h) (
      and_then-Keeps _ _ (hang_up-Keeps c r s h) (λ (a : State) (ha : Keeps payload a).
        and_then-Keeps _ _ (receive-Keeps c r a ha) (λ (b : State) (hb : Keeps payload b).
          and_then-Keeps _ _ (read_stdin-Keeps _ r b (not_asked s h) hb) (send_more-Keeps r))))

  on_poll-Keeps :
      (c : Config) (r : Round) (p : Poll) (s : State)
      → Keeps payload s
      → StepKeeps payload (on_poll c r p s)
  unfolding on_poll
  on_poll-Keeps c r poll_timeout s h = exits-Keeps _ _ h
  on_poll-Keeps c r (poll_failed e) s h = if_Keeps _ _ _ (goes-Keeps _ h) (exits-Keeps _ _ h)
  on_poll-Keeps c r polled s h = handle-Keeps c r s h

  pub round-Keeps :
      (c : Config) (r : Round) (s : State) → Keeps payload s → StepKeeps payload (round c r s)
  unfolding round
  round-Keeps c r s h = on_poll-Keeps c r r.poll _ (shut_down-Keeps c s h)

  finish-Keeps : (c : Config) (s : State) → Keeps payload s → Keeps payload (finish c s).last
  unfolding finish
  finish-Keeps c s h = shut_down-Keeps c s h

  go_on-Keeps :
      (next : Step) (rest : State → Outcome)
      → StepKeeps payload next
      → ((s : State) → Keeps payload s → Keeps payload (rest s).last)
      → Keeps payload (go_on next rest).last
  unfolding go_on StepKeeps
  go_on-Keeps (goes s) rest h k = k s h
  go_on-Keeps (exits code s) rest h k = h

  if_last :
      (x y : Outcome) (b : Bool)
      → Keeps payload x.last
      → Keeps payload y.last
      → Keeps payload (if b then x else y).last
  if_last x y true h k = h
  if_last x y false h k = k

  loop-Keeps :
      (c : Config) (s : State) (rounds : List Round)
      → Keeps payload s
      → Keeps payload (loop c s rounds).last
  unfolding loop
  loop-Keeps c s [] h = if_last _ _ s.socket_eof (finish-Keeps c s h) h
  loop-Keeps c s (r ∷ rounds) h = if_last _ _ (r.interrupted || s.socket_eof) (finish-Keeps c s h) (
      go_on-Keeps (round c r s) _ (round-Keeps c r s h)
        (λ (s' : State) (k : Keeps payload s'). loop-Keeps c s' rounds k))

-- Whatever the system answers and however the loop ends or blocks, what has gone to the server is
-- the first part of the payload with the rest still to send, nothing comes from stdin, and the packet
-- that has accumulated fits its buffer.
pub loop-start :
    (c : Config) (payload : Bytes) (rounds : List Round)
    → Keeps payload (loop c (start (some payload)) rounds).last
unfolding start Keeps
loop-start c payload rounds = loop-Keeps payload c _ rounds (refl, refl, omega arith)
