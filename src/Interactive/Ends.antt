-- ===== src/Interactive/Ends.antt =====
-- The codes that the pipe mode returns.
use tcp_client.Base.{
  ℕ, refl, Bool, true, false, ◌&&◌, not, Option, none, some, List, [], ◌∷◌, Bytes, length, ltb,
  ◌==◌, if◌then◌else◌, inl, inr, ok, err,
}
use tcp_client.Socket.Codes.{dns, refused, timeout, io, Code, is_socket_wouldblock}
use tcp_client.Socket.Write as Write
use tcp_client.Interactive.Pipe.{
  Polled, poll_failed, poll_timeout, polled, Reading, takes, read_failed, Round, State, Step, goes,
  exits, blocks, fault, and_then, push_char, grown_cap, ends_string, send_exit, send_line, end_line,
  take_char, unless_exit, take_chars, send_last, end_last, leave_if_exit, end_of_input, take_input,
  read_stdin, show_data, read_socket, socket_event, stdin_event, exit_if_requested, handle, on_poll,
  Ended, returned, blocked, faulted, go_on, loop, run_interactive_pipe_mode,
}
use tcp_client.Interactive.Steps.{IsStatus}

data IsSound : Step → Type 0 where
  sound_goes : {s : State} → IsSound (goes s)
  sound_exits : {n : ℕ} {s : State} → IsStatus n → IsSound (exits n s)
  sound_blocks : {s : State} → IsSound (blocks s)
  sound_fault : IsSound fault

exits_0 : {s : State} → IsSound (exits 0 s)
exits_0 = sound_exits {n = 0} (inl refl)

exits_5 : {s : State} → IsSound (exits 5 s)
exits_5 = sound_exits {n = 5} (inr refl)

if_IsSound : {x y : Step} (b : Bool) → IsSound x → IsSound y → IsSound (if b then x else y)
if_IsSound true hx hy = hx
if_IsSound false hx hy = hy

and_then-IsSound :
    {x : Step} (f : State → Step)
    → IsSound x
    → ((s : State) → IsSound (f s))
    → IsSound (and_then x f)
unfolding and_then
and_then-IsSound f sound_goes h = h _
and_then-IsSound f (sound_exits e) h = sound_exits e
and_then-IsSound f sound_blocks h = sound_blocks
and_then-IsSound f sound_fault h = sound_fault

ends_string-IsSound :
    (s : State) (next : Bool → Step)
    → ((b : Bool) → IsSound (next b))
    → IsSound (ends_string s next)
unfolding ends_string
ends_string-IsSound s next h = if_IsSound (ltb (length s.line) s.line_cap) (h _) sound_fault

send_exit-IsSound : (code : Option Code) (s : State) → IsSound (send_exit code s)
unfolding send_exit
send_exit-IsSound none s = sound_blocks
send_exit-IsSound (some c) s = sound_goes

send_line-IsSound : (code : Option Code) (s : State) → IsSound (send_line code s)
unfolding send_line
send_line-IsSound none s = sound_blocks
send_line-IsSound (some (err e)) s = exits_5
send_line-IsSound (some (ok n)) s = sound_goes

send_last-IsSound : (code : Option Code) (s : State) → IsSound (send_last code s)
unfolding send_last
send_last-IsSound none s = sound_blocks
send_last-IsSound (some c) s = sound_goes

push_char-IsSound : (c : ℕ) (s : State) → IsSound (push_char c s)
unfolding push_char
push_char-IsSound c s =
    if_IsSound (ltb (length s.line) (grown_cap (length s.line) s.line_cap)) sound_goes sound_fault

end_line-IsSound : (s : State) → IsSound (end_line s)
unfolding end_line
end_line-IsSound s =
    ends_string-IsSound s _ (λ b. if_IsSound b (send_exit-IsSound _ _) (send_line-IsSound _ _))

end_last-IsSound : (s : State) → IsSound (end_last s)
unfolding end_last
end_last-IsSound s = ends_string-IsSound s _ (λ b. if_IsSound b sound_goes (send_last-IsSound _ _))

take_char-IsSound : (c : ℕ) (s : State) → IsSound (take_char c s)
unfolding take_char
take_char-IsSound c s =
    and_then-IsSound _ (push_char-IsSound c s)
      (λ t. if_IsSound (c == b'\n') (end_line-IsSound t) sound_goes)

unless_exit-IsSound :
    (next : State → Step)
    → ((s : State) → IsSound (next s))
    → (s : State) → IsSound (unless_exit next s)
unfolding unless_exit
unless_exit-IsSound next h s = one_of s.exit_requested
  where
    one_of : (b : Bool) → IsSound (elim b [ true ↦ goes s | false ↦ next s ])
    one_of true = sound_goes
    one_of false = h s

take_chars-IsSound : (l : Bytes) (s : State) → IsSound (take_chars l s)
unfolding take_chars
take_chars-IsSound [] s = sound_goes
take_chars-IsSound (c ∷ rest) s =
    and_then-IsSound _ (take_char-IsSound c s) (unless_exit-IsSound _ (take_chars-IsSound rest))

end_of_input-IsSound : (s : State) → IsSound (end_of_input s)
unfolding end_of_input leave_if_exit
end_of_input-IsSound s =
    and_then-IsSound _ (if_IsSound (ltb 0 (length s.line)) (end_last-IsSound _) sound_goes)
      (λ t. if_IsSound t.exit_requested exits_0 sound_goes)

take_input-IsSound : (n : ℕ) (input : Bytes) (s : State) → IsSound (take_input n input s)
unfolding take_input
take_input-IsSound n [] s = end_of_input-IsSound _
take_input-IsSound n (c ∷ input) s = take_chars-IsSound _ _

read_stdin-IsSound : (r : Reading) (s : State) → IsSound (read_stdin r s)
unfolding read_stdin
read_stdin-IsSound (takes n) s = take_input-IsSound n s.input s
read_stdin-IsSound (read_failed e) s = if_IsSound (is_socket_wouldblock e) sound_goes sound_goes

show_data-IsSound : (code : Code) (got : Bytes) (s : State) → IsSound (show_data code got s)
unfolding show_data
show_data-IsSound (ok n) got s = if_IsSound (n == 0) exits_0 sound_goes
show_data-IsSound (err timeout) got s = sound_goes
show_data-IsSound (err dns) got s = exits_5
show_data-IsSound (err refused) got s = exits_5
show_data-IsSound (err io) got s = exits_5

module _ (r : Round) where
  socket_event-IsSound : (s : State) → IsSound (socket_event r s)
  unfolding socket_event read_socket
  socket_event-IsSound s =
      if_IsSound r.sock_in (show_data-IsSound _ _ _) (if_IsSound r.gone exits_0 sound_goes)

  stdin_event-IsSound : (asked : Bool) (s : State) → IsSound (stdin_event asked r s)
  unfolding stdin_event
  stdin_event-IsSound asked s =
      if_IsSound (asked && r.stdin_ready) (read_stdin-IsSound r.read s) sound_goes

  exit_if_requested-IsSound : (s : State) → IsSound (exit_if_requested r s)
  unfolding exit_if_requested
  exit_if_requested-IsSound s = if_IsSound s.exit_requested exits_0 sound_goes

  on_poll-IsSound : (p : Polled) (s : State) → IsSound (on_poll r p s)
  unfolding on_poll handle
  on_poll-IsSound (poll_failed e) s = if_IsSound (e == 4) sound_goes exits_5
  on_poll-IsSound poll_timeout s = if_IsSound s.stdin_eof exits_0 sound_goes
  on_poll-IsSound polled s =
      and_then-IsSound _ (socket_event-IsSound s) (λ a.
        and_then-IsSound _ (stdin_event-IsSound (not s.stdin_eof) a) exit_if_requested-IsSound)

-- Where the mode returns, it returns 0 or 5.
unfoldable pub HasStatus : Ended → Type 0
HasStatus (returned n s) = IsStatus n
HasStatus (blocked s) = Unit
HasStatus faulted = Unit

if_HasStatus : (x y : Ended) (b : Bool) → HasStatus x → HasStatus y → HasStatus (if b then x else y)
if_HasStatus x y true hx hy = hx
if_HasStatus x y false hx hy = hy

go_on-HasStatus :
    {x : Step} (rest : State → Ended)
    → IsSound x
    → ((s : State) → HasStatus (rest s))
    → HasStatus (go_on x rest)
unfolding go_on HasStatus
go_on-HasStatus rest sound_goes h = h _
go_on-HasStatus rest (sound_exits e) h = e
go_on-HasStatus rest sound_blocks h = tt
go_on-HasStatus rest sound_fault h = tt

loop-HasStatus : (rounds : List Round) (s : State) → HasStatus (loop s rounds)
unfolding loop
loop-HasStatus [] s = unfold HasStatus in tt
loop-HasStatus (r ∷ rounds) s =
    if_HasStatus _ _ r.interrupted (unfold HasStatus in inl refl)
      (go_on-HasStatus _ (on_poll-IsSound r r.poll s) (loop-HasStatus rounds))

pub run_interactive_pipe_mode-HasStatus :
    (input incoming : Bytes) (answers : List (List Write.Round)) (rounds : List Round)
    → HasStatus (run_interactive_pipe_mode input incoming answers rounds)
unfolding run_interactive_pipe_mode
run_interactive_pipe_mode-HasStatus input incoming answers rounds = loop-HasStatus rounds _
