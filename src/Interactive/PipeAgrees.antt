-- ===== src/Interactive/PipeAgrees.antt =====
-- The pipe mode of Windows beside the pipe mode of POSIX.
use tcp_client.Base.{
  ◌≡◌, refl, sym, ap, ◌∙◌, Bool, true, false, ◌&&◌, ◌||◌, not, List, [], ◌∷◌, Bytes, All, ◌==◌,
  if◌then◌else◌, ok, err,
}
use tcp_client.Socket.Codes.{dns, refused, timeout, io, Code}
use tcp_client.Socket.Windows.{is_socket_wouldblock}
use tcp_client.Socket.Write as Write
use tcp_client.Interactive.Pipe as Pipe
use tcp_client.Interactive.Pipe.{
  Polled, poll_failed, poll_timeout, polled, Reading, takes, read_failed, Round, State, Step, goes,
  exits, blocks, fault, and_then, read_stdin, show_data, read_socket, socket_event,
  exit_if_requested, handle, on_poll, start, Ended, returned, blocked, faulted, go_on,
}
use tcp_client.Interactive.Windows.{
  read_pipe, stdin_event, pipe_stdin, pipe_poll, pipe_loop, run_interactive_pipe_mode,
}

-- _read() does not fail.
abbrev pub Reads : Reading → Type 0
Reads (takes n) = Unit
Reads (read_failed e) = ⊥

KeepsEof : Bool → Step → Type 0
KeepsEof eof (goes t) = t.stdin_eof ≡ eof
KeepsEof eof _ = Unit

module _ (eof : Bool) where
  if_Keeps :
      (x y : Step) (b : Bool) → KeepsEof eof x → KeepsEof eof y → KeepsEof eof (if b then x else y)
  if_Keeps x y true h k = h
  if_Keeps x y false h k = k

  show_data-Keeps :
      (code : Code) (got : Bytes) (s : State)
      → s.stdin_eof ≡ eof
      → KeepsEof eof (show_data code got s)
  unfolding show_data KeepsEof
  show_data-Keeps (ok n) got s h = if_Keeps (exits 0 s) _ (n == 0) tt h
  show_data-Keeps (err timeout) got s h = h
  show_data-Keeps (err dns) got s h = tt
  show_data-Keeps (err refused) got s h = tt
  show_data-Keeps (err io) got s h = tt

  socket_event-Keeps : (r : Round) (s : State) → s.stdin_eof ≡ eof → KeepsEof eof (socket_event r s)
  unfolding socket_event read_socket KeepsEof
  socket_event-Keeps r s h =
      if_Keeps _ _ r.sock_in (show_data-Keeps _ _ _ h) (if_Keeps (exits 0 s) (goes s) r.gone tt h)

  and_then-same :
      (x : Step) (f g : State → Step)
      → KeepsEof eof x
      → ((t : State) → t.stdin_eof ≡ eof → f t ≡ g t)
      → and_then x f ≡ and_then x g
  unfolding and_then KeepsEof
  and_then-same (goes t) f g k h = h t k
  and_then-same (exits code t) f g k h = refl
  and_then-same (blocks t) f g k h = refl
  and_then-same fault f g k h = refl

-- A round of Windows as a round of POSIX, where stdin has ended or not: the answers are the same but
-- for a poll() that fails with WSAEWOULDBLOCK or WSAEINPROGRESS, which POSIX knows as EINTR, and one that
-- times out while stdin is open, behind which Windows still looks at stdin.
abbrev pub posix : Polled → Round → Bool → Round
posix (poll_failed e) r eof = record r {
  poll = if e == 10035 || e == 10036 then poll_failed 4 else poll_failed 5;
}
posix poll_timeout r true = record r { poll = poll_timeout }
posix poll_timeout r false = record r { poll = polled; sock_in = false; gone = false }
posix polled r eof = record r { poll = polled }

read_pipe-posix : (i : Reading) (s : State) → Reads i → read_pipe i s ≡ read_stdin i s
unfolding read_pipe read_stdin
read_pipe-posix (takes n) s h = refl
read_pipe-posix (read_failed e) s h = absurd h

stdin_event-posix :
    (r : Round) (s : State) (eof : Bool)
    → Reads r.read
    → s.stdin_eof ≡ eof
    → stdin_event r s ≡ Pipe.stdin_event (not eof) r s
unfolding stdin_event Pipe.stdin_event
stdin_event-posix r s eof h e =
    ap (λ b. if not b && r.stdin_ready then read_pipe r.read s else goes s) e
    ∙ ap (λ x. if not eof && r.stdin_ready then x else goes s) (read_pipe-posix r.read s h)

pipe_stdin-posix :
    (r : Round) (s : State) (eof : Bool)
    → Reads r.read
    → s.stdin_eof ≡ eof
    → pipe_stdin r s ≡ and_then (Pipe.stdin_event (not eof) r s) (exit_if_requested r)
unfolding pipe_stdin
pipe_stdin-posix r s eof h e =
    ap (λ x. and_then x (exit_if_requested r)) (stdin_event-posix r s eof h e)

pipe_poll-posix :
    (p : Polled) (r : Round) (s : State) (eof : Bool)
    → Reads r.read
    → s.stdin_eof ≡ eof
    → pipe_poll r p s ≡ on_poll (posix p r eof) (posix p r eof).poll s
unfolding pipe_poll on_poll is_socket_wouldblock handle socket_event Pipe.stdin_event
    exit_if_requested and_then
pipe_poll-posix (poll_failed e) r s eof h k = failing (e == 10035 || e == 10036)
  where
    failing :
        (b : Bool)
        → (if b then goes s else exits 5 s)
          ≡ on_poll
              (record r { poll = if b then poll_failed 4 else poll_failed 5 })
              (if b then poll_failed 4 else poll_failed 5)
              s
    failing true = refl
    failing false = refl
pipe_poll-posix poll_timeout r s true h k =
    ap (λ b. if b then exits 0 s else pipe_stdin r s) k
    ∙ sym (ap (λ b. if b then exits 0 s else goes s) k)
pipe_poll-posix poll_timeout r s false h k =
    ap (λ b. if b then exits 0 s else pipe_stdin r s) k ∙ pipe_stdin-posix r s s.stdin_eof h refl
pipe_poll-posix polled r s eof h k =
    and_then-same s.stdin_eof _ _ _ (socket_event-Keeps s.stdin_eof r s refl)
      (λ t e. pipe_stdin-posix r t s.stdin_eof h e)

interrupted_lem :
    (p : Polled) (r : Round) (eof : Bool) → (posix p r eof).interrupted ≡ r.interrupted
interrupted_lem (poll_failed e) r eof = refl
interrupted_lem poll_timeout r true = refl
interrupted_lem poll_timeout r false = refl
interrupted_lem polled r eof = refl

-- The rounds behind a step that goes on.
abbrev pub continued : Step → (State → List Round) → List Round
continued (goes t) rest = rest t
continued (exits code t) rest = []
continued (blocks t) rest = []
continued fault rest = []

-- The rounds of the pipe mode of Windows as rounds of POSIX: whether stdin has ended is what the pipe
-- mode of POSIX has found out.
unfoldable pub posix_rounds : State → List Round → List Round
posix_rounds s [] = []
posix_rounds s (r ∷ rounds) =
    let r' = posix r.poll r s.stdin_eof in
    r' ∷ continued (on_poll r' r'.poll s) (λ (t : State). posix_rounds t rounds)

go_on-posix :
    (rounds : List Round) (x : Step)
    → ((t : State) → pipe_loop t rounds ≡ Pipe.loop t (posix_rounds t rounds))
    → go_on x (λ t. pipe_loop t rounds)
      ≡ go_on x (λ t. Pipe.loop t (continued x (λ u. posix_rounds u rounds)))
unfolding go_on
go_on-posix rounds (goes t) h = h t
go_on-posix rounds (exits code t) h = refl
go_on-posix rounds (blocks t) h = refl
go_on-posix rounds fault h = refl

pipe_loop-posix :
    (rounds : List Round)
    → All (λ (r : Round). Reads r.read) rounds
    → (s : State) → pipe_loop s rounds ≡ Pipe.loop s (posix_rounds s rounds)
unfolding pipe_loop Pipe.loop posix_rounds
pipe_loop-posix [] h s = refl
pipe_loop-posix (r ∷ rounds) (reads, h) s =
    let r' = posix r.poll r s.stdin_eof in
    let step = on_poll r' r'.poll s in
    let next =
      go_on step (λ (t : State). Pipe.loop t (continued step (λ u. posix_rounds u rounds))) in
    ap (λ x. if r.interrupted then returned 0 s else x)
      (ap (λ x. go_on x (λ (t : State). pipe_loop t rounds))
          (pipe_poll-posix r.poll r s s.stdin_eof reads refl)
        ∙ go_on-posix rounds step (pipe_loop-posix rounds h))
    ∙ ap (λ b. if b then returned 0 s else next) (sym (interrupted_lem r.poll r s.stdin_eof))

-- The pipe mode of Windows ends as the pipe mode of POSIX does on the same input, whose rounds are those
-- of Windows but for poll(): where it would block, POSIX is interrupted by a signal, where it fails
-- otherwise, POSIX has a failure, and where it times out while stdin is open, POSIX has no event of the
-- socket. The code, what goes to the server and what is printed are the same, and so is a fault; if
-- _read() does not fail.
pub run_interactive_pipe_mode-posix :
    (input incoming : Bytes) (answers : List (List Write.Round)) (rounds : List Round)
    → All (λ (r : Round). Reads r.read) rounds
    → run_interactive_pipe_mode input incoming answers rounds
      ≡ Pipe.run_interactive_pipe_mode input incoming answers
          (posix_rounds (start input incoming answers) rounds)
unfolding run_interactive_pipe_mode Pipe.run_interactive_pipe_mode
run_interactive_pipe_mode-posix input incoming answers rounds h =
    pipe_loop-posix rounds h (start input incoming answers)
