-- ===== src/Socket/Connect.antt =====
-- socket_connect and socket_close.
-- What the system answers for each address of getaddrinfo is given as a record; which answers are
-- looked at is the code's. The time that poll() waits and the diagnostics do not matter here.
use tcp_client.Base.{
  ℕ, Bool, ◌||◌, not, Option, none, some, List, [], ◌∷◌, Bytes, ltb, ◌==◌, if◌then◌else◌, ok, err,
}
use tcp_client.Socket.Codes.{
  SocketError, dns, refused, timeout, io, Code, is_socket_wouldblock, is_socket_refused,
  is_socket_timeout,
}

-- connect() returns 0, or -1 with an errno.
pub data Connect : Type 0 where
  connected : Connect
  connect_failed : ℕ → Connect

-- poll() returns 0, fails, or reports the socket.
pub data Poll : Type 0 where
  poll_timeout poll_failed poll_ready : Poll

-- One address: the descriptor that socket() returns, whether it could be made non-blocking, and
-- what connect(), poll() and getsockopt(SO_ERROR) answer; `none` is a failed call.
pub record Address : Type 0 where
  pub sockfd : Option ℕ
  pub nonblocking : Bool
  pub connect : Connect
  pub poll : Poll
  pub so_error : Option ℕ

-- How the body of the loop ends for an open socket: closed, with `last_error` set, or returned.
pub data Tried : Type 0 where
  failed : SocketError → Tried
  success : Tried

unfoldable pub check_so_error : Option ℕ → Tried
check_so_error none = failed io
check_so_error (some e) =
    if e == 0
    then success
    else if is_socket_refused e
    then failed refused
    else if is_socket_timeout e
    then failed timeout
    else failed io

unfoldable pub check_poll : Poll → Option ℕ → Tried
check_poll poll_timeout so_error = failed timeout
check_poll poll_failed so_error = failed io
check_poll poll_ready so_error = check_so_error so_error

unfoldable pub check_connect : Connect → Poll → Option ℕ → Tried
check_connect connected poll so_error = success
check_connect (connect_failed e) poll so_error =
    if not (is_socket_wouldblock e)
    then (if is_socket_refused e then failed refused else failed io)
    else check_poll poll so_error

unfoldable pub try_socket : Address → Tried
try_socket a = if not a.nonblocking then failed io else check_connect a.connect a.poll a.so_error

-- The result, and the descriptors that were opened and closed, oldest first.
pub record Outcome : Type 0 where
  pub code : Code
  pub opened : List ℕ
  pub closed : List ℕ

-- The loop goes on with the rest, and this descriptor has been opened and closed.
abbrev pub closing : ℕ → Outcome → Outcome
closing fd rest = record { code = rest.code; opened = fd ∷ rest.opened; closed = fd ∷ rest.closed }

-- The body of the loop, where `rest e` is what the loop does next with `last_error` set to `e`.
unfoldable pub attempt : SocketError → Option ℕ → Tried → (SocketError → Outcome) → Outcome
attempt last_error none tried rest = rest last_error
attempt last_error (some fd) (failed e) rest = closing fd (rest e)
attempt last_error (some fd) success rest = record { code = ok fd; opened = fd ∷ []; closed = [] }

unfoldable pub connect_loop : SocketError → List Address → Outcome
connect_loop last_error [] = record { code = err last_error; opened = []; closed = [] }
connect_loop last_error (a ∷ addresses) =
    attempt last_error a.sockfd (try_socket a) (λ (e : SocketError). connect_loop e addresses)

abbrev fails_with : SocketError → Outcome
fails_with e = record { code = err e; opened = []; closed = [] }

-- The host is NULL where it is `none`; a negative port counts as 0. The addresses are what
-- getaddrinfo finds, `none` where it fails.
unfoldable pub socket_connect : Option Bytes → ℕ → Option (List Address) → Outcome
socket_connect none port found = fails_with io
socket_connect (some []) port found = fails_with io
socket_connect (some (c ∷ host)) port found =
    if ltb port 1 || ltb 65535 port
    then fails_with io
    else elim found [ none ↦ fails_with dns | some addresses ↦ connect_loop refused addresses ]

-- The descriptors that socket_close closes.
unfoldable pub socket_close : Option ℕ → List ℕ
socket_close none = []
socket_close (some fd) = fd ∷ []
