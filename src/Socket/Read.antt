-- ===== src/Socket/Read.antt =====
-- socket_read, socket_read_exact and socket_read_framed.
-- The kernel's answers are a list with an entry for each call of socket_read; a call blocks for ever
-- where the list ends. `incoming` is what the peer sends before it closes: recv() takes some of it,
-- and returns 0 when nothing is left.
use tcp_client.Base.{
  ℕ, ◌+◌, ◌-◌, Bool, true, false, ◌||◌, not, Option, none, some, List, [], ◌∷◌, ◌++◌, Bytes, length,
  take, drop, leb, ltb, ◌==◌, if◌then◌else◌, join_bytes, ok, err,
}
use tcp_client.Socket.Codes.{timeout, io, Code, is_socket_wouldblock}

-- poll() returns 0, fails with an errno, or reports the socket, and then recv() is ready to hand over
-- `n` bytes, or fails with an errno.
pub data Reply : Type 0 where
  poll_timeout : Reply
  poll_failed : ℕ → Reply
  received : ℕ → Reply
  recv_failed : ℕ → Reply

-- The result of one socket_read, the bytes put into the buffer, and what is still to come.
pub record ReadResult : Type 0 where
  pub code : Code
  pub got : Bytes
  pub incoming : Bytes

abbrev pub got_nothing : Code → Bytes → ReadResult
got_nothing c incoming = record { code = c; got = []; incoming = incoming }

-- recv() hands over at most `len` bytes and at most what there is.
abbrev pub hand_over : ℕ → Bytes → ReadResult
hand_over n incoming = record {
  code = ok (length (take n incoming));
  got = take n incoming;
  incoming = drop n incoming;
}

-- socket_read behind its check of the descriptor and the buffer.
unfoldable pub read_valid : ℕ → Reply → Bytes → ReadResult
read_valid len poll_timeout incoming = got_nothing (err timeout) incoming
read_valid len (poll_failed e) incoming =
    if is_socket_wouldblock e then got_nothing (ok 0) incoming else got_nothing (err io) incoming
read_valid len (received n) incoming = hand_over (if leb n len then n else len) incoming
read_valid len (recv_failed e) incoming =
    if is_socket_wouldblock e
    then got_nothing (err timeout) incoming
    else got_nothing (err io) incoming

-- The flag is false for a negative descriptor or a NULL buffer; so it is below.
unfoldable pub socket_read : Bool → ℕ → Reply → Bytes → ReadResult
socket_read false len r incoming = got_nothing (err io) incoming
socket_read true len r incoming = read_valid len r incoming

-- What socket_read_exact returns, `none` while it blocks, what it has put into the buffer, and what
-- is left of the stream and of the answers.
pub record Exact : Type 0 where
  pub code : Option Code
  pub buf : Bytes
  pub incoming : Bytes
  pub replies : List Reply

abbrev pub ends : Option Code → Bytes → Bytes → List Reply → Exact
ends c buf incoming replies = record { code = c; buf = buf; incoming = incoming; replies = replies }

-- `acc` is what has accumulated in the buffer.
unfoldable pub exact_loop : ℕ → Bytes → List Reply → Bytes → Exact
exact_loop len acc [] incoming =
    if ltb (length acc) len
    then ends none acc incoming []
    else ends (some (ok (length acc))) acc incoming []
exact_loop len acc (r ∷ replies) incoming =
    let read = socket_read true (len - length acc) r incoming in
    let rest = exact_loop len (acc ++ read.got) replies read.incoming in
    if ltb (length acc) len
    then elim read.code [
      | ok n ↦ if n == 0 then ends (some (ok (length acc))) acc read.incoming replies else rest
      | err e ↦ ends (some (err e)) acc read.incoming replies
    ]
    else ends (some (ok (length acc))) acc incoming (r ∷ replies)

unfoldable pub socket_read_exact : Bool → ℕ → List Reply → Bytes → Exact
socket_read_exact false len replies incoming = ends (some (err io)) [] incoming replies
socket_read_exact true len replies incoming = exact_loop len [] replies incoming

-- L, from the two bytes of the header.
unfoldable pub header_length : Bytes → ℕ
header_length (hi ∷ lo ∷ rest) = join_bytes hi lo
header_length _ = 0

-- What is returned after the payload has been read as far as it came.
unfoldable pub payload_code : ℕ → Option Code → Option Code
payload_code payload_len none = none
payload_code payload_len (some (err e)) = some (err e)
payload_code payload_len (some (ok n)) =
    if ltb n payload_len then some (err io) else some (ok (2 + payload_len))

unfoldable pub framed_payload : ℕ → Bytes → Exact → Exact
framed_payload payload_len header p =
    ends (payload_code payload_len p.code) (header ++ p.buf) p.incoming p.replies

unfoldable pub framed_body : ℕ → Exact → Exact
framed_body max_len h =
    let payload_len = header_length h.buf in
    if ltb max_len (2 + payload_len)
    then ends (some (err io)) h.buf h.incoming h.replies
    else if payload_len == 0
    then ends (some (ok 2)) h.buf h.incoming h.replies
    else framed_payload payload_len h.buf (socket_read_exact true payload_len h.replies h.incoming)

-- The tests on what reading the header returned.
unfoldable pub framed_header : ℕ → Exact → Option Code → Exact
framed_header max_len h none = h
framed_header max_len h (some (err e)) = h
framed_header max_len h (some (ok n)) =
    if n == 0
    then h
    else if ltb n 2
    then ends (some (err io)) h.buf h.incoming h.replies
    else framed_body max_len h

unfoldable pub socket_read_framed : Bool → ℕ → List Reply → Bytes → Exact
socket_read_framed valid max_len replies incoming =
    let h = socket_read_exact true 2 replies incoming in
    if not valid || ltb max_len 2
    then ends (some (err io)) [] incoming replies
    else framed_header max_len h h.code
