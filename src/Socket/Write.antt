-- ===== src/Socket/Write.antt =====
-- socket_write_all: poll and send until all is sent.
-- What the kernel answers in one round of the loop is given as a list of rounds; the call blocks
-- for ever where the list ends.
use tcp_client.Base.{
  ℕ, zero, suc, Option, none, some, List, [], ◌∷◌, ◌++◌, Bytes, length, take, drop, if◌then◌else◌,
  ok, err,
}
use tcp_client.Socket.Codes.{timeout, io, Code, is_socket_wouldblock}

-- poll() returns 0, fails with an errno, or reports the socket, and then send() takes `n` bytes, or
-- fails with an errno. A count above what is asked for, which POSIX excludes, counts as all of it.
pub data Round : Type 0 where
  poll_timeout : Round
  poll_failed : ℕ → Round
  sent : ℕ → Round
  send_failed : ℕ → Round

-- What the call returns, `none` while it blocks, and what has gone to the peer.
pub record Written : Type 0 where
  pub code : Option Code
  pub wire : Bytes

-- A call that would block is made again, and any other failure ends the loop.
unfoldable pub retry : ℕ → Bytes → Written → Written
retry e wire again =
    if is_socket_wouldblock e then again else record { code = some (err io); wire = wire }

unfoldable pub write_loop : ℕ → Bytes → Bytes → List Round → Written
write_loop len [] wire rounds = record { code = some (ok len); wire = wire }
write_loop len (b ∷ rest) wire [] = record { code = none; wire = wire }
write_loop len (b ∷ rest) wire (poll_timeout ∷ rounds) = record {
  code = some (err timeout);
  wire = wire;
}
write_loop len (b ∷ rest) wire (poll_failed e ∷ rounds) =
    retry e wire (write_loop len (b ∷ rest) wire rounds)
write_loop len (b ∷ rest) wire (sent zero ∷ rounds) = record { code = some (err io); wire = wire }
write_loop len (b ∷ rest) wire (sent (suc n) ∷ rounds) =
    write_loop len (drop n rest) (wire ++ b ∷ take n rest) rounds
write_loop len (b ∷ rest) wire (send_failed e ∷ rounds) =
    retry e wire (write_loop len (b ∷ rest) wire rounds)

-- `none` is a negative descriptor, or a NULL buffer.
unfoldable pub socket_write_all : Option ℕ → Option Bytes → List Round → Written
socket_write_all none buf rounds = record { code = some (err io); wire = [] }
socket_write_all (some sockfd) none rounds = record { code = some (err io); wire = [] }
socket_write_all (some sockfd) (some buf) rounds = write_loop (length buf) buf [] rounds
