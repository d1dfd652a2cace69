-- ===== src/Socket/Tests.antt =====
-- The socket calls on concrete answers of the kernel.
use tcp_client.Base.{◌≡◌, refl, arith, true, none, some, List, [], ◌∷◌, ◌++◌, codes, ok}
use tcp_client.Socket.Codes.{is_socket_wouldblock, is_socket_refused}
use tcp_client.Socket.Write.{poll_failed, sent, socket_write_all}
use tcp_client.Socket.Sent.{IsPrefixSent, socket_write_all-IsPrefixSent, socket_write_all_lem}
use tcp_client.Socket.Read.{Reply, received, socket_read_framed, ends}
use tcp_client.Socket.Frames.{socket_read_framed_lem}
use tcp_client.Socket.Connect.{
  Address, connect_failed, poll_timeout, poll_ready, socket_connect, connect_loop, attempt,
  try_socket, check_connect, check_poll, check_so_error,
}

socket_write_all-IsPrefixSent_example :
    IsPrefixSent
      (codes "NC0000")
      (socket_write_all (some 3) (some (codes "NC0000")) (sent 2 ∷ sent 0 ∷ []))
socket_write_all-IsPrefixSent_example =
    socket_write_all-IsPrefixSent 3 (codes "NC0000") (sent 2 ∷ sent 0 ∷ [])

would_block : is_socket_wouldblock 11 ≡ true
unfolding is_socket_wouldblock
would_block = refl

socket_write_all_lem_example :
    socket_write_all (some 3) (some (codes "NC")) (sent 1 ∷ poll_failed 11 ∷ sent 9 ∷ [])
    ≡ record { code = some (ok 2); wire = codes "NC" }
socket_write_all_lem_example =
    socket_write_all_lem 3 (codes "NC") (sent 1 ∷ poll_failed 11 ∷ sent 9 ∷ [])
      (omega arith, (would_block, (omega arith, tt))) (omega arith)

abbrev segments : List Reply
segments = received 1 ∷ received 1 ∷ received 5 ∷ received 1 ∷ []

socket_read_framed_lem_example :
    (rs : List Reply) × (socket_read_framed true 512 segments (0 ∷ 2 ∷ (codes "NC" ++ codes "x"))
      ≡ ends (some (ok 4)) (0 ∷ 2 ∷ codes "NC") (codes "x") rs)
socket_read_framed_lem_example =
    socket_read_framed_lem 512 0 2 (codes "NC") (codes "x") segments (omega arith) (omega arith)
      (omega arith) (omega arith) (omega arith, (omega arith, (omega arith, (omega arith, tt))))
      (omega arith)

-- The first address refuses, the second one answers.
abbrev addresses : List Address
addresses =
    record {
      sockfd = some 4;
      nonblocking = true;
      connect = connect_failed 111;
      poll = poll_timeout;
      so_error = none;
    }
    ∷ record {
      sockfd = some 5;
      nonblocking = true;
      connect = connect_failed 115;
      poll = poll_ready;
      so_error = some 0;
    }
    ∷ []

-- The socket of the first is closed.
connects_second :
    socket_connect (some (codes "hsm")) 1500 (some addresses)
    ≡ record { code = ok 5; opened = 4 ∷ 5 ∷ []; closed = 4 ∷ [] }
unfolding socket_connect connect_loop attempt try_socket check_connect check_poll check_so_error
    is_socket_wouldblock is_socket_refused
connects_second = refl
