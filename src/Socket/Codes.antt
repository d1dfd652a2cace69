-- ===== src/Socket/Codes.antt =====
-- The result codes of socket_client.h, and the tests on errno of compat.c (POSIX half), with the
-- numbers of Linux.
use tcp_client.Base.{ℕ, Bool, ◌||◌, ◌==◌, Result}

-- SOCKET_ERR_DNS, SOCKET_ERR_REFUSED, SOCKET_ERR_TIMEOUT and SOCKET_ERR_IO: -2, -3, -4 and -5.
pub data SocketError : Type 0 where
  dns refused timeout io : SocketError

-- A result that is not negative, or an error.
abbrev pub Code : Type 0
Code = Result SocketError ℕ

abbrev pub eintr : ℕ
eintr = 4

abbrev pub eagain : ℕ
eagain = 11

abbrev pub enetunreach : ℕ
enetunreach = 101

abbrev pub etimedout : ℕ
etimedout = 110

abbrev pub econnrefused : ℕ
econnrefused = 111

abbrev pub ehostunreach : ℕ
ehostunreach = 113

abbrev pub einprogress : ℕ
einprogress = 115

-- EWOULDBLOCK is EAGAIN.
unfoldable pub is_socket_wouldblock : ℕ → Bool
is_socket_wouldblock err = err == eagain || err == einprogress

unfoldable pub is_socket_refused : ℕ → Bool
is_socket_refused err = err == econnrefused || err == ehostunreach || err == enetunreach

unfoldable pub is_socket_timeout : ℕ → Bool
is_socket_timeout err = err == etimedout
