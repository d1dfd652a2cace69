-- ===== src/Socket/Windows.antt =====
-- The tests of src/compat.c on error numbers, as Windows compiles them.
use tcp_client.Base.{ℕ, Bool, ◌||◌, ◌==◌}

-- WSAEWOULDBLOCK, WSAEINPROGRESS
unfoldable pub is_socket_wouldblock : ℕ → Bool
is_socket_wouldblock e = e == 10035 || e == 10036

-- WSAECONNREFUSED, WSAEHOSTUNREACH, WSAENETUNREACH
unfoldable pub is_socket_refused : ℕ → Bool
is_socket_refused e = e == 10061 || e == 10065 || e == 10051

-- WSAETIMEDOUT
unfoldable pub is_socket_timeout : ℕ → Bool
is_socket_timeout e = e == 10060
