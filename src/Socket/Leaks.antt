-- ===== src/Socket/Leaks.antt =====
-- The sockets that socket_connect opens and closes.
use tcp_client.Base.{
  ℕ, ◌≡◌, refl, ap, Option, none, some, List, [], ◌∷◌, ◌++◌, Bytes, inl, inr, ltb, ◌||◌, Bool-cases,
  ok, err,
}
use tcp_client.Socket.Codes.{SocketError, refused, Code}
use tcp_client.Socket.Connect.{
  Address, Tried, failed, success, try_socket, attempt, Outcome, closing, connect_loop,
  socket_connect,
}

-- The descriptors that the caller still has to close.
abbrev pub returned : Code → List ℕ
returned (ok fd) = fd ∷ []
returned (err e) = []

closing-balance :
    (fd : ℕ) (o : Outcome)
    → o.opened ≡ o.closed ++ returned o.code
    → (closing fd o).opened ≡ (closing fd o).closed ++ returned (closing fd o).code
closing-balance fd o h = ap (λ l. fd ∷ l) h

-- The descriptors of an outcome are balanced.
unfoldable pub IsBalanced : Outcome → Type 0
IsBalanced o = o.opened ≡ o.closed ++ returned o.code

attempt-balance :
    (last : SocketError) (sockfd : Option ℕ) (t : Tried) (rest : SocketError → Outcome)
    → ((e : SocketError) → IsBalanced (rest e))
    → IsBalanced (attempt last sockfd t rest)
unfolding IsBalanced attempt
attempt-balance last none t rest h = h last
attempt-balance last (some fd) (failed e) rest h = ap (λ l. fd ∷ l) (h e)
attempt-balance last (some fd) success rest h = refl

connect_loop-balance :
    (addresses : List Address) (last : SocketError) → IsBalanced (connect_loop last addresses)
unfolding connect_loop
connect_loop-balance [] last = unfold IsBalanced in refl
connect_loop-balance (a ∷ addresses) last =
    attempt-balance last a.sockfd (try_socket a) _ (connect_loop-balance addresses)

-- socket_connect closes every descriptor that it opened but the one it returns, whatever the system answers.
pub socket_connect-IsBalanced :
    (host : Option Bytes) (port : ℕ) (found : Option (List Address))
    → IsBalanced (socket_connect host port found)
unfolding socket_connect IsBalanced
socket_connect-IsBalanced none port found = refl
socket_connect-IsBalanced (some []) port found = refl
socket_connect-IsBalanced (some (c ∷ host)) port none =
    elim (Bool-cases (ltb port 1 || ltb 65535 port)) [ inl p ↦ rw p refl | inr p ↦ rw p refl ]
socket_connect-IsBalanced (some (c ∷ host)) port (some addresses) =
    elim (Bool-cases (ltb port 1 || ltb 65535 port)) [
      | inl p ↦ rw p refl
      | inr p ↦ rw p (connect_loop-balance addresses refused)
    ]
