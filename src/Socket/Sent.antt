-- ===== src/Socket/Sent.antt =====
-- What socket_write_all has sent when it returns.
use tcp_client.Base.{
  ℕ, zero, suc, ◌≤◌, ◌≡◌, ◌≢◌, refl, sym, ap, ◌∙◌, arith, true, Option, none, some, List, [], ◌∷◌,
  ◌++◌, append-nil, append_assoc, Bytes, All, length, length-drop, take, drop, take-append-drop,
  Bool-cases, inl, inr, ok, err,
}
use tcp_client.Socket.Codes.{Code, timeout, io, is_socket_wouldblock}
use tcp_client.Socket.Write.{
  Round, poll_timeout, poll_failed, sent, send_failed, Written, retry, write_loop, socket_write_all,
}

-- What has gone to the peer is a prefix of the buffer, and all of it if the call succeeds.
pub record IsPrefixSent (buf : Bytes) (w : Written) : Type 0 where
  pub unsent : Bytes
  pub split : buf ≡ w.wire ++ unsent
  pub success : (n : ℕ) → w.code ≡ some (ok n) → (n ≡ length buf) × (unsent ≡ [])

module _ {buf : Bytes} (wire rest : Bytes) (e : buf ≡ wire ++ rest) where
  -- The call ends or blocks, with no success.
  not_done :
      (o : Option Code)
      → ((n : ℕ) → o ≢ some (ok n))
      → IsPrefixSent buf (record { code = o; wire = wire })
  not_done o fails = record { unsent = rest; split = e; success = λ n h. absurd (fails n h) }

  retry-IsPrefixSent :
      (x : ℕ) (w : Written) → IsPrefixSent buf w → IsPrefixSent buf (retry x wire w)
  unfolding retry
  retry-IsPrefixSent x w h = elim (Bool-cases (is_socket_wouldblock x)) [
    | inl again ↦ rw again h
    | inr failed ↦ rw failed (not_done (some (err io)) (λ n. ground arith))
  ]

write_loop-IsPrefixSent :
    (rounds : List Round) (rest wire buf : Bytes)
    → buf ≡ wire ++ rest
    → IsPrefixSent buf (write_loop (length buf) rest wire rounds)
unfolding write_loop
write_loop-IsPrefixSent [] [] wire buf e = record {
  unsent = [];
  split = e;
  success = λ n h. (ground arith, refl);
}
write_loop-IsPrefixSent (r ∷ rounds) [] wire buf e = record {
  unsent = [];
  split = e;
  success = λ n h. (ground arith, refl);
}
write_loop-IsPrefixSent [] (b ∷ rest) wire buf e =
    not_done wire (b ∷ rest) e none (λ n. ground arith)
write_loop-IsPrefixSent (poll_timeout ∷ rounds) (b ∷ rest) wire buf e =
    not_done wire (b ∷ rest) e (some (err timeout)) (λ n. ground arith)
write_loop-IsPrefixSent (poll_failed x ∷ rounds) (b ∷ rest) wire buf e =
    retry-IsPrefixSent wire (b ∷ rest) e x _ (write_loop-IsPrefixSent rounds (b ∷ rest) wire buf e)
write_loop-IsPrefixSent (sent zero ∷ rounds) (b ∷ rest) wire buf e =
    not_done wire (b ∷ rest) e (some (err io)) (λ n. ground arith)
write_loop-IsPrefixSent (sent (suc k) ∷ rounds) (b ∷ rest) wire buf e =
    write_loop-IsPrefixSent rounds (drop k rest) (wire ++ b ∷ take k rest) buf (
      e
      ∙ ap (λ t. wire ++ b ∷ t) (sym (take-append-drop k rest))
      ∙ sym (append_assoc wire (b ∷ take k rest) (drop k rest)))
write_loop-IsPrefixSent (send_failed x ∷ rounds) (b ∷ rest) wire buf e =
    retry-IsPrefixSent wire (b ∷ rest) e x _ (write_loop-IsPrefixSent rounds (b ∷ rest) wire buf e)

-- Whatever the kernel answers, socket_write_all sends a prefix of the buffer in order, and if it
-- returns a count then this is the buffer's length and all of it has been sent.
pub socket_write_all-IsPrefixSent :
    (sockfd : ℕ) (buf : Bytes) (rounds : List Round)
    → IsPrefixSent buf (socket_write_all (some sockfd) (some buf) rounds)
unfolding socket_write_all
socket_write_all-IsPrefixSent sockfd buf rounds = write_loop-IsPrefixSent rounds buf [] buf refl

-- A round that sends something, or fails in a way that is tried again.
abbrev pub IsLive : Round → Type 0
IsLive poll_timeout = ⊥
IsLive (poll_failed e) = is_socket_wouldblock e ≡ true
IsLive (sent n) = n ≢ 0
IsLive (send_failed e) = is_socket_wouldblock e ≡ true

-- The rounds in which something is sent.
abbrev pub sends : List Round → ℕ
sends [] = 0
sends (sent n ∷ rounds) = suc (sends rounds)
sends (_ ∷ rounds) = sends rounds

write_loop_lem :
    (rounds : List Round) (rest wire : Bytes) (len : ℕ)
    → All IsLive rounds
    → length rest ≤ sends rounds
    → write_loop len rest wire rounds ≡ record { code = some (ok len); wire = wire ++ rest }
unfolding write_loop retry
write_loop_lem [] [] wire len live enough = rw append-nil
write_loop_lem (r ∷ rounds) [] wire len live enough = rw append-nil
write_loop_lem [] (b ∷ rest) wire len live enough = absurd (omega arith)
write_loop_lem (poll_timeout ∷ rounds) (b ∷ rest) wire len live enough = absurd live.0
write_loop_lem (poll_failed x ∷ rounds) (b ∷ rest) wire len (h, live) enough =
    rw h (write_loop_lem rounds (b ∷ rest) wire len live enough)
write_loop_lem (sent zero ∷ rounds) (b ∷ rest) wire len live enough = absurd (live.0 refl)
write_loop_lem (sent (suc k) ∷ rounds) (b ∷ rest) wire len (h, live) enough =
    write_loop_lem rounds (drop k rest) (wire ++ b ∷ take k rest) len live
      (omega (arith, length-drop k rest))
    ∙ ap (λ w. record { code = some (ok len); wire = w })
        (append_assoc wire (b ∷ take k rest) (drop k rest)
          ∙ ap (λ t. wire ++ b ∷ t) (take-append-drop k rest))
write_loop_lem (send_failed x ∷ rounds) (b ∷ rest) wire len (h, live) enough =
    rw h (write_loop_lem rounds (b ∷ rest) wire len live enough)

-- If the kernel goes on, so that every round sends something or is tried again, and as many rounds
-- send as there are bytes, socket_write_all sends the whole buffer and returns its length.
pub socket_write_all_lem :
    (sockfd : ℕ) (buf : Bytes) (rounds : List Round)
    → All IsLive rounds
    → length buf ≤ sends rounds
    → socket_write_all (some sockfd) (some buf) rounds
      ≡ record { code = some (ok (length buf)); wire = buf }
unfolding socket_write_all
socket_write_all_lem sockfd buf rounds live enough =
    write_loop_lem rounds buf [] (length buf) live enough
