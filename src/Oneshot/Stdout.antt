-- ===== src/Oneshot/Stdout.antt =====
-- write_all_fd of src/mode_oneshot.c: write() is called until all is written.
-- What write() answers is a list; behind its end write() takes all that it is given.
use tcp_client.Base.{
  ℕ, zero, suc, ◌≡◌, ◌≢◌, refl, ap, Bool, true, false, List, [], ◌∷◌, ◌++◌, Bytes, All, take, drop,
  take-append-drop, ◌==◌, if◌then◌else◌,
}
use tcp_client.Socket.Codes.{eintr}

-- A count, where one above what is asked for counts as all of it; or an errno.
pub data Write : Type 0 where
  wrote : ℕ → Write
  write_failed : ℕ → Write

-- Whether the count is returned, or -1; and what has been written.
unfoldable pub write_all_fd : Bytes → List Write → Bool × Bytes
write_all_fd [] writes = (true, [])
write_all_fd (b ∷ rest) [] = (true, b ∷ rest)
write_all_fd (b ∷ rest) (wrote zero ∷ writes) = (false, [])
write_all_fd (b ∷ rest) (wrote (suc n) ∷ writes) =
    let (done, more) = write_all_fd (drop n rest) writes in (done, b ∷ take n rest ++ more)
write_all_fd (b ∷ rest) (write_failed e ∷ writes) =
    let again = write_all_fd (b ∷ rest) writes in if e == eintr then again else (false, [])

-- An answer after which the loop goes on.
abbrev pub GoesOn : Write → Type 0
GoesOn (wrote n) = n ≢ 0
GoesOn (write_failed e) = e ≡ eintr

-- Where write() takes something each time or is interrupted, all is written, and nothing else.
pub write_all_fd-GoesOn :
    (text : Bytes) (writes : List Write)
    → All GoesOn writes
    → write_all_fd text writes ≡ (true, text)
unfolding write_all_fd
write_all_fd-GoesOn [] writes h = refl
write_all_fd-GoesOn (b ∷ rest) [] h = refl
write_all_fd-GoesOn (b ∷ rest) (wrote zero ∷ writes) h = absurd (h.0 refl)
write_all_fd-GoesOn (b ∷ rest) (wrote (suc n) ∷ writes) (k, h) =
    rw (write_all_fd-GoesOn (drop n rest) writes h)
      (ap (λ t. (true, b ∷ t)) (take-append-drop n rest))
write_all_fd-GoesOn (b ∷ rest) (write_failed e ∷ writes) (k, h) =
    rw (k, write_all_fd-GoesOn (b ∷ rest) writes h) refl
