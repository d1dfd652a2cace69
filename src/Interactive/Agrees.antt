-- ===== src/Interactive/Agrees.antt =====
-- A session at the terminal of Windows beside one at the terminal of POSIX.
use tcp_client.Base.{
  ℕ, zero, suc, ◌-◌, ◌≡◌, refl, sym, ap, ◌∙◌, arith, Bool, true, false, ◌||◌, ◌==◌, List, [], ◌∷◌,
  Bytes, if◌then◌else◌,
}
use tcp_client.Cli.Args.{Config}
use tcp_client.Linenoise.State.{again}
use tcp_client.Socket.Windows.{is_socket_wouldblock}
use tcp_client.Interactive.Pipe.{Polled, poll_failed, poll_timeout, polled}
use tcp_client.Interactive.Handler.{Session}
use tcp_client.Interactive.Terminal as Terminal
use tcp_client.Interactive.Terminal.{
  Round, Step, goes, leaves, stuck, broken, and_then, after_handler, Keyed, keyed, feed_next,
  key_round, feed_more, after_keys, read_stdin, edit_restart, set_up, hang_up, socket_event,
  stdin_event, handle, Ended, returned, blocked, faulted, cleaned, go_on,
}
use tcp_client.Interactive.Unread.{hang_up-Keeps, socket_event-Keeps, and_then-same}
use tcp_client.Interactive.Windows.{keyboard_event, events, on_poll, loop, run_interactive_tty_mode}

-- Whether a key is read in the round.
abbrev pub has_key : ℕ → Bytes → Bool
has_key zero input = false
has_key (suc n) [] = false
has_key (suc n) (c ∷ input) = true

-- With the answers on the socket, or none.
abbrev pub keyed_round : Bool → Round → Bytes → Round
keyed_round on_socket r input = record r {
  poll = polled;
  sock_in = if on_socket then r.sock_in else false;
  gone = if on_socket then r.gone else false;
  stdin_ready = has_key r.more input;
  more = r.more - 1;
}

-- A round of Windows as a round of POSIX, where `input` is to be read: the answers on the socket are the
-- same, and stdin has something to read where a key is there. On Windows a poll() that times out, or
-- fails with WSAEWOULDBLOCK or WSAEINPROGRESS, still looks at the keys.
abbrev pub posix : Polled → Round → Bytes → Round
posix (poll_failed e) r input =
    if e == 10035 || e == 10036
    then keyed_round false r input
    else record r { poll = poll_failed 5 }
posix poll_timeout r input = keyed_round false r input
posix polled r input = keyed_round true r input

-- With nothing to read, no key comes.
feed_more-idle : (n : ℕ) (s : Session) → s.input ≡ [] → feed_more n (keyed again s) ≡ keyed again s
unfolding feed_more key_round feed_next
feed_more-idle zero s e = refl
feed_more-idle (suc n) s e = ap (λ l. feed_more n (feed_next l s)) e ∙ feed_more-idle n s e

interrupted_lem :
    (p : Polled) (r : Round) (input : Bytes) → (posix p r input).interrupted ≡ r.interrupted
interrupted_lem (poll_failed e) r input = failing (e == 10035 || e == 10036)
  where
    failing :
        (b : Bool)
        → (if b then keyed_round false r input else record r { poll = poll_failed 5 }).interrupted
          ≡ r.interrupted
    failing true = refl
    failing false = refl
interrupted_lem poll_timeout r input = refl
interrupted_lem polled r input = refl

-- The rounds behind a step that goes on.
abbrev pub continued : Step → (Session → List Round) → List Round
continued (goes t) rest = rest t
continued (leaves code t) rest = []
continued (stuck t) rest = []
continued (broken t) rest = []

module _ (config : Config) (sockfd : ℕ) where
  keyboard_lem :
      (more : ℕ) (input : Bytes) (s : Session)
      → s.input ≡ input
      → after_keys config sockfd (feed_more more (keyed again s))
        ≡ (if has_key more input then read_stdin config sockfd (more - 1) s.input s else goes s)
  unfolding after_keys feed_more key_round feed_next read_stdin
  keyboard_lem zero input s e = refl
  keyboard_lem (suc n) [] s e = ap (after_keys config sockfd) (feed_more-idle (suc n) s e)
  keyboard_lem (suc n) (c ∷ input) s e =
      let n_is : n ≡ suc n - 1 = omega arith in
      ap (λ l. after_keys config sockfd (feed_more n (feed_next l s))) e
      ∙ ap (λ l. read_stdin config sockfd n l s) (sym e)
      ∙ ap (λ m. read_stdin config sockfd m s.input s) n_is

  keyed-posix :
      (r : Round) (s : Session)
      → keyboard_event config sockfd r s ≡ handle config sockfd (keyed_round false r s.input) s
  unfolding keyboard_event handle hang_up socket_event stdin_event and_then
  keyed-posix r s = keyboard_lem r.more s.input s refl

  events-posix :
      (r : Round) (s : Session)
      → events config sockfd r s ≡ handle config sockfd (keyed_round true r s.input) s
  unfolding events keyboard_event handle stdin_event hang_up socket_event
  events-posix r s = and_then-same s.input _ _ _ (hang_up-Keeps s.input r s refl) (λ a ha.
      and_then-same s.input _ _ _ (socket_event-Keeps s.input r a ha)
        (λ b hb. keyboard_lem r.more s.input b hb))

  on_poll-posix :
      (p : Polled) (r : Round) (s : Session)
      → on_poll config sockfd r p s
        ≡ Terminal.on_poll config sockfd (posix p r s.input) (posix p r s.input).poll s
  unfolding on_poll Terminal.on_poll is_socket_wouldblock
  on_poll-posix (poll_failed e) r s = failing (e == 10035 || e == 10036)
    where
      failing :
          (b : Bool)
          → (if b then keyboard_event config sockfd r s else leaves 5 s)
            ≡ Terminal.on_poll config sockfd
                (if b then keyed_round false r s.input else record r { poll = poll_failed 5 })
                (if b then keyed_round false r s.input else record r { poll = poll_failed 5 }).poll
                s
      failing true = keyed-posix r s
      failing false = refl
  on_poll-posix poll_timeout r s = keyed-posix r s
  on_poll-posix polled r s = events-posix r s

  -- The rounds of a session at the terminal of Windows, as rounds of POSIX: what is left to be read in
  -- each of them is what the session of POSIX has left.
  unfoldable pub posix_rounds : Session → List Round → List Round
  posix_rounds s [] = []
  posix_rounds s (r ∷ rounds) =
      let r' = posix r.poll r s.input in
      r'
      ∷ continued (Terminal.on_poll config sockfd r' r'.poll s)
          (λ (t : Session). posix_rounds t rounds)

  go_on-posix :
      (rounds : List Round) (x : Step)
      → ((t : Session)
          → loop config sockfd t rounds ≡ Terminal.loop config sockfd t (posix_rounds t rounds))
      → go_on x (λ t. loop config sockfd t rounds)
        ≡ go_on x (λ t. Terminal.loop config sockfd t (continued x (λ u. posix_rounds u rounds)))
  unfolding go_on
  go_on-posix rounds (goes t) h = h t
  go_on-posix rounds (leaves code t) h = refl
  go_on-posix rounds (stuck t) h = refl
  go_on-posix rounds (broken t) h = refl

  loop-posix :
      (rounds : List Round) (s : Session)
      → loop config sockfd s rounds ≡ Terminal.loop config sockfd s (posix_rounds s rounds)
  unfolding loop Terminal.loop posix_rounds
  loop-posix [] s = refl
  loop-posix (r ∷ rounds) s =
      let r' = posix r.poll r s.input in
      let here = on_poll-posix r.poll r s in
      let next = λ (x : Step). go_on x (λ (t : Session).
        Terminal.loop config sockfd t
          (continued (Terminal.on_poll config sockfd r' r'.poll s) (λ u. posix_rounds u rounds))) in
      ap (λ x. if r.interrupted then returned 0 (cleaned s) else x)
        (ap (λ x. go_on x (λ (t : Session). loop config sockfd t rounds)) here
          ∙ go_on-posix rounds (Terminal.on_poll config sockfd r' r'.poll s) (loop-posix rounds))
      ∙ ap
          (λ b.
            if b
            then returned 0 (cleaned s)
            else next (Terminal.on_poll config sockfd r' r'.poll s))
          (sym (interrupted_lem r.poll r s.input))

  unfoldable pub session_rounds : Session → List Round → List Round
  session_rounds s rounds =
      continued (edit_restart (set_up s)) (λ (t : Session). posix_rounds t rounds)

-- A session at the terminal of Windows ends as the session at the terminal of POSIX does whose rounds
-- are those of Windows with these answers: on the socket the same where poll() reports events, none
-- where it times out or would block, and a failure where it fails otherwise; and stdin has something to
-- read where a key is there. The code, the history and its file, what goes to the server and what is
-- printed are the same, and so is a fault.
pub run_interactive_tty_mode-posix :
    (config : Config) (sockfd : ℕ) (s : Session) (rounds : List Round)
    → run_interactive_tty_mode config sockfd s rounds
      ≡ Terminal.run_interactive_tty_mode config sockfd s (session_rounds config sockfd s rounds)
unfolding run_interactive_tty_mode Terminal.run_interactive_tty_mode session_rounds
run_interactive_tty_mode-posix config sockfd s rounds =
    go_on-posix config sockfd rounds (edit_restart (set_up s)) (loop-posix config sockfd rounds)
