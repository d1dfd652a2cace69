-- ===== src/Oneshot/WriteTests.antt =====
-- The one-shot mode where write() takes a part and then fails.
use tcp_client.Base.{◌≡◌, refl, true, false, some, List, [], ◌∷◌, codes, joined}
use mathlib.Core.List.{map}
use tcp_client.Cli.Args.{default_config}
use tcp_client.Oneshot.Stdout.{Write, wrote, write_failed, write_all_fd}
use tcp_client.Oneshot.Loop.{Round, polled, bytes, closed, sent, start, loop}
use tcp_client.Oneshot.Received.{arrived}
use tcp_client.Oneshot.Echoed.{Echoes, loop-start-Echoes}

partly_written :
    write_all_fd (codes "reply") (wrote 2 ∷ write_failed 4 ∷ wrote 1 ∷ write_failed 5 ∷ [])
    ≡ (false, codes "rep")
unfolding write_all_fd
partly_written = refl

abbrev round : List Write → Round
round writes = record {
  interrupted = false;
  poll = polled;
  has_err = false;
  has_hup = false;
  has_in = true;
  has_out = true;
  stdin_ready = false;
  recv = bytes b'o' (codes "k\n");
  read = closed;
  send = sent 9;
  writes = writes;
}

-- The first reply is written, of the second one two bytes.
abbrev rounds : List Round
rounds = round [] ∷ round (wrote 2 ∷ write_failed 5 ∷ []) ∷ round [] ∷ []

loop-start-Echoes_example :
    Echoes (joined (map arrived rounds)) (loop default_config (start (some (codes "NC"))) rounds)
unfolding default_config
loop-start-Echoes_example = loop-start-Echoes default_config (some (codes "NC")) rounds refl refl
