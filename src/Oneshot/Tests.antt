-- ===== src/Oneshot/Tests.antt =====
-- The one-shot mode on a concrete payload.
use tcp_client.Base.{
  ℕ, refl, inr, ◌+◌, ◌≡◌, arith, true, false, some, none, List, [], ◌∷◌, ◌++◌, codes, All, length,
  ok,
}
use tcp_client.Oneshot.Payload.{send_buf}
use tcp_client.Oneshot.Stdout.{wrote, write_failed, GoesOn}
use tcp_client.Oneshot.Prepared.{message, framed, socket_read_framed-send_buf}
use tcp_client.Oneshot.Loop.{
  Round, Outcome, poll_timeout, poll_failed, polled, bytes, closed, sent, loop, start,
}
use tcp_client.Oneshot.Kept.{Keeps, loop-start}
use mathlib.Core.List.{map}
use tcp_client.Hsm.Frames.{parts}
use tcp_client.Oneshot.Received.{IsFine}
use tcp_client.Oneshot.Printed.{Prints, run_oneshot_mode-Prints}
use tcp_client.Oneshot.Analysed.{run_oneshot_mode-Analyses}
use tcp_client.Oneshot.Windows as Windows
use tcp_client.Oneshot.Silent.{Passes, run_oneshot_mode-silent}
use tcp_client.Oneshot.Forget.{posix}
use tcp_client.Oneshot.Agrees.{InTime, run_oneshot_mode-posix}
use tcp_client.Oneshot.Mode.{code_of, ran, run_oneshot_mode}
use tcp_client.Oneshot.Returns.{IsCode, run_oneshot_mode-returns}
use tcp_client.Cli.Args.{Config, oneshot}
use tcp_client.Socket.Read.{Reply, received, ends, socket_read_framed}

abbrev segments : List Reply
segments = received 1 ∷ received 2 ∷ received 1 ∷ received 1 ∷ []

socket_read_framed-send_buf_example :
    (rs : List Reply) × (socket_read_framed true 65537 segments
        (send_buf false 0 true (codes "NC") ++ codes "x")
      ≡ ends
          (some (ok (2 + length (message false 0 (codes "NC")))))
          (framed (message false 0 (codes "NC")))
          (codes "x")
          rs)
socket_read_framed-send_buf_example =
    socket_read_framed-send_buf 65537 false 0 (codes "NC") (codes "x") segments (omega arith)
      (omega arith, (omega arith, (omega arith, (omega arith, tt)))) (omega arith)

abbrev config : Config
config = record {
  host = codes "hsm";
  port = 1500;
  timeout_ms = 5000;
  force_interactive = false;
  verbose = false;
  show_help = false;
  show_version = false;
  mode = oneshot;
  hex_payload = [];
  is_hex = false;
  hex_out = false;
  ascii_payload = codes "NC0000";
  is_ascii = true;
  add_tcp_len = false;
  decode_hsm = true;
  hsm_header_len = 0;
  has_term_char = false;
  term_char = 0;
}

-- The socket takes a part of the payload, and hands over an answer of two bytes.
abbrev answers : List Round
answers =
    record {
      interrupted = false;
      poll = polled;
      has_err = false;
      has_hup = false;
      has_in = false;
      has_out = true;
      stdin_ready = false;
      recv = closed;
      read = closed;
      send = sent 4;
      writes = [];
    }
    ∷ record {
      interrupted = false;
      poll = polled;
      has_err = false;
      has_hup = false;
      has_in = true;
      has_out = true;
      stdin_ready = false;
      recv = bytes 0 (0 ∷ []);
      read = closed;
      send = sent 9;
      writes = [];
    }
    ∷ []

loop-start_example :
    Keeps (codes "NC0000") (loop config (start (some (codes "NC0000"))) answers).last
loop-start_example = loop-start config (codes "NC0000") answers

-- Nothing more comes from the server.
abbrev silence : Round
silence = record {
  interrupted = false;
  poll = poll_timeout;
  has_err = false;
  has_hup = false;
  has_in = false;
  has_out = false;
  stdin_ready = false;
  recv = closed;
  read = closed;
  send = sent 0;
  writes = [];
}

run_oneshot_mode-returns_example :
    (n : ℕ) × (code_of (run_oneshot_mode (some config) (answers ++ silence ∷ [])) ≡ some n)
    × IsCode config n
run_oneshot_mode-returns_example = run_oneshot_mode-returns config answers [] silence (inr refl)

-- A round in which these bytes arrive, while the socket takes what there is to send.
abbrev piece : ℕ → List ℕ → Round
piece b rest = record {
  interrupted = false;
  poll = polled;
  has_err = false;
  has_hup = false;
  has_in = true;
  has_out = true;
  stdin_ready = false;
  recv = bytes b rest;
  read = closed;
  send = sent 4;
  writes = write_failed 4 ∷ wrote 1 ∷ [];
}

-- Rounds in which a part of the payload is sent and nothing arrives, and in which poll() is interrupted.
abbrev sending : Round
sending = record (piece 0 []) { has_in = false }

abbrev signalled : Round
signalled = record (piece 0 []) { poll = poll_failed 4 }

two_writes : All GoesOn (write_failed 4 ∷ wrote 1 ∷ [])
two_writes = (refl, (omega arith, tt))

-- A reply is printed up to its newline.
abbrev to_newline : Config
to_newline = record config { decode_hsm = false; has_term_char = true; term_char = 10 }

fine : IsFine sending
fine = (refl, (refl, refl, tt, tt))

abbrev reply_rounds : List Round
reply_rounds = sending ∷ piece b'o' [] ∷ signalled ∷ piece b'k' (10 ∷ b'x' ∷ []) ∷ []

run_oneshot_mode-Prints_example :
    (o : Outcome) × (run_oneshot_mode (some to_newline) (reply_rounds ++ silence ∷ []) ≡ ran o)
    × Prints o (codes "ok" ++ 10 ∷ [])
run_oneshot_mode-Prints_example =
    run_oneshot_mode-Prints to_newline reply_rounds (silence ∷ []) (codes "ok") (b'x' ∷ []) refl
      refl refl refl refl (fine, (fine, ((refl, refl), (fine, tt))))
      (two_writes, (two_writes, (two_writes, (two_writes, tt)))) (omega arith, (omega arith, tt))
      refl

abbrev analysis_rounds : List Round
analysis_rounds = sending ∷ piece 0 (5 ∷ b'N' ∷ []) ∷ piece b'D' (codes "001") ∷ []

-- The answer ND00 with a payload of one digit.
run_oneshot_mode-Analyses_example :
    (o : Outcome) × (run_oneshot_mode (some config) (analysis_rounds ++ []) ≡ ran o)
    × (o.code ≡ some 0)
    × (o.analysed ≡ some (some (parts 5 [] b'N' b'D' b'0' b'0' (b'1' ∷ []) none)))
run_oneshot_mode-Analyses_example =
    run_oneshot_mode-Analyses config analysis_rounds [] [] b'N' b'D' b'0' b'0' (b'1' ∷ []) none refl
      refl refl refl refl (omega arith) (omega arith, tt) (omega arith) (fine, (fine, (fine, tt)))
      refl

-- A round on Windows: an answer of two bytes comes after 10 ms.
abbrev windows_answer : Windows.Round
windows_answer = record {
  interrupted = false;
  now = 1010;
  poll = polled;
  polled_at = 1010;
  has_err = false;
  has_hup = false;
  has_in = true;
  has_out = true;
  recv = bytes 0 (0 ∷ []);
  recv_at = 1010;
  writes = [];
  send = sent 9;
  send_at = 1011;
  stdin = Windows.stream_handle (some 0);
  read = closed;
  read_at = 1011;
}

run_oneshot_mode-posix_example :
    Windows.run_oneshot_mode config 1000 (windows_answer ∷ [])
    ≡ run_oneshot_mode (some config) (map posix (windows_answer ∷ []))
unfolding InTime Windows.is_late Windows.elapsed
run_oneshot_mode-posix_example =
    run_oneshot_mode-posix config 1000 (windows_answer ∷ []) refl refl
      (refl, tt, tt, refl, λ u e. tt)

-- Nothing comes for two milliseconds.
abbrev hasty : Config
hasty = record config { timeout_ms = 2 }

abbrev windows_silence : ℕ → Windows.Round
windows_silence now = record windows_answer {
  now = now;
  poll = poll_timeout;
  polled_at = now + 2;
  has_in = false;
  has_out = false;
}

run_oneshot_mode-silent_example :
    code_of (Windows.run_oneshot_mode hasty 1000 (windows_silence 1000 ∷ windows_silence 1002 ∷ []))
    ≡ some 4
unfolding Passes Windows.slice Windows.elapsed Windows.check_stdin_ready
run_oneshot_mode-silent_example =
    run_oneshot_mode-silent hasty 1000 (windows_silence 1000 ∷ windows_silence 1002 ∷ []) refl
      (omega arith) (omega arith)
      (
        record { goes_on = refl; nothing = refl; no_input = refl },
        omega arith,
        omega arith,
        omega arith,
        (
          record { goes_on = refl; nothing = refl; no_input = refl },
          omega arith,
          omega arith,
          omega arith,
          omega arith,
        ),
      )
