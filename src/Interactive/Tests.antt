-- ===== src/Interactive/Tests.antt =====
-- The interactive mode on a concrete session.
use tcp_client.Base.{
  joined, ℕ, zero, suc, ◌≡◌, refl, sym, ap, arith, true, false, some, none, List, [], ◌∷◌, ◌++◌,
  codes, zeros, length-zeros, All, ◌↔◌,
}
use tcp_client.Socket.Write as Write
use tcp_client.Socket.Write.{sent}
use tcp_client.Socket.Sent.{IsLive}
use tcp_client.Hex.{is_space}
use tcp_client.Hex.{skip_spaces}
use tcp_client.Cli.Args.{default_config}
use tcp_client.Linenoise.History.{history_add, history_text}
use tcp_client.Linenoise.Plain.{Typed}
use tcp_client.Socket.Read.{received}
use tcp_client.Interactive.Commands.{
  is_builtin_command, is_exit_command, after_nocase, to_lower, is_blank_rest, only_blanks,
}
use tcp_client.Interactive.Handler.{Session}
use tcp_client.Interactive.Terminal.{Round, goes, fresh, read_stdin, run_interactive_tty_mode}
use tcp_client.Interactive.Steps.{EndsWell}
use tcp_client.Interactive.Safe.{run_interactive_tty_mode-EndsWell}
use tcp_client.Interactive.Typed.{IsPayload, read_stdin-Typed}
use tcp_client.Interactive.Words.{SaysCommand, is_builtin_command_iff}
use tcp_client.Interactive.Pipe as Pipe
use tcp_client.Interactive.Pipe.{State, start, first_answers, polled}
use tcp_client.Interactive.Reads.{take_reads}
use tcp_client.Interactive.Lines.{CanSend, Delivers}
use tcp_client.Interactive.Delivered.{take_reads-Delivers}

is_builtin_command_iff_example :
    (is_builtin_command (codes " Quit\r") (codes "quit") ≡ true)
    ↔ SaysCommand (codes " Quit\r") (codes "quit")
unfolding is_space
is_builtin_command_iff_example = is_builtin_command_iff (codes " Quit\r") b'q' (codes "uit") refl

-- Calls of send() that take one byte each.
abbrev ones : ℕ → List Write.Round
ones zero = []
ones (suc n) = sent 1 ∷ ones n

ones-IsLive : (n : ℕ) → All IsLive (ones n)
ones-IsLive zero = tt
ones-IsLive (suc n) = (omega arith, ones-IsLive n)

abbrev takers : ℕ → List (List Write.Round)
takers zero = []
takers (suc n) = ones 16 ∷ takers n

takers-CanSend : (n : ℕ) → All (CanSend 16) (takers n)
takers-CanSend zero = tt
takers-CanSend (suc n) = ((ones-IsLive 16, omega arith), takers-CanSend n)

abbrev chunks : List (List ℕ)
chunks = codes "NC0000\nex" ∷ codes "it\nNC" ∷ []

abbrev begun : State
begun = start [] [] (takers 20)

take_reads-Delivers_example :
    (t : State) × (take_reads chunks begun ≡ Pipe.goes t) × Delivers begun (joined chunks) t
take_reads-Delivers_example =
    take_reads-Delivers 16 chunks begun (unfold start in refl) (
      unfold start in record { live = takers-CanSend 20; enough = omega arith; fits = omega arith })

-- A user who types "NC" and Ctrl+D at a server that says "ok" in between.
abbrev terminal : Session
terminal = record {
  editor = fresh (zeros 65536);
  file = some (codes "BA\n");
  can_save = true;
  input = codes "NC" ++ 4 ∷ [];
  incoming = codes "ok";
  answers = [];
  wire = [];
}

abbrev rounds : List Round
rounds =
    record {
      interrupted = false;
      poll = polled;
      sock_in = true;
      gone = false;
      recv = received 2;
      stdin_ready = true;
      more = 1;
    }
    ∷ record {
      interrupted = false;
      poll = polled;
      sock_in = false;
      gone = false;
      recv = received 0;
      stdin_ready = true;
      more = 0;
    }
    ∷ []

run_interactive_tty_mode-EndsWell_example :
    EndsWell (run_interactive_tty_mode default_config 3 terminal rounds)
run_interactive_tty_mode-EndsWell_example =
    run_interactive_tty_mode-EndsWell default_config 3 terminal rounds
      (unfold fresh in length-zeros 65536) (unfold fresh in tt)
      (omega arith, (omega arith, (omega arith, tt)))

-- An empty prompt, and a user who has typed "NC", Enter and "B".
abbrev at_prompt : Session
at_prompt = record {
  editor = record (fresh []) { buf = 0 ∷ zeros 65535; buflen = 65536 };
  file = none;
  can_save = true;
  input = codes "NC" ++ 13 ∷ codes "B";
  incoming = [];
  answers = takers 1;
  wire = [];
}

at_prompt-Typed : Typed at_prompt.editor []
unfolding fresh
at_prompt-Typed = record {
  shows = record {
    rest = zeros 65535;
    buf_is = refl;
    pos_is = refl;
    len_is = refl;
    buflen_is = ap suc (sym (length-zeros 65535));
    left_no_nul = tt;
    right_no_nul = tt;
  };
  normal_state = refl;
  no_completion = refl;
}

nc-IsPayload : IsPayload (codes "NC")
unfolding is_exit_command is_builtin_command after_nocase to_lower skip_spaces is_space
    is_blank_rest only_blanks
nc-IsPayload = record {
  no_exit = refl;
  no_help = refl;
  no_clear = refl;
  no_status = refl;
  no_history = refl;
}

read_stdin-Typed_example :
    (t : Session) × (read_stdin default_config 3 5 at_prompt.input at_prompt ≡ goes t)
    × (t.wire ≡ codes "NC\n")
    × (t.input ≡ codes "B")
    × Typed t.editor []
    × (t.editor.history ≡ (history_add at_prompt.editor (codes "NC")).0.history)
    × (true ≡ true → t.file ≡ some (history_text t.editor.history))
read_stdin-Typed_example =
    read_stdin-Typed default_config 3 5 b'N' (codes "C") (codes "B") at_prompt at_prompt-Typed
      (unfold fresh in refl)
      (
        (omega arith, omega arith, omega arith, omega arith),
        ((omega arith, omega arith, omega arith, omega arith), tt),
      )
      (omega arith) nc-IsPayload refl (omega arith) (unfold first_answers in ones-IsLive 16)
      (unfold first_answers in omega arith)
