-- ===== src/Main/Codes.antt =====
-- The codes with which the modes and the failures of the network end the program.
use tcp_client.Base.{ℕ, ◌≤◌, ◌≡◌, ◌≢◌, inl, inr, arith, Bool, true, false, Option, some, length}
use mathlib.Core.Path.{subst}
use tcp_client.Cli.Args.{Config, Mode, auto, interactive, oneshot}
use tcp_client.Cli.Checked.{HexIsRead}
use tcp_client.Socket.Codes.{SocketError, dns, refused, timeout, io}
use tcp_client.Oneshot.Payload.{buf_size}
use tcp_client.Oneshot.Ends.{IsExit}
use tcp_client.Oneshot.Mode.{code_of, run_oneshot_mode}
use tcp_client.Oneshot.Returns.{IsBadHex, run_oneshot_mode-IsCode}
use tcp_client.Interactive.Pipe as Pipe
use tcp_client.Interactive.Sound.{AreBytes}
use tcp_client.Interactive.Steps.{IsStatus, EndsWell}
use tcp_client.Interactive.Safe.{run_interactive_tty_mode-EndsWell}
use tcp_client.Interactive.Ends.{HasStatus, run_interactive_pipe_mode-HasStatus}
use tcp_client.Interactive.Terminal as Terminal
use tcp_client.Interactive.Terminal.{fresh, run_interactive_mode}
use tcp_client.Main.Program.{
  World, exit_code, pipe_code, terminal_code, interactive_code, session, result_code,
}

-- A code of the program once the command line has been accepted.
abbrev pub IsRunCode : ℕ → Type 0
IsRunCode n = (n ≤ 5) × (n ≢ 1)

-- The code, where there is one, satisfies `P`.
abbrev pub Yields : (ℕ → Type 0) → Option ℕ → Type 0
Yields P code = (n : ℕ) → code ≡ some n → P n

status_run : (n : ℕ) → IsStatus n → IsRunCode n
status_run n (inl e) = (omega arith, omega arith)
status_run n (inr e) = (omega arith, omega arith)

exit_run : (n : ℕ) → IsExit n → IsRunCode n
exit_run n (inl e) = (omega arith, omega arith)
exit_run n (inr (inl e)) = (omega arith, omega arith)
exit_run n (inr (inr e)) = (omega arith, omega arith)

pub same_code : (P : ℕ → Type 0) (m : ℕ) → P m → Yields P (some m)
same_code P m h n e = let same : m ≡ n = cc in subst P same h

pipe_code-Yields : (e : Pipe.Ended) → HasStatus e → Yields IsRunCode (pipe_code e)
unfolding pipe_code HasStatus
pipe_code-Yields (Pipe.returned n s) h = same_code IsRunCode n (status_run n h)
pipe_code-Yields (Pipe.blocked s) h = λ n. ground arith
pipe_code-Yields Pipe.faulted h = λ n. ground arith

terminal_code-Yields : (e : Terminal.Ended) → EndsWell e → Yields IsRunCode (terminal_code e)
unfolding terminal_code
terminal_code-Yields (Terminal.returned n s) h = same_code IsRunCode n (status_run n h.0)
terminal_code-Yields (Terminal.blocked s) h = λ n. ground arith
terminal_code-Yields (Terminal.faulted s) h = λ n. ground arith

-- A HEX payload that has been read is not bad.
not_bad : (c : Config) → HexIsRead c.is_hex c.hex_payload → ¬ IsBadHex c
not_bad c read (is_hex, (e, bad)) =
    let (bytes, good) = subst (λ b. HexIsRead b c.hex_payload) is_hex read in
    unfold buf_size in absurd (cc)

module _ (w : World) (size : length w.edit_buf ≡ 65536) (bytes : AreBytes w.input) where
  interactive_code-Yields :
      (config : Config) (sockfd : ℕ) (tty raw : Bool)
      → Yields IsRunCode (
          interactive_code (
            run_interactive_mode tty raw
              (some (config, sockfd))
              (session w)
              w.tty_rounds
              w.pipe_rounds))
  unfolding interactive_code run_interactive_mode
  interactive_code-Yields config sockfd true true = terminal_code-Yields _ (
      run_interactive_tty_mode-EndsWell config sockfd (session w) w.tty_rounds
        (unfold session fresh in size) (unfold session fresh in tt) (unfold session in bytes))
  interactive_code-Yields config sockfd true false =
      pipe_code-Yields _ (run_interactive_pipe_mode-HasStatus _ _ _ _)
  interactive_code-Yields config sockfd false raw =
      pipe_code-Yields _ (run_interactive_pipe_mode-HasStatus _ _ _ _)

  module _ (config : Config) (read : HexIsRead config.is_hex config.hex_payload) where
    oneshot_code-Yields :
        Yields IsRunCode (code_of (run_oneshot_mode (some config) w.oneshot_rounds))
    oneshot_code-Yields n e = elim (run_oneshot_mode-IsCode config w.oneshot_rounds n e) [
      | inl x ↦ exit_run n x
      | inr (one, bad) ↦ absurd (not_bad config read bad)
    ]

    pub result_code-Yields :
        (sockfd : ℕ) (m : Mode) → Yields IsRunCode (result_code w config sockfd m)
    unfolding result_code
    result_code-Yields sockfd interactive =
        interactive_code-Yields config sockfd w.stdin_is_tty w.raw_mode
    result_code-Yields sockfd oneshot = oneshot_code-Yields
    result_code-Yields sockfd auto = oneshot_code-Yields

pub exit_code-run : (e : SocketError) → IsRunCode (exit_code e)
unfolding exit_code
exit_code-run dns = (omega arith, omega arith)
exit_code-run refused = (omega arith, omega arith)
exit_code-run timeout = (omega arith, omega arith)
exit_code-run io = (omega arith, omega arith)
