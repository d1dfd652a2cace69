-- ===== src/Interactive/Handler.antt =====
-- A line of the terminal mode and what the server sends: handle_interactive_command,
-- handle_socket_data, and the texts that the commands print.
use tcp_client.Base.{
  ℕ, ◌+◌, Bool, true, ◌||◌, Option, none, some, List, [], ◌∷◌, ◌++◌, Bytes, codes, length, take,
  drop, ltb, ◌==◌, if◌then◌else◌, decimal, padded, ok, err,
}
use tcp_client.Cli.Args.{Config}
use tcp_client.Linenoise.State as Linenoise
use tcp_client.Linenoise.State.{Output, puts, print, edit_redraw, clear_line, clear_screen}
use tcp_client.Linenoise.Memory.{c_string}
use tcp_client.Linenoise.History.{
  history_add, history_save, fgets_chunks, before_nul, strip_newlines,
}
use tcp_client.Socket.Codes.{timeout, Code}
use tcp_client.Socket.Write as Write
use tcp_client.Socket.Write.{Written, socket_write_all}
use tcp_client.Socket.Read as Read
use tcp_client.Socket.Read.{ReadResult, socket_read}
use tcp_client.Interactive.Commands.{is_builtin_command, is_exit_command}
use tcp_client.Interactive.Pipe.{first_answers}

-- The editor, the history file (`none` where there is none, `can_save` where it can be written),
-- what stdin and the server still have to give, the kernel's answers for each call of
-- socket_write_all to come, and what has gone to the server. What is printed is the editor's `out`.
pub record Session : Type 0 where
  pub editor : Linenoise.State
  pub file : Option Bytes
  pub can_save : Bool
  pub input : Bytes
  pub incoming : Bytes
  pub answers : List (List Write.Round)
  pub wire : Bytes

-- What the two handlers return: 0, 1 and -1.
pub data Reply : Type 0 where
  carry_on closed failed : Reply

-- A handler returns, blocks for ever in a socket call, or makes an access outside an array.
pub data Handled : Type 0 where
  returns : Reply → Session → Handled
  blocks : Session → Handled
  fault : Session → Handled

unfoldable pub show_text : Bytes → Session → Session
show_text text s = record s { editor = print s.editor (puts text ∷ []) }

unfoldable pub help_text : Bytes
help_text =
    codes "Interactive Commands:\n"
    ++ (codes "  help     Display this help message\n"
        ++ (codes "  status   Display connection parameters and status\n"
            ++ (codes "  clear    Clear the terminal screen\n"
                ++ (codes "  history  Display command history\n"
                    ++ (codes "  exit     Disconnect and exit session\n"
                        ++ (codes "  quit     Disconnect and exit session\n\n"
                            ++ (codes "Keyboard Shortcuts:\n"
                                ++ (codes "  Up/Down  Navigate command history\n"
                                    ++ (codes "  Tab      Auto-complete command or payload\n"
                                        ++ (codes "  Ctrl+C   Abort input line / exit\n"
                                            ++ (codes
                                                  "  Ctrl+D   Exit session on empty input line\n"
                                                ++ codes "  Ctrl+L   Clear screen\n")))))))))))

abbrev pub host_text : Bytes → Bytes
host_text [] = codes "(unknown)"
host_text (c ∷ host) = c ∷ host

unfoldable pub status_text : Config → ℕ → Bytes
status_text config sockfd =
    codes "Connection Status:\n  Host:       "
    ++ (host_text config.host
        ++ (codes "\n  Port:       "
            ++ (decimal config.port
                ++ (codes "\n  Timeout:    "
                    ++ (decimal config.timeout_ms
                        ++ (codes " ms\n  Socket FD:  "
                            ++ (decimal sockfd
                                ++ codes "\n  Mode:       Interactive (Linenoise TTY)\n")))))))

-- The entries of the history file, numbered; `count` is the next number.
unfoldable pub numbered : ℕ → List Bytes → Bytes
numbered count [] = []
numbered count (l ∷ ls) = elim (strip_newlines (before_nul l)) [
  | [] ↦ numbered count ls
  | c ∷ t ↦ padded 4 (decimal count) ++ (codes "  " ++ ((c ∷ t) ++ b'\n' ∷ numbered (count + 1) ls))
]

unfoldable pub history_listing : Option Bytes → Bytes
history_listing none = codes "No history recorded.\n"
history_listing (some file) = numbered 1 (fgets_chunks 4096 4095 [] file)

-- linenoiseHistorySave(hist_path)
unfoldable pub save : Session → Session
save s = if s.can_save then record s { file = some (history_save s.editor) } else s

-- linenoiseHistoryAdd(l->buf) and linenoiseHistorySave(hist_path).
unfoldable pub remember : Bytes → Session → Session
remember text s = save (record s { editor = (history_add s.editor text).0 })

unfoldable pub list_history : Session → Session
list_history s = show_text (history_listing s.file) s

unfoldable pub after_write : Bytes → Option Code → Session → Handled
after_write text none s = blocks s
after_write text (some (err e)) s = returns failed s
after_write text (some (ok n)) s = returns carry_on (remember text s)

unfoldable pub sent_by : Written → Session → Session
sent_by w s = record s { wire = s.wire ++ w.wire; answers = drop 1 s.answers }

-- INTERACTIVE_BUF_SIZE characters of the line at most.
unfoldable pub send_len : ℕ → ℕ
send_len len = if ltb 65536 len then 65536 else len

-- The copy goes into an array of INTERACTIVE_BUF_SIZE + 2 bytes.
unfoldable pub transmit : Bytes → Session → Handled
transmit text s =
    let n = send_len s.editor.len in
    let w =
      socket_write_all (some 0) (some (take n s.editor.buf ++ b'\n' ∷ []))
        (first_answers s.answers) in
    if ltb (length s.editor.buf) n || ltb 65538 (n + 1)
    then fault s
    else after_write text w.code (sent_by w s)

unfoldable pub handle_line : Config → ℕ → Bytes → Session → Handled
handle_line config sockfd text s =
    if is_exit_command text
    then returns closed s
    else if is_builtin_command text (codes "help")
    then returns carry_on (remember text (show_text help_text s))
    else if is_builtin_command text (codes "clear")
    then returns carry_on (remember text (record s { editor = clear_screen s.editor }))
    else if is_builtin_command text (codes "status")
    then returns carry_on (remember text (show_text (status_text config sockfd) s))
    else if is_builtin_command text (codes "history")
    then returns carry_on (list_history (remember text s))
    else if ltb 0 s.editor.len
    then transmit text s
    else returns carry_on s

unfoldable pub handle_text : Config → ℕ → Option Bytes → Session → Handled
handle_text config sockfd none s = fault s
handle_text config sockfd (some text) s = handle_line config sockfd text s

unfoldable pub handle_interactive_command : Config → ℕ → Session → Handled
handle_interactive_command config sockfd s = handle_text config sockfd (c_string s.editor.buf) s

-- The newline behind data that does not end in one.
unfoldable pub closing : Bytes → Bytes
closing [] = []
closing (c ∷ []) = if c == b'\n' then [] else b'\n' ∷ []
closing (c ∷ d ∷ got) = closing (d ∷ got)

unfoldable pub redrawn : Option Linenoise.State → Session → Handled
redrawn none s = fault s
redrawn (some e) s = returns carry_on (record s { editor = e })

unfoldable pub show_data : Code → Bytes → Session → Handled
show_data (ok n) got s =
    if n == 0
    then returns closed s
    else redrawn (edit_redraw (print s.editor (clear_line ∷ puts (got ++ closing got) ∷ []))) s
show_data (err timeout) got s = returns carry_on s
show_data (err e) got s = returns failed s

unfoldable pub handle_socket_data : Read.Reply → Session → Handled
handle_socket_data r s =
    let result = socket_read true 65536 r s.incoming in
    show_data result.code result.got (record s { incoming = result.incoming })
