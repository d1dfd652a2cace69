-- ===== src/Interactive/Sound.antt =====
-- What the handlers of the terminal mode keep of a session.
use tcp_client.Base.{
  ℕ, ◌+◌, ◌≤◌, ◌<◌, ◌≡◌, ◌≢◌, sym, ap, ◌∙◌, arith, Bool, true, false, ◌||◌, Option, none, some,
  ◌++◌, Bytes, codes, All, All-append, length, ltb, ◌==◌, if◌then◌else◌, ok, err,
}
use tcp_client.Cli.Args.{Config}
use tcp_client.Linenoise.State as Linenoise
use tcp_client.Linenoise.State.{Output, puts, print, edit_redraw, clear_screen, clear_line}
use tcp_client.Linenoise.Memory.{HasNoNul}
use tcp_client.Linenoise.History.{history_add, history_save}
use tcp_client.Linenoise.Shows.{length-buf}
use tcp_client.Linenoise.Recall.{c_string_buf}
use tcp_client.Linenoise.Ready.{IsReady, Keeps, edit_redraw-Keeps}
use tcp_client.Linenoise.Safe.{print-IsReady}
use tcp_client.Linenoise.Begun.{IsSoundCallback}
use tcp_client.Linenoise.Strings.{history_add-HasNoNul, history_add-keeps}
use tcp_client.Socket.Codes.{dns, refused, timeout, io, Code}
use tcp_client.Socket.Write.{Written}
use tcp_client.Socket.Read as Read
use tcp_client.Socket.Read.{socket_read}
use tcp_client.Interactive.Commands.{is_builtin_command, is_exit_command}
use tcp_client.Interactive.Handler.{
  Session, help_text, status_text, Reply, carry_on, closed, Handled, returns, blocks, show_text,
  save, remember, list_history, after_write, sent_by, send_len, transmit, handle_line, handle_text,
  handle_interactive_command, redrawn, show_data, handle_socket_data,
}

abbrev pub AreBytes : Bytes → Type 0
AreBytes = All (λ c. c < 256)

-- Enough to start a new line: the buffer is whole, and the strings are C strings.
pub record IsHeld (s : Session) : Type 0 where
  pub size : length s.editor.buf ≡ 65536
  pub lines : All HasNoNul s.editor.history
  pub callback : IsSoundCallback s.editor.completion_callback
  pub bytes : AreBytes s.input

-- The editor is ready for a key.
pub record IsOpen (s : Session) : Type 0 where
  pub ready : IsReady 65536 s.editor
  pub bytes : AreBytes s.input

pub open-IsHeld : {s : Session} → IsOpen s → IsHeld s
open-IsHeld o = record {
  size = sym o.ready.shows.buflen_is ∙ o.ready.sound.size_is;
  lines = o.ready.sound.lines;
  callback = o.ready.sound.callback;
  bytes = o.bytes;
}

-- A handler makes no access outside an array, and `P` holds where it returns.
pub data Fine (P : Session → Type 0) : Handled → Type 0 where
  fine_return : {r : Reply} {s : Session} → P s → Fine P (returns r s)
  fine_block : {s : Session} → Fine P (blocks s)

if_Fine :
    {P : Session → Type 0} {x y : Handled} (b : Bool)
    → Fine P x
    → Fine P y
    → Fine P (if b then x else y)
if_Fine true hx hy = hx
if_Fine false hx hy = hy

show_text-IsHeld : (text : Bytes) {s : Session} → IsHeld s → IsHeld (show_text text s)
unfolding show_text
show_text-IsHeld text h = record {
  size = h.size;
  lines = h.lines;
  callback = h.callback;
  bytes = h.bytes;
}

clear_screen-IsHeld :
    {s : Session} → IsHeld s → IsHeld (record s { editor = clear_screen s.editor })
unfolding clear_screen
clear_screen-IsHeld h = record {
  size = h.size;
  lines = h.lines;
  callback = h.callback;
  bytes = h.bytes;
}

sent_by-IsHeld : (w : Written) {s : Session} → IsHeld s → IsHeld (sent_by w s)
unfolding sent_by
sent_by-IsHeld w h = record {
  size = h.size;
  lines = h.lines;
  callback = h.callback;
  bytes = h.bytes;
}

save-IsHeld : {s : Session} → IsHeld s → IsHeld (save s)
unfolding save
save-IsHeld {s} h = saved s.can_save
  where
    saved : (b : Bool) → IsHeld (if b then record s { file = some (history_save s.editor) } else s)
    saved true = record { size = h.size; lines = h.lines; callback = h.callback; bytes = h.bytes }
    saved false = h

module _ (text : Bytes) (c_text : HasNoNul text) {s : Session} (h : IsHeld s) where
  remember-IsHeld : IsHeld (remember text s)
  unfolding remember
  remember-IsHeld =
      let (buf, callback) = history_add-keeps s.editor text in
      let added : IsHeld (record s { editor = (history_add s.editor text).0 }) = record {
        size = ap length buf ∙ h.size;
        lines = history_add-HasNoNul s.editor text h.lines c_text;
        callback = rw callback h.callback;
        bytes = h.bytes;
      } in
      save-IsHeld added

  list_history-IsHeld : IsHeld (list_history (remember text s))
  unfolding list_history
  list_history-IsHeld = show_text-IsHeld _ remember-IsHeld

  after_write-Fine : (code : Option Code) → Fine IsHeld (after_write text code s)
  unfolding after_write
  after_write-Fine none = fine_block
  after_write-Fine (some (err e)) = fine_return h
  after_write-Fine (some (ok n)) = fine_return remember-IsHeld

send_len_lem : (len : ℕ) → (send_len len ≤ len) × (send_len len ≤ 65536)
unfolding send_len
send_len_lem len = ground arith

module _ (config : Config) (sockfd : ℕ) (text : Bytes) (c_text : HasNoNul text) {s : Session}
    (h : IsHeld s) where
  transmit-Fine : s.editor.len ≤ length s.editor.buf → Fine IsHeld (transmit text s)
  unfolding transmit
  transmit-Fine inside =
      let n = send_len s.editor.len in
      let (less, fits) = send_len_lem s.editor.len in
      let within : (ltb (length s.editor.buf) n || ltb 65538 (n + 1)) ≡ false =
        ground (arith, less, fits, inside) in
      rw within (after_write-Fine text c_text (sent_by-IsHeld _ h) _)

  handle_line-Fine :
      s.editor.len ≤ length s.editor.buf → Fine IsHeld (handle_line config sockfd text s)
  unfolding handle_line
  handle_line-Fine inside = if_Fine (is_exit_command text) (fine_return {r = closed} h) (
      if_Fine (is_builtin_command text (codes "help")) (remembered (show_text-IsHeld help_text h)) (
        if_Fine (is_builtin_command text (codes "clear")) (remembered (clear_screen-IsHeld h)) (
          if_Fine (is_builtin_command text (codes "status"))
            (remembered (show_text-IsHeld (status_text config sockfd) h))
            (if_Fine (is_builtin_command text (codes "history"))
              (fine_return {r = carry_on} (list_history-IsHeld text c_text h))
              (if_Fine (ltb 0 s.editor.len) (transmit-Fine inside)
                (fine_return {r = carry_on} h))))))
    where
      remembered : {t : Session} → IsHeld t → Fine IsHeld (returns carry_on (remember text t))
      remembered k = fine_return (remember-IsHeld text c_text k)

module _ {s : Session} (o : IsOpen s) where
  -- Whatever line the editor holds, the handler stays inside every array.
  pub handle_interactive_command-Fine :
      (config : Config) (sockfd : ℕ) → Fine IsHeld (handle_interactive_command config sockfd s)
  unfolding handle_interactive_command handle_text
  handle_interactive_command-Fine config sockfd =
      let shows = o.ready.shows in
      let text = o.ready.left ++ o.ready.right in
      let c_text =
        All-append (λ c. c ≢ 0) o.ready.left o.ready.right shows.left_no_nul shows.right_no_nul in
      rw (c_string_buf shows) (
        handle_line-Fine config sockfd text c_text (open-IsHeld o)
          (omega (arith, shows.len_is, length-buf shows)))

  redrawn-Fine : {x : Option Linenoise.State} → Keeps 65536 x → Fine IsOpen (redrawn x s)
  unfolding redrawn
  redrawn-Fine (e, same, ready) = rw same (fine_return (record { ready = ready; bytes = o.bytes }))

  show_data-Fine : (code : Code) (got : Bytes) → Fine IsOpen (show_data code got s)
  unfolding show_data
  show_data-Fine (ok n) got =
      if_Fine (n == 0) (fine_return o) (redrawn-Fine (edit_redraw-Keeps (print-IsReady o.ready _)))
  show_data-Fine (err timeout) got = fine_return o
  show_data-Fine (err dns) got = fine_return o
  show_data-Fine (err refused) got = fine_return o
  show_data-Fine (err io) got = fine_return o

pub handle_socket_data-Fine :
    (r : Read.Reply) {s : Session} → IsOpen s → Fine IsOpen (handle_socket_data r s)
unfolding handle_socket_data
handle_socket_data-Fine r {s} o =
    let result = socket_read true 65536 r s.incoming in
    show_data-Fine (record { ready = o.ready; bytes = o.bytes }) result.code result.got
