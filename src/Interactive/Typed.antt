-- ===== src/Interactive/Typed.antt =====
-- A line typed at the terminal: from the keys to the server, the history and the next prompt.
use tcp_client.Base.{
  ℕ, suc, ◌+◌, ◌≤◌, ◌<◌, ◌≡◌, refl, sym, ap, ◌∙◌, arith, true, false, ◌||◌, some, [], ◌∷◌, ◌++◌,
  Bytes, codes, All, length, length-append, take, take-append, drop, ltb,
}
use tcp_client.Cli.Args.{Config}
use tcp_client.Linenoise.State as Linenoise
use tcp_client.Linenoise.State.{again, line, edit_start}
use tcp_client.Linenoise.History.{history_add, history_save, history_text}
use tcp_client.Linenoise.Strings.{history_add-keeps, history_add-same}
use tcp_client.Linenoise.Shows.{length-buf}
use tcp_client.Linenoise.Plain.{IsPlain, Typed, Typed-c_string}
use tcp_client.Linenoise.Typing.{edit_start-Typed}
use tcp_client.Socket.Sent.{IsLive, sends, socket_write_all_lem}
use tcp_client.Interactive.Pipe.{first_answers}
use tcp_client.Interactive.Commands.{is_builtin_command, is_exit_command}
use tcp_client.Interactive.Handler.{
  Session, carry_on, returns, save, remember, after_write, sent_by, send_len, transmit, handle_line,
  handle_text, handle_interactive_command,
}
use tcp_client.Interactive.Terminal.{
  goes, after_handler, keyed, feed_next, key_round, feed_more, restarted, edit_restart, after_keys,
  read_stdin,
}
use tcp_client.Interactive.TypedKeys.{feed_more-Typed}

-- A text that is none of the commands.
pub record IsPayload (text : Bytes) : Type 0 where
  pub no_exit : is_exit_command text ≡ false
  pub no_help : is_builtin_command text (codes "help") ≡ false
  pub no_clear : is_builtin_command text (codes "clear") ≡ false
  pub no_status : is_builtin_command text (codes "status") ≡ false
  pub no_history : is_builtin_command text (codes "history") ≡ false

handle_line-payload :
    (config : Config) (sockfd : ℕ) (text : Bytes) (s : Session)
    → IsPayload text
    → 0 < s.editor.len
    → handle_line config sockfd text s ≡ transmit text s
unfolding handle_line
handle_line-payload config sockfd text s p pos =
    let some_text : ltb 0 s.editor.len ≡ true = ground arith in
    rw (p.no_exit, p.no_help, p.no_clear, p.no_status, p.no_history, some_text) refl

-- The line has gone to the server with a newline behind it.
abbrev pub delivered : Bytes → Session → Session
delivered text s = record s { wire = s.wire ++ (text ++ b'\n' ∷ []); answers = drop 1 s.answers }

transmit-Typed :
    (text : Bytes) (s : Session)
    → Typed s.editor text
    → length text < 65536
    → All IsLive (first_answers s.answers)
    → length text + 1 ≤ sends (first_answers s.answers)
    → transmit text s ≡ returns carry_on (remember text (delivered text s))
unfolding transmit
transmit-Typed text s t small live enough =
    let size = length-buf t.shows in
    let n : send_len s.editor.len ≡ length text =
      unfold send_len in ground (arith, t.shows.len_is) in
    let longer = length-append text (b'\n' ∷ []) in
    let copied : take (length text) s.editor.buf ≡ text =
      ap (take (length text)) t.shows.buf_is ∙ take-append text _ in
    let sent =
      socket_write_all_lem 0 (text ++ b'\n' ∷ []) (first_answers s.answers) live (omega arith) in
    let within : (ltb (length s.editor.buf) (length text) || ltb 65538 (length text + 1)) ≡ false =
      ground arith in
    rw n (rw (copied, within) (rw sent (unfold after_write sent_by in refl)))

-- What stays when a line goes into the history.
remember_lem :
    (text : Bytes) (s : Session)
    → ((remember text s).wire ≡ s.wire)
      × ((remember text s).input ≡ s.input)
      × ((remember text s).editor ≡ (history_add s.editor text).0)
      × (s.can_save ≡ true
          → (remember text s).file ≡ some (history_text (remember text s).editor.history))
unfolding remember save history_save
remember_lem text s = ground arith

handle_command-Typed :
    (config : Config) (sockfd : ℕ) (c : ℕ) (text : Bytes) (s : Session)
    → Typed s.editor (c ∷ text)
    → length (c ∷ text) < 65536
    → IsPayload (c ∷ text)
    → All IsLive (first_answers s.answers)
    → length (c ∷ text) + 1 ≤ sends (first_answers s.answers)
    → handle_interactive_command config sockfd s
      ≡ returns carry_on (remember (c ∷ text) (delivered (c ∷ text) s))
unfolding handle_interactive_command handle_text
handle_command-Typed config sockfd c text s t small payload live enough =
    ap (λ o. handle_text config sockfd o s) (Typed-c_string t)
    ∙ handle_line-payload config sockfd (c ∷ text) s payload (omega (arith, t.shows.len_is))
    ∙ transmit-Typed (c ∷ text) s t small live enough

edit_restart-Typed :
    (s : Session)
    → length s.editor.buf ≡ 65536
    → (e : Linenoise.State) × (edit_restart s ≡ goes (record s { editor = e }))
      × Typed e []
      × (e.history ≡ s.editor.history)
unfolding edit_restart
edit_restart-Typed s size =
    let (e, done, t, same) =
      edit_start-Typed s.editor s.editor.buf 65536 (some (codes "> ")) (omega arith) size in
    (e, ap (λ o. restarted o s) done ∙ (unfold restarted in refl), t, ap (λ f. f.history) same)

after_keys-line :
    (config : Config) (sockfd : ℕ) (s t : Session)
    → handle_interactive_command config sockfd s ≡ returns carry_on t
    → after_keys config sockfd (keyed line s) ≡ edit_restart t
unfolding after_keys after_handler
after_keys-line config sockfd s t handled = ap (λ h. after_handler h edit_restart) handled

read_stdin-keys :
    (config : Config) (sockfd more c : ℕ) (input : Bytes) (s : Session)
    → s.input ≡ c ∷ input
    → read_stdin config sockfd more s.input s
      ≡ after_keys config sockfd (feed_more (suc more) (keyed again s))
unfolding read_stdin feed_more key_round feed_next
read_stdin-keys config sockfd more c input s read =
    ap (λ i. read_stdin config sockfd more i s) read
    ∙ ap (λ i. after_keys config sockfd (feed_more more (feed_next i s))) (sym read)

-- A line of printable characters that is no command, typed at an empty prompt and ended by Enter, goes
-- to the server with a newline behind it, and into the history, and the history into its file where
-- that can be written, and a new prompt is there, with the rest of the input unread; if the line fits
-- the buffer, stdin is ready for each of its characters, and the socket takes it.
pub read_stdin-Typed :
    (config : Config) (sockfd more c : ℕ) (text rest : Bytes) (s : Session)
    → Typed s.editor []
    → s.editor.buflen ≡ 65536
    → All IsPlain (c ∷ text)
    → length (c ∷ text) < 65536
    → IsPayload (c ∷ text)
    → s.input ≡ c ∷ (text ++ 13 ∷ rest)
    → length (c ∷ text) ≤ more
    → All IsLive (first_answers s.answers)
    → length (c ∷ text) + 1 ≤ sends (first_answers s.answers)
    → (t : Session) × (read_stdin config sockfd more s.input s ≡ goes t)
      × (t.wire ≡ s.wire ++ (c ∷ text ++ b'\n' ∷ []))
      × (t.input ≡ rest)
      × Typed t.editor []
      × (t.editor.history ≡ (history_add s.editor (c ∷ text)).0.history)
      × (s.can_save ≡ true → t.file ≡ some (history_text t.editor.history))
read_stdin-Typed config sockfd more c text rest s t size plain small payload read ready live
      enough =
    let (e, done, after, same) =
      feed_more-Typed (c ∷ text) [] rest (suc more) s t plain read (omega arith) (omega arith) in
    let entered : Session = record s { editor = e; input = rest } in
    let next : Session = remember (c ∷ text) (delivered (c ∷ text) entered) in
    let (wire, input, editor, file) = remember_lem (c ∷ text) (delivered (c ∷ text) entered) in
    let handled =
      handle_command-Typed config sockfd c text entered after small payload live enough in
    let kept = history_add-keeps e (c ∷ text) in
    let whole : length next.editor.buf ≡ 65536 =
      ap (λ x. length x.buf) editor
      ∙ ap length kept.0
      ∙ sym after.shows.buflen_is
      ∙ ap (λ f. f.buflen) same
      ∙ size in
    let (fresh, begun, prompt, history) = edit_restart-Typed next whole in
    (
      record next { editor = fresh },
      read_stdin-keys config sockfd more c (text ++ 13 ∷ rest) s read
          ∙ ap (after_keys config sockfd) done
          ∙ after_keys-line config sockfd entered next handled
          ∙ begun,
      wire,
      input,
      prompt,
      history
          ∙ ap (λ x. x.history) editor
          ∙ history_add-same e s.editor (c ∷ text) (ap (λ f. f.history) same)
              (ap (λ f. f.history_max_len) same),
      λ can. file can ∙ ap (λ hs. some (history_text hs)) (sym history),
    )
