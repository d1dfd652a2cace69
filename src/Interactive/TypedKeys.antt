-- ===== src/Interactive/TypedKeys.antt =====
-- The characters of a line that is typed at the terminal, fed to the editor one by one.
use tcp_client.Base.{
  ℕ, zero, suc, ◌+◌, ◌-◌, ◌<◌, ◌≡◌, refl, ap, ◌∙◌, arith, some, [], ◌∷◌, ◌++◌, append-nil,
  append_assoc, Bytes, All, length, length-append, take, take-all,
}
use tcp_client.Linenoise.State as Linenoise
use tcp_client.Linenoise.State.{again, line, edit_start}
use tcp_client.Linenoise.Shows.{frame}
use tcp_client.Linenoise.Plain.{IsPlain, Typed, Typed-char, Typed-enter}
use tcp_client.Linenoise.Feed.{char, edit_feed}
use tcp_client.Interactive.Handler.{Session}
use tcp_client.Interactive.Terminal.{keyed, fed, feed_char, feed_next, key_round, feed_more}

feed_more-line : (n : ℕ) (s : Session) → feed_more n (keyed line s) ≡ keyed line s
unfolding feed_more key_round
feed_more-line zero s = refl
feed_more-line (suc n) s = feed_more-line n s

-- A round of the loop that reads a character.
feed_more-char :
    (n c : ℕ) (input : Bytes) (s : Session) (r : Linenoise.Reply) (e : Linenoise.State)
    → s.input ≡ c ∷ input
    → edit_feed s.editor (char c) ≡ some (e, r)
    → feed_more (suc n) (keyed again s)
      ≡ feed_more n (keyed r (record s { editor = e; input = input }))
unfolding feed_more key_round
feed_more-char n c input s r e read same =
    ap (λ i. feed_more n (feed_next i s)) read
    ∙ ap (feed_more n)
        (unfold feed_next feed_char fed in ap (λ o. fed o (record s { input = input })) same)

-- The characters are fed while stdin is ready, and the line is done.
pub feed_more-Typed :
    (typed text rest : Bytes) (n : ℕ) (s : Session)
    → Typed s.editor text
    → All IsPlain typed
    → s.input ≡ typed ++ 13 ∷ rest
    → length typed < n
    → length text + length typed < s.editor.buflen
    → (e : Linenoise.State) × (feed_more n (keyed again s)
        ≡ keyed line (record s { editor = e; input = rest }))
      × Typed e (text ++ typed)
      × (frame e ≡ frame s.editor)
feed_more-Typed [] text rest zero s t plain read ready room = absurd (omega arith)
feed_more-Typed [] text rest (suc n) s t plain read ready room =
    let (e, done, after, same) = Typed-enter t in
    (e, feed_more-char n 13 rest s line e read done ∙ feed_more-line n _, rw append-nil after, same)
feed_more-Typed (c ∷ typed) text rest zero s t plain read ready room = absurd (omega arith)
feed_more-Typed (c ∷ typed) text rest (suc n) s t (hc, plain) read ready room =
    let (u, fed_one, tu, same) = Typed-char text c hc t in
    let next : Session = record s { editor = u; input = typed ++ 13 ∷ rest } in
    let longer = length-append text (c ∷ []) in
    let whole : take (s.editor.buflen - 1) (text ++ c ∷ []) ≡ text ++ c ∷ [] =
      take-all (s.editor.buflen - 1) (text ++ c ∷ []) (omega arith) in
    let size = ap (λ f. f.buflen) same in
    let (e, done, after, kept) =
      feed_more-Typed typed (text ++ c ∷ []) rest n next (rw whole at tu) plain refl (omega arith)
        (omega arith) in
    (
      e,
      feed_more-char n c (typed ++ 13 ∷ rest) s again u read fed_one ∙ done,
      rw (append_assoc text (c ∷ []) typed) at after,
      kept ∙ same,
    )
