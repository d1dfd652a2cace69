-- ===== src/Linenoise/Sequences.antt =====
-- Keys that come as a sequence of characters, beside what they do to a line with a cursor.
use tcp_client.Base.{
  Bool, true, false, if◌then◌else◌, ℕ, ◌≡◌, refl, ap, ◌∙◌, Option, some, [], ◌∷◌, Bytes,
}
use tcp_client.Linenoise.State.{
  EscState, normal, esc, ss3, win_ext, csi, csi_num_state, State, again,
}
use tcp_client.Linenoise.Shows.{Gives}
use tcp_client.Linenoise.Feed.{
  return, feed_esc, feed_csi, feed_csi_num, feed_ss3, feed_win_ext, feed_normal, feed_in,
}
use tcp_client.Linenoise.Plain.{edit_feed_in, edit_feed_normal, end_completion_off}
use tcp_client.Linenoise.Line.{Line, back}
use tcp_client.Linenoise.Controls.{Edits, feed_keys, feed_keys-cons, Runs, kept, some_room}

-- The state within an escape sequence.
abbrev pub in_state : State → EscState → ℕ → State
in_state s e n = record s { esc_state = e; csi_num = n }

module _ {size : ℕ} {s : State} {l : Line} (d : Edits size s l) where
  to_esc : (keys : Bytes) → feed_keys s (27 ∷ keys) ≡ feed_keys (in_state s esc s.csi_num) keys
  unfolding feed_normal
  to_esc keys = feed_keys-cons s _ 27 keys (
      edit_feed_normal s 27 d.normal_state (some_room d)
      ∙ ap (λ (u : State). some (record u { esc_state = esc }, again))
          (end_completion_off s d.no_completion))

  to_ss3 :
      (keys : Bytes) → feed_keys s (27 ∷ b'O' ∷ keys) ≡ feed_keys (in_state s ss3 s.csi_num) keys
  unfolding feed_in feed_esc
  to_ss3 keys =
      to_esc (b'O' ∷ keys)
      ∙ feed_keys-cons _ _ b'O' keys
          (edit_feed_in (in_state s esc s.csi_num) esc b'O' refl (some_room d))

  -- The byte 0xE0 or 0.
  to_win_ext :
      (zero_byte : Bool) (keys : Bytes)
      → feed_keys s ((if zero_byte then 0 else 0xE0) ∷ keys)
        ≡ feed_keys (in_state s win_ext s.csi_num) keys
  unfolding feed_normal
  to_win_ext true keys = feed_keys-cons s _ 0 keys (
      edit_feed_normal s 0 d.normal_state (some_room d)
      ∙ ap (λ (u : State). some (record u { esc_state = win_ext }, again))
          (end_completion_off s d.no_completion))
  to_win_ext false keys = feed_keys-cons s _ 0xE0 keys (
      edit_feed_normal s 0xE0 d.normal_state (some_room d)
      ∙ ap (λ (u : State). some (record u { esc_state = win_ext }, again))
          (end_completion_off s d.no_completion))

  to_csi :
      (keys : Bytes) → feed_keys s (27 ∷ b'[' ∷ keys) ≡ feed_keys (in_state s csi s.csi_num) keys
  unfolding feed_in feed_esc
  to_csi keys =
      to_esc (b'[' ∷ keys)
      ∙ feed_keys-cons _ _ b'[' keys
          (edit_feed_in (in_state s esc s.csi_num) esc b'[' refl (some_room d))

  -- Behind the sequence the editor is as it was.
  pub after_csi : (n : ℕ) → Edits size (in_state s normal n) l
  after_csi n = record {
    shows = record {
      rest = d.shows.rest;
      buf_is = d.shows.buf_is;
      pos_is = d.shows.pos_is;
      len_is = d.shows.len_is;
      buflen_is = d.shows.buflen_is;
      left_no_nul = d.shows.left_no_nul;
      right_no_nul = d.shows.right_no_nul;
    };
    normal_state = refl;
    no_completion = d.no_completion;
    size_is = d.size_is;
  }

  -- A letter behind ESC [.
  pub letter-Runs :
      (c : ℕ) (o : Option State) (b a : Bytes)
      → feed_csi (in_state s csi s.csi_num) c ≡ return again o
      → Gives o (in_state s normal s.csi_num) (back b) a
      → Runs size s (27 ∷ b'[' ∷ c ∷ []) (record { before = b; behind = a })
  unfolding feed_in
  letter-Runs c o b a fed (s', e, v, k) = (
    s',
    λ rest.
        to_csi (c ∷ rest)
        ∙ feed_keys-cons _ s' c rest (
            edit_feed_in (in_state s csi s.csi_num) csi c refl (some_room d)
            ∙ fed
            ∙ ap (return again) e),
    kept (after_csi s.csi_num) b a v k,
  )

  -- A letter behind ESC O.
  pub application-Runs :
      (c : ℕ) (o : Option State) (b a : Bytes)
      → feed_ss3 (in_state s ss3 s.csi_num) c ≡ return again o
      → Gives o (in_state s normal s.csi_num) (back b) a
      → Runs size s (27 ∷ b'O' ∷ c ∷ []) (record { before = b; behind = a })
  unfolding feed_in
  application-Runs c o b a fed (s', e, v, k) = (
    s',
    λ rest.
        to_ss3 (c ∷ rest)
        ∙ feed_keys-cons _ s' c rest (
            edit_feed_in (in_state s ss3 s.csi_num) ss3 c refl (some_room d)
            ∙ fed
            ∙ ap (return again) e),
    kept (after_csi s.csi_num) b a v k,
  )

  -- A key of Windows.
  pub windows-Runs :
      (zero_byte : Bool) (c : ℕ) (o : Option State) (b a : Bytes)
      → feed_win_ext (in_state s win_ext s.csi_num) c ≡ return again o
      → Gives o (in_state s normal s.csi_num) (back b) a
      → Runs size s ((if zero_byte then 0 else 0xE0) ∷ c ∷ []) (record { before = b; behind = a })
  unfolding feed_in
  windows-Runs zero_byte c o b a fed (s', e, v, k) = (
    s',
    λ rest.
        to_win_ext zero_byte (c ∷ rest)
        ∙ feed_keys-cons _ s' c rest (
            edit_feed_in (in_state s win_ext s.csi_num) win_ext c refl (some_room d)
            ∙ fed
            ∙ ap (return again) e),
    kept (after_csi s.csi_num) b a v k,
  )

  -- A digit between ESC [ and ~.
  pub number-Runs :
      (c n : ℕ) (o : Option State) (b a : Bytes)
      → feed_csi (in_state s csi s.csi_num) c ≡ some (in_state s csi_num_state n, again)
      → feed_csi_num (in_state s csi_num_state n) b'~' ≡ return again o
      → Gives o (in_state s normal n) (back b) a
      → Runs size s (27 ∷ b'[' ∷ c ∷ b'~' ∷ []) (record { before = b; behind = a })
  unfolding feed_in
  number-Runs c n o b a digit ended (s', e, v, k) = (
    s',
    λ rest.
        to_csi (c ∷ b'~' ∷ rest)
        ∙ feed_keys-cons _ _ c (b'~' ∷ rest)
            (edit_feed_in (in_state s csi s.csi_num) csi c refl (some_room d) ∙ digit)
        ∙ feed_keys-cons _ s' b'~' rest (
            edit_feed_in (in_state s csi_num_state n) csi_num_state b'~' refl (some_room d)
            ∙ ended
            ∙ ap (return again) e),
    kept (after_csi n) b a v k,
  )
