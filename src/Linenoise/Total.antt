-- ===== src/Linenoise/Total.antt =====
-- The invariant of the editor for linenoiseEditFeed as a whole.
use tcp_client.Base.{
  ℕ, ◌+◌, ◌-◌, ◌*◌, ◌≤◌, ◌<◌, ◌≡◌, refl, ap, ◌∙◌, arith, Bool, true, false, ◌||◌, Option, none,
  some, ltb, ◌==◌, if◌then◌else◌,
}
use tcp_client.Linenoise.State.{
  EscState, normal, esc, csi, csi_num_state, ss3, win_ext, State, Reply, again, line, stop,
}
use tcp_client.Linenoise.Keys.{end_completion}
use tcp_client.Linenoise.Ready.{
  IsReady, Keeps, Keeps-same, handle_up-Keeps, handle_down-Keeps, handle_left-Keeps,
  handle_right-Keeps, handle_home-Keeps, handle_end-Keeps, handle_delete-Keeps,
  handle_backspace-Keeps, kill_line-Keeps, kill_to_end-Keeps, edit_redraw-Keeps, insert_char-Keeps,
}
use tcp_client.Linenoise.Safe.{
  set_esc-IsReady, clear_screen-IsReady, end_completion-IsReady, handle_tab-Keeps,
  accept_line-Keeps, abort_line-Keeps,
}
use tcp_client.Linenoise.Feed.{
  Key, eof, char, Fed, return, to_normal, feed_esc, arrow_key, feed_csi, int_max, tilde_key,
  feed_csi_num, feed_ss3, win_key, feed_win_ext, edit_key, feed_plain, feed_normal, feed_in,
  feed_key, edit_feed,
}

abbrev pub FedReady : ℕ → Fed → Type 0
FedReady cells o = (s' : State) × (r : Reply) × (o ≡ some (s', r)) × IsReady cells s'

-- An unsigned char, or the end of the input.
abbrev pub IsKey : Key → Type 0
IsKey eof = Unit
IsKey (char c) = c < 256

-- A digit keeps the number of an escape sequence an int.
abbrev pub CsiFits : State → Key → Type 0
CsiFits s eof = Unit
CsiFits s (char c) = b'0' ≤ c → c ≤ b'9' → s.csi_num * 10 + (c - b'0') ≤ int_max

return-FedReady :
    {cells : ℕ} {o : Option State} (r : Reply) → Keeps cells o → FedReady cells (return r o)
return-FedReady r (s', e, ready) = (s', r, ap (return r) e, ready)

if_Keeps :
    {cells : ℕ} {x y : Option State} (b : Bool)
    → (b ≡ true → Keeps cells x)
    → Keeps cells y
    → Keeps cells (if b then x else y)
if_Keeps true h k = h refl
if_Keeps false h k = k

if_FedReady :
    {cells : ℕ} {x y : Fed} (b : Bool)
    → (b ≡ true → FedReady cells x)
    → FedReady cells y
    → FedReady cells (if b then x else y)
if_FedReady true h k = h refl
if_FedReady false h k = k

module _ {cells : ℕ} {s : State} (r : IsReady cells s) where
  stays :
      (e : EscState) (n : ℕ)
      → FedReady cells (some (record s { esc_state = e; csi_num = n }, again))
  stays e n = (record s { esc_state = e; csi_num = n }, again, refl, set_esc-IsReady r e n)

  arrow_key-Keeps : (c : ℕ) → Keeps cells (arrow_key s c)
  unfolding arrow_key
  arrow_key-Keeps c =
      if_Keeps _ (λ _. handle_up-Keeps r)
        (if_Keeps _ (λ _. handle_down-Keeps r)
          (if_Keeps _ (λ _. handle_right-Keeps r)
            (if_Keeps _ (λ _. handle_left-Keeps r)
              (if_Keeps _ (λ _. handle_home-Keeps r)
                (if_Keeps _ (λ _. handle_end-Keeps r) (Keeps-same s refl r))))))

  tilde_key-Keeps : Keeps cells (tilde_key s)
  unfolding tilde_key
  tilde_key-Keeps =
      if_Keeps _ (λ _. handle_delete-Keeps r)
        (if_Keeps _ (λ _. handle_home-Keeps r)
          (if_Keeps _ (λ _. handle_end-Keeps r) (Keeps-same s refl r)))

  win_key-Keeps : (c : ℕ) → Keeps cells (win_key s c)
  unfolding win_key
  win_key-Keeps c =
      if_Keeps _ (λ _. handle_up-Keeps r)
        (if_Keeps _ (λ _. handle_down-Keeps r)
          (if_Keeps _ (λ _. handle_left-Keeps r)
            (if_Keeps _ (λ _. handle_right-Keeps r)
              (if_Keeps _ (λ _. handle_home-Keeps r)
                (if_Keeps _ (λ _. handle_end-Keeps r)
                  (if_Keeps _ (λ _. handle_delete-Keeps r) (Keeps-same s refl r)))))))

  edit_key-Keeps : (c : ℕ) → c < 256 → Keeps cells (edit_key s c)
  unfolding edit_key
  edit_key-Keeps c small =
      if_Keeps _ (λ _. handle_backspace-Keeps r)
        (if_Keeps _ (λ _. kill_line-Keeps r)
          (if_Keeps _ (λ _. kill_to_end-Keeps r)
            (if_Keeps _ (λ _. handle_home-Keeps r)
              (if_Keeps _ (λ _. handle_end-Keeps r)
                (if_Keeps _ (λ _. edit_redraw-Keeps (clear_screen-IsReady r))
                  (if_Keeps _ (λ h. insert_char-Keeps r c small (ground arith))
                    (Keeps-same s refl r)))))))

  feed_plain-FedReady : (c : ℕ) → c < 256 → FedReady cells (feed_plain s c)
  unfolding feed_plain
  feed_plain-FedReady c small =
      if_FedReady (c == 13 || c == 10) (λ _. return-FedReady line (accept_line-Keeps r))
        (if_FedReady (c == 3) (λ _. return-FedReady stop (abort_line-Keeps r))
          (if_FedReady (c == 4)
            (λ _.
              if_FedReady (s.len == 0) (λ _. (s, stop, refl, r))
                (return-FedReady again (handle_delete-Keeps r)))
            (return-FedReady again (edit_key-Keeps c small))))

module _ {cells : ℕ} {s : State} (r : IsReady cells s) where
  normal_again : IsReady cells (to_normal s)
  normal_again = set_esc-IsReady r normal s.csi_num

  feed_esc-FedReady : (c : ℕ) → FedReady cells (feed_esc s c)
  unfolding feed_esc
  feed_esc-FedReady c =
      if_FedReady _ (λ _. stays r csi s.csi_num)
        (if_FedReady _ (λ _. stays r ss3 s.csi_num) (stays r normal s.csi_num))

  feed_csi-FedReady : (c : ℕ) → FedReady cells (feed_csi s c)
  unfolding feed_csi
  feed_csi-FedReady c =
      if_FedReady _ (λ _. stays r csi_num_state (c - b'0'))
        (return-FedReady again (arrow_key-Keeps normal_again c))

  feed_csi_num-FedReady : (c : ℕ) → CsiFits s (char c) → FedReady cells (feed_csi_num s c)
  unfolding feed_csi_num
  feed_csi_num-FedReady c fits =
      let n : ℕ = s.csi_num * 10 + (c - b'0') in
      if_FedReady _ (λ _. return-FedReady again (tilde_key-Keeps normal_again))
        (if_FedReady _
          (λ h.
            let small : ltb int_max n ≡ false = ground arith in
            if_false small (stays r s.esc_state n))
          (stays r normal s.csi_num))
    where
      if_false :
          {b : Bool} {x : Fed}
          → b ≡ false
          → FedReady cells x
          → FedReady cells (if b then none else x)
      if_false e k = rw e k

  feed_normal-FedReady : (c : ℕ) → c < 256 → FedReady cells (feed_normal s c)
  unfolding feed_normal
  feed_normal-FedReady c small =
      let ended = end_completion-IsReady r in
      if_FedReady _ (λ _. stays ended esc (end_completion s).csi_num)
        (if_FedReady _ (λ _. stays ended win_ext (end_completion s).csi_num)
          (if_FedReady _ (λ _. return-FedReady again (handle_tab-Keeps r))
            (feed_plain-FedReady ended c small)))

  feed_in-FedReady :
      (e : EscState) (c : ℕ)
      → c < 256
      → (e ≡ csi_num_state → CsiFits s (char c))
      → FedReady cells (feed_in e s c)
  unfolding feed_in
  feed_in-FedReady esc c small fits = feed_esc-FedReady c
  feed_in-FedReady csi c small fits = feed_csi-FedReady c
  feed_in-FedReady csi_num_state c small fits = feed_csi_num-FedReady c (fits refl)
  feed_in-FedReady ss3 c small fits =
      unfold feed_ss3 in return-FedReady again (arrow_key-Keeps normal_again c)
  feed_in-FedReady win_ext c small fits =
      unfold feed_win_ext in return-FedReady again (win_key-Keeps normal_again c)
  feed_in-FedReady normal c small fits = feed_normal-FedReady c small

  feed_key-FedReady :
      (k : Key)
      → IsKey k
      → (s.esc_state ≡ csi_num_state → CsiFits s k)
      → FedReady cells (feed_key s k)
  unfolding feed_key
  feed_key-FedReady eof h fits = (s, stop, refl, r)
  feed_key-FedReady (char c) h fits = feed_in-FedReady s.esc_state c h fits

-- Whatever character comes to an editor that is ready, linenoiseEditFeed returns, makes no access
-- outside the line buffer, the history and the completions, and leaves the editor ready, its buffer of
-- the same size; within the number of an escape sequence, provided that a digit keeps it an int.
pub edit_feed-IsReady :
    {cells : ℕ} {s : State} (k : Key)
    → IsReady cells s
    → IsKey k
    → (s.esc_state ≡ csi_num_state → CsiFits s k)
    → (s' : State) × (r : Reply) × (edit_feed s k ≡ some (s', r)) × IsReady cells s'
unfolding edit_feed
edit_feed-IsReady {s = s} k ready h fits =
    if_FedReady _ (λ _. (s, again, refl, ready)) (feed_key-FedReady ready k h fits)

-- A digit that takes the number of an escape sequence past the largest int is a fault.
pub edit_feed_overflow :
    (s : State) (c : ℕ)
    → 0 < s.buflen
    → s.esc_state ≡ csi_num_state
    → b'0' ≤ c
    → c ≤ b'9'
    → int_max < s.csi_num * 10 + (c - b'0')
    → edit_feed s (char c) ≡ none
unfolding edit_feed feed_key
edit_feed_overflow s c room in_csi low high over =
    let some_room : (s.buflen == 0) ≡ false = ground arith in
    let overflows : feed_csi_num s c ≡ none = unfold feed_csi_num in ground arith in
    let stays : feed_in csi_num_state s c ≡ feed_csi_num s c = unfold feed_in in refl in
    rw some_room (ap (λ x. feed_in x s c) in_csi ∙ stays ∙ overflows)
