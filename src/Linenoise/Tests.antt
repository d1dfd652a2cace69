-- ===== src/Linenoise/Tests.antt =====
-- The line editor on concrete lines.
use tcp_client.Base.{
  List, ℕ, ◌≡◌, refl, arith, false, none, some, [], ◌∷◌, ◌++◌, Bytes, codes, All, take, replicate,
}
use tcp_client.Linenoise.Memory.{HasNoNul, ◌>>=◌}
use tcp_client.Linenoise.State.{State, Reply, normal, csi_num_state}
use tcp_client.Linenoise.Shows.{Shows}
use tcp_client.Linenoise.History.{history_load, history_save, history_free}
use tcp_client.Linenoise.Keys.{handle_up, handle_down, line_below}
use tcp_client.Linenoise.Feed.{char, edit_feed}
use tcp_client.Linenoise.Recall.{handle_down-handle_up}
use tcp_client.Linenoise.Ready.{IsReady}
use tcp_client.Linenoise.Total.{CsiFits, edit_feed-IsReady}
use tcp_client.Linenoise.Plain.{IsPlain}
use tcp_client.Linenoise.Typing.{linenoise, linenoise-typed}
use tcp_client.Linenoise.Line.{
  Command, insert, left, backspace, delete, home, last, Way, control, letter, windows, all_keys,
  apply_all,
}
use tcp_client.Linenoise.Controls.{Edits, feed_keys}
use tcp_client.Linenoise.Refines.{feed_keys-Edits}
use tcp_client.Linenoise.Recorded.{IsHistoryLine, NoRepeat, history_load-history_save}

abbrev with_index : ℕ → State
with_index i = record {
  in_completion = false;
  completion_idx = 0;
  buf = b'h' ∷ b'i' ∷ 0 ∷ 7 ∷ 7 ∷ 7 ∷ [];
  buflen = 6;
  prompt = codes "> ";
  plen = 2;
  pos = 1;
  len = 2;
  history_index = i;
  esc_state = normal;
  csi_num = 0;
  history = codes "NC" ∷ codes "quit" ∷ [];
  history_max_len = 2;
  saved_line = none;
  cached_completions = [];
  completion_callback = none;
  out = [];
}

-- "hi" with the cursor behind the h, and two lines of history.
abbrev editing : State
editing = with_index 2

with_index-Shows : (i : ℕ) → Shows (with_index i) (b'h' ∷ []) (b'i' ∷ [])
with_index-Shows i = record {
  rest = 7 ∷ 7 ∷ 7 ∷ [];
  buf_is = refl;
  pos_is = refl;
  len_is = refl;
  buflen_is = refl;
  left_no_nul = (omega arith, tt);
  right_no_nul = (omega arith, tt);
}

nc-HasNoNul : HasNoNul (codes "NC")
nc-HasNoNul = (omega arith, (omega arith, tt))

quit-HasNoNul : HasNoNul (codes "quit")
quit-HasNoNul = (omega arith, (omega arith, (omega arith, (omega arith, tt))))

editing-IsReady : IsReady 6 editing
editing-IsReady = record {
  left = b'h' ∷ [];
  right = b'i' ∷ [];
  shows = with_index-Shows 2;
  sound = record {
    size_is = refl;
    index_le = omega arith;
    lines = (nc-HasNoNul, (quit-HasNoNul, tt));
    saved = tt;
    completions = tt;
    completing = λ e. ground arith;
    callback = λ g e typed. ground arith;
  };
}

zero_fits : editing.esc_state ≡ csi_num_state → CsiFits editing (char b'x')
zero_fits e low high = omega arith

edit_feed-IsReady_example :
    (s' : State) × (r : Reply) × (edit_feed editing (char b'x') ≡ some (s', r)) × IsReady 6 s'
edit_feed-IsReady_example = edit_feed-IsReady (char b'x') editing-IsReady (omega arith) zero_fits

ok-IsPlain : All IsPlain (codes "ok")
ok-IsPlain = (
  (omega arith, omega arith, omega arith, omega arith),
  ((omega arith, omega arith, omega arith, omega arith), tt),
)

abbrev array : Bytes
array = replicate 4096 7

linenoise-typed_example :
    (s' : State) × (linenoise editing array (some (codes "> ")) (codes "ok" ++ 13 ∷ codes "more")
      ≡ some (s', some (take 4095 (codes "ok"))))
linenoise-typed_example =
    linenoise-typed editing array (some (codes "> ")) (codes "ok") (codes "more") refl ok-IsPlain

editing-Edits : Edits 6 editing (record { before = b'h' ∷ []; behind = b'i' ∷ [] })
editing-Edits = record {
  shows = with_index-Shows 2;
  normal_state = refl;
  no_completion = refl;
  size_is = refl;
}

-- An x, Left, Backspace, Delete, and Home and End behind ESC [ and of Windows.
abbrev commands : List (Way × Command)
commands =
    (control, insert b'x')
    ∷ (letter, left)
    ∷ (control, backspace)
    ∷ (letter, delete)
    ∷ (letter, home)
    ∷ (windows, last)
    ∷ []

feed_keys-Edits_example :
    (s' : State) × (feed_keys editing (all_keys commands) ≡ some s')
    × Edits 6 s' (apply_all 5 commands (record { before = b'h' ∷ []; behind = b'i' ∷ [] }))
feed_keys-Edits_example =
    feed_keys-Edits 6 commands editing _
      ((omega arith, omega arith, omega arith, omega arith), (tt, (tt, (tt, (tt, (tt, tt))))))
      editing-Edits

below : line_below (with_index 0) ≡ some (codes "quit")
unfolding line_below
below = refl

handle_down-handle_up_example :
    (s' : State) × ((handle_up editing >>= handle_down) ≡ some s')
    × Shows s' (codes "hi") []
    × (s'.history_index ≡ editing.history_index)
handle_down-handle_up_example =
    handle_down-handle_up (with_index-Shows 2) refl (omega arith) (nc-HasNoNul, (quit-HasNoNul, tt))

lines-IsHistoryLine : All IsHistoryLine editing.history
lines-IsHistoryLine = (
  (
    λ e. ground arith,
    omega arith,
    nc-HasNoNul,
    (omega arith, (omega arith, tt)),
    (omega arith, (omega arith, tt)),
  ),
  (
    (
      λ e. ground arith,
      omega arith,
      quit-HasNoNul,
      (omega arith, (omega arith, (omega arith, (omega arith, tt)))),
      (omega arith, (omega arith, (omega arith, (omega arith, tt)))),
    ),
    tt,
  ),
)

lines-NoRepeat : NoRepeat editing.history
lines-NoRepeat = (λ e. ground (arith, e), tt)

history_load-history_save_example :
    (history_load (history_free editing) (some (history_save editing))).0.history ≡ editing.history
history_load-history_save_example =
    history_load-history_save editing lines-IsHistoryLine lines-NoRepeat (omega arith)
