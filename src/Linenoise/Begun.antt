-- ===== src/Linenoise/Begun.antt =====
-- linenoiseEditStart: an empty line, ready for keys.
use tcp_client.Base.{
  ℕ, ◌<◌, ◌≡◌, refl, ap, arith, false, Option, none, some, List, [], ◌∷◌, Bytes, All, length, ◌==◌,
  drop-cons,
}
use tcp_client.Linenoise.Memory.{HasNoNul, poke, poke_parts}
use tcp_client.Linenoise.State.{State, normal, text_of, edit_start}
use tcp_client.Linenoise.Shows.{Shows, Gives, redrawn}
use tcp_client.Linenoise.Ready.{Keeps, Gives-Keeps}

-- What linenoiseEditStart sets beside the text.
abbrev pub begun : State → ℕ → Option Bytes → State
begun s size prompt = record s {
  in_completion = false;
  completion_idx = 0;
  buflen = size;
  prompt = text_of prompt;
  plen = length (text_of prompt);
  history_index = length s.history;
  saved_line = none;
  esc_state = normal;
  csi_num = 0;
  cached_completions = [];
}

pub edit_start-Gives :
    (s : State) (array : Bytes) (size : ℕ) (prompt : Option Bytes)
    → 0 < size
    → length array ≡ size
    → Gives (edit_start s array size prompt) (begun s size prompt) [] []
unfolding edit_start
edit_start-Gives s array size prompt pos same =
    let (x, z, e) = drop-cons 0 array (omega arith) in
    let written : poke array 0 0 ≡ some (0 ∷ z) = poke_parts [] x 0 z e refl in
    let some_room : (size == 0) ≡ false = ground arith in
    let t : State = record (begun s size prompt) { buf = 0 ∷ z; pos = 0; len = 0 } in
    let shown : Shows t [] [] = record {
      rest = z;
      buf_is = refl;
      pos_is = refl;
      len_is = omega arith;
      buflen_is = omega (arith, ap length e);
      left_no_nul = tt;
      right_no_nul = tt;
    } in
    let (s', done, v, k) = redrawn (begun s size prompt) t [] [] shown refl in
    (s', ground arith, v, k)

-- The completions that a callback gives are C strings.
abbrev pub IsSoundCallback : Option (Bytes → List Bytes) → Type 0
IsSoundCallback o = (g : Bytes → List Bytes) → o ≡ some g → (typed : Bytes) → All HasNoNul (g typed)

pub edit_start-IsReady :
    (s : State) (array : Bytes) (size : ℕ) (prompt : Option Bytes)
    → 0 < size
    → length array ≡ size
    → All HasNoNul s.history
    → IsSoundCallback s.completion_callback
    → Keeps size (edit_start s array size prompt)
edit_start-IsReady s array size prompt pos same lines callback =
    Gives-Keeps (begun s size prompt) (edit_start-Gives s array size prompt pos same) (record {
      size_is = refl;
      index_le = omega arith;
      lines = lines;
      saved = tt;
      completions = tt;
      completing = λ e. absurd (ground arith);
      callback = callback;
    })
