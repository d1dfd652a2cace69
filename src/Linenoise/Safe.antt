-- ===== src/Linenoise/Safe.antt =====
-- The invariant of the editor for every character that may come.

use tcp_client.Base.{
  ℕ, ◌+◌, ◌%◌, ◌<◌, ◌≡◌, refl, sym, ap, ◌∙◌, arith, Bool, true, false, Option, none, some, List, [],
  ◌∷◌, ◌++◌, Bytes, codes, All, length, get_elem?-All, Bool-cases, inl, inr, if◌then◌else◌,
  drop-cons,
}
use tcp_client.Linenoise.Memory.{HasNoNul, poke, poke_parts, ◌>>=◌}
use tcp_client.Linenoise.State.{EscState, State, Output, print, puts, clear_screen}
use tcp_client.Linenoise.Keys.{
  abort_line, accept_line, end_completion, without_completion, offer, next_completion,
  show_completion, tab_with, handle_tab,
}
use tcp_client.Linenoise.Shows.{Shows, show_line-Gives, length-buf}
use tcp_client.Linenoise.Edits.{accept_line_lem}
use tcp_client.Linenoise.Recall.{c_string_buf}
use tcp_client.Linenoise.Ready.{IsReady, Keeps, Keeps-same, Keeps-eq, Gives-Keeps}

module _ {cells : ℕ} {s : State} (r : IsReady cells s) where
  same_text :
      (t : State)
      → t.buf ≡ s.buf
      → t.pos ≡ s.pos
      → t.len ≡ s.len
      → t.buflen ≡ s.buflen
      → Shows t r.left r.right
  same_text t b p l n = record {
    rest = r.shows.rest;
    buf_is = b ∙ r.shows.buf_is;
    pos_is = p ∙ r.shows.pos_is;
    len_is = l ∙ r.shows.len_is;
    buflen_is = n ∙ r.shows.buflen_is ∙ ap length (sym b);
    left_no_nul = r.shows.left_no_nul;
    right_no_nul = r.shows.right_no_nul;
  }

  pub set_esc-IsReady :
      (e : EscState) (n : ℕ) → IsReady cells (record s { esc_state = e; csi_num = n })
  set_esc-IsReady e n = record {
    left = r.left;
    right = r.right;
    shows = same_text (record s { esc_state = e; csi_num = n }) refl refl refl refl;
    sound = record {
      index_le = r.sound.index_le;
      lines = r.sound.lines;
      saved = r.sound.saved;
      completions = r.sound.completions;
      size_is = r.sound.size_is;
      completing = r.sound.completing;
      callback = r.sound.callback;
    };
  }

  pub print-IsReady : (o : List Output) → IsReady cells (print s o)
  print-IsReady o = record {
    left = r.left;
    right = r.right;
    shows = same_text (print s o) refl refl refl refl;
    sound = r.sound;
  }

  pub clear_screen-IsReady : IsReady cells (clear_screen s)
  unfolding clear_screen
  clear_screen-IsReady = print-IsReady _

  without_completion-IsReady : IsReady cells (without_completion s)
  without_completion-IsReady = record {
    left = r.left;
    right = r.right;
    shows = same_text (without_completion s) refl refl refl refl;
    sound = record {
      index_le = r.sound.index_le;
      lines = r.sound.lines;
      saved = r.sound.saved;
      completions = tt;
      size_is = r.sound.size_is;
      completing = λ e. absurd (ground arith);
      callback = r.sound.callback;
    };
  }

  pub end_completion-IsReady : IsReady cells (end_completion s)
  unfolding end_completion
  end_completion-IsReady = one_of s.in_completion
    where
      one_of : (b : Bool) → IsReady cells (if b then without_completion s else s)
      one_of true = without_completion-IsReady
      one_of false = r

  completion_set-IsReady :
      (b : Bool) (i : ℕ) (cs : List Bytes)
      → All HasNoNul cs
      → (b ≡ true → i < length cs)
      → IsReady cells (record s { in_completion = b; completion_idx = i; cached_completions = cs })
  completion_set-IsReady b i cs h lt =
      let t : State = record s { in_completion = b; completion_idx = i; cached_completions = cs } in
      record {
        left = r.left;
        right = r.right;
        shows = same_text t refl refl refl refl;
        sound = record {
          index_le = r.sound.index_le;
          lines = r.sound.lines;
          saved = r.sound.saved;
          completions = h;
          size_is = r.sound.size_is;
          completing = lt;
          callback = r.sound.callback;
        };
      }

  show_completion-Keeps :
      (old : State)
      → s.completion_idx < length s.cached_completions
      → Keeps cells (show_completion (some s) old)
  unfolding show_completion
  show_completion-Keeps old lt =
      let (c, e, hn) =
        get_elem?-All HasNoNul s.cached_completions s.completion_idx r.sound.completions lt in
      Keeps-eq (rw (e, ◌>>=◌)) (Gives-Keeps s (show_line-Gives c r.shows hn) r.sound)

module _ {cells : ℕ} {s : State} (r : IsReady cells s) where
  offer-Keeps :
      (cs : List Bytes)
      → All HasNoNul cs
      → s.in_completion ≡ false
      → Keeps cells (show_completion (offer s cs) s)
  offer-Keeps [] h e =
      unfold offer show_completion in
      Keeps-same (record s { cached_completions = [] }) refl
        (completion_set-IsReady r s.in_completion s.completion_idx [] tt
          (λ t. absurd (ground arith)))
  offer-Keeps (c ∷ rest) h e =
      unfold offer in
      show_completion-Keeps (completion_set-IsReady r true 0 (c ∷ rest) h (λ _. omega arith)) s
        (omega arith)

  first_completion :
      (g : Bytes → List Bytes)
      → s.in_completion ≡ false
      → next_completion s g ≡ some (offer s (g (r.left ++ r.right)))
  unfolding next_completion
  first_completion g e = ground (arith, c_string_buf r.shows)

  -- Tab once more chooses the next entry, and the first behind the last.
  next_entry-Keeps :
      (g : Bytes → List Bytes)
      → s.in_completion ≡ true
      → Keeps cells (next_completion s g >>= λ found. show_completion found s)
  next_entry-Keeps g e =
      let n = length s.cached_completions in
      let i = (s.completion_idx + 1) % n in
      let lt = r.sound.completing e in
      let inside : i < n = grind arith in
      let chosen : next_completion s g ≡ some (some (record s { completion_idx = i })) =
        unfold next_completion in ground arith in
      let ready =
        completion_set-IsReady r s.in_completion i s.cached_completions r.sound.completions
          (λ _. inside) in
      Keeps-eq (rw (chosen, ◌>>=◌)) (show_completion-Keeps ready s inside)

  tab_with-Keeps :
      (o : Option (Bytes → List Bytes)) → s.completion_callback ≡ o → Keeps cells (tab_with o s)
  unfolding tab_with
  tab_with-Keeps none e = Keeps-same s refl r
  tab_with-Keeps (some g) e = elim (Bool-cases s.in_completion) [
    | inl on ↦ next_entry-Keeps g on
    | inr off ↦
        Keeps-eq (rw (first_completion g off, ◌>>=◌))
          (offer-Keeps (g (r.left ++ r.right)) (r.sound.callback g e _) off)
  ]

  pub handle_tab-Keeps : Keeps cells (handle_tab s)
  unfolding handle_tab
  handle_tab-Keeps = tab_with-Keeps s.completion_callback refl

  pub accept_line-Keeps : Keeps cells (accept_line s)
  accept_line-Keeps =
      let t : State = print s (puts (13 ∷ 10 ∷ []) ∷ []) in
      (
        t,
        accept_line_lem r.shows,
        record {
          left = r.left;
          right = r.right;
          shows = same_text r t refl refl refl refl;
          sound = r.sound;
        },
      )

  -- Ctrl+C clears the line.
  pub abort_line-Keeps : Keeps cells (abort_line s)
  unfolding abort_line
  abort_line-Keeps =
      let (x, z, e) = drop-cons 0 s.buf (omega (arith, length-buf r.shows)) in
      let written : poke s.buf 0 0 ≡ some (0 ∷ z) = poke_parts [] x 0 z e refl in
      let cleared : State = record s { buf = 0 ∷ z; len = 0; pos = 0 } in
      let t : State = print cleared (puts (codes "^C" ++ 13 ∷ 10 ∷ []) ∷ []) in
      (
        t,
        rw (written, ◌>>=◌),
        record {
          left = [];
          right = [];
          shows = record {
            rest = z;
            buf_is = refl;
            pos_is = refl;
            len_is = omega arith;
            buflen_is = omega (arith, r.shows.buflen_is, ap length e);
            left_no_nul = tt;
            right_no_nul = tt;
          };
          sound = r.sound;
        },
      )
