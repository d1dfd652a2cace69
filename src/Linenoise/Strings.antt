-- ===== src/Linenoise/Strings.antt =====
-- The lines of the history as C strings, whatever is added and whatever file is loaded.
use tcp_client.Base.{
  ℕ, ◌-◌, ◌≡◌, refl, sym, ap, ◌∙◌, arith, Bool, true, false, ◌||◌, Option, none, some, List, [],
  ◌∷◌, Bytes, All, All-append, All-take, All-drop, length, take, drop, leb, ◌==◌, if◌then◌else◌,
  Bool-cases, inl, inr,
}
use tcp_client.Linenoise.Memory.{HasNoNul}
use tcp_client.Linenoise.State.{State}
use tcp_client.Linenoise.History.{
  history_set_max_len, repeats_last, history_push, history_add, before_nul, strip_newlines,
  add_lines, history_load,
}

before_nul-HasNoNul : (s : Bytes) → HasNoNul (before_nul s)
unfolding before_nul
before_nul-HasNoNul [] = tt
before_nul-HasNoNul (c ∷ s) = elim (Bool-cases (c == 0)) [
  | inl e ↦ rw e tt
  | inr e ↦ rw e (ground arith, before_nul-HasNoNul s)
]

strip_newlines-HasNoNul : (s : Bytes) → HasNoNul s → HasNoNul (strip_newlines s)
unfolding strip_newlines
strip_newlines-HasNoNul [] h = tt
strip_newlines-HasNoNul (c ∷ s) (hc, hs) = kept (strip_newlines s) (strip_newlines-HasNoNul s hs)
  where
    one : (b : Bool) → HasNoNul (if b then [] else c ∷ [])
    one true = tt
    one false = (hc, tt)

    kept :
        (t : Bytes)
        → HasNoNul t
        → HasNoNul
            (elim t [ [] ↦ if c == b'\r' || c == b'\n' then [] else c ∷ [] | d ∷ u ↦ c ∷ d ∷ u ])
    kept [] h = one (c == b'\r' || c == b'\n')
    kept (d ∷ u) h = (hc, h)

history_push-HasNoNul :
    (max : ℕ) (h : List Bytes) (line : Bytes)
    → All HasNoNul h
    → HasNoNul line
    → All HasNoNul (history_push max h line)
unfolding history_push
history_push-HasNoNul max h line hs hl = elim (Bool-cases (leb max (length h))) [
  | inl full ↦ rw full (
      All-append HasNoNul (take (max - 1) (drop 1 h)) (line ∷ drop max h)
        (All-take HasNoNul (max - 1) (drop 1 h) (All-drop HasNoNul 1 h hs))
        (hl, All-drop HasNoNul max h hs))
  | inr room ↦ rw room (All-append HasNoNul h (line ∷ []) hs (hl, tt))
]

pub history_add-HasNoNul :
    (s : State) (line : Bytes)
    → All HasNoNul s.history
    → HasNoNul line
    → All HasNoNul (history_add s line).0.history
unfolding history_add
history_add-HasNoNul s [] hs hl = hs
history_add-HasNoNul s (c ∷ line) hs hl =
    ground (arith, history_push-HasNoNul s.history_max_len s.history (c ∷ line) hs hl)

add_lines-HasNoNul :
    (s : State) (ls : List Bytes) → All HasNoNul s.history → All HasNoNul (add_lines s ls).history
unfolding add_lines
add_lines-HasNoNul s [] hs = hs
add_lines-HasNoNul s (l ∷ ls) hs =
    add_lines-HasNoNul (history_add s (strip_newlines (before_nul l))).0 ls
      (history_add-HasNoNul s _ hs (strip_newlines-HasNoNul _ (before_nul-HasNoNul l)))

pub history_load-HasNoNul :
    (s : State) (file : Option Bytes)
    → All HasNoNul s.history
    → All HasNoNul (history_load s file).0.history
unfolding history_load
history_load-HasNoNul s none hs = hs
history_load-HasNoNul s (some file) hs = add_lines-HasNoNul s _ hs

pub history_set_max_len-HasNoNul :
    (s : State) (len : ℕ)
    → All HasNoNul s.history
    → All HasNoNul (history_set_max_len s len).0.history
unfolding history_set_max_len
history_set_max_len-HasNoNul s len hs =
    ground (arith, All-drop HasNoNul (length s.history - len) s.history hs)

-- What else the history functions keep.
pub history_add-keeps :
    (s : State) (line : Bytes)
    → ((history_add s line).0.buf ≡ s.buf)
      × ((history_add s line).0.completion_callback ≡ s.completion_callback)
unfolding history_add
history_add-keeps s [] = (refl, refl)
history_add-keeps s (c ∷ line) = ground arith

add_lines-buf : (s : State) (ls : List Bytes) → (add_lines s ls).buf ≡ s.buf
unfolding add_lines
add_lines-buf s [] = refl
add_lines-buf s (l ∷ ls) =
    let t = strip_newlines (before_nul l) in
    add_lines-buf (history_add s t).0 ls ∙ (history_add-keeps s t).0

pub history_load-buf :
    (s : State) (len : ℕ) (file : Option Bytes)
    → (history_load (history_set_max_len s len).0 file).0.buf ≡ s.buf
unfolding history_load history_set_max_len
history_load-buf s len none = ground arith
history_load-buf s len (some file) = add_lines-buf (history_set_max_len s len).0 _ ∙ ground arith

-- The history with a line added, by its bound.
abbrev added : ℕ → List Bytes → Bytes → List Bytes
added max hs [] = hs
added max hs (c ∷ line) =
    if max == 0
    then hs
    else if repeats_last hs (c ∷ line)
    then hs
    else history_push max hs (c ∷ line)

history_add-added :
    (s : State) (line : Bytes)
    → (history_add s line).0.history ≡ added s.history_max_len s.history line
unfolding history_add
history_add-added s [] = refl
history_add-added s (c ∷ line) = ground arith

-- Two states with the same history and bound add a line alike.
pub history_add-same :
    (s t : State) (line : Bytes)
    → s.history ≡ t.history
    → s.history_max_len ≡ t.history_max_len
    → (history_add s line).0.history ≡ (history_add t line).0.history
history_add-same s t line h m =
    history_add-added s line
    ∙ ap (λ max. added max s.history line) m
    ∙ ap (λ hs. added t.history_max_len hs line) h
    ∙ sym (history_add-added t line)
