-- ===== src/Linenoise/OwnedHistory.antt =====
-- The owners of blocks in linenoiseHistoryAdd and linenoiseHistorySetMaxLen.
use tcp_client.Base.{
  ℕ, zero, suc, take-all, ◌+◌, ◌-◌, ◌≤◌, ◌<◌, ◌≡◌, refl, arith, Bool, true, false, ◌||◌, Option,
  none, some, List, [], ◌∷◌, ◌++◌, length, length-append, length-drop, take, drop, ltb, leb, ◌==◌,
  if◌then◌else◌,
}
use tcp_client.Linenoise.Memory.{◌>>=◌}
use tcp_client.Linenoise.Heap.{
  Heap, free, strdup, size, replace_oldest, append_line, add_copy, history_add, cut_history,
  is_null, history_set_max_len, pointers,
}
use tcp_client.Linenoise.Blocks.{
  count, count-append, count-split, free_all_lem, OwnsBeside, Owns, Keeps, if_Keeps,
}
use tcp_client.Linenoise.OwnedStrings.{strdup-Owns, free-Keeps}

append_line-Keeps :
    (grows : Bool) (copy : ℕ) (h : Heap)
    → OwnsBeside (copy ∷ []) h
    → length h.history < h.history_max_len
    → Keeps (append_line grows copy h)
unfolding append_line
append_line-Keeps grows copy h o below =
    let size_is = length-append h.history (copy ∷ []) in
    let longer = record h {
      capacity = some (length h.history + 1);
      history = h.history ++ copy ∷ [];
    } in
    if_Keeps (some longer) (free copy h) grows
      (λ e. (
        longer,
        refl,
        record {
          blocks =
              λ p. unfold count in omega (arith, o.blocks p, count-append p h.history (copy ∷ []));
          room = unfold size in omega arith;
          bound = omega arith;
        },
      ))
      (λ e. free-Keeps copy h o)

drop-all : (n : ℕ) (l : List ℕ) → length l ≤ n → drop n l ≡ []
drop-all zero [] h = refl
drop-all zero (p ∷ l) h = absurd (omega arith)
drop-all (suc n) [] h = refl
drop-all (suc n) (p ∷ l) h = drop-all n l (omega arith)

replaced_lem :
    (max copy : ℕ) (l : List ℕ)
    → length l ≡ max
    → take (max - 1) (drop 1 l) ++ copy ∷ drop max l ≡ drop 1 l ++ copy ∷ []
replaced_lem max copy l e =
    rw
      (take-all (max - 1) (drop 1 l) (omega (arith, length-drop 1 l)), drop-all max l (omega arith))
      refl

replace_oldest-Keeps :
    (copy : ℕ) (h : Heap)
    → OwnsBeside (copy ∷ []) h
    → 0 < h.history_max_len
    → h.history_max_len ≤ length h.history
    → Keeps (replace_oldest copy h)
unfolding replace_oldest
replace_oldest-Keeps copy h o pos full =
    let max = h.history_max_len in
    let fits : ltb (size h.capacity) max ≡ false = ground (arith, o.room, o.bound) in
    let others = λ (p : ℕ).
      count p (copy ∷ [])
      + (count p (drop 1 h.history) + (count p (pointers h.saved_line) + count p h.cvec)) in
    let (l, freed, left) =
      free_all_lem (take 1 h.history) h others
        (λ p. omega (arith, o.blocks p, count-split p 1 h.history)) in
    let lines = replaced_lem max copy h.history (omega (arith, o.bound)) in
    rw (fits, freed)
      (
        _,
        refl,
        record {
          blocks = λ p. rw lines (
              unfold count in omega (arith, left p, count-append p (drop 1 h.history) (copy ∷ [])));
          room = rw lines (
              omega (
                arith,
                o.room,
                length-append (drop 1 h.history) (copy ∷ []),
                length-drop 1 h.history,
              ));
          bound = rw lines (
              omega (
                arith,
                o.bound,
                length-append (drop 1 h.history) (copy ∷ []),
                length-drop 1 h.history,
              ));
        },
      )

add_copy-Keeps :
    (grows : Bool) (copy : Option ℕ) (h : Heap)
    → OwnsBeside (pointers copy) h
    → 0 < h.history_max_len
    → Keeps (add_copy grows copy h)
unfolding add_copy pointers
add_copy-Keeps grows none h o pos = (h, refl, o)
add_copy-Keeps grows (some copy) h o pos =
    if_Keeps _ _ (leb h.history_max_len (length h.history))
      (λ full. replace_oldest-Keeps copy h o pos (ground arith))
      (λ below. append_line-Keeps grows copy h o (ground arith))

pub history_add-Keeps :
    (skips : Bool) (copy : Option ℕ) (grows : Bool) (h : Heap)
    → Owns h
    → Keeps (history_add skips copy grows h)
unfolding history_add
history_add-Keeps skips copy grows h o =
    if_Keeps _ _ (skips || h.history_max_len == 0) (λ e. (h, refl, o))
      (λ e.
        add_copy-Keeps grows copy (strdup copy h) (strdup-Owns copy h o)
          (positive copy (ground arith)))
  where
    positive : (p : Option ℕ) → 0 < h.history_max_len → 0 < (strdup p h).history_max_len
    positive none k = unfold strdup in k
    positive (some p) k = unfold strdup in k

cut_history-Keeps :
    (len : ℕ) (resizes : Bool) (h : Heap)
    → Owns h
    → (h' : Heap) × (cut_history len resizes h ≡ some h')
      × Owns (record h' { history_max_len = len })
unfolding cut_history
cut_history-Keeps len resizes h o =
    let surplus = length h.history - len in
    let fits : ltb (size h.capacity) (length h.history) ≡ false = ground (arith, o.room) in
    let others = λ (p : ℕ).
      count p (drop surplus h.history) + (count p (pointers h.saved_line) + count p h.cvec) in
    let (l, freed, left) =
      free_all_lem (take surplus h.history) h others
        (λ p. unfold count in omega (arith, o.blocks p, count-split p surplus h.history)) in
    rw (fits, freed)
      (
        _,
        refl,
        record {
          blocks = λ p. unfold count in omega (arith, left p);
          room = resized resizes;
          bound = omega (arith, length-drop surplus h.history);
        },
      )
  where
    resized :
        (b : Bool)
        → length (drop (length h.history - len) h.history)
          ≤ size (if b then some len else h.capacity)
    resized true = unfold size in omega (arith, length-drop (length h.history - len) h.history)
    resized false = omega (arith, o.room, length-drop (length h.history - len) h.history)

no_lines : (capacity : Option ℕ) (n : ℕ) → is_null capacity ≡ true → n ≤ size capacity → n ≡ 0
unfolding is_null size
no_lines none n e h = omega arith
no_lines (some c) n e h = cc

pub history_set_max_len-Keeps :
    (len : ℕ) (resizes : Bool) (h : Heap) → Owns h → Keeps (history_set_max_len len resizes h)
unfolding history_set_max_len
history_set_max_len-Keeps len resizes h o =
    if_Keeps _ _ (len == 0) (λ e. (h, refl, o)) (λ e. trimmed (is_null h.capacity) refl)
  where
    bounded : Heap → Heap
    bounded g = record g { history_max_len = len }

    trimmed :
        (b : Bool)
        → is_null h.capacity ≡ b
        → Keeps (
            (if b then some h else cut_history len resizes h) >>= λ g.
            some (record g { history_max_len = len }))
    trimmed true e = (
      bounded h,
      refl,
      record {
        blocks = o.blocks;
        room = o.room;
        bound = omega (arith, no_lines h.capacity (length h.history) e o.room);
      },
    )
    trimmed false e =
        let (g, cut, owned) = cut_history-Keeps len resizes h o in (bounded g, rw cut refl, owned)
