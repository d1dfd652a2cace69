-- ===== src/Linenoise/Heap.antt =====
-- The blocks that src/linenoise.c allocates: the strings of the history, of the completions and of the
-- saved line, and the array of the history with its size. A block is its address; `none` is a fault,
-- a free() of what is not allocated or an access outside the array. The other modules take the strings as
-- they are; here malloc() and realloc() may fail, and an answer is an argument.
-- The array of the completions is left aside.
use tcp_client.Base.{
  ℕ, ◌+◌, ◌-◌, Bool, true, false, ◌||◌, Option, none, some, List, [], ◌∷◌, ◌++◌, length, take, drop,
  ltb, leb, ◌==◌, if◌then◌else◌,
}
use tcp_client.Linenoise.Memory.{◌>>=◌}

-- `capacity` is the size of the array, `none` while it is NULL, and `history` its first history_len
-- cells.
pub record Heap : Type 0 where
  pub live : List ℕ
  pub capacity : Option ℕ
  pub history : List ℕ
  pub history_max_len : ℕ
  pub saved_line : Option ℕ
  pub cvec : List ℕ

-- As the program starts.
unfoldable pub fresh : Heap
fresh = record {
  live = [];
  capacity = none;
  history = [];
  history_max_len = 500;
  saved_line = none;
  cvec = [];
}

unfoldable pub is_live : ℕ → List ℕ → Bool
is_live p [] = false
is_live p (q ∷ live) = p == q || is_live p live

unfoldable pub remove : ℕ → List ℕ → List ℕ
remove p [] = []
remove p (q ∷ live) = if p == q then live else q ∷ remove p live

unfoldable pub free : ℕ → Heap → Option Heap
free p h = if is_live p h.live then some (record h { live = remove p h.live }) else none

unfoldable pub free_all : List ℕ → Heap → Option Heap
free_all [] h = some h
free_all (p ∷ ps) h = do h' ← free p h; free_all ps h'

-- linenoise_strdup(): malloc() gives a block or fails.
unfoldable pub strdup : Option ℕ → Heap → Heap
strdup none h = h
strdup (some p) h = record h { live = p ∷ h.live }

unfoldable pub size : Option ℕ → ℕ
size none = 0
size (some n) = n

-- The oldest line makes room for the copy, in an array of at least `history_max_len` cells.
unfoldable pub replace_oldest : ℕ → Heap → Option Heap
replace_oldest copy h =
    let max = h.history_max_len in
    if ltb (size h.capacity) max then none else (do
      h' ← free_all (take 1 h.history) h
      some (record h' { history = take (max - 1) (drop 1 h.history) ++ copy ∷ drop max h.history }))

-- realloc() grows the array by a cell, or the copy is freed.
unfoldable pub append_line : Bool → ℕ → Heap → Option Heap
append_line grows copy h =
    if grows
    then some
        (record h { capacity = some (length h.history + 1); history = h.history ++ copy ∷ [] })
    else free copy h

unfoldable pub add_copy : Bool → Option ℕ → Heap → Option Heap
add_copy grows none h = some h
add_copy grows (some copy) h =
    if leb h.history_max_len (length h.history)
    then replace_oldest copy h
    else append_line grows copy h

-- `skips` stands for an empty line, or one that repeats the newest.
unfoldable pub history_add : Bool → Option ℕ → Bool → Heap → Option Heap
history_add skips copy grows h =
    if skips || h.history_max_len == 0 then some h else add_copy grows copy (strdup copy h)

-- The oldest lines are freed and the others move down, cell by cell; realloc() may fail.
unfoldable pub cut_history : ℕ → Bool → Heap → Option Heap
cut_history len resizes h =
    let surplus = length h.history - len in
    if ltb (size h.capacity) (length h.history) then none else (do
      h' ← free_all (take surplus h.history) h
      some (record h' {
        history = drop surplus h.history;
        capacity = if resizes then some len else h.capacity;
      }))

unfoldable pub is_null : Option ℕ → Bool
is_null none = true
is_null (some n) = false

unfoldable pub history_set_max_len : ℕ → Bool → Heap → Option Heap
history_set_max_len len resizes h = if len == 0 then some h else (do
  h' ← (if is_null h.capacity then some h else cut_history len resizes h)
  some (record h' { history_max_len = len }))

unfoldable pub pointers : Option ℕ → List ℕ
pointers none = []
pointers (some p) = p ∷ []

unfoldable pub free_saved_line : Heap → Option Heap
free_saved_line h = do
  h' ← free_all (pointers h.saved_line) h
  some (record h' { saved_line = none })

unfoldable pub history_free : Heap → Option Heap
history_free h = do
  h' ← free_all h.history h
  free_saved_line (record h' { history = []; capacity = none })

-- `saved_line = linenoise_strdup(l->buf)` of handle_up.
unfoldable pub save_line : Option ℕ → Heap → Option Heap
save_line copy h = do h' ← free_saved_line h; some (strdup copy (record h' { saved_line = copy }))

unfoldable pub keep_completion : Bool → Option ℕ → Heap → Option Heap
keep_completion grows none h = some h
keep_completion grows (some copy) h =
    if grows then some (record h { cvec = h.cvec ++ copy ∷ [] }) else free copy h

unfoldable pub add_completion : Option ℕ → Bool → Heap → Option Heap
add_completion copy grows h = keep_completion grows copy (strdup copy h)

unfoldable pub free_completions : Heap → Option Heap
free_completions h = do h' ← free_all h.cvec h; some (record h' { cvec = [] })

-- What linenoiseEditStart does to the blocks, and linenoiseEditStop, which frees them the other way
-- round.
unfoldable pub edit_start : Heap → Option Heap
edit_start h = do h' ← free_saved_line h; free_completions h'

unfoldable pub edit_stop : Heap → Option Heap
edit_stop h = do h' ← free_completions h; free_saved_line h'

-- The calls, in whatever order the program makes them.
pub data Call : Type 0 where
  adds : Bool → Option ℕ → Bool → Call
  sets_max_len : ℕ → Bool → Call
  frees_history : Call
  saves_line : Option ℕ → Call
  adds_completion : Option ℕ → Bool → Call
  frees_completions : Call
  starts : Call
  stops : Call

unfoldable pub call : Call → Heap → Option Heap
call (adds skips copy grows) h = history_add skips copy grows h
call (sets_max_len len resizes) h = history_set_max_len len resizes h
call frees_history h = history_free h
call (saves_line copy) h = save_line copy h
call (adds_completion copy grows) h = add_completion copy grows h
call frees_completions h = free_completions h
call starts h = edit_start h
call stops h = edit_stop h

unfoldable pub run : List Call → Heap → Option Heap
run [] h = some h
run (c ∷ calls) h = do h' ← call c h; run calls h'
