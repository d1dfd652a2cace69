-- ===== src/Linenoise/MoreTests.antt =====
-- The blocks of linenoise.c in a concrete run, and a line that is read without a terminal.
use tcp_client.Base.{
  ◌≡◌, arith, true, false, none, some, List, [], ◌∷◌, ◌++◌, codes, length, take, drop, ltb,
  if◌then◌else◌,
}
use tcp_client.Linenoise.Heap.{
  Heap, fresh, Call, adds, sets_max_len, saves_line, adds_completion, starts, stops, frees_history,
  run,
}
use tcp_client.Linenoise.Blocks.{Owns}
use tcp_client.Linenoise.Owned.{run-Owns, run-stop-free}
use tcp_client.Linenoise.State.{puts}
use tcp_client.Linenoise.Cooked.{linenoise_cooked, linenoise_cooked_lem}

-- Three lines for a history of two, a completion that realloc() has no room for, and a saved line.
abbrev calls : List Call
calls =
    sets_max_len 2 true
    ∷ adds false (some 10) true
    ∷ adds false (some 11) true
    ∷ starts
    ∷ adds_completion (some 12) false
    ∷ adds_completion (some 12) true
    ∷ saves_line (some 13)
    ∷ adds false (some 14) true
    ∷ adds false none true
    ∷ []

run-Owns_example : (h : Heap) × (run calls fresh ≡ some h) × Owns h
run-Owns_example = run-Owns calls

run-stop-free_example :
    (h : Heap) × (run (calls ++ stops ∷ frees_history ∷ []) fresh ≡ some h) × (h.live ≡ [])
run-stop-free_example = run-stop-free calls

linenoise_cooked_lem_example :
    linenoise_cooked (some (codes "> ")) (codes "NC" ++ b'\n' ∷ codes "B")
    ≡ some (record {
      line = some (take 4095 (codes "NC"));
      input =
          if ltb (length (codes "NC")) 4095
          then codes "B"
          else drop 4095 (codes "NC") ++ b'\n' ∷ codes "B";
      out = puts (codes "> ") ∷ [];
    })
linenoise_cooked_lem_example =
    linenoise_cooked_lem (codes "> ") (codes "NC") (codes "B")
      ((omega arith, omega arith, omega arith), ((omega arith, omega arith, omega arith), tt))
