-- ===== src/Linenoise/Owned.antt =====
-- The owners of the blocks that linenoise.c allocates, whatever the program calls.
use tcp_client.Base.{ℕ, ◌≡◌, refl, ap, ◌∙◌, arith, Option, none, some, List, [], ◌∷◌, ◌++◌}
use tcp_client.Linenoise.Memory.{◌>>=◌}
use tcp_client.Linenoise.Heap.{
  Heap, fresh, strdup, size, pointers, add_completion, edit_start, edit_stop, Call, adds,
  sets_max_len, frees_history, saves_line, adds_completion, frees_completions, starts, stops, call,
  run,
}
use tcp_client.Linenoise.Blocks.{count, Owns, Keeps, >>=-Keeps}
use tcp_client.Linenoise.OwnedStrings.{
  free_saved_line-none, free_saved_line-Keeps, free_completions-none, free_completions-Keeps,
  history_free-none, history_free-Keeps, strdup-Owns, save_line-Keeps, keep_completion-Keeps,
}
use tcp_client.Linenoise.OwnedHistory.{history_add-Keeps, history_set_max_len-Keeps}

call-Keeps : (c : Call) (h : Heap) → Owns h → Keeps (call c h)
unfolding call edit_start edit_stop
call-Keeps (adds skips copy grows) h o = history_add-Keeps skips copy grows h o
call-Keeps (sets_max_len len resizes) h o = history_set_max_len-Keeps len resizes h o
call-Keeps frees_history h o = history_free-Keeps h o
call-Keeps (saves_line copy) h o = save_line-Keeps copy h o
call-Keeps (adds_completion copy grows) h o =
    unfold add_completion in keep_completion-Keeps grows copy (strdup copy h) (strdup-Owns copy h o)
call-Keeps frees_completions h o = free_completions-Keeps h o
call-Keeps starts h o = >>=-Keeps _ _ (free_saved_line-Keeps h o) free_completions-Keeps
call-Keeps stops h o = >>=-Keeps _ _ (free_completions-Keeps h o) free_saved_line-Keeps

run-Keeps : (calls : List Call) (h : Heap) → Owns h → Keeps (run calls h)
unfolding run
run-Keeps [] h o = (h, refl, o)
run-Keeps (c ∷ calls) h o = >>=-Keeps _ _ (call-Keeps c h o) (run-Keeps calls)

fresh-Owns : Owns fresh
unfolding fresh count size pointers
fresh-Owns = record { blocks = λ p. refl; room = omega arith; bound = omega arith }

-- Nothing is left once the editor has stopped and the history is freed.
none_left : (l : List ℕ) → ((p : ℕ) → count p l ≡ 0) → l ≡ []
unfolding count
none_left [] h = refl
none_left (p ∷ l) h = absurd (ground (arith, h p))

-- Whatever calls the program makes, in whatever order, and whichever allocations fail: none of them
-- frees a block that is not allocated or reaches outside the array of the history, and each block that
-- is allocated then is a line of the history, a completion or the saved line, each once; the history
-- fits its array and its bound.
pub run-Owns : (calls : List Call) → (h : Heap) × (run calls fresh ≡ some h) × Owns h
run-Owns calls = run-Keeps calls fresh fresh-Owns

run-append : (a b : List Call) (h : Heap) → run (a ++ b) h ≡ (run a h >>= run b)
unfolding run
run-append [] b h = refl
run-append (c ∷ a) b h = bound (call c h) (λ g. run-append a b g)
  where
    bound :
        (x : Option Heap)
        → ((g : Heap) → run (a ++ b) g ≡ (run a g >>= run b))
        → (x >>= run (a ++ b)) ≡ ((x >>= run a) >>= run b)
    bound none same = refl
    bound (some g) same = same g

leave_lem :
    (h : Heap)
    → Owns h
    → (h' : Heap) × (run (stops ∷ frees_history ∷ []) h ≡ some h') × (h'.live ≡ [])
unfolding run call edit_stop
leave_lem h o =
    let (a, e, oa, no_completion) = free_completions-none h o in
    let (b, e', ob, _, same, _) = free_saved_line-none a oa in
    let (c, e'', oc, unsaved, same', no_line) = history_free-none b ob in
    (
      c,
      rw (e, e', e'') refl,
      none_left c.live (λ p.
          let lines = ap (count p) no_line in
          let saved = ap (λ x. count p (pointers x)) unsaved in
          let completions = ap (count p) (same' ∙ same ∙ no_completion) in
          unfold count pointers in omega (arith, oc.blocks p, lines, saved, completions)),
    )

-- No string is leaked: whatever calls came before, linenoiseEditStop and linenoiseHistoryFree leave no
-- block allocated.
pub run-stop-free :
    (calls : List Call)
    → (h : Heap) × (run (calls ++ stops ∷ frees_history ∷ []) fresh ≡ some h) × (h.live ≡ [])
run-stop-free calls =
    let (h, e, o) = run-Owns calls in
    let (h', e', empty) = leave_lem h o in
    (
      h',
      run-append calls (stops ∷ frees_history ∷ []) fresh
          ∙ ap (λ x. x >>= run (stops ∷ frees_history ∷ [])) e
          ∙ e',
      empty,
    )
