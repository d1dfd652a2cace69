-- ===== src/Linenoise/OwnedStrings.antt =====
-- The owners of blocks in the calls on the saved line and the completions, and in linenoiseHistoryFree.
use tcp_client.Base.{
  ℕ, ◌+◌, ◌≡◌, refl, ap, ◌∙◌, arith, Bool, true, Option, none, some, [], ◌∷◌, ◌++◌,
}
use tcp_client.Linenoise.Heap.{
  Heap, is_live, remove, free, strdup, size, pointers, free_saved_line, history_free, save_line,
  keep_completion, free_completions,
}
use tcp_client.Linenoise.Blocks.{
  count, count-append, is_live_lem, count-remove, free_all_lem, OwnsBeside, Owns, Keeps, if_Keeps,
}

pub free_saved_line-none :
    (h : Heap)
    → Owns h
    → (h' : Heap) × (free_saved_line h ≡ some h')
      × Owns h'
      × (h'.saved_line ≡ none)
      × (h'.cvec ≡ h.cvec)
      × (h'.history ≡ h.history)
unfolding free_saved_line
free_saved_line-none h o =
    let (l, freed, left) =
      free_all_lem (pointers h.saved_line) h (λ p. count p h.history + count p h.cvec)
        (λ p. unfold count in omega (arith, o.blocks p)) in
    let owned : Owns (record h { live = l; saved_line = none }) = record {
      blocks = λ p. unfold count pointers in omega (arith, left p);
      room = o.room;
      bound = o.bound;
    } in
    (record h { live = l; saved_line = none }, rw freed refl, owned, refl, refl, refl)

pub free_saved_line-Keeps : (h : Heap) → Owns h → Keeps (free_saved_line h)
free_saved_line-Keeps h o = let (h', e, o', same, _, _) = free_saved_line-none h o in (h', e, o')

pub free_completions-none :
    (h : Heap) → Owns h → (h' : Heap) × (free_completions h ≡ some h') × Owns h' × (h'.cvec ≡ [])
unfolding free_completions
free_completions-none h o =
    let (l, freed, left) =
      free_all_lem h.cvec h (λ p. count p h.history + count p (pointers h.saved_line))
        (λ p. unfold count in omega (arith, o.blocks p)) in
    (
      record h { live = l; cvec = [] },
      rw freed refl,
      record {
        blocks = λ p. unfold count in omega (arith, left p);
        room = o.room;
        bound = o.bound;
      },
      refl,
    )

pub free_completions-Keeps : (h : Heap) → Owns h → Keeps (free_completions h)
free_completions-Keeps h o = let (h', e, o', none_left) = free_completions-none h o in (h', e, o')

pub history_free-none :
    (h : Heap)
    → Owns h
    → (h' : Heap) × (history_free h ≡ some h')
      × Owns h'
      × (h'.saved_line ≡ none)
      × (h'.cvec ≡ h.cvec)
      × (h'.history ≡ [])
unfolding history_free
history_free-none h o =
    let (l, freed, left) =
      free_all_lem h.history h (λ p. count p (pointers h.saved_line) + count p h.cvec)
        (λ p. unfold count in omega (arith, o.blocks p)) in
    rw freed (
      free_saved_line-none (record h { live = l; history = []; capacity = none })
        (record {
          blocks = λ p. unfold count in omega (arith, left p);
          room = unfold size in omega arith;
          bound = omega arith;
        }))

pub history_free-Keeps : (h : Heap) → Owns h → Keeps (history_free h)
history_free-Keeps h o = let (h', e, o', _, _, _) = history_free-none h o in (h', e, o')

pub strdup-Owns : (copy : Option ℕ) (h : Heap) → Owns h → OwnsBeside (pointers copy) (strdup copy h)
unfolding strdup pointers count
strdup-Owns none h o = o
strdup-Owns (some p) h o = record {
  blocks = λ q. omega (arith, o.blocks q);
  room = o.room;
  bound = o.bound;
}

pub free-Keeps : (p : ℕ) (h : Heap) → OwnsBeside (p ∷ []) h → Keeps (free p h)
unfolding free count
free-Keeps p h o =
    let live : is_live p h.live ≡ true = is_live_lem p h.live (ground (arith, o.blocks p)) in
    (
      record h { live = remove p h.live },
      rw live refl,
      record {
        blocks = λ q. omega (arith, o.blocks q, count-remove p q h.live live);
        room = o.room;
        bound = o.bound;
      },
    )

saved-Owns :
    (copy : Option ℕ) (h : Heap)
    → Owns h
    → h.saved_line ≡ none
    → Owns (strdup copy (record h { saved_line = copy }))
unfolding strdup
saved-Owns none h o e = record {
  blocks = λ p.
      o.blocks p
      ∙ ap (λ x. count p [] + (count p h.history + (count p (pointers x) + count p h.cvec))) e;
  room = o.room;
  bound = o.bound;
}
saved-Owns (some p) h o e = record {
  blocks = λ q.
      let none_saved = ap (λ x. count q (pointers x)) e in
      unfold count pointers in omega (arith, o.blocks q, none_saved);
  room = o.room;
  bound = o.bound;
}

pub save_line-Keeps : (copy : Option ℕ) (h : Heap) → Owns h → Keeps (save_line copy h)
unfolding save_line
save_line-Keeps copy h o =
    let (h', e, o', same, _, _) = free_saved_line-none h o in
    rw e (_, refl, saved-Owns copy h' o' same)

pub keep_completion-Keeps :
    (grows : Bool) (copy : Option ℕ) (h : Heap)
    → OwnsBeside (pointers copy) h
    → Keeps (keep_completion grows copy h)
unfolding keep_completion pointers
keep_completion-Keeps grows none h o = (h, refl, o)
keep_completion-Keeps grows (some copy) h o =
    let kept = record h { cvec = h.cvec ++ copy ∷ [] } in
    if_Keeps (some kept) (free copy h) grows
      (λ e. (
        kept,
        refl,
        record {
          blocks =
              λ p. unfold count in omega (arith, o.blocks p, count-append p h.cvec (copy ∷ []));
          room = o.room;
          bound = o.bound;
        },
      ))
      (λ e. free-Keeps copy h o)
