-- ===== src/Linenoise/Blocks.antt =====
-- Who owns the blocks that linenoise.c allocates.
use tcp_client.Base.{
  ℕ, ◌+◌, ◌≤◌, ◌<◌, ◌≡◌, refl, sym, ap, ◌∙◌, arith, Bool, true, false, Option, some, List, [], ◌∷◌,
  ◌++◌, length, take, take-append-drop, drop, ◌==◌, if◌then◌else◌,
}
use tcp_client.Linenoise.Memory.{◌>>=◌}
use tcp_client.Linenoise.Heap.{Heap, is_live, remove, free, free_all, size, pointers}

-- How often a block stands in a list.
unfoldable pub count : ℕ → List ℕ → ℕ
count p [] = 0
count p (q ∷ l) = (if p == q then 1 else 0) + count p l

pub count-append : (p : ℕ) (k l : List ℕ) → count p (k ++ l) ≡ count p k + count p l
unfolding count
count-append p [] l = omega arith
count-append p (q ∷ k) l = omega (arith, count-append p k l)

pub count-split : (p n : ℕ) (l : List ℕ) → count p (take n l) + count p (drop n l) ≡ count p l
count-split p n l = sym (count-append p (take n l) (drop n l)) ∙ ap (count p) (take-append-drop n l)

pub is_live_lem : (p : ℕ) (l : List ℕ) → 0 < count p l → is_live p l ≡ true
unfolding is_live count
is_live_lem p [] h = absurd (omega arith)
is_live_lem p (q ∷ l) h = ground (arith, is_live_lem p l)

pub count-remove :
    (p q : ℕ) (l : List ℕ)
    → is_live p l ≡ true
    → count q (remove p l) + (if q == p then 1 else 0) ≡ count q l
unfolding is_live remove count
count-remove p q [] h = cc
count-remove p q (r ∷ l) h = ground (arith, count-remove p q l)

-- Blocks that are all allocated can be freed, and the others stay.
pub free_all_lem :
    (ps : List ℕ) (h : Heap) (rest : ℕ → ℕ)
    → ((p : ℕ) → count p h.live ≡ count p ps + rest p)
    → (l : List ℕ) × (free_all ps h ≡ some (record h { live = l })) × ((p : ℕ) → count p l ≡ rest p)
unfolding free_all free count
free_all_lem [] h rest e = (h.live, refl, λ p. omega (arith, e p))
free_all_lem (q ∷ ps) h rest e =
    let live : is_live q h.live ≡ true = is_live_lem q h.live (ground (arith, e q)) in
    let h' = record h { live = remove q h.live } in
    let (l, freed, left) =
      free_all_lem ps h' rest (λ p. ground (arith, e p, count-remove q p h.live)) in
    (l, rw live freed, left)

-- The blocks are those of the history, of the saved line, of the completions and of `beside`; the
-- history fits its array and its bound.
pub record OwnsBeside (beside : List ℕ) (h : Heap) : Type 0 where
  pub blocks :
      (p : ℕ)
      → count p h.live
        ≡ count p beside + (count p h.history + (count p (pointers h.saved_line) + count p h.cvec))
  pub room : length h.history ≤ size h.capacity
  pub bound : length h.history ≤ h.history_max_len

abbrev pub Owns : Heap → Type 0
Owns = OwnsBeside []

-- A call returns, and each block has its owner after it.
abbrev pub Keeps : Option Heap → Type 0
Keeps x = (h : Heap) × (x ≡ some h) × Owns h

pub >>=-Keeps :
    (x : Option Heap) (f : Heap → Option Heap)
    → Keeps x
    → ((h : Heap) → Owns h → Keeps (f h))
    → Keeps (x >>= f)
>>=-Keeps x f (h, e, o) k = let (h', e', o') = k h o in (h', rw e e', o')

pub if_Keeps :
    (x y : Option Heap) (b : Bool)
    → (b ≡ true → Keeps x)
    → (b ≡ false → Keeps y)
    → Keeps (if b then x else y)
if_Keeps x y true h k = h refl
if_Keeps x y false h k = k refl
