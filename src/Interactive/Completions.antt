-- ===== src/Interactive/Completions.antt =====
-- The completion callback of the terminal mode offers C strings.
use tcp_client.Base.{
  ◌≡◌, refl, ap, arith, Bool, true, false, ◌&&◌, ◌||◌, not, none, some, List, [], ◌∷◌, Bytes, All,
  length, ◌==◌, if◌then◌else◌,
}
use mathlib.Core.Path.{subst}
use tcp_client.Linenoise.Memory.{HasNoNul}
use tcp_client.Linenoise.Begun.{IsSoundCallback}
use tcp_client.Interactive.Commands.{
  starts_with, add_matching, interactive_completions, interactive_completion_callback,
}

has_no_nul : Bytes → Bool
has_no_nul [] = true
has_no_nul (c ∷ s) = not (c == 0) && has_no_nul s

have_no_nul : List Bytes → Bool
have_no_nul [] = true
have_no_nul (l ∷ ls) = has_no_nul l && have_no_nul ls

has_no_nul_lem : (s : Bytes) → has_no_nul s ≡ true → HasNoNul s
unfolding has_no_nul
has_no_nul_lem [] h = tt
has_no_nul_lem (c ∷ s) h = (ground arith, has_no_nul_lem s (ground arith))

have_no_nul_lem : (ls : List Bytes) → have_no_nul ls ≡ true → All HasNoNul ls
unfolding have_no_nul
have_no_nul_lem [] h = tt
have_no_nul_lem (l ∷ ls) h = (has_no_nul_lem l (ground arith), have_no_nul_lem ls (ground arith))

completions-HasNoNul : All HasNoNul interactive_completions
unfolding interactive_completions have_no_nul has_no_nul
completions-HasNoNul = have_no_nul_lem interactive_completions refl

add_matching-HasNoNul :
    (prefix : Bytes) (ls : List Bytes) → All HasNoNul ls → All HasNoNul (add_matching prefix ls)
unfolding add_matching
add_matching-HasNoNul prefix [] h = tt
add_matching-HasNoNul prefix (l ∷ ls) (hl, hs) =
    picked (length prefix == 0 || starts_with l prefix) (add_matching-HasNoNul prefix ls hs)
  where
    picked :
        (b : Bool)
        → All HasNoNul (add_matching prefix ls)
        → All HasNoNul (if b then l ∷ add_matching prefix ls else add_matching prefix ls)
    picked true rest = (hl, rest)
    picked false rest = rest

pub interactive_completion_callback-IsSound : IsSoundCallback (some interactive_completion_callback)
unfolding interactive_completion_callback
interactive_completion_callback-IsSound g e typed =
    let same = ap (λ o. elim o [ none ↦ interactive_completion_callback | some f ↦ f ]) e in
    subst (λ f. All HasNoNul (f typed)) same
      (add_matching-HasNoNul typed interactive_completions completions-HasNoNul)
