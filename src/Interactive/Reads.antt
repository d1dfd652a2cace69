-- ===== src/Interactive/Reads.antt =====
-- One read of the pipe mode after another.
use tcp_client.Base.{◌≡◌, refl, sym, ◌∙◌, arith, false, List, [], ◌∷◌, ◌++◌, Bytes, joined}
use tcp_client.Interactive.Pipe.{
  State, Step, goes, exits, blocks, fault, and_then, take_char, unless_exit, take_chars,
}

-- One read after another, up to an exit command.
abbrev pub take_reads : List Bytes → State → Step
take_reads [] s = goes s
take_reads (chunk ∷ chunks) s = and_then (take_chars chunk s) (unless_exit (take_reads chunks))

and_then_assoc :
    (x : Step) (f g : State → Step)
    → and_then (and_then x f) g ≡ and_then x (λ (s : State). and_then (f s) g)
unfolding and_then
and_then_assoc (goes s) f g = refl
and_then_assoc (exits code s) f g = refl
and_then_assoc (blocks s) f g = refl
and_then_assoc fault f g = refl

and_then-unless_exit :
    (x : Step) (f g h : State → Step)
    → ((t : State) → t.exit_requested ≡ false → h t ≡ and_then (f t) (unless_exit g))
    → and_then x (unless_exit h) ≡ and_then (and_then x (unless_exit f)) (unless_exit g)
unfolding and_then unless_exit
and_then-unless_exit (goes t) f g h same = let e = same t in ground (arith, e)
and_then-unless_exit (exits code t) f g h same = refl
and_then-unless_exit (blocks t) f g h same = refl
and_then-unless_exit fault f g h same = refl

take_chars-append :
    (xs ys : Bytes) (s : State)
    → s.exit_requested ≡ false
    → take_chars (xs ++ ys) s ≡ and_then (take_chars xs s) (unless_exit (take_chars ys))
unfolding take_chars
take_chars-append [] ys s h = unfold and_then unless_exit in rw h refl
take_chars-append (x ∷ xs) ys s h =
    and_then-unless_exit (take_char x s) (take_chars xs) (take_chars ys) (take_chars (xs ++ ys))
      (λ t e. take_chars-append xs ys t e)

unless_exit-same :
    (x : Step) (f g : State → Step)
    → ((t : State) → t.exit_requested ≡ false → f t ≡ g t)
    → and_then x (unless_exit f) ≡ and_then x (unless_exit g)
unfolding and_then unless_exit
unless_exit-same (goes t) f g same = let e = same t in ground (arith, e)
unless_exit-same (exits code t) f g same = refl
unless_exit-same (blocks t) f g same = refl
unless_exit-same fault f g same = refl

-- However the input is cut up, the reads do what one read of the whole does.
pub take_reads-joined :
    (chunks : List Bytes) (s : State)
    → s.exit_requested ≡ false
    → take_reads chunks s ≡ take_chars (joined chunks) s
take_reads-joined [] s h = unfold take_chars in refl
take_reads-joined (chunk ∷ chunks) s h =
    unless_exit-same (take_chars chunk s) (take_reads chunks) (take_chars (joined chunks))
      (λ t e. take_reads-joined chunks t e)
    ∙ sym (take_chars-append chunk (joined chunks) s h)
