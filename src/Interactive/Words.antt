-- ===== src/Interactive/Words.antt =====
-- Which lines are built-in commands.
use tcp_client.Base.{
  ℕ, ◌≡◌, ◌↔◌, refl, ap, ◌∙◌, arith, true, false, Option, none, some, [], ◌∷◌, ◌++◌, Bytes, ◌==◌,
  Bool-cases, inl, inr,
}
use mathlib.Core.List.{map}
use tcp_client.Hex.{is_space, skip_spaces}
use tcp_client.Hex.Byte.{AreSpaces, skip_spaces-append}
use tcp_client.Interactive.Commands.{
  to_lower, after_nocase, only_blanks, is_blank_rest, is_builtin_command,
}

after_nocase-split :
    (cmd start p : Bytes)
    → after_nocase cmd start ≡ some p
    → (word : Bytes) × (start ≡ word ++ p) × (map to_lower word ≡ map to_lower cmd)
unfolding after_nocase
after_nocase-split [] start p h = ([], ground arith, refl)
after_nocase-split (c ∷ cmd) [] p h = absurd (ground arith)
after_nocase-split (c ∷ cmd) (d ∷ start) p h = elim (Bool-cases (to_lower c == to_lower d)) [
  | inl e ↦
      let (word, whole, same) = after_nocase-split cmd start p (rw e at h) in
      (
        d ∷ word,
        ap (λ s. d ∷ s) whole,
        ground (arith, same, ap (λ (w : Bytes). to_lower c ∷ w) same),
      )
  | inr e ↦ absurd (let h' = rw e at h in ground arith)
]

after_nocase-append :
    (word cmd p : Bytes)
    → map to_lower word ≡ map to_lower cmd
    → after_nocase cmd (word ++ p) ≡ some p
unfolding after_nocase
after_nocase-append [] [] p h = refl
after_nocase-append [] (c ∷ cmd) p h = absurd (cc)
after_nocase-append (d ∷ word) [] p h = absurd (cc)
after_nocase-append (d ∷ word) (c ∷ cmd) p h = ground (arith, after_nocase-append word cmd p)

skip_spaces-split : (s : Bytes) → (pre : Bytes) × (s ≡ pre ++ skip_spaces s) × AreSpaces pre
unfolding skip_spaces
skip_spaces-split [] = ([], refl, tt)
skip_spaces-split (c ∷ s) = elim (Bool-cases (is_space c)) [
  | inl e ↦
      let (pre, whole, spaces) = skip_spaces-split s in
      (c ∷ pre, rw e (ap (λ r. c ∷ r) whole), (e, spaces))
  | inr e ↦ ([], rw e refl, tt)
]

only_blanks_iff : (p : Bytes) → (only_blanks p ≡ true) ↔ AreSpaces p
unfolding only_blanks is_space
only_blanks_iff [] = (λ h. tt, λ h. refl)
only_blanks_iff (c ∷ p) =
    let rest = only_blanks_iff p in
    (λ h. (ground arith, rest.0 (ground arith)), λ h. ground (arith, rest.1 h.1))

-- A word that begins as the command does begins with no space.
same_start : (c d : ℕ) → is_space c ≡ false → to_lower d ≡ to_lower c → is_space d ≡ false
unfolding is_space to_lower
same_start c d h e = ground arith

skip_spaces-word :
    (c : ℕ) (cmd word post : Bytes)
    → is_space c ≡ false
    → map to_lower word ≡ map to_lower (c ∷ cmd)
    → skip_spaces (word ++ post) ≡ word ++ post
unfolding skip_spaces
skip_spaces-word c cmd [] post h e = absurd (cc)
skip_spaces-word c cmd (d ∷ word) post h e = rw (same_start c d h (cc)) refl

-- The line is the command's word, in upper or lower case, with nothing but blanks round it.
abbrev pub SaysCommand : Bytes → Bytes → Type 0
SaysCommand buf cmd =
    (pre : Bytes) × (word : Bytes) × (post : Bytes) × (buf ≡ pre ++ (word ++ post))
    × AreSpaces pre
    × AreSpaces post
    × (map to_lower word ≡ map to_lower cmd)

is_blank_rest-split :
    (cmd start : Bytes) (rest : Option Bytes)
    → after_nocase cmd start ≡ rest
    → is_blank_rest rest ≡ true
    → (word : Bytes) × (post : Bytes) × (start ≡ word ++ post)
      × AreSpaces post
      × (map to_lower word ≡ map to_lower cmd)
unfolding is_blank_rest
is_blank_rest-split cmd start none e h = absurd (cc)
is_blank_rest-split cmd start (some p) e h =
    let (word, whole, same) = after_nocase-split cmd start p e in
    (word, p, whole, (only_blanks_iff p).0 h, same)

-- For a command that begins with no space, a line is taken for it exactly when it is the command's word
-- in upper or lower case, with nothing but blanks round it.
pub is_builtin_command_iff :
    (buf : Bytes) (c : ℕ) (cmd : Bytes)
    → is_space c ≡ false
    → (is_builtin_command buf (c ∷ cmd) ≡ true) ↔ SaysCommand buf (c ∷ cmd)
unfolding is_builtin_command
is_builtin_command_iff buf c cmd no_space = (
  λ h.
      let (pre, front, spaces) = skip_spaces-split buf in
      let (word, post, whole, blanks, same) =
        is_blank_rest-split (c ∷ cmd) (skip_spaces buf) _ refl h in
      (pre, word, post, front ∙ ap (λ r. pre ++ r) whole, spaces, blanks, same),
  λ (pre, word, post, whole, spaces, blanks, same).
      rw
        (
          whole,
          skip_spaces-append pre (word ++ post) spaces,
          skip_spaces-word c cmd word post no_space same,
          after_nocase-append word (c ∷ cmd) post same,
        )
        (unfold is_blank_rest in (only_blanks_iff post).1 blanks),
)
