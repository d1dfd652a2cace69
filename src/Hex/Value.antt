-- ===== src/Hex/Value.antt =====
-- What a hexadecimal text means, said without a loop over indices and without the tests of the code.
use tcp_client.Base.{
  ℕ, ◌≡◌, refl, sym, ap, ◌∙◌, arith, Bool, true, false, ◌&&◌, ◌==◌, Option, none, some, List, [],
  ◌∷◌, ◌++◌, Bytes, join_nibbles, if◌then◌else◌,
}
use tcp_client.Hex.{is_space, is_separator, hex_char_to_int, skip_spaces, skip_prefix}

-- The characters that are left out: the blank, \t, \n, \v, \f, \r, the colon and the dash.
abbrev pub separators : Bytes
separators = 32 ∷ 9 ∷ 10 ∷ 11 ∷ 12 ∷ 13 ∷ 58 ∷ 45 ∷ []

-- The digits, with the value of each.
abbrev pub digit_values : List (ℕ × ℕ)
digit_values =
    (48, 0)
    ∷ (49, 1)
    ∷ (50, 2)
    ∷ (51, 3)
    ∷ (52, 4)
    ∷ (53, 5)
    ∷ (54, 6)
    ∷ (55, 7)
    ∷ (56, 8)
    ∷ (57, 9)
    ∷ (97, 10)
    ∷ (98, 11)
    ∷ (99, 12)
    ∷ (100, 13)
    ∷ (101, 14)
    ∷ (102, 15)
    ∷ (65, 10)
    ∷ (66, 11)
    ∷ (67, 12)
    ∷ (68, 13)
    ∷ (69, 14)
    ∷ (70, 15)
    ∷ []

abbrev pub is_among : ℕ → Bytes → Bool
is_among c [] = false
is_among c (d ∷ rest) = if c == d then true else is_among c rest

abbrev pub look_up : ℕ → List (ℕ × ℕ) → Option ℕ
look_up c [] = none
look_up c ((d, v) ∷ rest) = if c == d then some v else look_up c rest

-- The values of the digits, separators left out; `none` where another character stands.
abbrev pub digits_in : Bytes → Option (List ℕ)
digits_in [] = some []
digits_in (c ∷ s) = elim (is_among c separators) [
  | true ↦ digits_in s
  | false ↦ elim (look_up c digit_values) [
    | none ↦ none
    | some v ↦ elim (digits_in s) [ none ↦ none | some vs ↦ some (v ∷ vs) ]
  ]
]

-- The text behind the blanks in front of it.
abbrev pub behind_blanks : Bytes → Bytes
behind_blanks [] = []
behind_blanks (c ∷ s) =
    if is_among c (32 ∷ 9 ∷ 10 ∷ 11 ∷ 12 ∷ 13 ∷ []) then behind_blanks s else c ∷ s

-- The text behind 0x or 0X.
abbrev pub behind_prefix : Bytes → Bytes
behind_prefix (a ∷ b ∷ s) = if a == 48 && is_among b (120 ∷ 88 ∷ []) then s else a ∷ b ∷ s
behind_prefix s = s

is_separator_lem : (c : ℕ) → is_separator c ≡ is_among c separators
unfolding is_separator is_space
is_separator_lem c = ground arith

is_space_lem : (c : ℕ) → is_space c ≡ is_among c (32 ∷ 9 ∷ 10 ∷ 11 ∷ 12 ∷ 13 ∷ [])
unfolding is_space
is_space_lem c = ground arith

hex_char_to_int_lem : (c : ℕ) → hex_char_to_int c ≡ look_up c digit_values
unfolding hex_char_to_int
hex_char_to_int_lem c = ground arith

-- The same as the loop reads them.
unfoldable pub hex_digits : Bytes → Option (List ℕ)
hex_digits [] = some []
hex_digits (c ∷ s) = elim (is_separator c) [
  | true ↦ hex_digits s
  | false ↦ elim (hex_char_to_int c) [
    | none ↦ none
    | some v ↦ elim (hex_digits s) [ none ↦ none | some vs ↦ some (v ∷ vs) ]
  ]
]

digit_step : Bool → Option ℕ → Option (List ℕ) → Option (List ℕ)
digit_step b o rest = elim b [
  | true ↦ rest
  | false ↦ elim o [ none ↦ none | some v ↦ elim rest [ none ↦ none | some vs ↦ some (v ∷ vs) ] ]
]

hex_digits_lem : (s : Bytes) → hex_digits s ≡ digits_in s
unfolding hex_digits digit_step
hex_digits_lem [] = refl
hex_digits_lem (c ∷ s) =
    ap (λ b. digit_step b (hex_char_to_int c) (hex_digits s)) (is_separator_lem c)
    ∙ ap (λ o. digit_step (is_among c separators) o (hex_digits s)) (hex_char_to_int_lem c)
    ∙ ap (digit_step (is_among c separators) (look_up c digit_values)) (hex_digits_lem s)

skip_spaces_lem : (s : Bytes) → skip_spaces s ≡ behind_blanks s
unfolding skip_spaces
skip_spaces_lem [] = refl
skip_spaces_lem (c ∷ s) =
    ap (λ b. if b then skip_spaces s else c ∷ s) (is_space_lem c)
    ∙ ap (λ t. if is_among c (32 ∷ 9 ∷ 10 ∷ 11 ∷ 12 ∷ 13 ∷ []) then t else c ∷ s)
        (skip_spaces_lem s)

skip_prefix_lem : (s : Bytes) → skip_prefix s ≡ behind_prefix s
unfolding skip_prefix
skip_prefix_lem [] = refl
skip_prefix_lem (a ∷ []) = refl
skip_prefix_lem (a ∷ b ∷ s) = ground arith

-- Two digits to a byte; `none` where one is left over.
unfoldable pub pair_digits : List ℕ → Option Bytes
pair_digits [] = some []
pair_digits (a ∷ []) = none
pair_digits (a ∷ b ∷ vs) = elim (pair_digits vs) [
  | none ↦ none
  | some bs ↦ some (join_nibbles a b ∷ bs)
]

unfoldable pub bind_pairs : List ℕ → Option (List ℕ) → Option Bytes
unfolding pair_digits
bind_pairs pending none = none
bind_pairs pending (some vs) = pair_digits (pending ++ vs)

-- The bytes that a text means, behind its leading blanks and prefix.
unfoldable pub hex_value : Bytes → Option Bytes
unfolding bind_pairs
hex_value s = bind_pairs [] (digits_in (behind_prefix (behind_blanks s)))

pub hex_value_lem :
    (s : Bytes) → hex_value s ≡ bind_pairs [] (hex_digits (skip_prefix (skip_spaces s)))
unfolding hex_value
hex_value_lem s = sym (
    ap (bind_pairs []) (hex_digits_lem (skip_prefix (skip_spaces s)))
    ∙ ap (λ t. bind_pairs [] (digits_in t)) (skip_prefix_lem (skip_spaces s))
    ∙ ap (λ t. bind_pairs [] (digits_in (behind_prefix t))) (skip_spaces_lem s))
