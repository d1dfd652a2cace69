-- ===== src/Hex/Meaning.antt =====
-- What hex_to_bytes returns, beside what its text means.
use tcp_client.Base.{
  ℕ, ◌+◌, ◌≤◌, ◌<◌, ◌≡◌, refl, sym, ap, ◌∙◌, arith, true, false, Option, none, some, List, [], ◌∷◌,
  ◌++◌, append-nil, append_assoc, Bytes, length, length-append, leb, Bool-cases, ◌↔◌, inl, inr,
  join_nibbles, ok, err, suc, if◌then◌else◌, Option-cases,
}
use tcp_client.Hex.{
  overflow, invalid, is_separator, hex_char_to_int, skip_spaces, skip_prefix, hex_loop,
  hex_to_bytes,
}
use tcp_client.Hex.Value.{hex_digits, pair_digits, bind_pairs, hex_value, hex_value_lem}

pending_of : Option ℕ → List ℕ
pending_of none = []
pending_of (some v) = v ∷ []

-- The loop has read `out` and the pending digit, and the rest means `bs`.
Means : Option ℕ → Bytes → Bytes → Type 0
Means first s bs = bind_pairs (pending_of first) (hex_digits s) ≡ some bs

-- Two texts that differ by a separator, or that continue a pending digit, mean the same.
Means-separator :
    (c : ℕ) (s bs : Bytes) (first : Option ℕ)
    → is_separator c ≡ true
    → Means first (c ∷ s) bs ↔ Means first s bs
unfolding Means hex_digits
Means-separator c s bs first h = ground arith

Means-first :
    (c v : ℕ) (s bs : Bytes)
    → is_separator c ≡ false
    → hex_char_to_int c ≡ some v
    → Means none (c ∷ s) bs ↔ Means (some v) s bs
unfolding Means hex_digits bind_pairs pending_of
Means-first c v s bs h e = ground arith

Means-second :
    (c u v : ℕ) (s bs : Bytes)
    → is_separator c ≡ false
    → hex_char_to_int c ≡ some v
    → Means none s bs
    → Means (some u) (c ∷ s) (join_nibbles u v ∷ bs)
unfolding Means hex_digits bind_pairs pending_of pair_digits
Means-second c u v s bs h e m = ground arith

Means-inversion :
    (c u v : ℕ) (s r : Bytes)
    → is_separator c ≡ false
    → hex_char_to_int c ≡ some v
    → Means (some u) (c ∷ s) r
    → (bs : Bytes) × (r ≡ join_nibbles u v ∷ bs) × Means none s bs
unfolding Means hex_digits bind_pairs pending_of pair_digits
Means-inversion c u v s [] h e m = absurd (ground arith)
Means-inversion c u v s (b ∷ bs) h e m = (bs, ground arith, ground arith)

module _ (max : ℕ) (c : ℕ) (s out : Bytes) where
  hex_loop-separator :
      (first : Option ℕ)
      → is_separator c ≡ true
      → hex_loop max (c ∷ s) first out ≡ hex_loop max s first out
  unfolding hex_loop
  hex_loop-separator first h = ground arith

  hex_loop_bad :
      (first : Option ℕ)
      → is_separator c ≡ false
      → hex_char_to_int c ≡ none
      → hex_loop max (c ∷ s) first out ≡ err invalid
  unfolding hex_loop
  hex_loop_bad first h e = ground arith

  module _ {v : ℕ} (h : is_separator c ≡ false) (e : hex_char_to_int c ≡ some v) where
    hex_loop-first : hex_loop max (c ∷ s) none out ≡ hex_loop max s (some v) out
    unfolding hex_loop
    hex_loop-first = ground arith

    hex_loop-second :
        (u : ℕ)
        → hex_loop max (c ∷ s) (some u) out ≡ (
            if leb max (length out)
            then err overflow
            else hex_loop max s none (out ++ join_nibbles u v ∷ []))
    unfolding hex_loop
    hex_loop-second u = ground arith

-- What the loop returns from a state with `out` written.
abbrev Sound : ℕ → Bytes → Option ℕ → Bytes → Type 0
Sound max s first out =
    (r : Bytes)
    → length out ≤ max
    → hex_loop max s first out ≡ ok r
    → (bs : Bytes) × (r ≡ out ++ bs) × Means first s bs × (length r ≤ max)

hex_loop_nil : (max : ℕ) (first : Option ℕ) (out : Bytes) → Sound max [] first out
unfolding hex_loop Means hex_digits bind_pairs pending_of pair_digits
hex_loop_nil max none out r fits h = ([], ground (arith, append-nil out), refl, ground arith)
hex_loop_nil max (some v) out r fits h = cc

Sound-digit :
    (max c v : ℕ) (s : Bytes) (first : Option ℕ) (out : Bytes)
    → is_separator c ≡ false
    → hex_char_to_int c ≡ some v
    → ((next : Option ℕ) (written : Bytes) → Sound max s next written)
    → Sound max (c ∷ s) first out
Sound-digit max c v s none out h e ih r fits run =
    let (bs, eq, m, le) = ih (some v) out r fits (sym (hex_loop-first max c s out h e) ∙ run) in
    (bs, eq, (Means-first c v s bs h e).1 m, le)
Sound-digit max c v s (some u) out h e ih r fits run =
    let rest : hex_loop max s none (out ++ join_nibbles u v ∷ []) ≡ ok r =
      ground (arith, hex_loop-second max c s out h e u) in
    let room : length out < max = ground (arith, hex_loop-second max c s out h e u) in
    let (bs, eq, m, le) =
      ih none (out ++ join_nibbles u v ∷ []) r
        (omega (arith, length-append out (join_nibbles u v ∷ []))) rest in
    (
      join_nibbles u v ∷ bs,
      eq ∙ append_assoc out (join_nibbles u v ∷ []) bs,
      Means-second c u v s bs h e m,
      le,
    )

hex_loop-Sound : (max : ℕ) (s : Bytes) (first : Option ℕ) (out : Bytes) → Sound max s first out
hex_loop-Sound max [] first out = hex_loop_nil max first out
hex_loop-Sound max (c ∷ s) first out = elim (Bool-cases (is_separator c)) [
  | inl sep ↦ λ r fits run.
      let (bs, eq, m, le) =
        hex_loop-Sound max s first out r fits
          (sym (hex_loop-separator max c s out first sep) ∙ run) in
      (bs, eq, (Means-separator c s bs first sep).1 m, le)
  | inr h ↦ elim (Option-cases (hex_char_to_int c)) [
    | inl bad ↦ λ r fits run. absurd (ground (arith, hex_loop_bad max c s out first h bad))
    | inr (v, e) ↦ Sound-digit max c v s first out h e (hex_loop-Sound max s)
  ]
]

abbrev Complete : ℕ → Bytes → Option ℕ → Bytes → Type 0
Complete max s first out =
    (bs : Bytes)
    → Means first s bs
    → length out + length bs ≤ max
    → hex_loop max s first out ≡ ok (out ++ bs)

Complete-nil : (max : ℕ) (first : Option ℕ) (out : Bytes) → Complete max [] first out
unfolding hex_loop Means hex_digits bind_pairs pending_of pair_digits
Complete-nil max none out bs m fits = ground (arith, append-nil out)
Complete-nil max (some v) out bs m fits = cc

Complete-digit :
    (max c v : ℕ) (s : Bytes) (first : Option ℕ) (out : Bytes)
    → is_separator c ≡ false
    → hex_char_to_int c ≡ some v
    → ((next : Option ℕ) (written : Bytes) → Complete max s next written)
    → Complete max (c ∷ s) first out
Complete-digit max c v s none out h e ih bs m fits =
    hex_loop-first max c s out h e ∙ ih (some v) out bs ((Means-first c v s bs h e).0 m) fits
Complete-digit max c v s (some u) out h e ih r m fits =
    let (bs, eq, m') = Means-inversion c u v s r h e m in
    let size : length r ≡ suc (length bs) = rw eq in
    let room : leb max (length out) ≡ false = ground arith in
    let next =
      ih none (out ++ join_nibbles u v ∷ []) bs m'
        (omega (arith, length-append out (join_nibbles u v ∷ []))) in
    hex_loop-second max c s out h e u
    ∙ rw (room, eq) (next ∙ ap ok (append_assoc out (join_nibbles u v ∷ []) bs))

not_Means_bad :
    (c : ℕ) (s bs : Bytes) (first : Option ℕ)
    → is_separator c ≡ false
    → hex_char_to_int c ≡ none
    → ¬ Means first (c ∷ s) bs
unfolding Means hex_digits bind_pairs
not_Means_bad c s bs first h e m = ground arith

hex_loop-Complete :
    (max : ℕ) (s : Bytes) (first : Option ℕ) (out : Bytes) → Complete max s first out
hex_loop-Complete max [] first out = Complete-nil max first out
hex_loop-Complete max (c ∷ s) first out = elim (Bool-cases (is_separator c)) [
  | inl sep ↦ λ bs m fits.
      hex_loop-separator max c s out first sep
      ∙ hex_loop-Complete max s first out bs ((Means-separator c s bs first sep).0 m) fits
  | inr h ↦ elim (Option-cases (hex_char_to_int c)) [
    | inl bad ↦ λ bs m fits. absurd (not_Means_bad c s bs first h bad m)
    | inr (v, e) ↦ Complete-digit max c v s first out h e (hex_loop-Complete max s)
  ]
]

-- hex_to_bytes succeeds with `bs` exactly when the text means `bs` and `bs` fits the buffer: behind
-- blanks and 0x or 0X, two digits to a byte, of either case, with blanks, colons and dashes anywhere
-- between them and no other character.
pub hex_to_bytes_iff :
    (s bs : Bytes) (max : ℕ)
    → (hex_to_bytes (some s) (some max) ≡ ok bs) ↔ ((hex_value s ≡ some bs) × (length bs ≤ max))
unfolding hex_to_bytes Means pending_of
hex_to_bytes_iff s bs max = (
  λ h.
      let (r, eq, m, le) =
        hex_loop-Sound max (skip_prefix (skip_spaces s)) none [] bs (omega arith) h in
      (means_bs r m ∙ ap some (sym eq), le),
  λ h.
      hex_loop-Complete max (skip_prefix (skip_spaces s)) none [] bs (means h.0)
        (omega (arith, h.1)),
)
  where
    means_bs : (r : Bytes) → Means none (skip_prefix (skip_spaces s)) r → hex_value s ≡ some r
    means_bs r = λ m. hex_value_lem s ∙ m

    means : hex_value s ≡ some bs → Means none (skip_prefix (skip_spaces s)) bs
    means = λ m. sym (hex_value_lem s) ∙ m
