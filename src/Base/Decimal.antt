-- ===== src/Base/Decimal.antt =====
-- What printf writes for %d, where the number is not negative, and for a width.
use Prim.Native.Nat.{ℕ, zero, suc, ◌+◌, ◌-◌, ◌*◌, ◌/◌, ◌%◌, ◌<◌}
use mathlib.Core.Path.{◌≡◌, refl, ap, ◌∙◌}
use mathlib.Core.Bool.{true, false}
use mathlib.Core.List.{[], ◌∷◌, ◌++◌}
use mathlib.Core.Logic.{inl, inr}
use native.Mathlib.Omega.{arith}
use tcp_client.Base.Tests.{ltb, Bool-cases}
use tcp_client.Base.Lists.{Bytes, length}

-- The digits of `n` before `out`; `fuel` above `n` is enough.
unfoldable pub emit_digits : ℕ → ℕ → Bytes → Bytes
emit_digits zero n out = out
emit_digits (suc fuel) n out = elim (ltb n 10) [
  | true ↦ (b'0' + n) ∷ out
  | false ↦ emit_digits fuel (n / 10) ((b'0' + n % 10) ∷ out)
]

unfoldable pub decimal : ℕ → Bytes
decimal n = emit_digits (suc n) n []

abbrev pub spaces : ℕ → Bytes
spaces zero = []
spaces (suc n) = b' ' ∷ spaces n

unfoldable pub padded : ℕ → Bytes → Bytes
padded width text = spaces (width - length text) ++ text

-- The number that digits spell, behind those that have been read.
abbrev pub number_of : ℕ → Bytes → ℕ
number_of n [] = n
number_of n (c ∷ s) = number_of (n * 10 + (c - b'0')) s

emit_digits_last :
    (fuel n : ℕ) (out : Bytes) → ltb n 10 ≡ true → emit_digits (suc fuel) n out ≡ (b'0' + n) ∷ out
unfolding emit_digits
emit_digits_last fuel n out e = rw (e, emit_digits) refl

emit_digits_more :
    (fuel n : ℕ) (out : Bytes)
    → ltb n 10 ≡ false
    → emit_digits (suc fuel) n out ≡ emit_digits fuel (n / 10) ((b'0' + n % 10) ∷ out)
unfolding emit_digits
emit_digits_more fuel n out e = rw (e, emit_digits) refl

number_of-emit_digits :
    (fuel n : ℕ) (out : Bytes) → n < fuel → number_of 0 (emit_digits fuel n out) ≡ number_of n out
number_of-emit_digits zero n out h = absurd (omega arith)
number_of-emit_digits (suc fuel) n out h = elim (Bool-cases (ltb n 10)) [
  | inl small ↦
      let same : 0 * 10 + (b'0' + n - b'0') ≡ n = omega arith in
      ap (number_of 0) (emit_digits_last fuel n out small) ∙ ap (λ m. number_of m out) same
  | inr large ↦
      let parts : n / 10 * 10 + (b'0' + n % 10 - b'0') ≡ n = omega arith in
      ap (number_of 0) (emit_digits_more fuel n out large)
      ∙ number_of-emit_digits fuel (n / 10) ((b'0' + n % 10) ∷ out) (ground arith)
      ∙ ap (λ m. number_of m out) parts
]

-- The fuel is enough: what is written spells the number.
pub number_of-decimal : (n : ℕ) → number_of 0 (decimal n) ≡ n
unfolding decimal
number_of-decimal n = number_of-emit_digits (suc n) n [] (omega arith)
