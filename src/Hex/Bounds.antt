-- ===== src/Hex/Bounds.antt =====
-- The size of the text that `bytes_to_hex` writes, which it computes beforehand.
use tcp_client.Base.{
  ℕ, ◌+◌, ◌-◌, ◌*◌, ◌≤◌, ◌≡◌, refl, ap, arith, Bool, true, false, ◌↔◌, some, [], ◌∷◌, Bytes, length,
  ok,
}
use tcp_client.Hex.{bytes_loop, required_size, bytes_to_hex}

length-bytes_loop-true :
    (u : Bool) (b : ℕ) (bs : Bytes) → length (bytes_loop u true (b ∷ bs)) ≡ length (b ∷ bs) * 3 - 1
unfolding bytes_loop
length-bytes_loop-true u b [] = refl
length-bytes_loop-true u b (c ∷ bs) = grind (arith, length-bytes_loop-true u c bs)

length-bytes_loop-false : (u : Bool) (bs : Bytes) → length (bytes_loop u false bs) ≡ length bs * 2
unfolding bytes_loop
length-bytes_loop-false u [] = refl
length-bytes_loop-false u (b ∷ bs) = omega (arith, length-bytes_loop-false u bs)

pub length-bytes_loop :
    (u sp : Bool) (bs : Bytes) → length (bytes_loop u sp bs) + 1 ≡ required_size (length bs) sp
length-bytes_loop u true [] = unfold bytes_loop required_size in refl
length-bytes_loop u true (b ∷ bs) =
    let size = length-bytes_loop-true u b bs in unfold required_size in ground arith
length-bytes_loop u false bs =
    let size = length-bytes_loop-false u bs in unfold required_size in ground arith

-- bytes_to_hex succeeds exactly when the text and its NUL fit `out_str`, so it never writes past
-- the end of it; it returns one text for every capacity that is enough.
pub bytes_to_hex_iff :
    (bs text : Bytes) (size : ℕ) (u sp : Bool)
    → (bytes_to_hex (some bs) (some size) u sp ≡ ok text)
      ↔ ((text ≡ bytes_loop u sp bs) × (length text + 1 ≤ size))
unfolding bytes_to_hex
bytes_to_hex_iff bs text size u sp =
    let exact = length-bytes_loop u sp bs in
    (λ h. ground (arith), λ h. ground (arith, ap length h.0))
