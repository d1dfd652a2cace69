-- ===== src/Hsm/Whole.antt =====
-- The report in its buffers, and the lines of the breakdown.
use tcp_client.Base.{
  ℕ, zero, suc, ◌+◌, ◌-◌, ◌≤◌, ◌<◌, ◌≡◌, refl, sym, ap, ◌∙◌, arith, true, false, some, List, [],
  ◌∷◌, ◌++◌, append-nil, append_assoc, joined, Bytes, length, length-append, take, take-all,
  length-take, length-take-le, take-take_append, leb, ltb, ◌==◌, if◌then◌else◌, ◌||◌, Bool-cases,
  inl, inr,
}
use tcp_client.Linenoise.Memory.{◌>>=◌}
use tcp_client.Hsm.Response.{Response}
use tcp_client.Hsm.Analysis.{
  Buffer, write_at, append_breakdown_line, append_all, block_len, variant_len, breakdown_lines,
  breakdown,
}

-- `off` is the length of the string, and the NUL behind it is within the array.
pub record IsWhole (buf_size : ℕ) (b : Buffer) : Type 0 where
  pub off_is : b.off ≡ length b.text
  pub room : b.off < buf_size
  pub size : b.capacity ≡ buf_size

take_past :
    (n : ℕ) (xs ys : Bytes) (k : ℕ) → n ≡ length xs + k → take n (xs ++ ys) ≡ xs ++ take k ys
take_past n [] ys k e = let same : n ≡ k = omega arith in ap (λ m. take m ys) same
take_past zero (x ∷ xs) ys k e = absurd (omega arith)
take_past (suc n) (x ∷ xs) ys k e = ap (λ t. x ∷ t) (take_past n xs ys k (omega arith))

-- The length of what is taken.
length-take-cases :
    (k : ℕ) (line : Bytes) → length (take k line) ≡ (if leb k (length line) then k else length line)
length-take-cases k line = elim (Bool-cases (leb k (length line))) [
  | inl e ↦ rw e (length-take k line (ground arith))
  | inr e ↦ rw e (ap length (take-all k line (ground arith)))
]

-- A line goes behind the string, as much of it as fits, and nothing is written outside the array.
append_line-IsWhole :
    (buf_size : ℕ) (b : Buffer) (line : Bytes)
    → IsWhole buf_size b
    → (t : Buffer) × (append_breakdown_line buf_size b line ≡ some t)
      × IsWhole buf_size t
      × (t.text ≡ take (buf_size - 1) (b.text ++ line))
unfolding append_breakdown_line write_at
append_line-IsWhole buf_size b line w =
    let k : ℕ = buf_size - b.off - 1 in
    let open_end : leb buf_size b.off ≡ false = ground (arith, w.room) in
    let kept : take b.off b.text ≡ b.text = take-all b.off b.text (omega (arith, w.off_is)) in
    let grown = length-append b.text (take k line) in
    let taken = length-take-cases k line in
    let reach : buf_size - 1 ≡ length b.text + k = omega (arith, w.off_is, w.room) in
    let inside : ltb (b.off + length (take k line)) b.capacity ≡ true =
      ground (arith, length-take-le k line, w.room, w.size) in
    rw open_end (
      rw (inside, ◌>>=◌)
        (rw kept (
          _,
          refl,
          record {
            off_is = ground (arith, w.off_is, w.room);
            room = ground (arith, w.room);
            size = w.size;
          },
          sym (take_past (buf_size - 1) b.text line k reach),
        )))

append_all-IsWhole :
    (buf_size : ℕ) (lines : List Bytes) (b : Buffer)
    → IsWhole buf_size b
    → (t : Buffer) × (append_all buf_size b lines ≡ some t)
      × (t.text ≡ take (buf_size - 1) (b.text ++ joined lines))
unfolding append_all
append_all-IsWhole buf_size [] b w = (
  b,
  refl,
  sym (
      ap (take (buf_size - 1)) (append-nil b.text)
      ∙ take-all (buf_size - 1) b.text (omega (arith, w.off_is, w.room))),
)
append_all-IsWhole buf_size (line ∷ lines) b w =
    let (next, appended, w', text) = append_line-IsWhole buf_size b line w in
    let (t, done, whole) = append_all-IsWhole buf_size lines next w' in
    (
      t,
      ap (λ o. o >>= (λ (u : Buffer). append_all buf_size u lines)) appended ∙ done,
      whole
          ∙ ap (λ t. take (buf_size - 1) (t ++ joined lines)) text
          ∙ take-take_append (buf_size - 1) (b.text ++ line) (joined lines)
          ∙ ap (take (buf_size - 1)) (append_assoc b.text line (joined lines)),
    )

-- The breakdown is its lines one after another, cut to 1023 characters, and is made without a write
-- outside its array.
pub breakdown_lem :
    (resp : Response) → breakdown resp ≡ some (take 1023 (joined (breakdown_lines resp)))
unfolding breakdown
breakdown_lem resp =
    let (t, done, text) =
      append_all-IsWhole 1024 (breakdown_lines resp) _
        (record { off_is = refl; room = omega arith; size = refl }) in
    ap (λ o. o >>= (λ (b : Buffer). some b.text)) done ∙ ap some text

-- The lengths that the breakdown gives a key never reach past the payload, so the key and its check
-- value are the payload cut in two: for a TR-31 block, whatever length it states, and for the keys
-- of 48, 32 and 16 digits.
pub block_len_le :
    (payload : Bytes)
    → (block_len payload ≤ length payload) × (variant_len (length payload) ≤ length payload)
unfolding block_len variant_len
block_len_le payload = (inside _, ground arith)
  where
    inside :
        (stated : ℕ)
        → (if stated == 0 || ltb (length payload) stated then length payload else stated)
          ≤ length payload
    inside stated = ground arith
