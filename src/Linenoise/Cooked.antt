-- ===== src/Linenoise/Cooked.antt =====
-- linenoise() where raw mode cannot be set: the prompt, and one line that fgets() reads.
use tcp_client.Base.{
  ℕ, zero, suc, ◌-◌, ◌≤◌, ◌<◌, ◌≡◌, ◌≢◌, refl, ap, ◌∙◌, arith, Option, none, some, List, [], ◌∷◌,
  ◌++◌, Bytes, All, All-take, length, take, sym, take-all, drop, ltb, ◌==◌, if◌then◌else◌,
  Bool-cases, inl, inr,
}
use tcp_client.Linenoise.State.{Output, puts}
use tcp_client.Linenoise.History.{before_nul, strip_newlines}
use tcp_client.Linenoise.Recorded.{before_nul_line, strip_line}

-- What fgets() stores and what it leaves, with room for `room` characters more.
unfoldable pub fgets_loop : ℕ → Bytes → Bytes × Bytes
fgets_loop zero stream = ([], stream)
fgets_loop (suc room) [] = ([], [])
fgets_loop (suc room) (c ∷ stream) =
    let (got, left) = fgets_loop room stream in
    if c == b'\n' then (c ∷ [], stream) else (c ∷ got, left)

-- `none` is NULL, at the end of the stream.
unfoldable pub fgets : ℕ → Bytes → Option Bytes × Bytes
fgets size [] = (none, [])
fgets size (c ∷ stream) = let (got, left) = fgets_loop (size - 1) (c ∷ stream) in (some got, left)

-- The string without the line breaks at its end.
unfoldable pub stripped : Option Bytes → Option Bytes
stripped none = none
stripped (some got) = some (strip_newlines (before_nul got))

pub record Cooked : Type 0 where
  pub line : Option Bytes
  pub input : Bytes
  pub out : List Output

-- fputs() has no meaning on NULL: without a prompt the call is a fault, which `none` stands for.
unfoldable pub linenoise_cooked : Option Bytes → Bytes → Option Cooked
linenoise_cooked none input = none
linenoise_cooked (some prompt) input =
    let (got, left) = fgets 4096 input in
    some (record { line = stripped got; input = left; out = puts prompt ∷ [] })

-- A character that is kept.
abbrev pub IsKept : ℕ → Type 0
IsKept c = (c ≢ 0) × (c ≢ b'\n') × (c ≢ b'\r')

fgets_loop-short :
    (text rest : Bytes) (room : ℕ)
    → length text < room
    → All IsKept text
    → fgets_loop room (text ++ b'\n' ∷ rest) ≡ (text ++ b'\n' ∷ [], rest)
unfolding fgets_loop
fgets_loop-short text rest zero h k = absurd (omega arith)
fgets_loop-short [] rest (suc room) h k = refl
fgets_loop-short (c ∷ text) rest (suc room) h (kc, k) =
    let differs = kc.1 in rw (fgets_loop-short text rest room (omega arith) k) (ground arith)

fgets_loop-long :
    (text rest : Bytes) (room : ℕ)
    → room ≤ length text
    → All IsKept text
    → fgets_loop room (text ++ rest) ≡ (take room text, drop room text ++ rest)
unfolding fgets_loop
fgets_loop-long text rest zero h k = refl
fgets_loop-long [] rest (suc room) h k = absurd (omega arith)
fgets_loop-long (c ∷ text) rest (suc room) h (kc, k) =
    let differs = kc.1 in rw (fgets_loop-long text rest room (omega arith) k) (ground arith)

All-weaken : {P Q : ℕ → Type 0} (text : Bytes) → ((c : ℕ) → P c → Q c) → All P text → All Q text
All-weaken [] f h = tt
All-weaken (c ∷ text) f (hc, h) = (f c hc, All-weaken text f h)

before_nul_kept : (text : Bytes) → All IsKept text → before_nul text ≡ text
unfolding before_nul
before_nul_kept [] h = refl
before_nul_kept (c ∷ text) (hc, h) = let no_nul = hc.0 in rw (before_nul_kept text h) (ground arith)

strip_kept : (text : Bytes) → All IsKept text → strip_newlines text ≡ text
unfolding strip_newlines
strip_kept [] h = refl
strip_kept (c ∷ []) (hc, h) = let no_newline = hc.1 in let no_return = hc.2 in ground arith
strip_kept (c ∷ d ∷ text) (hc, h) = rw (strip_kept (d ∷ text) h)

module _ (text : Bytes) (kept : All IsKept text) where
  stripped-short : strip_newlines (before_nul (text ++ b'\n' ∷ [])) ≡ text
  stripped-short =
      ap strip_newlines (before_nul_line text (All-weaken text (λ c h. h.0) kept))
      ∙ strip_line text (All-weaken text (λ c h. h.1) kept) (All-weaken text (λ c h. h.2) kept)

  stripped-long : strip_newlines (before_nul (take 4095 text)) ≡ take 4095 text
  stripped-long =
      let k = All-take IsKept 4095 text kept in
      ap strip_newlines (before_nul_kept (take 4095 text) k) ∙ strip_kept (take 4095 text) k

fgets_lem :
    (text rest : Bytes)
    → let (got, left) = fgets_loop 4095 (text ++ b'\n' ∷ rest) in
      fgets 4096 (text ++ b'\n' ∷ rest) ≡ (some got, left)
unfolding fgets
fgets_lem [] rest = refl
fgets_lem (c ∷ text) rest = refl

-- A call that has printed its prompt.
abbrev cooked : Bytes → Bytes → Bytes → Option Cooked
cooked prompt left got = some (record { line = some got; input = left; out = puts prompt ∷ [] })

-- Without a terminal, linenoise() prints its prompt, which is not NULL, and returns a line without its
-- newline, and leaves what follows it to be read; of a line of more than 4094 characters it returns the
-- first 4095, and leaves the others with the newline. The line holds no NUL and no carriage return.
pub linenoise_cooked_lem :
    (prompt text rest : Bytes)
    → All IsKept text
    → linenoise_cooked (some prompt) (text ++ b'\n' ∷ rest)
      ≡ some (record {
        line = some (take 4095 text);
        input = if ltb (length text) 4095 then rest else drop 4095 text ++ b'\n' ∷ rest;
        out = puts prompt ∷ [];
      })
unfolding linenoise_cooked stripped
linenoise_cooked_lem prompt text rest kept = elim (Bool-cases (ltb (length text) 4095)) [
  | inl short ↦
      rw (fgets_lem text rest, fgets_loop-short text rest 4095 (ground arith) kept, short)
        (ap (cooked prompt _) (stripped-short text kept ∙ sym (take-all 4095 text (ground arith))))
  | inr long ↦
      rw (fgets_lem text rest, fgets_loop-long text (b'\n' ∷ rest) 4095 (ground arith) kept, long)
        (ap (cooked prompt _) (stripped-long text kept))
]
