-- ===== src/Linenoise/Memory.antt =====
-- Reads and writes of a character array, as linenoise.c does them by index, memmove, memcpy and
-- strdup. `none` is an access outside the array.
use mathlib.Core.Option
use tcp_client.Base.{
  ℕ, zero, suc, ◌+◌, ◌≤◌, ◌≡◌, ◌≢◌, refl, ap, arith, ◌&&◌, Option, none, some, [], ◌∷◌, ◌++◌, Bytes,
  All, length, length-append, take, drop, take-append, drop-append, leb, ◌==◌, if◌then◌else◌,
}

infixl 5 ◌>>=◌
abbrev pub ◌>>=◌ {ℓ κ} : {A : Type ℓ} {B : Type κ} → Option A → (A → Option B) → Option B
none >>= f = none
some a >>= f = f a

-- `b[i] = v`
unfoldable pub poke : Bytes → ℕ → ℕ → Option Bytes
poke [] i v = none
poke (x ∷ b) zero v = some (v ∷ b)
poke (x ∷ b) (suc i) v = Option.map (λ t. x ∷ t) (poke b i v)

-- `memmove(b + dst, b + src, n)`
unfoldable pub memmove : Bytes → ℕ → ℕ → ℕ → Option Bytes
memmove b dst src n =
    if leb (dst + n) (length b) && leb (src + n) (length b)
    then some (take dst b ++ (take n (drop src b) ++ drop (dst + n) b))
    else none

-- `memcpy(b, h, n)`
unfoldable pub memcpy : Bytes → Bytes → ℕ → Option Bytes
memcpy b h n = if leb n (length b) && leb n (length h) then some (take n h ++ drop n b) else none

-- The C string at the start of the array.
unfoldable pub c_string : Bytes → Option Bytes
c_string [] = none
c_string (c ∷ b) = if c == 0 then some [] else Option.map (λ t. c ∷ t) (c_string b)

abbrev pub HasNoNul : Bytes → Type 0
HasNoNul = All (λ c. c ≢ 0)

pub poke-append :
    (p : Bytes) (x v : ℕ) (z : Bytes) → poke (p ++ x ∷ z) (length p) v ≡ some (p ++ v ∷ z)
unfolding poke
poke-append [] x v z = refl
poke-append (a ∷ p) x v z = ap (Option.map (λ t. a ∷ t)) (poke-append p x v z)

-- A write in the middle of an array that is given in parts.
pub poke_parts :
    {b : Bytes} {i : ℕ} (p : Bytes) (x v : ℕ) (z : Bytes)
    → b ≡ p ++ x ∷ z
    → i ≡ length p
    → poke b i v ≡ some (p ++ v ∷ z)
poke_parts p x v z e k = rw (e, k) (poke-append p x v z)

-- A block move, the array given in parts three times: up to where the block goes, round the block,
-- and from the end of where it goes.
pub memmove_parts :
    {b : Bytes} {dst src n : ℕ} (p t q m w v z : Bytes)
    → b ≡ p ++ t
    → b ≡ q ++ (m ++ w)
    → b ≡ v ++ z
    → dst ≡ length p
    → src ≡ length q
    → n ≡ length m
    → dst + n ≡ length v
    → memmove b dst src n ≡ some (p ++ (m ++ z))
unfolding memmove
memmove_parts {b} {dst} {src} {n} p t q m w v z ep eq ez hd hs hn he =
    let front : take dst b ≡ p = rw (ep, hd) (take-append p t) in
    let from : drop src b ≡ m ++ w = rw (eq, hs) (drop-append q (m ++ w)) in
    let moved : take n (drop src b) ≡ m = rw (from, hn) (take-append m w) in
    let back : drop (dst + n) b ≡ z = rw (he, ez) (drop-append v z) in
    let reads : src + n ≤ length b =
      omega (arith, ap length eq, length-append q (m ++ w), length-append m w) in
    let writes : dst + n ≤ length b = omega (arith, ap length ez, length-append v z) in ground arith

pub memcpy-take :
    (b h : Bytes) (n : ℕ) → n ≤ length b → n ≤ length h → memcpy b h n ≡ some (take n h ++ drop n b)
unfolding memcpy
memcpy-take b h n p q = ground arith

pub c_string-append : (t rest : Bytes) → HasNoNul t → c_string (t ++ 0 ∷ rest) ≡ some t
unfolding c_string
c_string-append [] rest h = refl
c_string-append (c ∷ t) rest (hc, h) = ground (arith, c_string-append t rest h)
