-- ===== src/Base/Bits.antt =====
-- Bit operations on a byte, checked at every value: two nibbles make a byte, and come back from it.
use Prim.Native.Nat.{ℕ, zero, suc, ◌+◌, ◌*◌, ◌/◌, ◌%◌, ◌<◌, ◌^◌, bit_and, bit_or}
use mathlib.Core.Path.{◌≡◌, refl}
use mathlib.Core.Bool.{Bool, true, false}
use native.Mathlib.Omega.{arith}
use tcp_client.Base.Tests.{◌==◌, ==_iff, if◌then◌else◌}

-- `test` holds of every number under the bound.
unfoldable pub under : ℕ → (ℕ → Bool) → Bool
under zero test = true
under (suc bound) test = let lower = under bound test in if test bound then lower else false

pub under_lem :
    (test : ℕ → Bool) (b bound : ℕ) → b < bound → under bound test ≡ true → test b ≡ true
unfolding under
under_lem test b zero fits every = absurd (omega arith)
under_lem test b (suc bound) fits every = ground (arith, under_lem test b bound)

join_table : under 256 (λ x. bit_or (x / 16 * 2 ^ 4) (x % 16) % 2 ^ 8 == x) ≡ true
unfolding under
join_table = refl

high_table : under 256 (λ x. bit_and (x / 2 ^ 4) 0x0F == x / 16) ≡ true
unfolding under
high_table = refl

low_table : under 256 (λ x. bit_and x 0x0F == x % 16) ≡ true
unfolding under
low_table = refl

-- `(uint8_t)((hi << 4) | lo)`
unfoldable pub join_nibbles : ℕ → ℕ → ℕ
join_nibbles hi lo = bit_or (hi * 2 ^ 4) lo % 2 ^ 8

join_split : (b : ℕ) → b < 256 → join_nibbles (b / 16) (b % 16) ≡ b
unfolding join_nibbles
join_split b h = (==_iff _ b).0 (under_lem _ b 256 h join_table)

pub join_nibbles_lem : (hi lo : ℕ) → hi < 16 → lo < 16 → join_nibbles hi lo ≡ hi * 16 + lo
join_nibbles_lem hi lo h k =
    let high : (hi * 16 + lo) / 16 ≡ hi = omega arith in
    let low : (hi * 16 + lo) % 16 ≡ lo = omega arith in
    rw (high, low) at (join_split (hi * 16 + lo) (omega arith))

pub high_nibble_lem : (b : ℕ) → b < 256 → bit_and (b / 2 ^ 4) 0x0F ≡ b / 16
high_nibble_lem b h = (==_iff _ _).0 (under_lem _ b 256 h high_table)

pub low_nibble_lem : (b : ℕ) → b < 256 → bit_and b 0x0F ≡ b % 16
low_nibble_lem b h = (==_iff _ _).0 (under_lem _ b 256 h low_table)

word_table :
    under 256 (λ hi. under 256 (λ lo. bit_or (hi * 2 ^ 8) lo % 2 ^ 16 == hi * 256 + lo)) ≡ true
unfolding under
word_table = refl

-- `(uint16_t)((hi << 8) | lo)`
unfoldable pub join_bytes : ℕ → ℕ → ℕ
join_bytes hi lo = bit_or (hi * 2 ^ 8) lo % 2 ^ 16

pub join_bytes_lem : (hi lo : ℕ) → hi < 256 → lo < 256 → join_bytes hi lo ≡ hi * 256 + lo
unfolding join_bytes
join_bytes_lem hi lo h k = (==_iff _ _).0 (under_lem _ lo 256 k (under_lem _ hi 256 h word_table))

low_byte_table : under 256 (λ hi. under 256 (λ lo. bit_and (hi * 256 + lo) 0xFF == lo)) ≡ true
unfolding under
low_byte_table = refl

byte_table : under 256 (λ b. bit_and b 0xFF == b) ≡ true
unfolding under
byte_table = refl

-- `n & 0xFF` and `(n >> 8) & 0xFF` of a number of 16 bits.
pub low_byte_lem : (n : ℕ) → n < 65536 → bit_and n 0xFF ≡ n % 256
low_byte_lem n h =
    let whole : n / 256 * 256 + n % 256 ≡ n = omega arith in
    let high = under_lem _ (n / 256) 256 (omega arith) low_byte_table in
    let low = (==_iff _ _).0 (under_lem _ (n % 256) 256 (omega arith) high) in rw whole at low

pub high_byte_lem : (n : ℕ) → n < 65536 → bit_and (n / 2 ^ 8) 0xFF ≡ n / 256
high_byte_lem n h = (==_iff _ _).0 (under_lem _ (n / 256) 256 (omega arith) byte_table)
