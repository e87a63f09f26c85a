-- ===== src/Base/Bits.antt =====
-- Laws of `bit_and`, `bit_or` and `bit_xor` at variables, from their recursion on binary digits.
use Prim.Native.Nat.{ℕ, zero, suc, ◌+◌, ◌*◌, ◌/◌, ◌%◌, ◌≤◌, ◌<◌, min, max, digits, differ}
use Prim.Native.Nat.{bit_and, bit_or, bit_xor, bit_and-bitwise, bit_or-bitwise, bit_xor-bitwise}
use mathlib.Core.Path.{◌≡◌, refl, ap, ap₂, ◌∙◌}
use native.Mathlib.Omega.{arith}

module _ (z : ℕ → ℕ) (f : ℕ → ℕ → ℕ) where
  -- As many digits as the first number has are enough.
  digits-enough : (n m a b : ℕ) → a ≤ n → a ≤ m → digits z f n a b ≡ digits z f m a b
  digits-enough zero zero a b hn hm = refl
  digits-enough zero (suc m) zero b hn hm = refl
  digits-enough zero (suc m) (suc a) b hn hm = absurd (omega arith)
  digits-enough (suc n) zero zero b hn hm = refl
  digits-enough (suc n) zero (suc a) b hn hm = absurd (omega arith)
  digits-enough (suc n) (suc m) zero b hn hm = refl
  digits-enough (suc n) (suc m) (suc a) b hn hm =
      ap (λ t. t * 2 + f (suc a % 2) (b % 2))
        (digits-enough n m (suc a / 2) (b / 2) (omega arith) (omega arith))

  digits-suc :
      (a b : ℕ)
      → digits z f (suc a) (suc a) b
        ≡ digits z f (suc a / 2) (suc a / 2) (b / 2) * 2 + f (suc a % 2) (b % 2)
  digits-suc a b =
      ap (λ t. t * 2 + f (suc a % 2) (b % 2))
        (digits-enough a (suc a / 2) (suc a / 2) (b / 2) (omega arith) (omega arith))

pub bit_or_halves : (a b : ℕ) → bit_or a b ≡ bit_or (a / 2) (b / 2) * 2 + max (a % 2) (b % 2)
bit_or_halves zero b = omega (arith, bit_or-bitwise 0 b, bit_or-bitwise 0 (b / 2))
bit_or_halves (suc a) b = omega (
  arith,
  bit_or-bitwise (suc a) b,
  bit_or-bitwise (suc a / 2) (b / 2),
  digits-suc (λ y. y) max a b,
)

pub bit_xor_halves : (a b : ℕ) → bit_xor a b ≡ bit_xor (a / 2) (b / 2) * 2 + differ (a % 2) (b % 2)
bit_xor_halves zero b = omega (arith, bit_xor-bitwise 0 b, bit_xor-bitwise 0 (b / 2))
bit_xor_halves (suc a) b = omega (
  arith,
  bit_xor-bitwise (suc a) b,
  bit_xor-bitwise (suc a / 2) (b / 2),
  digits-suc (λ y. y) differ a b,
)

pub bit_and_halves : (a b : ℕ) → bit_and a b ≡ bit_and (a / 2) (b / 2) * 2 + min (a % 2) (b % 2)
bit_and_halves zero b = omega (arith, bit_and-bitwise 0 b, bit_and-bitwise 0 (b / 2))
bit_and_halves (suc a) b = omega (
  arith,
  bit_and-bitwise (suc a) b,
  bit_and-bitwise (suc a / 2) (b / 2),
  digits-suc (λ _. 0) min a b,
)

bit_or-zero_within : (n a : ℕ) → a ≤ n → bit_or a 0 ≡ a
bit_or-zero_within n zero h = refl
bit_or-zero_within zero (suc a) h = absurd (omega arith)
bit_or-zero_within (suc n) (suc a) h =
    omega (arith, bit_or_halves (suc a) 0, bit_or-zero_within n (suc a / 2) (omega arith))

pub bit_or-zero : (a : ℕ) → bit_or a 0 ≡ a
bit_or-zero a = bit_or-zero_within a a (omega arith)

bit_or_even : (a c b d : ℕ) → a ≡ c * 2 → d ≡ b / 2 → bit_or a b ≡ bit_or c d * 2 + b % 2
bit_or_even a c b d ha hd = ground (arith, bit_or_halves a b)

-- A number above the low byte and a low byte.
pub bit_or_byte : (hi lo : ℕ) → lo < 256 → bit_or (hi * 256) lo ≡ hi * 256 + lo
bit_or_byte hi lo h = omega (
  arith,
  bit_or_even (hi * 256) (hi * 128) lo (lo / 2) (omega arith) (omega arith),
  bit_or_even (hi * 128) (hi * 64) (lo / 2) (lo / 4) (omega arith) (omega arith),
  bit_or_even (hi * 64) (hi * 32) (lo / 4) (lo / 8) (omega arith) (omega arith),
  bit_or_even (hi * 32) (hi * 16) (lo / 8) (lo / 16) (omega arith) (omega arith),
  bit_or_even (hi * 16) (hi * 8) (lo / 16) (lo / 32) (omega arith) (omega arith),
  bit_or_even (hi * 8) (hi * 4) (lo / 32) (lo / 64) (omega arith) (omega arith),
  bit_or_even (hi * 4) (hi * 2) (lo / 64) (lo / 128) (omega arith) (omega arith),
  bit_or_even (hi * 2) hi (lo / 128) 0 (omega arith) (omega arith),
  bit_or-zero hi,
)

bit_and-zero_within : (n a : ℕ) → a ≤ n → bit_and a 0 ≡ 0
bit_and-zero_within n zero h = refl
bit_and-zero_within zero (suc a) h = absurd (omega arith)
bit_and-zero_within (suc n) (suc a) h =
    omega (arith, bit_and_halves (suc a) 0, bit_and-zero_within n (suc a / 2) (omega arith))

-- The lowest bit, read and set.
pub bit_and-one : (a : ℕ) → bit_and a 1 ≡ a % 2
bit_and-one a = omega (arith, bit_and_halves a 1, bit_and-zero_within (a / 2) (a / 2) (omega arith))

pub bit_or-one : (a : ℕ) → bit_or a 1 % 2 ≡ 1
bit_or-one a = omega (arith, bit_or_halves a 1)

bit_or_bytes : (a b : ℕ) → bit_or (a * 256) (b * 256) ≡ bit_or a b * 256
bit_or_bytes a b = omega (
  arith,
  bit_or_even (a * 256) (a * 128) (b * 256) (b * 128) (omega arith) (omega arith),
  bit_or_even (a * 128) (a * 64) (b * 128) (b * 64) (omega arith) (omega arith),
  bit_or_even (a * 64) (a * 32) (b * 64) (b * 32) (omega arith) (omega arith),
  bit_or_even (a * 32) (a * 16) (b * 32) (b * 16) (omega arith) (omega arith),
  bit_or_even (a * 16) (a * 8) (b * 16) (b * 8) (omega arith) (omega arith),
  bit_or_even (a * 8) (a * 4) (b * 8) (b * 4) (omega arith) (omega arith),
  bit_or_even (a * 4) (a * 2) (b * 4) (b * 2) (omega arith) (omega arith),
  bit_or_even (a * 2) a (b * 2) b (omega arith) (omega arith),
)

-- Numbers above a low byte that is empty.
pub bit_or_up : (a a' b b' : ℕ) → a' ≡ a * 256 → b' ≡ b * 256 → bit_or a' b' ≡ bit_or a b * 256
bit_or_up a a' b b' ha hb = ap₂ bit_or ha hb ∙ bit_or_bytes a b

-- The four bytes of a word, put together as the decoders do.
pub bit_or_word :
    (b0 b1 b2 b3 : ℕ)
    → b1 < 256
    → b2 < 256
    → b3 < 256
    → bit_or (bit_or (bit_or (b0 * 16777216) (b1 * 65536)) (b2 * 256)) b3
      ≡ ((b0 * 256 + b1) * 256 + b2) * 256 + b3
bit_or_word b0 b1 b2 b3 h1 h2 h3 =
    let x = b0 * 256 + b1 in
    let y = x * 256 + b2 in
    let high =
      bit_or_up (b0 * 65536) (b0 * 16777216) (b1 * 256) (b1 * 65536) (omega arith) (omega arith)
      ∙ ap (λ z. z * 256)
          (bit_or_up (b0 * 256) (b0 * 65536) b1 (b1 * 256) (omega arith) (omega arith)
            ∙ ap (λ z. z * 256) (bit_or_byte b0 b1 h1)) in
    let middle =
      ap (λ z. bit_or z (b2 * 256)) high
      ∙ bit_or_up (x * 256) (x * 256 * 256) b2 (b2 * 256) (omega arith) (omega arith)
      ∙ ap (λ z. z * 256) (bit_or_byte x b2 h2) in
    ap (λ z. bit_or z b3) middle ∙ bit_or_byte y b3 h3
