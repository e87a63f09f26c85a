-- ===== src/Base/Words.antt =====
-- Unsigned machine words as native numbers: a cast is a remainder, and the difference of two clock
-- readings wraps.
use Prim.Native.Nat.{ℕ, ◌+◌, ◌-◌, ◌%◌, ◌<◌}
use mathlib.Core.Path.{◌≡◌}
use native.Mathlib.Omega.{arith}

-- The casts to `std::uint8_t`, `std::uint16_t` and `std::uint32_t`.
abbrev pub u8 : ℕ → ℕ
u8 x = x % 256

abbrev pub u16 : ℕ → ℕ
u16 x = x % 65536

abbrev pub u32 : ℕ → ℕ
u32 x = x % 4294967296

-- `static_cast<std::uint32_t>(now_ms - then_ms)`, for both below 2 ^ 32.
abbrev pub elapsed : ℕ → ℕ → ℕ
elapsed now_ms then_ms = u32 (now_ms + 4294967296 - then_ms)

-- A clock that has run for `d` milliseconds, modulo 2 ^ 32, has them elapsed.
pub elapsed-u32 : (t d : ℕ) → t < 4294967296 → d < 4294967296 → elapsed (u32 (t + d)) t ≡ d
elapsed-u32 t d ht hd = omega arith
