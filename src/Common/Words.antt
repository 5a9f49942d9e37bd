-- ===== src/Common/Words.antt =====
-- Unsigned machine arithmetic as the release build does it: sums, differences and products wrap.
-- `usize` has 64 bits.
use Prim.Native.Nat.{ℕ, ◌+◌, ◌-◌, ◌*◌, ◌/◌, ◌%◌, ◌^◌}
use ofs_convert_rs.Common.Tests.{◌==◌, if◌then◌else◌}

abbrev pub u16_size : ℕ
u16_size = 2 ^ 16

abbrev pub u32_size : ℕ
u32_size = 2 ^ 32

abbrev pub u64_size : ℕ
u64_size = 2 ^ 64

abbrev pub add32 : ℕ → ℕ → ℕ
add32 a b = (a + b) % u32_size

abbrev pub sub32 : ℕ → ℕ → ℕ
sub32 a b = (a + u32_size - b) % u32_size

abbrev pub mul32 : ℕ → ℕ → ℕ
mul32 a b = a * b % u32_size

abbrev pub add64 : ℕ → ℕ → ℕ
add64 a b = (a + b) % u64_size

abbrev pub sub64 : ℕ → ℕ → ℕ
sub64 a b = (a + u64_size - b) % u64_size

abbrev pub mul64 : ℕ → ℕ → ℕ
mul64 a b = a * b % u64_size

-- `num::Integer::div_ceil` on unsigned numbers, at a divisor that is not zero.
abbrev pub div_ceil : ℕ → ℕ → ℕ
div_ceil a b = a / b + (if a % b == 0 then 0 else 1)
