-- ===== src/LoHi.antt =====
-- src/lohi.rs: a number that is stored as two halves. A type is known by the number of its values, so
-- that `<< LO_HALF_BIT_COUNT` is a product and `& lo_half_mask()` a remainder. `+` and `-` wrap, as
-- they do in the release build.
pub mod Laws
use ofs_convert_rs.Common.{
  ℕ, ◌+◌, ◌-◌, ◌*◌, ◌/◌, ◌%◌, ◌^◌, ◌≤◌, ◌<◌, ltb, leb, if◌then◌else◌, Outcome, ok, panic, ◌>>=◌,
  ◌>>◌, assert,
}

-- The type parameters `Full`, `LoHalf` and `HiHalf`.
pub record Widths : Type 0 where
  pub full : ℕ
  pub lo_half : ℕ
  pub hi_half : ℕ

abbrev pub u32_of_u16_u16 : Widths
u32_of_u16_u16 = record { full = 2 ^ 32; lo_half = 2 ^ 16; hi_half = 2 ^ 16 }

abbrev pub u64_of_u32_u32 : Widths
u64_of_u32_u32 = record { full = 2 ^ 64; lo_half = 2 ^ 32; hi_half = 2 ^ 32 }

abbrev pub u64_of_u32_u16 : Widths
u64_of_u32_u16 = record { full = 2 ^ 64; lo_half = 2 ^ 32; hi_half = 2 ^ 16 }

-- The two halves; what `LoHi` and `LoHiMut` borrow.
pub record Halves : Type 0 where
  pub lo : ℕ
  pub hi : ℕ

-- The assertion of `new`, which compares the sizes of the types.
unfoldable pub new : Widths → Halves → Outcome Halves
new w h = assert (leb (w.lo_half * w.hi_half) w.full) >> ok h

unfoldable pub get : Widths → Halves → ℕ
get w h = (h.hi * w.lo_half % w.full + h.lo) % w.full

-- `try_from(…).unwrap()` of the high half panics where it does not fit; that of the low half cannot.
unfoldable pub set : Widths → ℕ → Outcome Halves
set w value =
    if ltb (value / w.lo_half) w.hi_half
    then ok (record { lo = value % w.lo_half; hi = value / w.lo_half })
    else panic

unfoldable pub add_assign : Widths → Halves → ℕ → Outcome Halves
unfolding get set
add_assign w h other = set w ((get w h + other) % w.full)

unfoldable pub sub_assign : Widths → Halves → ℕ → Outcome Halves
unfolding get set
sub_assign w h other = set w ((get w h + w.full - other) % w.full)
