-- ===== src/Bitmap.antt =====
-- src/bitmap.rs: a bitmap over a slice of bytes, given as the list of the bytes.
pub mod Bits
pub mod Laws
use Prim.Native.Nat.{bit_and, bit_or}
use ofs_convert_rs.Common.{
  ℕ, ◌-◌, ◌*◌, ◌/◌, ◌%◌, ◌^◌, Bool, not, List, map, ◌==◌, length, get_elem?, set, Outcome, ok,
  ◌>>=◌, ◌>>◌, unwrap, assert, leb,
}
use ofs_convert_rs.Ranges.{usize_max}

abbrev pub Bitmap : Type 0
Bitmap = List ℕ

-- The tests and changes of one byte; `bit_idx` is below 8.
pub bit_of : ℕ → ℕ → Bool
bit_of byte bit_idx = not (bit_and byte (2 ^ bit_idx) == 0)

pub with_bit : ℕ → ℕ → ℕ
with_bit byte bit_idx = bit_or byte (2 ^ bit_idx)

pub without_bit : ℕ → ℕ → ℕ
without_bit byte bit_idx = bit_and byte (255 - 2 ^ bit_idx)

unfoldable pub new : List ℕ → Outcome Bitmap
new bytes = assert (leb (length bytes * 8) usize_max) >> ok bytes

-- An index out of bounds panics.
pub get : Bitmap → ℕ → Outcome Bool
unfolding bit_of
get b idx = unwrap (get_elem? b (idx / 8)) >>= λ byte. ok (bit_of byte (idx % 8))

pub set_bit : Bitmap → ℕ → Outcome Bitmap
unfolding with_bit
set_bit b idx =
    unwrap (get_elem? b (idx / 8)) >>= λ byte. ok (set b (idx / 8) (with_bit byte (idx % 8)))

pub clear : Bitmap → ℕ → Outcome Bitmap
unfolding without_bit
clear b idx =
    unwrap (get_elem? b (idx / 8)) >>= λ byte. ok (set b (idx / 8) (without_bit byte (idx % 8)))

pub clear_all : Bitmap → Bitmap
clear_all b = map (λ byte. 0) b

abbrev pub len : Bitmap → ℕ
len b = length b * 8
