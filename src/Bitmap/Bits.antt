-- ===== src/Bitmap/Bits.antt =====
-- The bit operations on one byte, by a check of every byte and every pair of bits.
use ofs_convert_rs.Common.{
  all_below, all_below_sound, ℕ, ◌<◌, Bool, true, false, not, ◌&&◌, ◌||◌, ◌≡◌, refl, ◌==◌, ltb,
  arith,
}
use ofs_convert_rs.Bitmap.{bit_of, with_bit, without_bit}

-- Over a byte and two bits.
all_bytes : (ℕ → ℕ → ℕ → Bool) → Bool
all_bytes p = all_below 256 (λ byte. all_below 8 (λ b. all_below 8 (λ c. p byte b c)))

all_bytes_sound :
    (p : ℕ → ℕ → ℕ → Bool) (byte b c : ℕ)
    → all_bytes p ≡ true
    → byte < 256
    → b < 8
    → c < 8
    → p byte b c ≡ true
unfolding all_bytes
all_bytes_sound p byte b c h k l m =
    all_below_sound 8 (p byte b) c
      (all_below_sound 8 (λ x. all_below 8 (p byte x)) b
        (all_below_sound 256 (λ y. all_below 8 (λ x. all_below 8 (p y x))) byte h k) l)
      m

abbrev iff : Bool → Bool → Bool
iff true y = y
iff false y = not y

abbrev sets : ℕ → ℕ → ℕ → Bool
sets byte b c =
    iff (bit_of (with_bit byte b) c) (b == c || bit_of byte c) && ltb (with_bit byte b) 256

abbrev clears : ℕ → ℕ → ℕ → Bool
clears byte b c =
    iff (bit_of (without_bit byte b) c) (not (b == c) && bit_of byte c)
    && ltb (without_bit byte b) 256

sets_table : all_bytes sets ≡ true
unfolding all_bytes all_below bit_of with_bit
sets_table = refl

clears_table : all_bytes clears ≡ true
unfolding all_bytes all_below bit_of without_bit
clears_table = refl

-- `|= 1 << b` sets bit `b` and leaves the others.
pub bit_of-with_bit :
    (byte b c : ℕ)
    → byte < 256
    → b < 8
    → c < 8
    → (bit_of (with_bit byte b) c ≡ (b == c || bit_of byte c)) × (with_bit byte b < 256)
bit_of-with_bit byte b c h k l = ground (arith, all_bytes_sound sets byte b c sets_table h k l)

-- `&= !(1 << b)` clears bit `b` and leaves the others.
pub bit_of-without_bit :
    (byte b c : ℕ)
    → byte < 256
    → b < 8
    → c < 8
    → (bit_of (without_bit byte b) c ≡ (not (b == c) && bit_of byte c)) × (without_bit byte b < 256)
bit_of-without_bit byte b c h k l =
    ground (arith, all_bytes_sound clears byte b c clears_table h k l)

zero_table : all_below 8 (λ c. not (bit_of 0 c)) ≡ true
unfolding all_below bit_of
zero_table = refl

pub bit_of-zero : (c : ℕ) → c < 8 → bit_of 0 c ≡ false
bit_of-zero c h = ground (arith, all_below_sound 8 (λ c. not (bit_of 0 c)) c zero_table h)
