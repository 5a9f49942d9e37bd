-- ===== src/Bitmap/Laws.antt =====
-- `set` and `clear` change one bit of the bitmap and no other.
use native.Mathlib.Decide.{ℕ_discrete}
use ofs_convert_rs.Common.{
  ℕ, zero, suc, ◌/◌, ◌%◌, ◌<◌, Bool, true, false, ◌≡◌, ◌≢◌, refl, [], ◌∷◌, some, arith, length,
  get_elem?, get_or, set, get_or-set_self, get_or-set_ne, length-set, ok, map, ap,
}
use ofs_convert_rs.Bitmap.{
  Bitmap, bit_of, with_bit, without_bit, get, set_bit, clear, clear_all, len,
}
use ofs_convert_rs.Bitmap.Bits.{bit_of-with_bit, bit_of-without_bit, bit_of-zero}

abbrev pub IsBytes : Bitmap → Type 0
IsBytes [] = Unit {0}
IsBytes (x ∷ xs) = (x < 256) × IsBytes xs

-- The bit at an index below the length.
abbrev pub bit : Bitmap → ℕ → Bool
bit b i = bit_of (get_or b (i / 8) 0) (i % 8)

get_or-lt : (b : Bitmap) (i : ℕ) → IsBytes b → get_or b i 0 < 256
get_or-lt [] i h = omega arith
get_or-lt (x ∷ xs) zero h = h.0
get_or-lt (x ∷ xs) (suc i) h = get_or-lt xs i h.1

set-IsBytes : (b : Bitmap) (i v : ℕ) → IsBytes b → v < 256 → IsBytes (set b i v)
set-IsBytes [] i v h k = tt
set-IsBytes (x ∷ xs) zero v h k = (k, h.1)
set-IsBytes (x ∷ xs) (suc i) v h k = (h.0, set-IsBytes xs i v h.1 k)

read-byte : (b : Bitmap) (i : ℕ) → i < length b → get_elem? b i ≡ some (get_or b i 0)
read-byte [] i h = elim h [ ]
read-byte (x ∷ xs) zero h = refl
read-byte (x ∷ xs) (suc i) h = read-byte xs i (omega arith)

-- `get` reads the bit.
pub get-bit : (b : Bitmap) (i : ℕ) → i < len b → get b i ≡ ok (bit b i)
unfolding get
get-bit b i h = rw (read-byte b (i / 8) (omega arith))

-- A bitmap whose bit `i` is `v` and whose other bits are those of `b`.
pub record Changes (b : Bitmap) (i : ℕ) (v : Bool) (b' : Bitmap) : Type 0 where
  pub same_length : length b' ≡ length b
  pub bytes : IsBytes b'
  pub changed : bit b' i ≡ v
  pub kept : (j : ℕ) → i ≢ j → bit b' j ≡ bit b j

-- A write of one byte that changes one bit of it.
write-Changes :
    (b : Bitmap) (i x : ℕ) (v : Bool)
    → i < len b
    → IsBytes b
    → x < 256
    → bit_of x (i % 8) ≡ v
    → ((c : ℕ) → c < 8 → i % 8 ≢ c → bit_of x c ≡ bit_of (get_or b (i / 8) 0) c)
    → Changes b i v (set b (i / 8) x)
write-Changes b i x v h n l e k = record {
  same_length = length-set b (i / 8) x;
  bytes = set-IsBytes b (i / 8) x n l;
  changed = rw (get_or-set_self b (i / 8) x 0 (omega arith)) e;
  kept = λ j d. elim (ℕ_discrete (i / 8) (j / 8)) [
    | yes same ↦
        rw (← same, get_or-set_self b (i / 8) x 0 (omega arith))
          (k (j % 8) (omega arith) (omega arith))
    | no other ↦ rw (get_or-set_ne b (i / 8) (j / 8) x 0 other)
  ];
}

-- `set` at an index below the length sets that bit and changes no other.
pub set_bit-Changes :
    (b : Bitmap) (i : ℕ)
    → IsBytes b
    → i < len b
    → (b' : Bitmap) × (set_bit b i ≡ ok b') × Changes b i true b'
unfolding set_bit
set_bit-Changes b i n h =
    let byte : ℕ = get_or b (i / 8) 0 in
    let small : byte < 256 = get_or-lt b (i / 8) n in
    let at = λ (c : ℕ) (l : c < 8). bit_of-with_bit byte (i % 8) c small (omega arith) l in
    (
      set b (i / 8) (with_bit byte (i % 8)),
      rw (read-byte b (i / 8) (omega arith)),
      write-Changes b i (with_bit byte (i % 8)) true h n (at 0 (omega arith)).1
          (ground (arith, at (i % 8))) (λ c l d. ground (arith, at c l)),
    )

-- `clear` at an index below the length clears that bit and changes no other.
pub clear-Changes :
    (b : Bitmap) (i : ℕ)
    → IsBytes b
    → i < len b
    → (b' : Bitmap) × (clear b i ≡ ok b') × Changes b i false b'
unfolding clear
clear-Changes b i n h =
    let byte : ℕ = get_or b (i / 8) 0 in
    let small : byte < 256 = get_or-lt b (i / 8) n in
    let at = λ (c : ℕ) (l : c < 8). bit_of-without_bit byte (i % 8) c small (omega arith) l in
    (
      set b (i / 8) (without_bit byte (i % 8)),
      rw (read-byte b (i / 8) (omega arith)),
      write-Changes b i (without_bit byte (i % 8)) false h n (at 0 (omega arith)).1
          (ground (arith, at (i % 8))) (λ c l d. ground (arith, at c l)),
    )

length-zeros : (b : Bitmap) → length (map {A = ℕ} {B = ℕ} (λ byte. 0) b) ≡ length b
length-zeros [] = refl
length-zeros (x ∷ xs) = ap suc (length-zeros xs)

zeros-IsBytes : (b : Bitmap) → IsBytes (map {A = ℕ} {B = ℕ} (λ byte. 0) b)
zeros-IsBytes [] = tt
zeros-IsBytes (x ∷ xs) = (omega arith, zeros-IsBytes xs)

get_or-zeros : (b : Bitmap) (i : ℕ) → get_or (map {A = ℕ} {B = ℕ} (λ byte. 0) b) i 0 ≡ 0
get_or-zeros [] i = refl
get_or-zeros (x ∷ xs) zero = refl
get_or-zeros (x ∷ xs) (suc i) = get_or-zeros xs i

-- `clear_all` leaves a bitmap of the same length with no bit set.
pub clear_all-lem :
    (b : Bitmap)
    → (length (clear_all b) ≡ length b)
      × IsBytes (clear_all b)
      × ((j : ℕ) → bit (clear_all b) j ≡ false)
unfolding clear_all
clear_all-lem b = (
  length-zeros b,
  zeros-IsBytes b,
  λ j. rw (get_or-zeros b (j / 8)) (bit_of-zero (j % 8) (omega arith)),
)
