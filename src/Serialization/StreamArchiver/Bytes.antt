-- ===== src/Serialization/StreamArchiver/Bytes.antt =====
-- Reads and writes at an offset of a page.
use ofs_convert_rs.Common.{
  ℕ, zero, suc, ◌+◌, ◌≤◌, ◌≡◌, refl, ap, List, [], ◌∷◌, length, take, arith,
}

-- `write_unaligned`, of an object whose bytes are given.
unfoldable pub write_at : ℕ → List ℕ → List ℕ → List ℕ
write_at zero [] page = page
write_at zero (b ∷ bytes) [] = []
write_at zero (b ∷ bytes) (x ∷ page) = b ∷ write_at zero bytes page
write_at (suc pos) bytes [] = []
write_at (suc pos) bytes (x ∷ page) = x ∷ write_at pos bytes page

-- `read_unaligned`, of an object of `n` bytes.
unfoldable pub read_at : ℕ → ℕ → List ℕ → List ℕ
read_at zero n page = take n page
read_at (suc pos) n [] = []
read_at (suc pos) n (x ∷ page) = read_at pos n page

pub length-write_at :
    (pos : ℕ) (bytes page : List ℕ) → length (write_at pos bytes page) ≡ length page
unfolding write_at
length-write_at zero [] page = refl
length-write_at zero (b ∷ bytes) [] = refl
length-write_at zero (b ∷ bytes) (x ∷ page) = ap suc (length-write_at zero bytes page)
length-write_at (suc pos) bytes [] = refl
length-write_at (suc pos) bytes (x ∷ page) = ap suc (length-write_at pos bytes page)

-- What was written is read.
pub read_at-write_at :
    (pos : ℕ) (bytes page : List ℕ)
    → pos + length bytes ≤ length page
    → read_at pos (length bytes) (write_at pos bytes page) ≡ bytes
unfolding read_at write_at
read_at-write_at zero [] page h = refl
read_at-write_at zero (b ∷ bytes) [] h = absurd (omega arith)
read_at-write_at zero (b ∷ bytes) (x ∷ page) h =
    ap (λ xs. b ∷ xs) (read_at-write_at zero bytes page (omega arith))
read_at-write_at (suc pos) bytes [] h = absurd (omega arith)
read_at-write_at (suc pos) bytes (x ∷ page) h = read_at-write_at pos bytes page (omega arith)

-- A read before what was written, or behind it, is as it was.
pub read_at-before :
    (q n pos : ℕ) (bytes page : List ℕ)
    → q + n ≤ pos
    → read_at q n (write_at pos bytes page) ≡ read_at q n page
unfolding read_at write_at
read_at-before zero zero pos bytes page h = refl
read_at-before zero (suc n) zero bytes page h = absurd (omega arith)
read_at-before zero (suc n) (suc pos) bytes [] h = refl
read_at-before zero (suc n) (suc pos) bytes (x ∷ page) h =
    ap (λ xs. x ∷ xs) (read_at-before zero n pos bytes page (omega arith))
read_at-before (suc q) n zero bytes page h = absurd (omega arith)
read_at-before (suc q) n (suc pos) bytes [] h = refl
read_at-before (suc q) n (suc pos) bytes (x ∷ page) h =
    read_at-before q n pos bytes page (omega arith)

pub read_at-behind :
    (q n pos : ℕ) (bytes page : List ℕ)
    → pos + length bytes ≤ q
    → read_at q n (write_at pos bytes page) ≡ read_at q n page
unfolding read_at write_at
read_at-behind q n zero [] page h = refl
read_at-behind zero n zero (b ∷ bytes) page h = absurd (omega arith)
read_at-behind (suc q) n zero (b ∷ bytes) [] h = refl
read_at-behind (suc q) n zero (b ∷ bytes) (x ∷ page) h =
    read_at-behind q n zero bytes page (omega arith)
read_at-behind zero n (suc pos) bytes page h = absurd (omega arith)
read_at-behind (suc q) n (suc pos) bytes [] h = refl
read_at-behind (suc q) n (suc pos) bytes (x ∷ page) h =
    read_at-behind q n pos bytes page (omega arith)
