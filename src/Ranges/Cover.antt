-- ===== src/Ranges/Cover.antt =====
-- What a list of ranges covers, and the invariant of `Ranges`.
use ofs_convert_rs.Common.{
  ℕ, Bool, false, ◌&&◌, ◌||◌, [], ◌∷◌, ◌<◌, ◌≤◌, ◌≡◌, refl, leb, ltb, arith,
}
use ofs_convert_rs.Ranges.{Range, Ranges}

abbrev pub contains : Range → ℕ → Bool
contains r x = leb r.start x && ltb x r.end

abbrev pub covers : Ranges → ℕ → Bool
covers [] x = false
covers (r ∷ rs) x = contains r x || covers rs x

-- Every range is non-empty and starts behind `lo`, and between any two there is a gap.
abbrev pub Above : ℕ → Ranges → Type 0
Above lo [] = Unit {0}
Above lo (r ∷ rs) = (lo < r.start) × (r.start < r.end) × Above r.end rs

-- The invariant "non-overlapping, sorted", in the form that `insert` keeps: touching ranges are merged.
abbrev pub IsNormal : Ranges → Type 0
IsNormal [] = Unit {0}
IsNormal (r ∷ rs) = (r.start < r.end) × Above r.end rs

pub Above-IsNormal : (lo : ℕ) (rs : Ranges) → Above lo rs → IsNormal rs
Above-IsNormal lo [] a = tt
Above-IsNormal lo (r ∷ rs) a = (a.1, a.2)

pub Above-mono : (lo lo' : ℕ) (rs : Ranges) → lo' ≤ lo → Above lo rs → Above lo' rs
Above-mono lo lo' [] h a = tt
Above-mono lo lo' (r ∷ rs) h a = (omega arith, a.1, a.2)

-- Nothing at or before the bound is covered.
pub covers-Above : (lo : ℕ) (rs : Ranges) (y : ℕ) → Above lo rs → y ≤ lo → covers rs y ≡ false
covers-Above lo [] y a h = refl
covers-Above lo (r ∷ rs) y a h = ground (arith, covers-Above r.end rs y)

-- A range that ends at or before `y` does not matter at `y`.
pub covers-behind : (r : Range) (rs : Ranges) (y : ℕ) → r.end ≤ y → covers (r ∷ rs) y ≡ covers rs y
covers-behind r rs y h = ground arith
