-- ===== src/Examples/Lists.antt =====
-- Lists of ranges, bitmaps, and numbers in halves, at concrete inputs.
use ofs_convert_rs.Common.{
  ℕ, ◌+◌, ◌%◌, ◌^◌, ◌≡◌, refl, Bool, true, false, List, [], ◌∷◌, length, ok, arith,
}
use ofs_convert_rs.Ranges.{
  Range, Ranges, NotCoveredRange, insert, from, next_not_covered, split_overlapping,
  free_element_count,
}
use ofs_convert_rs.Ranges.Cover.{covers, IsNormal}
use ofs_convert_rs.Ranges.Insert.{Adds, insert-Adds, from-covers}
use ofs_convert_rs.Ranges.Gap.{IsFirstGap, next_not_covered-IsFirstGap}
use ofs_convert_rs.Ranges.Split.{Tiles, split_overlapping-Tiles}
use ofs_convert_rs.Ranges.Count.{free_between, free_element_count-lem}
use ofs_convert_rs.LoHi
use ofs_convert_rs.LoHi.{Halves, u32_of_u16_u16, set, add_assign, sub_assign}
use ofs_convert_rs.LoHi.Laws.{get-set, get-add_assign, get-sub_assign, get-add_assign_wraps}
use ofs_convert_rs.Bitmap.{Bitmap, set_bit, clear_all}
use ofs_convert_rs.Bitmap.Laws.{IsBytes, bit, Changes, set_bit-Changes, clear_all-lem}

abbrev range : ℕ → ℕ → Range
range s e = record { start = s; end = e }

abbrev three : Ranges
three = range 2 5 ∷ range 8 9 ∷ range 20 30 ∷ []

three-IsNormal : IsNormal three
three-IsNormal = (omega arith, (omega arith, omega arith, (omega arith, omega arith, tt)))

insert-Adds_example :
    (rs' : Ranges) × (insert three (range 4 12) ≡ ok rs') × Adds (range 4 12) three rs'
insert-Adds_example = insert-Adds three (range 4 12) three-IsNormal

abbrev unsorted : List Range
unsorted = range 8 12 ∷ range 3 3 ∷ range 1 9 ∷ []

from-covers_example :
    (rs : Ranges) × (from unsorted ≡ ok rs)
    × IsNormal rs
    × ((x : ℕ) → covers rs x ≡ covers unsorted x)
from-covers_example = from-covers unsorted

next_not_covered-IsFirstGap_example :
    (g : NotCoveredRange) × (next_not_covered three 3 ≡ ok g) × IsFirstGap three 3 g
next_not_covered-IsFirstGap_example = next_not_covered-IsFirstGap three 3 three-IsNormal

split_overlapping-Tiles_example :
    (ps : List (Range × Bool)) × (split_overlapping three (range 4 25) ≡ ok ps)
    × Tiles three ps 4 25
split_overlapping-Tiles_example = split_overlapping-Tiles three (range 4 25) three-IsNormal

free_element_count_lem_example :
    free_element_count three (range 3 40) ≡ ok (free_between three 3 37)
free_element_count_lem_example =
    free_element_count-lem three (range 3 40) three-IsNormal (omega arith)

abbrev halves : Halves
halves = record { lo = 0xFFFF; hi = 3 }

halves-IsValid : LoHi.Laws.IsValid u32_of_u16_u16 halves
halves-IsValid = record { lo_fits = omega arith; hi_fits = omega arith; both_fit = omega arith }

get-halves : LoHi.get u32_of_u16_u16 halves ≡ 0x3FFFF
unfolding LoHi.get
get-halves = refl

get-set_example :
    (h : Halves) × (set u32_of_u16_u16 0x12345 ≡ ok h)
    × LoHi.Laws.IsValid u32_of_u16_u16 h
    × (LoHi.get u32_of_u16_u16 h ≡ 0x12345)
get-set_example = get-set u32_of_u16_u16 0x12345 (omega arith) (omega arith) (omega arith)

get-add_assign_wraps_example :
    (h' : Halves) × (add_assign u32_of_u16_u16 halves 0xFFFFFFFF ≡ ok h')
    × (LoHi.get u32_of_u16_u16 h' ≡ (LoHi.get u32_of_u16_u16 halves + 0xFFFFFFFF) % 2 ^ 32)
get-add_assign_wraps_example = get-add_assign_wraps halves-IsValid 0xFFFFFFFF refl

abbrev bitmap : Bitmap
bitmap = 0xA5 ∷ 0x0F ∷ []

bitmap-IsBytes : IsBytes bitmap
bitmap-IsBytes = (omega arith, (omega arith, tt))

set_bit-Changes_example : (b' : Bitmap) × (set_bit bitmap 9 ≡ ok b') × Changes bitmap 9 true b'
set_bit-Changes_example = set_bit-Changes bitmap 9 bitmap-IsBytes (omega arith)

clear_all_lem_example :
    (length (clear_all bitmap) ≡ 2)
    × IsBytes (clear_all bitmap)
    × ((j : ℕ) → bit (clear_all bitmap) j ≡ false)
clear_all_lem_example = clear_all-lem bitmap
