-- ===== src/Ext4/Extent.antt =====
-- src/ext4/extent.rs: extents, and how the data ranges of a file become extents.
pub mod FromRanges
use ofs_convert_rs.Common.{
  ℕ, zero, suc, ◌+◌, ◌-◌, ◌^◌, min, true, false, List, [], ◌∷◌, ◌++◌, ltb, leb, if◌then◌else◌,
  Outcome, ok, err, panic, stuck, ◌>>=◌, u16_size, u32_size, file_too_large,
}
use ofs_convert_rs.LoHi
use ofs_convert_rs.LoHi.{Halves, u64_of_u32_u16}
use ofs_convert_rs.Ranges.{Range, len}

-- `physical_start_lo` and `physical_start_hi` are the two halves of `physical_start`.
pub record Extent : Type 0 where
  pub logical_start : ℕ
  pub len : ℕ
  pub physical_start : Halves

abbrev pub max_len : ℕ
max_len = u16_size - 1

-- The `expect` on the length and the `set` of the start panic where these do not fit.
unfoldable pub new : Range → ℕ → Outcome Extent
new data_range logical_start =
    if ltb (len data_range) u16_size
    then LoHi.set u64_of_u32_u16 data_range.start >>= (λ halves.
      ok (record { logical_start = logical_start; len = len data_range; physical_start = halves }))
    else panic

unfoldable pub start : Extent → ℕ
start e = LoHi.get u64_of_u32_u16 e.physical_start

unfoldable pub end : Extent → ℕ
unfolding start
end e = start e + e.len

unfoldable pub as_range : Extent → Range
unfolding start end
as_range e = record { start = start e; end = end e }

-- util.rs, `checked_add` at `u32`, for an operand that fits.
abbrev pub checked_add : ℕ → ℕ → Outcome ℕ
checked_add a b = if ltb (a + b) u32_size then ok (a + b) else err file_too_large

-- What a round of the `while` loop does with the extents of the later rounds.
abbrev pub push_front : Extent → List Extent × ℕ → Outcome (List Extent × ℕ)
push_front e (es, logical) = ok (e ∷ es, logical)

-- The `while` loop of `from_ranges` over one range, from the block `s`. It returns the new extents and
-- the logical start behind them.
unfoldable pub split_range : ℕ → ℕ → ℕ → ℕ → Outcome (List Extent × ℕ)
unfolding new
split_range zero s e logical = stuck
split_range (suc fuel) s e logical = elim (leb e s) [
  | true ↦ ok ([], logical)
  | false ↦
      let n = min (e - s) max_len in
      new (record { start = s; end = s + n }) logical >>= λ extent.
      checked_add logical n >>= λ logical'.
      split_range fuel (s + n) e logical' >>= push_front extent
]

abbrev pub push_all : List Extent → List Extent → Outcome (List Extent)
push_all es more = ok (es ++ more)

-- The `for` loop. A range takes at most one round for each block, and the last test.
unfoldable pub from_ranges_at : ℕ → List Range → Outcome (List Extent)
unfolding split_range
from_ranges_at logical [] = ok []
from_ranges_at logical (r ∷ rs) = split_range (len r + 1) r.start r.end logical >>= λ part.
    from_ranges_at part.1 rs >>= push_all part.0

unfoldable pub from_ranges : List Range → Outcome (List Extent)
unfolding from_ranges_at
from_ranges rs = from_ranges_at 0 rs
