-- ===== src/Ranges.antt =====
-- src/ranges.rs: a set of numbers held as a sorted list of disjoint half-open ranges. `Idx` is the
-- natural numbers, which the program uses at `u32` and at `usize`; the code only compares indices.
pub mod Insert
pub mod Cover
pub mod Gap
pub mod Split
pub mod Count
use ofs_convert_rs.Common.{
  ℕ, zero, suc, ◌+◌, ◌-◌, ◌*◌, ◌^◌, min, max, Bool, true, false, List, [], ◌∷◌, ◌++◌, Option, none,
  some, ltb, leb, ◌==◌, if◌then◌else◌, length, get_elem?, take, drop, Outcome, ok, panic, stuck,
  ◌>>=◌,
}

-- `std::ops::Range`; `start .. end` with `end <= start` is empty.
pub record Range : Type 0 where
  pub start : ℕ
  pub end : ℕ

abbrev pub is_empty : Range → Bool
is_empty r = leb r.end r.start

-- `ExactSizeIterator::len`
abbrev pub len : Range → ℕ
len r = r.end - r.start

-- The field `ranges` of `Ranges`.
abbrev pub Ranges : Type 0
Ranges = List Range

pub data NotCoveredRange : Type 0 where
  bounded : Range → NotCoveredRange
  unbounded : ℕ → NotCoveredRange

-- The result of `slice::binary_search_by_key`.
pub data Search : Type 0 where
  found not_found : ℕ → Search

abbrev shift : Search → Search
shift (found i) = found (suc i)
shift (not_found i) = not_found (suc i)

-- `ranges.binary_search_by_key(&key, |candidate| candidate.end)`, as the standard library documents
-- it for a slice whose keys rise strictly: the index of the match, or else the index at which the
-- key can be inserted.
pub binary_search_by_end : ℕ → Ranges → Search
binary_search_by_end key [] = not_found 0
binary_search_by_end key (r ∷ rs) =
    if r.end == key
    then found 0
    else if ltb key r.end
    then not_found 0
    else shift (binary_search_by_end key rs)

pub first_merge_candidate : Ranges → Range → ℕ
unfolding binary_search_by_end
first_merge_candidate rs range = elim (binary_search_by_end range.start rs) [
  | found i ↦ i
  | not_found i ↦ i
]

pub first_overlap_candidate : Ranges → Range → ℕ
unfolding binary_search_by_end
first_overlap_candidate rs range = elim (binary_search_by_end range.start rs) [
  | found i ↦ suc i
  | not_found i ↦ i
]

-- The `while` loop of `insert`: the list is `self.ranges[overlapping_ranges.end ..]`.
pub overlap_end : Range → Ranges → ℕ → ℕ
overlap_end range [] e = e
overlap_end range (r ∷ rs) e = if leb r.start range.end then overlap_end range rs (suc e) else e

-- The end of `insert`: the elements from `first` up to `last`, of which `a` is the first and `b` the
-- last, give way to one range. `none` is a read out of range.
pub replace_by_merged : Ranges → Range → ℕ → ℕ → Option Range → Option Range → Outcome Ranges
replace_by_merged rs range first last (some a) (some b) = ok (
    take first rs
    ++ record { start = min a.start range.start; end = max b.end range.end } ∷ drop last rs)
replace_by_merged rs range first last _ _ = panic

-- `insert`, once `first..last` is the run of ranges that overlap or touch the new one.
pub insert_between : Ranges → Range → ℕ → ℕ → Outcome Ranges
unfolding replace_by_merged
insert_between rs range first last =
    if first == length rs
    then ok (rs ++ range ∷ [])
    else if leb last first
    then ok (take first rs ++ range ∷ drop first rs)
    else replace_by_merged rs range first last (get_elem? rs first) (get_elem? rs (last - 1))

pub insert : Ranges → Range → Outcome Ranges
unfolding insert_between first_merge_candidate overlap_end
insert rs range =
    if is_empty range
    then ok rs
    else (let first = first_merge_candidate rs range in
        insert_between rs range first (overlap_end range (drop first rs) first))

-- `from`, `from_iter`: the ranges are inserted one after the other.
pub insert_all : Ranges → List Range → Outcome Ranges
unfolding insert
insert_all rs [] = ok rs
insert_all rs (r ∷ more) = insert rs r >>= λ rs'. insert_all rs' more

unfoldable pub from : List Range → Outcome Ranges
unfolding insert_all
from more = insert_all [] more

-- `next_not_covered` calls itself from the end of the range that covers its argument. The fuel bounds
-- these calls; `stuck` is proved out.
pub next_not_covered_from : ℕ → Ranges → ℕ → Outcome NotCoveredRange
unfolding first_overlap_candidate
next_not_covered_from zero rs x = stuck
next_not_covered_from (suc fuel) rs x =
    elim (get_elem? rs (first_overlap_candidate rs (record { start = x; end = x }))) [
      | none ↦ ok (unbounded x)
      | some candidate ↦ elim (ltb x candidate.start) [
        | true ↦ ok (bounded (record { start = x; end = candidate.start }))
        | false ↦ next_not_covered_from fuel rs candidate.end
      ]
    ]

unfoldable pub next_not_covered : Ranges → ℕ → Outcome NotCoveredRange
unfolding next_not_covered_from
next_not_covered rs x = next_not_covered_from (length rs + 1) rs x

-- The `while` loop of `split_overlapping`: the list is `self.ranges[overlap_candidate_idx ..]`, and
-- `remaining_range` is passed by its two ends.
pub split_loop : ℕ → Ranges → ℕ → ℕ → Outcome (List (Range × Bool))
split_loop fuel [] s e = ok (if leb e s then [] else (record { start = s; end = e }, false) ∷ [])
split_loop zero (c ∷ rs) s e = stuck
split_loop (suc fuel) (c ∷ rs) s e =
    let gap = split_loop fuel (c ∷ rs) (min c.start e) e in
    let overlap = split_loop fuel rs (min c.end e) e in
    if leb e s
    then ok []
    else if ltb s c.start
    then gap >>= (λ rest. ok ((record { start = s; end = min c.start e }, false) ∷ rest))
    else overlap >>= (λ rest. ok ((record { start = s; end = min c.end e }, true) ∷ rest))

-- A candidate takes two rounds at most.
unfoldable pub split_overlapping : Ranges → Range → Outcome (List (Range × Bool))
unfolding split_loop first_overlap_candidate
split_overlapping rs range =
    let suffix = drop (first_overlap_candidate rs range) rs in
    split_loop (2 * length suffix) suffix range.start range.end

abbrev pub usize_max : ℕ
usize_max = 2 ^ 64 - 1

abbrev pub clamp_to : ℕ → NotCoveredRange → Range
clamp_to e (bounded r) = record { start = r.start; end = min r.end e }
clamp_to e (unbounded start) = record { start = start; end = e }

-- A round of the `while` loop of `free_element_count`, with the rest of the loop as an argument. An
-- overflow of the count is the panic of `expect`.
pub free_count_round : ℕ → ℕ → (ℕ → ℕ → Outcome ℕ) → NotCoveredRange → Outcome ℕ
free_count_round e count rest gap =
    let range = clamp_to e gap in
    let count' = count + len range in if leb count' usize_max then rest range.end count' else panic

pub free_count_loop : ℕ → Ranges → ℕ → ℕ → ℕ → Outcome ℕ
unfolding free_count_round
free_count_loop zero rs e current count = stuck
free_count_loop (suc fuel) rs e current count = elim (ltb current e) [
  | false ↦ ok count
  | true ↦
      next_not_covered rs current
      >>= free_count_round e count (λ current' count'. free_count_loop fuel rs e current' count')
]

pub free_element_count : Ranges → Range → Outcome ℕ
unfolding free_count_loop next_not_covered
free_element_count rs within = free_count_loop (len within + 1) rs within.end within.start 0
