-- ===== src/Allocator.antt =====
-- src/allocator.rs: hands out clusters that are free in the FAT and outside the future metadata. The
-- base pointer `fs_ptr` is left out: a cluster is known by its index and by its byte offset.
pub mod Valid
pub mod Allocate
pub mod Split
use ofs_convert_rs.Common.{
  ℕ, ◌+◌, ◌-◌, ◌*◌, ◌/◌, ◌^◌, min, Bool, true, false, ◌&&◌, Option, none, some, ltb, leb, ◌==◌,
  if◌then◌else◌, Outcome, ok, err, panic, ◌>>=◌, no_free_clusters,
}
use ofs_convert_rs.Ranges.{
  Range, Ranges, NotCoveredRange, bounded, unbounded, is_empty, insert, next_not_covered,
  free_element_count, usize_max,
}

abbrev pub u32_max : ℕ
u32_max = 2 ^ 32 - 1

pub record Allocator : Type 0 where
  pub valid_cluster_indices : Range
  pub cursor : ℕ
  pub used_ranges : Ranges
  pub cluster_size : ℕ

pub record AllocatedReader : Type 0 where
  pub valid_cluster_indices : Range
  pub cluster_size : ℕ

-- A division by zero panics, and so does `expect` on a count that does not fit `u32`.
pub new : ℕ → ℕ → Ranges → Outcome Allocator
new fs_len cluster_size used_ranges =
    if cluster_size == 0
    then panic
    else if leb (fs_len / cluster_size) u32_max
    then ok (record {
      valid_cluster_indices = record { start = 0; end = fs_len / cluster_size };
      cursor = 0;
      used_ranges = used_ranges;
      cluster_size = cluster_size;
    })
    else panic

unfoldable pub forbid : Allocator → Range → Outcome Allocator
forbid a range = insert a.used_ranges range >>= λ used. ok (record a { used_ranges = used })

pub fs_end_cluster_idx : Allocator → ℕ
fs_end_cluster_idx a = a.valid_cluster_indices.end

abbrev end_at : ℕ → NotCoveredRange → Range
end_at e (bounded range) = range
end_at e (unbounded start) = record { start = start; end = e }

pub find_next_free_range : Allocator → ℕ → Outcome Range
unfolding fs_end_cluster_idx
find_next_free_range a cursor = next_not_covered a.used_ranges cursor >>= λ gap.
    let range = end_at (fs_end_cluster_idx a) gap in
    if is_empty range then err no_free_clusters else ok range

-- `u32::saturating_add`
abbrev pub saturating_add : ℕ → ℕ → ℕ
saturating_add a b = min (a + b) u32_max

-- What `allocate` makes of the free range that it found.
pub take_from : Allocator → ℕ → Range → Range × Allocator
take_from a max_length free_range =
    let range_end = min free_range.end (saturating_add free_range.start max_length) in
    (record { start = free_range.start; end = range_end }, record a { cursor = range_end })

unfoldable pub allocate : Allocator → ℕ → Outcome (Range × Allocator)
unfolding find_next_free_range take_from
allocate a max_length =
    find_next_free_range a a.cursor >>= λ free_range. ok (take_from a max_length free_range)

unfoldable pub allocate_one : Allocator → Outcome (ℕ × Allocator)
unfolding allocate
allocate_one a = allocate a 1 >>= λ result. ok (result.0.start, result.1)

pub free_block_count : Allocator → Outcome ℕ
unfolding fs_end_cluster_idx
free_block_count a =
    free_element_count a.used_ranges (record { start = a.cursor; end = fs_end_cluster_idx a })

-- `checked_mul` at a `usize` of 64 bits.
abbrev checked_mul : ℕ → ℕ → Option ℕ
checked_mul a b = if leb (a * b) usize_max then some (a * b) else none

-- `cluster_start_byte`, which the allocator and its reader share.
unfoldable pub start_byte : Range → ℕ → ℕ → Option ℕ
start_byte valid cluster_size cluster_idx =
    if leb valid.start cluster_idx && ltb cluster_idx valid.end
    then checked_mul cluster_size cluster_idx
    else none

unfoldable pub cluster_start_byte : Allocator → ℕ → Option ℕ
unfolding start_byte
cluster_start_byte a idx = start_byte a.valid_cluster_indices a.cluster_size idx

unfoldable pub reader_start_byte : AllocatedReader → ℕ → Option ℕ
unfolding start_byte
reader_start_byte r idx = start_byte r.valid_cluster_indices r.cluster_size idx

unfoldable pub split_into_reader : Allocator → AllocatedReader × Allocator
split_into_reader a = (
  record {
    valid_cluster_indices = record { start = a.valid_cluster_indices.start; end = a.cursor };
    cluster_size = a.cluster_size;
  },
  record a {
    valid_cluster_indices = record { start = a.cursor; end = a.valid_cluster_indices.end };
  },
)
