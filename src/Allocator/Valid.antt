-- ===== src/Allocator/Valid.antt =====
-- The invariant of `Allocator`, and the number of clusters that it can still hand out.
use ofs_convert_rs.Common.{ℕ, ◌-◌, ◌/◌, ◌≢◌, ◌≤◌, ◌<◌, true, ◌≡◌, ok, arith, ◌||◌, refl}
use ofs_convert_rs.Ranges.{Range, Ranges}
use ofs_convert_rs.Ranges.Cover.{covers, contains, IsNormal}
use ofs_convert_rs.Ranges.Insert.{insert-Adds}
use ofs_convert_rs.Ranges.Count.{free_between, free_element_count-lem}
use ofs_convert_rs.Allocator.{Allocator, u32_max, new, forbid, fs_end_cluster_idx, free_block_count}

-- The cursor may stand at the end of the valid indices: it does once the last of them is allocated.
pub record IsValid (a : Allocator) : Type 0 where
  pub normal : IsNormal a.used_ranges
  pub inside : (x : ℕ) → covers a.used_ranges x ≡ true → x < a.valid_cluster_indices.end
  pub started : a.valid_cluster_indices.start ≤ a.cursor
  pub not_past : a.cursor ≤ a.valid_cluster_indices.end
  pub fits : a.valid_cluster_indices.end ≤ u32_max

abbrev pub free : Allocator → ℕ
free a = free_between a.used_ranges a.cursor (a.valid_cluster_indices.end - a.cursor)

-- `free_block_count` returns the number of indices between the cursor and the end that are not used.
pub free_block_count-lem : (a : Allocator) → IsValid a → free_block_count a ≡ ok (free a)
unfolding free_block_count fs_end_cluster_idx
free_block_count-lem a v =
    free_element_count-lem a.used_ranges
      (record { start = a.cursor; end = a.valid_cluster_indices.end }) v.normal
      (omega (arith, v.fits))

-- `Allocator::new` yields a valid allocator that starts at index 0, if the file system has at most
-- `u32::MAX` clusters of a size that is not zero and the used ranges are normal and lie below its end.
pub new-IsValid :
    (fs_len cluster_size : ℕ) (used : Ranges)
    → cluster_size ≢ 0
    → fs_len / cluster_size ≤ u32_max
    → IsNormal used
    → ((x : ℕ) → covers used x ≡ true → x < fs_len / cluster_size)
    → (a : Allocator) × (new fs_len cluster_size used ≡ ok a)
      × IsValid a
      × (a.cursor ≡ 0)
      × (a.used_ranges ≡ used)
      × (a.valid_cluster_indices.end ≡ fs_len / cluster_size)
unfolding new
new-IsValid fs_len cluster_size used z h n i = (
  record {
    valid_cluster_indices = record { start = 0; end = fs_len / cluster_size };
    cursor = 0;
    used_ranges = used;
    cluster_size = cluster_size;
  },
  ground arith,
  record { normal = n; inside = i; started = omega arith; not_past = omega arith; fits = h },
  refl,
  refl,
  refl,
)

-- `forbid` at a range below the end keeps the allocator valid, and makes exactly the indices of that
-- range used beside those that were.
pub forbid-IsValid :
    (a : Allocator) (range : Range)
    → IsValid a
    → range.end ≤ a.valid_cluster_indices.end
    → (a' : Allocator) × (forbid a range ≡ ok a')
      × IsValid a'
      × ((x : ℕ) → covers a'.used_ranges x ≡ (contains range x || covers a.used_ranges x))
unfolding forbid
forbid-IsValid a range v h =
    let (used, e, (n, c)) = insert-Adds a.used_ranges range v.normal in
    (
      record a { used_ranges = used },
      rw e,
      record {
        normal = n;
        inside = λ x t. ground (arith, c x, v.inside x);
        started = v.started;
        not_past = v.not_past;
        fits = v.fits;
      },
      c,
    )
