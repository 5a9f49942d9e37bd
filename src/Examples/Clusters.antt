-- ===== src/Examples/Clusters.antt =====
-- The allocator, the FAT and the extents, at concrete inputs.
use ofs_convert_rs.Common.{
  ℕ, ◌+◌, ◌<◌, ◌≡◌, refl, true, ◌||◌, ◌⊎◌, List, [], ◌∷◌, ◌++◌, some, none, length, drop, ltb, ok,
  err, arith, no_free_clusters, file_too_large,
}
use ofs_convert_rs.Ranges.{Range, Ranges}
use ofs_convert_rs.Ranges.Cover.{covers, IsNormal}
use ofs_convert_rs.Allocator.{
  Allocator, allocate, free_block_count, split_into_reader, cluster_start_byte, reader_start_byte,
}
use ofs_convert_rs.Allocator.Valid.{IsValid, free, free_block_count-lem}
use ofs_convert_rs.Allocator.Allocate.{
  Allocates, allocate-cases, allocate_many, allocate_many-lem, RisesFrom, AllFree,
}
use ofs_convert_rs.Allocator.Split.{split_into_reader-parts}
use ofs_convert_rs.Fat.BootSector.{
  BootSector, get_data_range, cluster_size, first_cluster, volume_label, fs_type_fat32,
}
use ofs_convert_rs.Fat.BootSector.Label.{volume_label-drops_last}
use ofs_convert_rs.Fat.Table.{RangeInclusive, data_ranges, used_ranges}
use ofs_convert_rs.Fat.Table.Chain.{
  Chain, stop, link, clusters, to_data, Separate, data_ranges-clusters,
}
use ofs_convert_rs.Fat.Table.Used.{in_use, data_start, used_ranges-covers}
use ofs_convert_rs.Ext4.Extent.{Extent, from_ranges}
use ofs_convert_rs.Ext4.Extent.FromRanges.{
  extent_blocks, range_blocks, Follows, total, from_ranges-blocks, from_ranges-too_large,
}

abbrev range : ℕ → ℕ → Range
range s e = record { start = s; end = e }

abbrev pub ten : Allocator
ten = record {
  valid_cluster_indices = range 0 10;
  cursor = 1;
  used_ranges = range 0 2 ∷ range 4 6 ∷ [];
  cluster_size = 512;
}

ten-inside : (x : ℕ) → covers ten.used_ranges x ≡ true → x < 10
ten-inside x h = ground arith

pub ten-IsValid : IsValid ten
ten-IsValid = record {
  normal = (omega arith, (omega arith, omega arith, tt));
  inside = ten-inside;
  started = omega arith;
  not_past = omega arith;
  fits = omega arith;
}

allocate-cases_example :
    ((r : Range) × (a' : Allocator) × (allocate ten 3 ≡ ok (r, a')) × Allocates ten 3 r a')
    ⊎ ((allocate ten 3 ≡ err no_free_clusters) × (free ten ≡ 0))
allocate-cases_example = allocate-cases ten 3 ten-IsValid (omega arith)

allocate_many_lem_example :
    (is : List ℕ) × (a' : Allocator) × (allocate_many 6 ten ≡ ok (is, a'))
    × RisesFrom 1 is
    × AllFree ten.used_ranges is
    × IsValid a'
    × (a'.used_ranges ≡ ten.used_ranges)
    × (free ten ≡ 6 + free a')
allocate_many_lem_example = allocate_many-lem 6 ten ten-IsValid (omega arith)

free_block_count_lem_example : free_block_count ten ≡ ok (free ten)
free_block_count_lem_example = free_block_count-lem ten ten-IsValid

split_into_reader-parts_example :
    (cluster_start_byte ten 3 ≡ some 1536)
    × (reader_start_byte (split_into_reader ten).0 3 ≡ none)
    × (cluster_start_byte (split_into_reader ten).1 3 ≡ some 1536)
split_into_reader-parts_example =
    split_into_reader-parts ten 3 ten-IsValid (omega arith) (omega arith) (omega arith)

-- A file of the clusters 3, 4, 6 and 5.
abbrev table : List ℕ
table = 0 ∷ 0 ∷ 0x0FFFFFF8 ∷ 4 ∷ 6 ∷ 0x0FFFFFFF ∷ 5 ∷ 0 ∷ []

table-Chain : Chain table 4 (4 ∷ 6 ∷ 5 ∷ [])
table-Chain =
    link (omega arith, omega arith) refl
      (link (omega arith, omega arith) refl
        (link (omega arith, omega arith) refl (stop (omega arith))))

data_ranges-clusters_example :
    (rs : List RangeInclusive) × (data_ranges 8 table 3 ≡ ok rs)
    × (clusters rs ≡ to_data (3 ∷ 4 ∷ 6 ∷ 5 ∷ []))
    × Separate rs
data_ranges-clusters_example =
    data_ranges-clusters 8 table 3 4 (omega arith, omega arith) refl table-Chain (omega arith)

abbrev text : List ℕ
text = 0x44 ∷ 0x41 ∷ 0x54 ∷ []

abbrev boot_sector : BootSector
boot_sector = record {
  bytes_per_sector = 512;
  sectors_per_cluster = 2;
  sectors_before_fat = 32;
  fat_count = 2;
  sector_count_1 = 0;
  sector_count_2 = 2000;
  sectors_per_fat = 16;
  root_cluster_no = 2;
  ext_boot_signature = 0x29;
  volume_label = text ++ 0x41 ∷ 0x20 ∷ 0x20 ∷ [];
  fs_type = fs_type_fat32;
}

boot_sector-small : data_start boot_sector + length table < 4294967296
unfolding get_data_range cluster_size
boot_sector-small = omega arith

boot_sector-clusters : 0 < cluster_size boot_sector
unfolding cluster_size
boot_sector-clusters = omega arith

used_ranges-covers_example :
    (rs : Ranges) × (used_ranges boot_sector table ≡ ok rs)
    × IsNormal rs
    × ((x : ℕ)
        → covers rs x
          ≡ (in_use boot_sector (drop 2 table) 2 x || ltb x (first_cluster boot_sector)))
used_ranges-covers_example =
    used_ranges-covers boot_sector table boot_sector-clusters (omega arith) (omega arith)
      boot_sector-small

volume_label-drops_last_example : volume_label boot_sector ≡ text
volume_label-drops_last_example =
    volume_label-drops_last boot_sector text 0x41 2 refl refl (λ e. absurd (omega (arith, e)))

abbrev file : List Range
file = range 10 13 ∷ range 100 70000 ∷ []

from_ranges-blocks_example :
    (es : List Extent) × (from_ranges file ≡ ok es)
    × (extent_blocks es ≡ range_blocks file)
    × Follows 0 es (total file)
from_ranges-blocks_example =
    from_ranges-blocks file (omega arith, omega arith, (omega arith, omega arith, tt)) (omega arith)

abbrev huge_file : List Range
huge_file = range 7 4294967303 ∷ []

from_ranges-too_large_example : from_ranges huge_file ≡ err file_too_large
from_ranges-too_large_example =
    from_ranges-too_large huge_file (omega arith, omega arith, tt) (omega arith)
