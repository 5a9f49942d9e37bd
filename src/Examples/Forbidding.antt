-- ===== src/Examples/Forbidding.antt =====
-- What is forbidden of a small file system, and the allocator that learns of it.
use ofs_convert_rs.Common.{
  ℕ, ◌<◌, ◌≡◌, refl, true, ◌&&◌, ◌||◌, [], ◌∷◌, ltb, leb, arith, ok, u32_size,
}
use ofs_convert_rs.Ranges.{Ranges, from}
use ofs_convert_rs.Ranges.Cover.{covers, IsNormal}
use ofs_convert_rs.Allocator.{Allocator}
use ofs_convert_rs.Allocator.Valid.{IsValid}
use ofs_convert_rs.Ext4.SuperBlock.{new, block_group_overhead_ranges, block_count_with_padding}
use ofs_convert_rs.LoHi
use ofs_convert_rs.Main.{
  AreSmall, forbidden_ranges, forbidden_ranges-covers, forbid_all, forbid_all-IsValid,
}
use ofs_convert_rs.Examples.Clusters.{ten, ten-IsValid}
use ofs_convert_rs.Examples.Metadata.{super_block}

two-below :
    (x : ℕ)
    → covers (record { start = 1; end = 3 } ∷ record { start = 6; end = 8 } ∷ []) x ≡ true
    → x < 10
two-below x h = ground arith

forbid_all-IsValid_example :
    (a' : Allocator) × (forbid_all
        (record { start = 1; end = 3 } ∷ record { start = 6; end = 8 } ∷ [])
        ten
      ≡ ok a')
    × IsValid a'
    × (a'.valid_cluster_indices ≡ ten.valid_cluster_indices)
    × (a'.cluster_size ≡ ten.cluster_size)
    × (a'.cursor ≡ ten.cursor)
    × ((x : ℕ)
        → covers a'.used_ranges x ≡ (
            covers (record { start = 1; end = 3 } ∷ record { start = 6; end = 8 } ∷ []) x
            || covers ten.used_ranges x))
forbid_all-IsValid_example =
    forbid_all-IsValid (record { start = 1; end = 3 } ∷ record { start = 6; end = 8 } ∷ []) ten
      (omega arith, (omega arith, omega arith, tt)) ten-IsValid two-below

overhead-computed : (overhead : Ranges) × (block_group_overhead_ranges super_block ≡ ok overhead)
unfolding block_group_overhead_ranges new LoHi.set LoHi.get from
overhead-computed = (_, refl)

overhead-small : AreSmall overhead-computed.0
unfolding overhead-computed
overhead-small = (omega arith, omega arith, tt)

super_block-count : block_count_with_padding super_block < u32_size
unfolding block_count_with_padding new LoHi.set LoHi.get
super_block-count = omega arith

forbidden_ranges-covers_example :
    (fs : Ranges) × (forbidden_ranges super_block 16400 ≡ ok fs)
    × IsNormal fs
    × ((x : ℕ)
        → covers fs x ≡ (
            covers overhead-computed.0 x
            || (leb (block_count_with_padding super_block) x && ltb x 16400)))
forbidden_ranges-covers_example =
    forbidden_ranges-covers super_block 16400 overhead-computed.0 overhead-computed.1 overhead-small
      super_block-count
