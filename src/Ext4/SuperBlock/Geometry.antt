-- ===== src/Ext4/SuperBlock/Geometry.antt =====
-- The sizes and positions that are read off a superblock.
use ofs_convert_rs.Common.{
  ℕ, ◌+◌, ◌/◌, ◌%◌, ◌^◌, Bool, List, [], ◌∷◌, ◌++◌, ◌||◌, leb, ltb, ◌==◌, if◌then◌else◌, Outcome,
  ok, panic, ◌>>=◌, zero, suc, add32, sub32, add64, sub64, mul64, div_ceil, u32_size,
}
use ofs_convert_rs.LoHi
use ofs_convert_rs.LoHi.{u64_of_u32_u32}
use ofs_convert_rs.Ranges.{Range, Ranges, from}
use ofs_convert_rs.Ext4.SuperBlock.Fields.{
  SuperBlock, HasSuperBlock, yes_original, yes_backup, none, first_block_padding,
  first_existing_inode, first_non_reserved_inode, block_size_min_log2,
}

unfoldable pub max_inode_no : SuperBlock → ℕ
max_inode_no sb = add32 (sub32 sb.s_inodes_count 1) first_existing_inode

unfoldable pub allocatable_inode_count : SuperBlock → ℕ
allocatable_inode_count sb =
    sub32 sb.s_inodes_count (sub32 first_non_reserved_inode first_existing_inode)

-- A `u32` shift takes the low five bits of its operand.
unfoldable pub block_size : SuperBlock → ℕ
block_size sb = 2 ^ (add32 sb.s_log_block_size block_size_min_log2 % 32)

unfoldable pub inode_table_block_count : SuperBlock → ℕ
unfolding block_size
inode_table_block_count sb = div_ceil (mul64 sb.s_inodes_per_group sb.s_inode_size) (block_size sb)

unfoldable pub block_count_with_padding : SuperBlock → ℕ
block_count_with_padding sb = LoHi.get u64_of_u32_u32 sb.s_blocks_count

unfoldable pub block_count_without_padding : SuperBlock → ℕ
unfolding block_count_with_padding
block_count_without_padding sb = sub64 (block_count_with_padding sb) sb.s_first_data_block

-- `expect` panics where the count does not fit `u32`.
unfoldable pub block_group_count : SuperBlock → Outcome ℕ
unfolding block_count_without_padding
block_group_count sb =
    let count = div_ceil (block_count_without_padding sb) sb.s_blocks_per_group in
    if ltb count u32_size then ok count else panic

unfoldable pub gdt_block_count : SuperBlock → Outcome ℕ
unfolding block_size block_group_count
gdt_block_count sb =
    block_group_count sb >>= λ groups. ok (div_ceil groups (block_size sb / sb.s_desc_size))

unfoldable pub superblock_copy_overhead : SuperBlock → HasSuperBlock → Outcome ℕ
unfolding gdt_block_count
superblock_copy_overhead sb none = ok 0
superblock_copy_overhead sb yes_original =
    gdt_block_count sb >>= λ gdt. ok (1 + gdt + sb.s_reserved_gdt_blocks)
superblock_copy_overhead sb yes_backup =
    gdt_block_count sb >>= λ gdt. ok (1 + gdt + sb.s_reserved_gdt_blocks)

-- block bitmap + inode bitmap + inode table + copy of the superblock and the descriptors
unfoldable pub block_group_overhead : SuperBlock → HasSuperBlock → Outcome ℕ
unfolding inode_table_block_count superblock_copy_overhead
block_group_overhead sb has_superblock = superblock_copy_overhead sb has_superblock >>= λ copy.
    ok (2 + inode_table_block_count sb + copy)

unfoldable pub first_block_is_padding : SuperBlock → Bool
unfolding block_size
first_block_is_padding sb = leb (block_size sb) first_block_padding

unfoldable pub start_byte_within_block : SuperBlock → ℕ
start_byte_within_block sb = if sb.s_first_data_block == 1 then 0 else first_block_padding

unfoldable pub block_group_has_superblock : SuperBlock → ℕ → HasSuperBlock
block_group_has_superblock sb block_group_idx =
    if block_group_idx == 0
    then yes_original
    else if block_group_idx == sb.s_backup_bg_0 || block_group_idx == sb.s_backup_bg_1
    then yes_backup
    else none

unfoldable pub block_group_start_block : SuperBlock → ℕ → ℕ
block_group_start_block sb block_group_idx =
    add64 (mul64 sb.s_blocks_per_group block_group_idx) sb.s_first_data_block

-- The closure that `block_group_overhead_ranges` maps over the group indices.
unfoldable pub group_overhead_range : SuperBlock → ℕ → Outcome Range
unfolding block_group_has_superblock block_group_overhead block_group_start_block
group_overhead_range sb idx =
    block_group_overhead sb (block_group_has_superblock sb idx) >>= λ overhead.
    let start = block_group_start_block sb idx in
    ok (record { start = start; end = add64 start overhead })

-- The ranges of the `n` groups from `idx` on.
unfoldable pub group_overhead_ranges : SuperBlock → ℕ → ℕ → Outcome (List Range)
unfolding group_overhead_range
group_overhead_ranges sb idx zero = ok []
group_overhead_ranges sb idx (suc n) = group_overhead_range sb idx >>= λ range.
    group_overhead_ranges sb (suc idx) n >>= λ ranges. ok (range ∷ ranges)

unfoldable pub block_group_overhead_ranges : SuperBlock → Outcome Ranges
unfolding first_block_is_padding group_overhead_ranges block_group_count
block_group_overhead_ranges sb =
    let padding = if first_block_is_padding sb then record { start = 0; end = 1 } ∷ [] else [] in
    block_group_count sb >>= λ groups.
    group_overhead_ranges sb 0 groups >>= λ ranges. from (padding ++ ranges)
