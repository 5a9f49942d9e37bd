-- ===== src/Ext4/BlockGroup.antt =====
-- src/ext4/block_group.rs: the two bitmaps of a block group. `bitmap_bytes` is the block that a bitmap
-- lies in.
pub mod Marks
use ofs_convert_rs.Common.{
  ℕ, zero, suc, ◌+◌, ◌-◌, ◌*◌, Bool, true, false, not, List, [], ◌∷◌, leb, min, ◌==◌, if◌then◌else◌,
  Outcome, ok, ◌>>=◌, ◌>>◌, assert,
}
use ofs_convert_rs.Ranges.{Range}
use ofs_convert_rs.Bitmap
use ofs_convert_rs.Bitmap.{Bitmap}
use ofs_convert_rs.Ext4.SuperBlock.{
  SuperBlock, block_group_has_superblock, block_group_start_block, superblock_copy_overhead,
  block_group_overhead, block_count_without_padding,
}
use ofs_convert_rs.Ext4.GroupDescriptor.{ConstructionInfo}

-- The calls of `set` for the `n` indices from `i` on.
unfoldable pub set_range : ℕ → ℕ → Bitmap → Outcome Bitmap
set_range i zero b = ok b
set_range i (suc n) b = Bitmap.set_bit b i >>= λ b'. set_range (suc i) n b'

unfoldable pub init_data_block_bitmap : List ℕ → ConstructionInfo → Outcome Bitmap
unfolding set_range
init_data_block_bitmap bitmap_bytes info = Bitmap.new bitmap_bytes >>= λ b.
    set_range 0 info.overhead (Bitmap.clear_all b) >>= λ b'.
    set_range info.blocks_count (Bitmap.len b' - info.blocks_count) b'

-- The indices of the special inodes, which are their numbers less 1.
abbrev pub special_indices : List ℕ
special_indices = 0 ∷ 2 ∷ 3 ∷ 4 ∷ 5 ∷ 6 ∷ 7 ∷ 8 ∷ 9 ∷ []

unfoldable pub set_all : List ℕ → Bitmap → Outcome Bitmap
set_all [] b = ok b
set_all (i ∷ is) b = Bitmap.set_bit b i >>= λ b'. set_all is b'

abbrev pub mark_special_inodes_as_used : Bitmap → Outcome Bitmap
mark_special_inodes_as_used b = set_all special_indices b

unfoldable pub init_inode_bitmap : List ℕ → ConstructionInfo → Outcome Bitmap
unfolding set_range set_all
init_inode_bitmap bitmap_bytes info = Bitmap.new bitmap_bytes >>= λ b.
    (if info.is_first_block_group
      then mark_special_inodes_as_used (Bitmap.clear_all b)
      else ok (Bitmap.clear_all b))
    >>= λ b'. set_range info.inodes_count (Bitmap.len b' - info.inodes_count) b'

-- On `data_block_bitmap`.
unfoldable pub mark_relative_range_as_used : Bitmap → Range → Outcome Bitmap
unfolding set_range
mark_relative_range_as_used b relative_range =
    set_range relative_range.start (relative_range.end - relative_range.start) b

-- On `inode_bitmap`, with the test of `get_relative_inode`; returns the offset of the inode in the table.
unfoldable pub allocate_relative_inode :
    Bitmap → (inode_table_len relative_inode_no inode_size : ℕ) → Outcome (ℕ × Bitmap)
allocate_relative_inode b inode_table_len relative_inode_no inode_size =
    Bitmap.get b relative_inode_no >>= λ used.
    assert (not used)
    >> (Bitmap.set_bit b relative_inode_no >>= λ b'.
        assert (leb (relative_inode_no * inode_size + inode_size) inode_table_len)
        >> ok (relative_inode_no * inode_size, b'))

-- `Ext4BlockGroupConstructionInfo::new`, for the fields that are kept. The subtraction panics where it
-- is negative, as in a debug build.
unfoldable pub construction_info : SuperBlock → ℕ → Outcome ConstructionInfo
construction_info sb block_group_idx =
    let has_superblock = block_group_has_superblock sb block_group_idx in
    let start_block = block_group_start_block sb block_group_idx in
    superblock_copy_overhead sb has_superblock >>= λ copy.
    assert (leb (block_group_idx * sb.s_blocks_per_group) (block_count_without_padding sb))
    >> (block_group_overhead sb has_superblock >>= λ overhead. ok (record {
      is_first_block_group = block_group_idx == 0;
      block_bitmap_block = start_block + copy;
      inode_bitmap_block = start_block + copy + 1;
      inode_table_start_block = start_block + copy + 1 + 1;
      blocks_count =
          min (block_count_without_padding sb - block_group_idx * sb.s_blocks_per_group)
            sb.s_blocks_per_group;
      inodes_count = sb.s_inodes_per_group;
      overhead = overhead;
    }))
