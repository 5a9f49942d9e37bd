-- ===== src/Ext4/GroupDescriptor.antt =====
-- src/ext4/group_descriptor.rs: the counters of one block group. Each pair of fields `…_lo` and `…_hi`
-- is one field of type `Halves`; the fields that stay 0 are left out.
pub mod Laws
use ofs_convert_rs.Common.{
  ℕ, ◌-◌, Bool, true, false, leb, if◌then◌else◌, Outcome, ok, ◌>>=◌, ◌>>◌, assert,
}
use ofs_convert_rs.LoHi
use ofs_convert_rs.LoHi.{Halves, u32_of_u16_u16, u64_of_u32_u32}

pub record Ext4GroupDescriptor : Type 0 where
  pub bg_block_bitmap : Halves
  pub bg_inode_bitmap : Halves
  pub bg_inode_table : Halves
  pub bg_free_blocks_count : Halves
  pub bg_free_inodes_count : Halves
  pub bg_used_dirs_count : Halves

-- `Ext4BlockGroupConstructionInfo`, with its fields that `new` reads
pub record ConstructionInfo : Type 0 where
  pub is_first_block_group : Bool
  pub block_bitmap_block : ℕ
  pub inode_bitmap_block : ℕ
  pub inode_table_start_block : ℕ
  pub blocks_count : ℕ
  pub inodes_count : ℕ
  pub overhead : ℕ

-- `SPECIAL_INODES.len()`: the reserved inodes 1 and 3 to 10 of mod.rs
abbrev pub special_inodes_len : ℕ
special_inodes_len = 9

abbrev pub special_inode_count : Bool → ℕ
special_inode_count is_first = if is_first then special_inodes_len else 0

-- The subtractions panic where they are negative, as in a debug build.
unfoldable pub new : ConstructionInfo → Outcome Ext4GroupDescriptor
new info =
    assert (leb (special_inode_count info.is_first_block_group) info.inodes_count)
    >> (assert (leb info.overhead info.blocks_count)
        >> (LoHi.set u64_of_u32_u32 info.block_bitmap_block >>= λ block_bitmap.
            LoHi.set u64_of_u32_u32 info.inode_bitmap_block >>= λ inode_bitmap.
            LoHi.set u64_of_u32_u32 info.inode_table_start_block >>= λ inode_table.
            LoHi.set u32_of_u16_u16
              (info.inodes_count - special_inode_count info.is_first_block_group)
            >>= λ free_inodes.
                LoHi.set u32_of_u16_u16 (info.blocks_count - info.overhead) >>= λ free_blocks.
                ok (record {
                  bg_block_bitmap = block_bitmap;
                  bg_inode_bitmap = inode_bitmap;
                  bg_inode_table = inode_table;
                  bg_free_blocks_count = free_blocks;
                  bg_free_inodes_count = free_inodes;
                  bg_used_dirs_count = record { lo = 0; hi = 0 };
                })))

abbrev pub free_inodes_count : Ext4GroupDescriptor → ℕ
free_inodes_count g = LoHi.get u32_of_u16_u16 g.bg_free_inodes_count

abbrev pub free_blocks_count : Ext4GroupDescriptor → ℕ
free_blocks_count g = LoHi.get u32_of_u16_u16 g.bg_free_blocks_count

unfoldable pub decrement_free_blocks_count : Ext4GroupDescriptor → ℕ → Outcome Ext4GroupDescriptor
decrement_free_blocks_count g count =
    LoHi.sub_assign u32_of_u16_u16 g.bg_free_blocks_count count >>= λ h.
    ok (record g { bg_free_blocks_count = h })

unfoldable pub decrement_free_inode_count : Ext4GroupDescriptor → Outcome Ext4GroupDescriptor
decrement_free_inode_count g = LoHi.sub_assign u32_of_u16_u16 g.bg_free_inodes_count 1 >>= λ h.
    ok (record g { bg_free_inodes_count = h })

unfoldable pub increment_used_directory_count : Ext4GroupDescriptor → Outcome Ext4GroupDescriptor
increment_used_directory_count g = LoHi.add_assign u32_of_u16_u16 g.bg_used_dirs_count 1 >>= λ h.
    ok (record g { bg_used_dirs_count = h })
