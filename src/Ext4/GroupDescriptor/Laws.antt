-- ===== src/Ext4/GroupDescriptor/Laws.antt =====
-- The counters of a group descriptor, read back.
use ofs_convert_rs.Common.{ℕ, ◌+◌, ◌-◌, ◌≤◌, ◌<◌, ◌≡◌, refl, ok, arith, le→leb, u32_size, u64_size}
use ofs_convert_rs.LoHi
use ofs_convert_rs.LoHi.{Halves, u32_of_u16_u16, u64_of_u32_u32}
use ofs_convert_rs.LoHi.Laws.{get-set, get-sub_assign, get-add_assign}
use ofs_convert_rs.Ext4.GroupDescriptor.{
  Ext4GroupDescriptor, ConstructionInfo, special_inode_count, new, free_inodes_count,
  free_blocks_count, decrement_free_blocks_count,
}

-- The three counters are well-formed halves.
pub record IsValid (g : Ext4GroupDescriptor) : Type 0 where
  pub blocks : LoHi.Laws.IsValid u32_of_u16_u16 g.bg_free_blocks_count
  pub inodes : LoHi.Laws.IsValid u32_of_u16_u16 g.bg_free_inodes_count
  pub dirs : LoHi.Laws.IsValid u32_of_u16_u16 g.bg_used_dirs_count

-- What a group's descriptor says about it.
pub record Describes (g : Ext4GroupDescriptor) (info : ConstructionInfo) : Type 0 where
  pub valid : IsValid g
  pub free_blocks : free_blocks_count g + info.overhead ≡ info.blocks_count
  pub free_inodes :
      free_inodes_count g + special_inode_count info.is_first_block_group ≡ info.inodes_count
  pub block_bitmap : LoHi.get u64_of_u32_u32 g.bg_block_bitmap ≡ info.block_bitmap_block
  pub inode_bitmap : LoHi.get u64_of_u32_u32 g.bg_inode_bitmap ≡ info.inode_bitmap_block
  pub inode_table : LoHi.get u64_of_u32_u32 g.bg_inode_table ≡ info.inode_table_start_block
  pub used_dirs : LoHi.get u32_of_u16_u16 g.bg_used_dirs_count ≡ 0

zero_dirs : LoHi.get u32_of_u16_u16 (record { lo = 0; hi = 0 }) ≡ 0
unfolding LoHi.get
zero_dirs = refl

-- A group with room for its overhead and for the special inodes gets a descriptor, whose counters are
-- the blocks behind the overhead and the inodes that are not special, and whose addresses read back as
-- those given.
pub new-Describes :
    (info : ConstructionInfo)
    → special_inode_count info.is_first_block_group ≤ info.inodes_count
    → info.overhead ≤ info.blocks_count
    → info.inodes_count < u32_size
    → info.blocks_count < u32_size
    → info.block_bitmap_block < u64_size
    → info.inode_bitmap_block < u64_size
    → info.inode_table_start_block < u64_size
    → (g : Ext4GroupDescriptor) × (new info ≡ ok g) × Describes g info
unfolding new
new-Describes info h k i b p q r =
    let (bb, bb_ok, _, bb_eq) =
      get-set u64_of_u32_u32 info.block_bitmap_block (omega arith) (omega arith) p in
    let (ib, ib_ok, _, ib_eq) =
      get-set u64_of_u32_u32 info.inode_bitmap_block (omega arith) (omega arith) q in
    let (it, it_ok, _, it_eq) =
      get-set u64_of_u32_u32 info.inode_table_start_block (omega arith) (omega arith) r in
    let (fi, fi_ok, fi_v, fi_eq) =
      get-set u32_of_u16_u16 (info.inodes_count - special_inode_count info.is_first_block_group)
        (omega arith) (omega arith) (omega arith) in
    let (fb, fb_ok, fb_v, fb_eq) =
      get-set u32_of_u16_u16 (info.blocks_count - info.overhead) (omega arith) (omega arith)
        (omega arith) in
    (
      record {
        bg_block_bitmap = bb;
        bg_inode_bitmap = ib;
        bg_inode_table = it;
        bg_free_blocks_count = fb;
        bg_free_inodes_count = fi;
        bg_used_dirs_count = record { lo = 0; hi = 0 };
      },
      rw (le→leb _ _ h, le→leb _ _ k, bb_ok, ib_ok, it_ok, fi_ok, fb_ok) refl,
      record {
        valid = record {
          blocks = fb_v;
          inodes = fi_v;
          dirs = record { lo_fits = omega arith; hi_fits = omega arith; both_fit = omega arith };
        };
        free_blocks = omega (arith, fb_eq);
        free_inodes = omega (arith, fi_eq);
        block_bitmap = bb_eq;
        inode_bitmap = ib_eq;
        inode_table = it_eq;
        used_dirs = zero_dirs;
      },
    )

-- Taking `count` of the free blocks of a group that has as many reduces its free blocks by `count`, and
-- leaves its other counters and its addresses as they are.
pub decrement_free_blocks_count-lem :
    (g : Ext4GroupDescriptor) (count : ℕ)
    → IsValid g
    → count ≤ free_blocks_count g
    → (g' : Ext4GroupDescriptor) × (decrement_free_blocks_count g count ≡ ok g')
      × IsValid g'
      × (free_blocks_count g' + count ≡ free_blocks_count g)
      × (free_inodes_count g' ≡ free_inodes_count g)
      × (g' ≡ record g { bg_free_blocks_count = g'.bg_free_blocks_count })
unfolding decrement_free_blocks_count
decrement_free_blocks_count-lem g count v h =
    let (b, e, w, c) = get-sub_assign v.blocks count h in
    (
      record g { bg_free_blocks_count = b },
      rw e refl,
      record { blocks = w; inodes = v.inodes; dirs = v.dirs },
      omega (arith, c),
      refl,
      refl,
    )
