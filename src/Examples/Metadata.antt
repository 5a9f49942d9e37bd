-- ===== src/Examples/Metadata.antt =====
-- The ext4 metadata, at concrete inputs.
use ofs_convert_rs.Common.{
  ℕ, ◌+◌, ◌≡◌, refl, true, ◌⊎◌, List, [], ◌∷◌, length, Outcome, ok, err, panic, stuck, arith,
  extent_level_full, replicate, leb, ltb, ◌&&◌, ◌||◌, name_too_long, ◌≤◌, ◌<◌,
}
use ofs_convert_rs.LoHi
use ofs_convert_rs.LoHi.{Halves, u32_of_u16_u16, u64_of_u32_u32}
use ofs_convert_rs.Ext4.SuperBlock.{SuperBlock, Environment, new, init_constants}
use ofs_convert_rs.Ext4.SuperBlock.Facts.New.{IsValid, new-IsValid}
use ofs_convert_rs.Ext4.Dentry
use ofs_convert_rs.Ext4.Dentry.{Ext4Dentry, name_max_len}
use ofs_convert_rs.Ext4.Inode.Laws.{is_dir-init_from_dentry}
use ofs_convert_rs.Ext4.Dentry.Laws.{new-cases, IsWellFormed}
use ofs_convert_rs.Ext4.ExtentTree.{
  ExtentTreeLevel, unset, idx_of, new_idx, append_entry, extent_magic,
}
use ofs_convert_rs.Ext4.ExtentTree.Append.{Appends, append_entry-cases}
use ofs_convert_rs.Ext4.GroupDescriptor
use ofs_convert_rs.Ext4.GroupDescriptor.{
  Ext4GroupDescriptor, ConstructionInfo, free_blocks_count, free_inodes_count,
  decrement_free_blocks_count,
}
use ofs_convert_rs.Ext4.GroupDescriptor.Laws.{
  Describes, new-Describes, decrement_free_blocks_count-lem,
}
use ofs_convert_rs.Bitmap.{Bitmap}
use ofs_convert_rs.Bitmap.Laws.{bit}
use ofs_convert_rs.Ext4.BlockGroup.{init_data_block_bitmap, mark_relative_range_as_used}
use ofs_convert_rs.Ext4.BlockGroup.Marks.{
  Marks, bit-init_data_block_bitmap, mark_relative_range_as_used-Marks,
}
use ofs_convert_rs.Ext4.Inode.{init_from_dentry, is_dir, Inode, DentryRepresentation}

abbrev halves : ℕ → ℕ → Halves
halves lo hi = record { lo = lo; hi = hi }

-- The logarithm is exact at the block size of the example.
abbrev environment : Environment
environment = record { log2_round = λ n. 12; now = 0; uuid = [] }

abbrev or_else : Outcome SuperBlock → SuperBlock → SuperBlock
or_else (ok sb) d = sb
or_else (err e) d = d
or_else panic d = d
or_else stuck d = d

-- The superblock for 64 MiB in blocks of 4 KiB.
abbrev pub super_block : SuperBlock
super_block = or_else (new environment 67108864 4096 []) init_constants

new-super_block : new environment 67108864 4096 [] ≡ ok super_block
unfolding new LoHi.set LoHi.get
new-super_block = refl

new-IsValid_example : IsValid 67108864 4096 super_block
new-IsValid_example =
    new-IsValid environment 67108864 4096 [] super_block (omega arith) (omega arith) new-super_block

abbrev name : List ℕ
name = 97 ∷ 98 ∷ 99 ∷ 100 ∷ 101 ∷ []

new-cases_example :
    ((length name ≤ name_max_len)
      × ((d : Ext4Dentry) × (Dentry.new 12 name ≡ ok d)
          × (d.inode_no ≡ 12)
          × (d.name ≡ name)
          × IsWellFormed d))
    ⊎ ((name_max_len < length name) × (Dentry.new 12 name ≡ err name_too_long))
new-cases_example = new-cases 12 name

abbrev level : ExtentTreeLevel
level = record {
  header = record {
    magic = extent_magic;
    valid_entry_count = 1;
    max_entry_count = 4;
    depth = 1;
    generation = 0;
  };
  entries = idx_of (new_idx 0 70) ∷ replicate 3 unset;
}

append_entry-cases_example :
    ((level.header.valid_entry_count ≡ level.header.max_entry_count)
      × (append_entry level (idx_of (new_idx 50 71)) ≡ err extent_level_full))
    ⊎ ((l' : ExtentTreeLevel) × (append_entry level (idx_of (new_idx 50 71)) ≡ ok l')
        × Appends level l' (idx_of (new_idx 50 71)))
append_entry-cases_example =
    append_entry-cases level (idx_of (new_idx 50 71))
      (record { within = omega arith; holds = omega arith })

abbrev info : ConstructionInfo
info = record {
  is_first_block_group = true;
  block_bitmap_block = 3;
  inode_bitmap_block = 4;
  inode_table_start_block = 5;
  blocks_count = 16384;
  inodes_count = 4096;
  overhead = 261;
}

new-Describes_example :
    (g : Ext4GroupDescriptor) × (GroupDescriptor.new info ≡ ok g) × Describes g info
new-Describes_example =
    new-Describes info (omega arith) (omega arith) (omega arith) (omega arith) (omega arith)
      (omega arith) (omega arith)

abbrev group : Ext4GroupDescriptor
group = record {
  bg_block_bitmap = halves 3 0;
  bg_inode_bitmap = halves 4 0;
  bg_inode_table = halves 5 0;
  bg_free_blocks_count = halves 1 1;
  bg_free_inodes_count = halves 900 0;
  bg_used_dirs_count = halves 2 0;
}

group-IsValid : GroupDescriptor.Laws.IsValid group
group-IsValid = record {
  blocks = record { lo_fits = omega arith; hi_fits = omega arith; both_fit = omega arith };
  inodes = record { lo_fits = omega arith; hi_fits = omega arith; both_fit = omega arith };
  dirs = record { lo_fits = omega arith; hi_fits = omega arith; both_fit = omega arith };
}

group-free : free_blocks_count group ≡ 65537
unfolding LoHi.get
group-free = refl

decrement_free_blocks_count_lem_example :
    (g' : Ext4GroupDescriptor) × (decrement_free_blocks_count group 10 ≡ ok g')
    × GroupDescriptor.Laws.IsValid g'
    × (free_blocks_count g' + 10 ≡ free_blocks_count group)
    × (free_inodes_count g' ≡ free_inodes_count group)
    × (g' ≡ record group { bg_free_blocks_count = g'.bg_free_blocks_count })
decrement_free_blocks_count_lem_example =
    decrement_free_blocks_count-lem group 10 group-IsValid (omega (arith, group-free))

abbrev inode : Inode
inode = record {
  inode_no = 12;
  i_mode = 16877;
  uid = halves 0 0;
  gid = halves 0 0;
  size = halves 0 0;
  blocks = halves 0 0;
  i_atime = 0;
  i_ctime = 0;
  i_mtime = 0;
  i_crtime = 0;
  i_links_count = 1;
  i_flags = 0;
  header = record {
    magic = extent_magic;
    valid_entry_count = 0;
    max_entry_count = 4;
    depth = 0;
    generation = 0;
  };
}

abbrev representation : DentryRepresentation
representation = record {
  access_time = 5;
  create_time = 6;
  mod_time = 7;
  file_size = 0;
  is_dir = true;
  is_read_only = true;
}

is_dir-init_from_dentry_example :
    (j : Inode) × (init_from_dentry 1000 70000 inode representation ≡ ok j)
    × (is_dir j ≡ true)
    × (LoHi.get u32_of_u16_u16 j.uid ≡ 1000)
    × (LoHi.get u32_of_u16_u16 j.gid ≡ 70000)
    × (j.i_links_count ≡ 1)
    × (j.header.valid_entry_count ≡ 0)
is_dir-init_from_dentry_example =
    is_dir-init_from_dentry 1000 70000 inode representation (omega arith) (omega arith)

bit-init_data_block_bitmap_example :
    (b : Bitmap) × (init_data_block_bitmap
        (replicate 4 7)
        (record info { blocks_count = 20; overhead = 6 })
      ≡ ok b)
    × (length b ≡ 4)
    × ((j : ℕ) → bit b j ≡ (leb 20 j && ltb j 32 || ltb j 6))
bit-init_data_block_bitmap_example =
    bit-init_data_block_bitmap (replicate 4 7) (record info { blocks_count = 20; overhead = 6 })
      (omega arith) (omega arith) (omega arith)

mark_relative_range_as_used-Marks_example :
    (b' : Bitmap) × (mark_relative_range_as_used (7 ∷ 0 ∷ []) (record { start = 5; end = 11 })
      ≡ ok b')
    × Marks (7 ∷ 0 ∷ []) (record { start = 5; end = 11 }) b'
mark_relative_range_as_used-Marks_example =
    mark_relative_range_as_used-Marks (7 ∷ 0 ∷ []) (record { start = 5; end = 11 })
      (omega arith, (omega arith, tt)) (omega arith) (omega arith)
