-- ===== src/Ext4/Inode.antt =====
-- src/ext4/inode.rs: the inode of a new file. Each pair of fields `…_lo` and `…_high` is one field of
-- type `Halves`; the fields that stay as they are in the zeroed inode table are left out. The users'
-- ids and the time come from the operating system and are arguments.
pub mod Laws
use ofs_convert_rs.Common.{
  ℕ, ◌+◌, ◌*◌, ◌/◌, ◌%◌, Bool, true, false, List, ltb, leb, ◌==◌, ◌&&◌, not, if◌then◌else◌, Outcome,
  ok, ◌>>=◌, ◌>>◌, assert, add32, u16_size,
}
use ofs_convert_rs.LoHi
use ofs_convert_rs.LoHi.{Halves, u32_of_u16_u16, u64_of_u32_u16, u64_of_u32_u32}
use ofs_convert_rs.Ext4.ExtentTree.{ExtentHeader, new_header}

-- src/serialization/dentry.rs
pub record DentryRepresentation : Type 0 where
  pub access_time : ℕ
  pub create_time : ℕ
  pub mod_time : ℕ
  pub file_size : ℕ
  pub is_dir : Bool
  pub is_read_only : Bool

abbrev pub extent_entries_in_inode : ℕ
extent_entries_in_inode = 5

abbrev pub ext2_link_max : ℕ
ext2_link_max = 65000

abbrev pub non_representable_link_count : ℕ
non_representable_link_count = 1

abbrev pub inode_uses_extents : ℕ
inode_uses_extents = 0x80000

-- The flags of `i_mode` have no bit in common, so that `|` is a sum; 16384 is 0o040_000 and so on.
abbrev pub dir_flag : ℕ
dir_flag = 16384

abbrev pub reg_flag : ℕ
reg_flag = 32768

-- 0o555
abbrev pub no_write_perms : ℕ
no_write_perms = 365

-- 0o755
abbrev pub default_perms : ℕ
default_perms = no_write_perms + 128

-- `Inode` with the fields of its `inner`. `header` is the one in the first element of `extents`.
pub record Inode : Type 0 where
  pub inode_no : ℕ
  pub i_mode : ℕ
  pub uid : Halves
  pub gid : Halves
  pub size : Halves
  pub blocks : Halves
  pub i_atime : ℕ
  pub i_ctime : ℕ
  pub i_mtime : ℕ
  pub i_crtime : ℕ
  pub i_links_count : ℕ
  pub i_flags : ℕ
  pub header : ExtentHeader

-- `self.i_mode & DIR_FLAG != 0`
abbrev pub is_dir : Inode → Bool
is_dir i = not (i.i_mode / dir_flag % 2 == 0)

abbrev pub mode_from_dentry : DentryRepresentation → ℕ
mode_from_dentry d =
    (if d.is_read_only then no_write_perms else default_perms)
    + (if d.is_dir then dir_flag else reg_flag)

unfoldable pub init_from_dentry :
    (user_id group_id : ℕ) → Inode → DentryRepresentation → Outcome Inode
init_from_dentry user_id group_id i d = LoHi.set u32_of_u16_u16 user_id >>= λ uid.
    LoHi.set u32_of_u16_u16 group_id >>= λ gid. new_header extent_entries_in_inode >>= λ header.
    ok (record i {
      uid = uid;
      gid = gid;
      i_mode = mode_from_dentry d;
      i_crtime = d.create_time;
      i_atime = d.access_time;
      i_mtime = d.mod_time;
      i_ctime = add32 d.mod_time 1;
      i_links_count = 1;
      i_flags = inode_uses_extents;
      header = header;
    })

-- What `init_lost_found` and `init_root` share.
unfoldable pub init_special : (now user_id group_id links_count : ℕ) → Inode → Outcome Inode
init_special now user_id group_id links_count i = LoHi.set u32_of_u16_u16 user_id >>= λ uid.
    LoHi.set u32_of_u16_u16 group_id >>= λ gid. new_header extent_entries_in_inode >>= λ header.
    ok (record i {
      uid = uid;
      gid = gid;
      i_mode = default_perms + dir_flag;
      i_crtime = 0;
      i_atime = now;
      i_mtime = now;
      i_ctime = now;
      i_links_count = links_count;
      i_flags = inode_uses_extents;
      header = header;
    })

abbrev pub init_lost_found : ℕ → Inode → Outcome Inode
init_lost_found now i = init_special now 0 0 1 i

abbrev pub init_root : (now user_id group_id : ℕ) → Inode → Outcome Inode
init_root now user_id group_id i = init_special now user_id group_id 0 i

unfoldable pub increment_size : Inode → ℕ → Outcome Inode
increment_size i size =
    LoHi.add_assign u64_of_u32_u32 i.size size >>= λ h. ok (record i { size = h })

unfoldable pub set_size : Inode → ℕ → Outcome Inode
set_size i size = LoHi.set u64_of_u32_u32 size >>= λ h. ok (record i { size = h })

-- `u16::try_from` with the test of `EXT2_LINK_MAX`.
abbrev pub is_representable : ℕ → Bool
is_representable link_count = ltb link_count u16_size && leb link_count ext2_link_max

unfoldable pub set_link_count_from_subdirs : Inode → ℕ → Outcome Inode
set_link_count_from_subdirs i link_count =
    let link_count' = link_count + i.i_links_count in
    if is_representable link_count'
    then ok (record i { i_links_count = link_count' })
    else assert (is_dir i) >> ok (record i { i_links_count = non_representable_link_count })

unfoldable pub increment_used_blocks : Inode → (block_count block_size : ℕ) → Outcome Inode
increment_used_blocks i block_count block_size =
    LoHi.add_assign u64_of_u32_u16 i.blocks (block_count * (block_size / 512)) >>= λ h.
    ok (record i { blocks = h })
