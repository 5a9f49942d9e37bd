-- ===== src/Ext4/SuperBlock/Fields.antt =====
-- The constants and fields of the superblock. A field that the program leaves zeroed and never reads is
-- left out.
use Prim.Native.Nat.{bit_or}
use ofs_convert_rs.Common.{ℕ, ◌-◌, ◌^◌, List, []}
use ofs_convert_rs.LoHi.{Halves}

pub data HasSuperBlock : Type 0 where
  yes_original yes_backup none : HasSuperBlock

abbrev pub first_block_padding : ℕ
first_block_padding = 1024

abbrev pub first_existing_inode : ℕ
first_existing_inode = 1

abbrev pub first_non_reserved_inode : ℕ
first_non_reserved_inode = 11

abbrev pub block_size_min_log2 : ℕ
block_size_min_log2 = 10

abbrev pub inode_ratio : ℕ
inode_ratio = 16384

abbrev pub volume_name_len : ℕ
volume_name_len = 16

abbrev pub max_blocks_per_group : ℕ
max_blocks_per_group = 2 ^ 16 - 8

abbrev pub min_usable_blocks_per_group : ℕ
min_usable_blocks_per_group = 10

abbrev pub min_block_size : ℕ
min_block_size = 1024

abbrev pub max_block_size : ℕ
max_block_size = 65536

pub record SuperBlock : Type 0 where
  pub s_inodes_count : ℕ
  pub s_blocks_count : Halves
  pub s_free_blocks_count : Halves
  pub s_free_inodes_count : ℕ
  pub s_first_data_block : ℕ
  pub s_log_block_size : ℕ
  pub s_log_cluster_size : ℕ
  pub s_blocks_per_group : ℕ
  pub s_clusters_per_group : ℕ
  pub s_inodes_per_group : ℕ
  pub s_max_mnt_count : ℕ
  pub s_magic : ℕ
  pub s_state : ℕ
  pub s_errors : ℕ
  pub s_rev_level : ℕ
  pub s_first_ino : ℕ
  pub s_inode_size : ℕ
  pub s_feature_compat : ℕ
  pub s_feature_incompat : ℕ
  pub s_feature_ro_compat : ℕ
  pub s_uuid : List ℕ
  pub s_volume_name : List ℕ
  pub s_reserved_gdt_blocks : ℕ
  pub s_desc_size : ℕ
  pub s_mkfs_time : ℕ
  pub s_backup_bg_0 : ℕ
  pub s_backup_bg_1 : ℕ

abbrev pub zero_halves : Halves
zero_halves = record { lo = 0; hi = 0 }

-- A zeroed superblock after `init_constants`.
abbrev pub init_constants : SuperBlock
init_constants = record {
  s_inodes_count = 0;
  s_blocks_count = zero_halves;
  s_free_blocks_count = zero_halves;
  s_free_inodes_count = 0;
  s_first_data_block = 0;
  s_log_block_size = 0;
  s_log_cluster_size = 0;
  s_blocks_per_group = 0;
  s_clusters_per_group = 0;
  s_inodes_per_group = 0;
  s_max_mnt_count = 2 ^ 16 - 1;
  s_magic = 61267;
  s_state = 1;
  s_errors = 1;
  s_rev_level = 1;
  s_first_ino = first_non_reserved_inode;
  s_inode_size = 256;
  s_feature_compat = 0x200;
  s_feature_incompat = bit_or (bit_or 0x80 0x40) 0x4000;
  s_feature_ro_compat = bit_or (bit_or 0x2 0x8) 0x20;
  s_uuid = [];
  s_volume_name = [];
  s_reserved_gdt_blocks = 0;
  s_desc_size = 64;
  s_mkfs_time = 0;
  s_backup_bg_0 = 0;
  s_backup_bg_1 = 0;
}
