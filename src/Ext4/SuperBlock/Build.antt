-- ===== src/Ext4/SuperBlock/Build.antt =====
-- `SuperBlock::new` and `SuperBlock::from`, step by step.
use ofs_convert_rs.Common.{
  ℕ, ◌+◌, ◌-◌, ◌*◌, ◌/◌, ◌%◌, ◌^◌, min, List, leb, ltb, ◌==◌, if◌then◌else◌, length, Outcome, ok,
  err, ◌>>=◌, ◌>>◌, assert, ensure, sub32, mul32, div_ceil, u32_size, unaligned_data_section,
  block_size_too_small, block_size_too_large, not_a_power_of_two, filesystem_too_small,
  too_many_block_groups, too_many_inodes, too_few_inodes,
}
use ofs_convert_rs.LoHi
use ofs_convert_rs.LoHi.{u64_of_u32_u32}
use ofs_convert_rs.Fat.BootSector.{BootSector, get_data_range, cluster_size, fs_size, volume_label}
use ofs_convert_rs.Ext4.SuperBlock.Fields.{
  SuperBlock, yes_backup, first_existing_inode, first_non_reserved_inode, block_size_min_log2,
  inode_ratio, volume_name_len, max_blocks_per_group, min_usable_blocks_per_group, min_block_size,
  max_block_size, init_constants,
}
use ofs_convert_rs.Ext4.SuperBlock.Geometry.{block_group_overhead, first_block_is_padding}

-- What the code takes from the floating-point library, the clock and the random numbers.
pub record Environment : Type 0 where
  -- `f64::from(n).log2().round() as u8`
  pub log2_round : ℕ → ℕ
  pub now : ℕ
  pub uuid : List ℕ

module _ (env : Environment) where
  -- util.rs, `exact_log2`
  unfoldable pub exact_log2 : ℕ → Outcome ℕ
  exact_log2 n =
      let log = env.log2_round n in
      if 2 ^ log % u32_size == n then ok log else err not_a_power_of_two

  -- The fields that `new` sets before it counts blocks, from the logarithm of the block size.
  unfoldable pub layout : ℕ → List ℕ → ℕ → SuperBlock
  unfolding first_block_is_padding
  layout block_size volume_label log_block_size =
      let s_log_block_size = sub32 log_block_size block_size_min_log2 in
      let sized = record init_constants { s_log_block_size = s_log_block_size } in
      let bitmap_size = mul32 block_size 8 in
      let blocks_per_group = min bitmap_size max_blocks_per_group in
      record sized {
        s_first_data_block = if first_block_is_padding sized then 1 else 0;
        s_blocks_per_group = blocks_per_group;
        s_mkfs_time = env.now;
        s_uuid = env.uuid;
        s_volume_name = volume_label;
        s_log_cluster_size = s_log_block_size;
        s_clusters_per_group = blocks_per_group;
        s_inodes_per_group = min bitmap_size (mul32 blocks_per_group block_size / inode_ratio);
      }

  -- `new` up to the number of inodes in a group.
  unfoldable pub geometry : ℕ → List ℕ → Outcome SuperBlock
  unfolding exact_log2 layout
  geometry block_size volume_label = do
    assert (leb (length volume_label) volume_name_len)
    ensure (leb min_block_size block_size) block_size_too_small
    ensure (leb block_size max_block_size) block_size_too_large
    log_block_size ← exact_log2 block_size
    ok (layout block_size volume_label log_block_size)

-- Sets the number of blocks, and leaves the last group out if it is too small. Returns the number of
-- blocks behind the padding too. None of the differences can go below zero.
unfoldable pub fit_blocks : SuperBlock → ℕ → Outcome (SuperBlock × ℕ)
unfolding block_group_overhead
fit_blocks sb block_count = do
  let data_block_count = block_count - sb.s_first_data_block
  halves ← LoHi.set u64_of_u32_u32 block_count
  let counted = record sb { s_blocks_count = halves }
  let last_group = data_block_count % sb.s_blocks_per_group
  overhead ← block_group_overhead counted yes_backup
  if ltb last_group (overhead + min_usable_blocks_per_group)
      then LoHi.set u64_of_u32_u32 (block_count - last_group)
        >>= (λ fewer. ok (record sb { s_blocks_count = fewer }, data_block_count - last_group))
      else ok (counted, data_block_count)

-- The checks on the numbers of groups and inodes, and the two backups.
unfoldable pub finish : SuperBlock → ℕ → Outcome SuperBlock
finish sb data_block_count = do
  ensure (leb 1 data_block_count) filesystem_too_small
  let groups = div_ceil data_block_count sb.s_blocks_per_group
  ensure (ltb groups u32_size) too_many_block_groups
  let inodes = sb.s_inodes_per_group * groups
  ensure (ltb inodes u32_size) too_many_inodes
  ensure (leb (sub32 first_non_reserved_inode first_existing_inode) inodes) too_few_inodes
  ok (record sb {
    s_inodes_count = inodes;
    s_backup_bg_0 = if ltb 1 groups then 1 else 0;
    s_backup_bg_1 = if ltb 2 groups then groups - 1 else 0;
  })

module _ (env : Environment) where
  unfoldable pub new : ℕ → ℕ → List ℕ → Outcome SuperBlock
  unfolding geometry fit_blocks finish
  new fs_len block_size volume_label = do
    sb ← geometry env block_size volume_label
    fitted ← fit_blocks sb (fs_len / block_size)
    finish fitted.0 fitted.1

  -- A cluster size of zero makes the remainder panic.
  unfoldable pub from_boot_sector : BootSector → Outcome SuperBlock
  unfolding new
  from_boot_sector b = do
    assert (ltb 0 (cluster_size b))
    ensure ((get_data_range b).start % cluster_size b == 0) unaligned_data_section
    new (fs_size b) (cluster_size b) (volume_label b)
