-- ===== src/Serialization/DryRun/Totals/Sums.antt =====
-- The totals of the dry run are the sums of what the directories' writers count.
use ofs_convert_rs.Common.{
  ℕ, suc, ◌+◌, ◌≡◌, ap, List, length, ok, >>=-eq-ok, arith, ◌<◌, add32, add64, u32_size, u64_size,
}
use ofs_convert_rs.Ranges.{Range}
use ofs_convert_rs.Ext4.Extent
use ofs_convert_rs.Ext4.Extent.{Extent}
use ofs_convert_rs.Ext4.Dentry
use ofs_convert_rs.Ext4.Dentry.{Ext4Dentry}
use ofs_convert_rs.Serialization.DryRun
use ofs_convert_rs.Serialization.DryRun.{DryRunDirectoryWriter, used_blocks}
use ofs_convert_rs.Serialization.DryRun.Counts.{add_dentry-cases, new_unused}
use ofs_convert_rs.Serialization.DryRun.Totals.{
  Totals, dot, dot_dot, add_name, add_dot_dirs, build_directory, build_regular_file,
}

module _ (required_block_count : ℕ → ℕ → ℕ) where
  add_name-sum :
      (w w' : DryRunDirectoryWriter) (name : List ℕ) (n : ℕ)
      → add_name required_block_count w name ≡ ok (n, w')
      → used_blocks w' ≡ n + used_blocks w
  unfolding add_name
  add_name-sum w w' name n h =
      let (d, e, g) = >>=-eq-ok (Dentry.new 0 name) (DryRun.add_dentry required_block_count w) h in
      (add_dentry-cases required_block_count w d n w' g).0

  add_dot_dirs-sum :
      (w w' : DryRunDirectoryWriter) (n : ℕ)
      → add_dot_dirs required_block_count w ≡ ok (n, w')
      → used_blocks w' ≡ n + used_blocks w
  unfolding add_dot_dirs
  add_dot_dirs-sum w w' n h =
      let (p, e, g) = >>=-eq-ok (add_name required_block_count w dot) _ h in
      let (q, f, k) = >>=-eq-ok (add_name required_block_count p.1 dot_dot) _ g in
      let sum : p.0 + q.0 ≡ n = cc in
      let last : q.1 ≡ w' = cc in
      let a : used_blocks p.1 ≡ p.0 + used_blocks w = add_name-sum w p.1 dot p.0 e in
      let b : used_blocks q.1 ≡ q.0 + used_blocks p.1 = add_name-sum p.1 q.1 dot_dot q.0 f in
      omega (arith, ap used_blocks last)

  -- As long as the totals fit their types, a directory that the dry run builds takes one inode more, and as
  -- many blocks more as its own writer and its parent's count more.
  pub build_directory-sum :
      (t t' : Totals) (name : List ℕ) (parent parent' w : DryRunDirectoryWriter)
      → build_directory required_block_count t name parent ≡ ok (t', w, parent')
      → suc t.used_inodes < u32_size
      → t.used_blocks + used_blocks parent' + used_blocks w < u64_size
      → (t'.used_inodes ≡ suc t.used_inodes)
        × (t'.used_blocks + used_blocks parent
            ≡ t.used_blocks + used_blocks parent' + used_blocks w)
  unfolding build_directory
  build_directory-sum t t' name parent parent' w h few fits =
      let (p, e, g) = >>=-eq-ok (add_name required_block_count parent name) _ h in
      let (q, f, k) = >>=-eq-ok (add_dot_dirs required_block_count (DryRun.new t.block_size)) _ g in
      let a : used_blocks p.1 ≡ p.0 + used_blocks parent = add_name-sum parent p.1 name p.0 e in
      let b : used_blocks q.1 ≡ q.0 + used_blocks (DryRun.new t.block_size) =
        add_dot_dirs-sum _ q.1 q.0 f in
      let own : q.1 ≡ w = cc in
      let other : p.1 ≡ parent' = cc in
      let inodes : add32 t.used_inodes 1 ≡ t'.used_inodes = cc in
      let blocks : add64 (add64 t.used_blocks p.0) q.0 ≡ t'.used_blocks = cc in
      (
        omega (arith, inodes, few),
        omega (
          arith,
          blocks,
          fits,
          a,
          b,
          ap used_blocks own,
          ap used_blocks other,
          new_unused required_block_count t.block_size,
        ),
      )

  -- As long as the totals fit their types, a regular file that the dry run builds takes one inode more, the
  -- blocks that its parent's writer counts more, and those of the tree of its extents.
  pub build_regular_file-sum :
      (t t' : Totals) (name : List ℕ) (parent parent' : DryRunDirectoryWriter) (ranges : List Range)
      → build_regular_file required_block_count t name parent ranges ≡ ok (t', parent')
      → suc t.used_inodes < u32_size
      → ((es : List Extent)
          → Extent.from_ranges ranges ≡ ok es
          → t.used_blocks + used_blocks parent' + required_block_count (length es) t.block_size
            < u64_size)
      → (extents : List Extent) × (Extent.from_ranges ranges ≡ ok extents)
        × (t'.used_inodes ≡ suc t.used_inodes)
        × (t'.used_blocks + used_blocks parent
            ≡ t.used_blocks
              + used_blocks parent'
              + required_block_count (length extents) t.block_size)
  unfolding build_regular_file
  build_regular_file-sum t t' name parent parent' ranges h few fits =
      let (p, e, g) = >>=-eq-ok (add_name required_block_count parent name) _ h in
      let (es, f, k) = >>=-eq-ok (Extent.from_ranges ranges) _ g in
      let a : used_blocks p.1 ≡ p.0 + used_blocks parent = add_name-sum parent p.1 name p.0 e in
      let other : p.1 ≡ parent' = cc in
      let tree : ℕ = required_block_count (length es) t.block_size in
      let inodes : add32 t.used_inodes 1 ≡ t'.used_inodes = cc in
      let blocks : add64 (add64 t.used_blocks p.0) tree ≡ t'.used_blocks = cc in
      let bound : t.used_blocks + used_blocks parent' + tree < u64_size = fits es f in
      (es, f, omega (arith, inodes, few), omega (arith, blocks, bound, a, ap used_blocks other))
