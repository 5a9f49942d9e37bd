-- ===== src/Serialization/DryRun.antt =====
-- src/serialization/dry_run_deserializer.rs: `DryRunDirectoryWriter`, which counts the blocks a
-- directory will take.
pub mod Counts
pub mod Agreement
pub mod Totals
use ofs_convert_rs.Common.{
  ℕ, suc, ◌+◌, ◌-◌, ltb, leb, Bool, true, false, List, [], ◌∷◌, if◌then◌else◌, Outcome, ok, err,
  ◌>>=◌, ◌>>◌, assert, ensure, u32_size, too_many_files, not_enough_blocks, not_enough_inodes,
}
use ofs_convert_rs.Ext4.Dentry.{Ext4Dentry}

pub record DryRunDirectoryWriter : Type 0 where
  pub used_dentry_blocks : ℕ
  pub used_extent_blocks : ℕ
  pub block_size : ℕ
  pub position_in_block : ℕ

unfoldable pub used_blocks : DryRunDirectoryWriter → ℕ
used_blocks w = w.used_dentry_blocks + w.used_extent_blocks

abbrev pub remaining_space : DryRunDirectoryWriter → ℕ
remaining_space w = w.block_size - w.position_in_block

unfoldable pub new : ℕ → DryRunDirectoryWriter
new block_size = record {
  used_dentry_blocks = 0;
  used_extent_blocks = 0;
  block_size = block_size;
  position_in_block = block_size;
}

-- `result`. When both are too few, the message of the source names both.
unfoldable pub result : (used_inodes used_blocks free_inodes free_blocks : ℕ) → Outcome (Unit {0})
result used_inodes used_blocks free_inodes free_blocks =
    ensure (leb used_blocks free_blocks) not_enough_blocks
    >> (ensure (leb used_inodes free_inodes) not_enough_inodes >> ok tt)

abbrev pub move : Ext4Dentry → DryRunDirectoryWriter → DryRunDirectoryWriter
move d w = record w { position_in_block = w.position_in_block + d.dentry_len }

-- The end of `add_dentry`. The subtraction panics where it is negative.
unfoldable pub added_blocks :
    DryRunDirectoryWriter → Ext4Dentry → DryRunDirectoryWriter → Outcome (ℕ × DryRunDirectoryWriter)
unfolding used_blocks
added_blocks w d w' =
    assert (leb (used_blocks w) (used_blocks w')) >> ok (used_blocks w' - used_blocks w, move d w')

abbrev pub add_count : ℕ → ℕ × DryRunDirectoryWriter → Outcome (ℕ × DryRunDirectoryWriter)
add_count n (m, w) = ok (n + m, w)

-- `ExtentTree::required_block_count` at the writer's block size is an argument.
module _ (required_block_count : ℕ → ℕ → ℕ) where
  unfoldable pub next_block : DryRunDirectoryWriter → Outcome DryRunDirectoryWriter
  next_block w =
      ensure (ltb (suc w.used_dentry_blocks) u32_size) too_many_files
      >> ok (record w {
        used_dentry_blocks = suc w.used_dentry_blocks;
        used_extent_blocks = required_block_count (suc w.used_dentry_blocks) w.block_size;
        position_in_block = 0;
      })

  abbrev pub make_room : DryRunDirectoryWriter → Ext4Dentry → Outcome DryRunDirectoryWriter
  make_room w d = if ltb (remaining_space w) d.dentry_len then next_block w else ok w

  -- The number of blocks added, and the writer after the call.
  unfoldable pub add_dentry :
      DryRunDirectoryWriter → Ext4Dentry → Outcome (ℕ × DryRunDirectoryWriter)
  unfolding next_block added_blocks
  add_dentry w d = make_room w d >>= λ w'. added_blocks w d w'

  -- The calls of `add_dentry` for the entries of a directory, with the sum of the counts.
  unfoldable pub add_dentries :
      DryRunDirectoryWriter → List Ext4Dentry → Outcome (ℕ × DryRunDirectoryWriter)
  unfolding add_dentry
  add_dentries w [] = ok (0, w)
  add_dentries w (d ∷ ds) = add_dentry w d >>= λ p. add_dentries p.1 ds >>= add_count p.0
