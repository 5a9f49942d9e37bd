-- ===== src/Serialization/DryRun/Totals.antt =====
-- src/serialization/dry_run_deserializer.rs: `DryRunDeserializerInternals`, which counts the inodes and
-- the blocks that the whole conversion will take. A name is the list of its bytes.
pub mod Sums
use ofs_convert_rs.Common.{ℕ, add32, add64, ◌+◌, List, [], ◌∷◌, length, Outcome, ok, ◌>>=◌}
use ofs_convert_rs.Ranges.{Range}
use ofs_convert_rs.Ext4.Extent
use ofs_convert_rs.Ext4.Dentry
use ofs_convert_rs.Serialization.DryRun
use ofs_convert_rs.Serialization.DryRun.{DryRunDirectoryWriter}

pub record Totals : Type 0 where
  pub used_inodes : ℕ
  pub used_blocks : ℕ
  pub block_size : ℕ

-- `DryRunDeserializerInternals::new`
abbrev pub start : ℕ → Totals
start block_size = record { used_inodes = 0; used_blocks = 0; block_size = block_size }

-- The bytes of `.`, of `..` and of `lost+found`
abbrev pub dot : List ℕ
dot = 46 ∷ []

abbrev pub dot_dot : List ℕ
dot_dot = 46 ∷ dot

abbrev pub lost_found : List ℕ
lost_found = 108 ∷ 111 ∷ 115 ∷ 116 ∷ 43 ∷ 102 ∷ 111 ∷ 117 ∷ 110 ∷ 100 ∷ []

module _ (required_block_count : ℕ → ℕ → ℕ) where
  -- `Ext4Dentry::new(0, name)`, then `add_dentry`.
  unfoldable pub add_name : DryRunDirectoryWriter → List ℕ → Outcome (ℕ × DryRunDirectoryWriter)
  add_name w name = Dentry.new 0 name >>= λ d. DryRun.add_dentry required_block_count w d

  unfoldable pub add_dot_dirs : DryRunDirectoryWriter → Outcome (ℕ × DryRunDirectoryWriter)
  unfolding add_name
  add_dot_dirs w = add_name w dot >>= λ p. add_name p.1 dot_dot >>= λ q. ok (p.0 + q.0, q.1)

  -- The totals, the writer of the new directory, and that of its parent.
  unfoldable pub build_directory :
      Totals
      → List ℕ
      → DryRunDirectoryWriter
      → Outcome (Totals × DryRunDirectoryWriter × DryRunDirectoryWriter)
  unfolding add_name add_dot_dirs
  build_directory t name parent = add_name parent name >>= λ p.
      add_dot_dirs (DryRun.new t.block_size) >>= λ q. ok (
        record t {
          used_inodes = add32 t.used_inodes 1;
          used_blocks = add64 (add64 t.used_blocks p.0) q.0;
        },
        q.1,
        p.1,
      )

  unfoldable pub build_regular_file :
      Totals
      → List ℕ
      → DryRunDirectoryWriter
      → List Range
      → Outcome (Totals × DryRunDirectoryWriter)
  unfolding add_name
  build_regular_file t name parent data_ranges = add_name parent name >>= λ p.
      Extent.from_ranges data_ranges >>= λ extents. ok (
        record t {
          used_inodes = add32 t.used_inodes 1;
          used_blocks =
              add64 (add64 t.used_blocks p.0) (required_block_count (length extents) t.block_size);
        },
        p.1,
      )

  unfoldable pub build_root : Totals → Outcome (Totals × DryRunDirectoryWriter)
  unfolding add_dot_dirs build_directory
  build_root t = add_dot_dirs (DryRun.new t.block_size) >>= λ p.
      build_directory (record t { used_blocks = add64 t.used_blocks p.0 }) lost_found p.1
      >>= λ (t', _, root). ok (t', root)
