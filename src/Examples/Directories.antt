-- ===== src/Examples/Directories.antt =====
-- The dry run and the writer of directories, at concrete inputs.
use ofs_convert_rs.Common.{
  u64_size, ◌<◌, subst, ok_injective, ℕ, zero, suc, ◌+◌, ◌-◌, ◌%◌, ◌≤◌, ◌≡◌, refl, some, List, [],
  ◌∷◌, length, replicate, Outcome, ok, err, panic, arith, u32_size, no_free_clusters,
}
use ofs_convert_rs.LoHi
use ofs_convert_rs.Ranges.{Range}
use ofs_convert_rs.Ext4.Extent
use ofs_convert_rs.Ext4.Extent.{Extent}
use ofs_convert_rs.Ext4.Dentry
use ofs_convert_rs.Ext4.Dentry.{Ext4Dentry}
use ofs_convert_rs.Ext4.ExtentTree
use ofs_convert_rs.Serialization.DentryWriter.{DentryWriter, Storage, pad_previous_dentry}
use ofs_convert_rs.Serialization.DentryWriter.Layout.{IsEntry, IsValid, total, entry_len}
use ofs_convert_rs.Serialization.DentryWriter.Blocks.{Supplies, pad_previous_dentry-panics}
use ofs_convert_rs.Serialization.DryRun
use ofs_convert_rs.Serialization.DryRun.{DryRunDirectoryWriter, used_blocks}
use ofs_convert_rs.Serialization.DryRun.Totals.{
  Totals, lost_found, build_directory, build_regular_file,
}
use ofs_convert_rs.Serialization.DryRun.Totals.Sums.{build_directory-sum, build_regular_file-sum}

-- A storage of `n` blocks.
abbrev take_one : ℕ → Outcome (ℕ × ℕ)
take_one zero = err no_free_clusters
take_one (suc n) = ok (1000 - n, n)

abbrev storage : Storage ℕ
storage = record { allocate_one = take_one; register_extent = λ s e. ok s }

take_one-supplies :
    (s n : ℕ)
    → suc n ≤ s
    → (p : ℕ × ℕ) × (take_one s ≡ ok p)
      × (p.0 < u32_size)
      × ((e : Extent) → (s' : ℕ) × (ok p.1 ≡ ok s') × (n ≤ s'))
take_one-supplies zero n h = absurd (omega arith)
take_one-supplies (suc s) n h = ((1000 - s, s), refl, omega arith, λ e. (s, refl, omega arith))

storage-Supplies : Supplies storage (λ s. s)
storage-Supplies = record { block = take_one-supplies }

-- The logarithm is 0 where the extents fit the inode.
abbrev blocks_of_extents : ℕ → ℕ → ℕ
blocks_of_extents = ExtentTree.required_block_count (λ n b. 0)

abbrev entry : ℕ → Ext4Dentry
entry n = record { inode_no = 12; dentry_len = n; name_len = n - 8; name = replicate (n - 8) 97 }

-- Six entries that take two blocks of 1 KiB.
abbrev more : List Ext4Dentry
more = entry 12 ∷ entry 264 ∷ entry 264 ∷ entry 264 ∷ entry 264 ∷ []

entry-IsEntry : (n : ℕ) → n % 4 ≡ 0 → 8 ≤ n → n ≤ 264 → IsEntry (entry n)
entry-IsEntry n a b c = record { aligned = a; nonempty = b; short = c }

long-IsEntry : IsEntry (entry 264)
long-IsEntry = entry-IsEntry 264 refl (omega arith) (omega arith)

dot-IsEntry : IsEntry (entry 12)
dot-IsEntry = entry-IsEntry 12 refl (omega arith) (omega arith)

abbrev counted : DryRunDirectoryWriter
counted = record {
  used_dentry_blocks = 2;
  used_extent_blocks = 0;
  block_size = 1024;
  position_in_block = 264;
}

count-entries :
    DryRun.add_dentries blocks_of_extents (DryRun.new 1024) (entry 12 ∷ more) ≡ ok (2, counted)
unfolding DryRun.add_dentries DryRun.new ExtentTree.required_block_count
count-entries = refl

-- A directory whose second block holds one entry, at 64 KiB.
abbrev writer : DentryWriter ℕ
writer = record {
  state = 5;
  size = 65536;
  block_size = 65536;
  position_in_block = 264;
  block = 9;
  previous_dentry = some (entry 264);
  block_count = 1;
  link_count_from_subdirs = 2;
  older = [];
  finished = [];
}

short-previous : (d : Ext4Dentry) → some (entry 264) ≡ some d → d.dentry_len ≤ 264
short-previous d e = subst (λ o. entry_len o ≤ 264) e (omega arith)

writer-IsValid : IsValid writer
unfolding total
writer-IsValid = record {
  size_aligned = refl;
  big_enough = omega arith;
  position_aligned = refl;
  position = omega arith;
  filled = refl;
  started = λ e. absurd cc;
  previous = short-previous;
  full = tt;
  count = refl;
  sizes = refl;
}

pad_previous_dentry-panics_example : pad_previous_dentry writer ≡ panic
pad_previous_dentry-panics_example =
    pad_previous_dentry-panics writer (entry 264) writer-IsValid refl refl refl

abbrev root_writer : DryRunDirectoryWriter
root_writer = record {
  used_dentry_blocks = 1;
  used_extent_blocks = 0;
  block_size = 1024;
  position_in_block = 24;
}

abbrev totals : Totals
totals = record { used_inodes = 0; used_blocks = 1; block_size = 1024 }

abbrev totals_after : Totals
totals_after = record { used_inodes = 1; used_blocks = 2; block_size = 1024 }

abbrev root_after : DryRunDirectoryWriter
root_after = record root_writer { position_in_block = 44 }

count-lost_found :
    build_directory blocks_of_extents totals lost_found root_writer
    ≡ ok (totals_after, root_writer, root_after)
unfolding build_directory DryRun.add_dentry DryRun.new ExtentTree.required_block_count Dentry.new
    Dentry.aligned_length
count-lost_found = refl

totals-fit : totals.used_blocks + used_blocks root_after + used_blocks root_writer < u64_size
unfolding used_blocks
totals-fit = omega arith

build_directory-sum_example :
    (1 ≡ suc 0)
    × (2 + used_blocks root_writer ≡ 1 + used_blocks root_after + used_blocks root_writer)
build_directory-sum_example =
    build_directory-sum blocks_of_extents totals totals_after lost_found root_writer root_after
      root_writer count-lost_found (omega arith) totals-fit

abbrev ranges : List Range
ranges = record { start = 50; end = 60 } ∷ []

count-file :
    build_regular_file blocks_of_extents totals lost_found root_writer ranges
    ≡ ok (record totals_after { used_blocks = 1 }, root_after)
unfolding build_regular_file DryRun.add_dentry ExtentTree.required_block_count Dentry.new
    Dentry.aligned_length Extent.from_ranges LoHi.set
count-file = refl

ranges-fit :
    (es : List Extent)
    → Extent.from_ranges ranges ≡ ok es
    → totals.used_blocks + used_blocks root_after + blocks_of_extents (length es) 1024 < u64_size
unfolding Extent.from_ranges ExtentTree.required_block_count used_blocks LoHi.set
ranges-fit es e =
    subst
      (λ xs.
        totals.used_blocks + used_blocks root_after + blocks_of_extents (length xs) 1024 < u64_size)
      (ok_injective e) (omega arith)

build_regular_file-sum_example :
    (extents : List Extent) × (Extent.from_ranges ranges ≡ ok extents)
    × (1 ≡ suc 0)
    × (1 + used_blocks root_writer
        ≡ 1 + used_blocks root_after + blocks_of_extents (length extents) 1024)
build_regular_file-sum_example =
    build_regular_file-sum blocks_of_extents totals (record totals_after { used_blocks = 1 })
      lost_found root_writer root_after ranges count-file (omega arith) ranges-fit
