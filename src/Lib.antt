-- ===== src/Lib.antt =====
-- ofs-convert-rs turns a FAT32 file system into an ext4 file system in place. It reads the boot
-- sector and the file allocation table (src/fat), decides from the number and size of the clusters
-- how the ext4 metadata will lie (src/ext4/superblock.rs), archives the directory tree into
-- clusters that are neither in use nor in the way of that metadata (src/allocator.rs,
-- src/serialization), counts in a dry run whether the blocks and inodes will do, and then writes
-- the ext4 structures. Nothing may fail once the writing has begun.
--
-- The parts of the program and the files that model them:
--
-- - Common: numbers, lists, and `Outcome`, how a call ends. `err` is an `Err` of the program,
--   `panic` a panic, and `stuck` a loop of the model that ran out of fuel, which no theorem leaves
--   open.
-- - Ranges (src/ranges.rs): sorted lists of disjoint ranges. The allocator and the FAT use them for
--   the clusters in use. Ranges/Cover has the invariant; Insert, Gap, Split and Count take an
--   operation each.
-- - Allocator (src/allocator.rs): the cursor in an explicit state where the source has a `Cell`.
--   Allocator/Valid has the invariant, Allocate and Split the operations.
-- - LoHi (src/lohi.rs) and Bitmap (src/bitmap.rs): numbers in two halves, and bits in bytes.
-- - Fat/BootSector (src/fat/boot_sector.rs) and Fat/Table (src/fat/table_index.rs, with the
--   functions of src/fat/fs.rs and src/fat/fs_iter.rs that walk the table, which is the list of its
--   cells). A division by a field that is zero panics. `data_cluster` is modelled by its checks:
--   what it returns is in Memory, or for directories in the record `FatData`, by the number of the
--   cluster.
-- - Fat/Dentry (src/fat/dentry.rs) and Fat/FileIter (src/fat/fs_iter.rs): a pseudo-dentry is its 32
--   bytes, of which both views of the union are read. Entries and Walk follow the iterator over
--   pseudo-dentries, Files and Counts the iterator over files, which takes the list of those that
--   are still to come. Strings are bytes; decoding text and the calendar are the parameter `Text`.
-- - Ext4/SuperBlock (src/ext4/superblock.rs): Fields, Geometry, and Build, where `new` is written
--   in the three parts `geometry`, `fit_blocks` and `finish`; the logarithm on `f64`, the clock and
--   the random numbers are the record `Environment`.
-- - Ext4/Extent and Ext4/ExtentTree (src/ext4/extent.rs), Ext4/Dentry (src/ext4/dentry.rs),
--   Ext4/GroupDescriptor (src/ext4/group_descriptor.rs), Ext4/BlockGroup (src/ext4/block_group.rs)
--   and Ext4/Inode (src/ext4/inode.rs).
-- - Serialization/DentryWriter (src/serialization/ext4_deserializer.rs): the writer of one
--   directory. What it uses of the allocator and of the extent tree is the interface `Storage`.
-- - Serialization/DryRun (src/serialization/dry_run_deserializer.rs): the writer that only counts,
--   and in Totals the counts of the whole conversion.
-- - Memory: the bytes of the clusters, where the source has pointers into the partition.
-- - Serialization/FatSerializer (src/serialization/fat_serializer.rs): moving a file's data to new
--   clusters. The allocator and the clusters, which the source shares by `Rc`, are the record
--   `Copying`. Moves says what a move is, Copies and NonOverlapping follow the loops, DataRanges a
--   whole file.
-- - Serialization/StreamArchiver (src/serialization/stream_archiver.rs): the archive in a chain of
--   pages, and in Reader its reader. An object is its bytes; how the compiler lays out a `Header`
--   and an `Option<PageIdx>` and numbers the types is the parameter `Compiler`, with the laws
--   `IsLayout`. Linking, Writing, Adding, Landing, Elsewhere and Runs follow the archiver, Stream
--   and Reading the reader, and RoundTrip joins them; in a run, steps of the rest of the program
--   may come between any two calls.
-- - Serialization/Tree (the walks of src/serialization/fat_serializer.rs and
--   src/serialization/deserializer.rs): the directory tree as data, what is archived of it, and the
--   calls that reading it makes. What the serializer uses is the interface `Storage`, which
--   Archiving fills with the archiver and the allocator; what the deserializer calls is the
--   interface `Internals`. Reading and Walking take a direction each. Moving follows the data of a
--   moved file to the end of the archive.
-- - Main (src/main.rs): the forbidden clusters and the loop that tells the allocator of them.
-- - Examples: the theorems at concrete inputs.
--
-- Numbers are natural numbers. Where the source computes on u32 or u64 and a result may not fit,
-- the wrap-around of the release build is written out (`add32`, `mul32` and so on), and a checked
-- conversion is an `assert`. A `debug_assert!` is checked. The loops of Ranges, of `from_ranges`
-- and of `data_ranges` run on fuel: a query needs one round more than the list has ranges,
-- splitting two rounds for each range, an extent takes at least one block of its range, and a chain
-- of the FAT one round for each cluster. Copying takes a cluster at least in each round, iterating
-- over a directory an entry, and reading an archived tree a file. A chain that runs in a circle
-- would never end, and uses up the fuel.
--
-- Not modelled: the partition and the command line (src/partition.rs and the rest of src/main.rs),
-- the instances of the deserializer as a whole (src/serialization), adding extents below the root
-- of a tree, and the functions of src/ext4/fs.rs that tie the block groups together.
pub mod Common
pub mod Ranges
pub mod Allocator
pub mod LoHi
pub mod Bitmap
pub mod Fat
pub mod Ext4
pub mod Memory
pub mod Serialization
pub mod Main
pub mod Examples
