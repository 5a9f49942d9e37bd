-- ===== src/Ext4/SuperBlock.antt =====
-- src/ext4/superblock.rs: the superblock, how it is laid out from the size of the FAT file system, and
-- where the metadata of the block groups lies.
mod Fields
mod Geometry
mod Build
pub mod Facts
unfoldable pub use Fields.*
unfoldable pub use Geometry.*
unfoldable pub use Build.*
