-- ===== src/Fat.antt =====
-- src/fat: the FAT32 file system that is read.
pub mod BootSector
pub mod Table
pub mod Dentry
pub mod FileIter
