-- ===== src/Ext4.antt =====
-- src/ext4: the ext4 file system that is written.
pub mod SuperBlock
pub mod Extent
pub mod Dentry
pub mod ExtentTree
pub mod GroupDescriptor
pub mod Inode
pub mod BlockGroup
