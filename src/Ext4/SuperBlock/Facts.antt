-- ===== src/Ext4/SuperBlock/Facts.antt =====
-- What `SuperBlock::new` guarantees of the superblock that it returns.
pub mod Log
pub mod Steps
pub mod New
