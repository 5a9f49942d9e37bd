-- ===== src/Serialization.antt =====
-- The directory entries of a new directory, as the conversion writes them and as the dry run counts
-- them.
pub mod DentryWriter
pub mod DryRun
pub mod FatSerializer
pub mod StreamArchiver
pub mod Tree
