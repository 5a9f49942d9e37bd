-- ===== src/Examples.antt =====
-- The theorems at concrete inputs.
mod Lists
mod Clusters
mod Metadata
mod Serializer
mod Entries
mod Trees
mod Archives
mod Forbidding
mod Directories
