-- ===== src/Serialization/Tree.antt =====
-- The directory tree: src/serialization/fat_serializer.rs walks and archives it, and
-- src/serialization/deserializer.rs reads it back. A node is a file with what `dir_content_iter` yields
-- for it, which counts for directories only.
pub mod Reading
pub mod Walking
pub mod Moving
pub mod Archiving
pub mod Total
use ofs_convert_rs.Common.{
  ℕ, zero, suc, ◌+◌, Bool, true, false, List, [], ◌∷◌, ◌++◌, ltb, if◌then◌else◌, Outcome, ok, panic,
  stuck, ◌>>=◌, ◌>>◌, assert, unwrap, u32_size,
}
use ofs_convert_rs.Ranges.{Range}
use ofs_convert_rs.Ext4.Inode.{DentryRepresentation}
use ofs_convert_rs.Fat.Dentry.{Text, FatDentry, is_dir, representation}
use ofs_convert_rs.Fat.FileIter.{FatFile}

pub data FileType : Type 0 where
  directory : ℕ → FileType
  regular_file : FileType

-- The vectors that are archived, one constructor for each type of their elements.
pub data Item : Type 0 where
  file_types : List FileType → Item
  dentries : List DentryRepresentation → Item
  name_bytes : List ℕ → Item
  ranges : List Range → Item

mutual
  pub data Node : Type 0 where
    node : FatFile → Nodes → Node

  pub data Nodes : Type 0 where
    none_left : Nodes
    next_node : Node → Nodes → Nodes

abbrev pub child_count : Nodes → ℕ
child_count none_left = 0
child_count (next_node n ns) = suc (child_count ns)

-- What the serializer uses: the archiver and the mover of a file's data, on a state of theirs.
pub record Storage (S : Type 0) : Type 0 where
  pub archive : Item → S → Outcome S
  pub make_file_non_overlapping : FatFile → S → Outcome (List Range × S)

module _ {S : Type 0} (storage : Storage S) (text : Text) where
  unfoldable pub archive_root_child_count : ℕ → S → Outcome S
  archive_root_child_count count s = storage.archive (file_types (directory count ∷ [])) s

  unfoldable pub archive_regular_file : FatFile → List Range → S → Outcome S
  archive_regular_file file data_ranges s =
      storage.archive (file_types (regular_file ∷ [])) s >>= λ s₁.
      representation text file.dentry >>= λ dentry.
      storage.archive (dentries (dentry ∷ [])) s₁
      >>= storage.archive (name_bytes file.name)
      >>= storage.archive (ranges data_ranges)

  unfoldable pub archive_directory : FatFile → ℕ → S → Outcome S
  archive_directory file child_count s =
      storage.archive (file_types (directory child_count ∷ [])) s >>= λ s₁.
      representation text file.dentry >>= λ dentry.
      storage.archive (dentries (dentry ∷ [])) s₁ >>= storage.archive (name_bytes file.name)

  -- `serialize_directory_content` and, for a directory in it, `serialize_directory`.
  unfoldable pub serialize_directory_content : Nodes → S → Outcome S
  unfolding archive_directory archive_regular_file
  serialize_directory_content none_left s = ok s
  serialize_directory_content (next_node (node file children) nodes) s =
      (if is_dir file.dentry
        then assert (ltb (child_count children) u32_size)
          >> archive_directory file (child_count children) s
          >>= serialize_directory_content children
        else (storage.make_file_non_overlapping file s >>= λ (data_ranges, s₁).
            archive_regular_file file data_ranges s₁))
      >>= serialize_directory_content nodes

  unfoldable pub serialize_directory_tree : Nodes → S → Outcome S
  unfolding archive_root_child_count serialize_directory_content
  serialize_directory_tree root s =
      assert (ltb (child_count root) u32_size)
      >> archive_root_child_count (child_count root) s
      >>= serialize_directory_content root

-- `DeserializerInternals`, on a state of its own and on the writers `D` of directories;
-- `drop` is what happens when a writer goes out of scope.
pub record Internals (S D : Type 0) : Type 0 where
  pub build_root : S → Outcome (D × S)
  pub deserialize_directory : DentryRepresentation → List ℕ → D → S → Outcome (D × D × S)
  pub drop : D → S → Outcome S
  pub deserialize_regular_file :
      DentryRepresentation → List ℕ → List Range → D → S → Outcome (D × S)

-- `read_next::<T>()`: what it reads, and the rest; another type panics. The first three are followed by
-- `[0]`.
unfoldable pub read_file_type : List Item → Outcome (FileType × List Item)
read_file_type (file_types (t ∷ ts) ∷ items) = ok (t, items)
read_file_type (file_types [] ∷ items) = panic
read_file_type (dentries ds ∷ items) = panic
read_file_type (name_bytes bs ∷ items) = panic
read_file_type (ranges rs ∷ items) = panic
read_file_type [] = panic

unfoldable pub read_dentry : List Item → Outcome (DentryRepresentation × List Item)
read_dentry (dentries (d ∷ ds) ∷ items) = ok (d, items)
read_dentry (dentries [] ∷ items) = panic
read_dentry (file_types ts ∷ items) = panic
read_dentry (name_bytes bs ∷ items) = panic
read_dentry (ranges rs ∷ items) = panic
read_dentry [] = panic

unfoldable pub read_name : List Item → Outcome (List ℕ × List Item)
read_name (name_bytes bs ∷ items) = ok (bs, items)
read_name (file_types ts ∷ items) = panic
read_name (dentries ds ∷ items) = panic
read_name (ranges rs ∷ items) = panic
read_name [] = panic

unfoldable pub read_ranges : List Item → Outcome (List Range × List Item)
read_ranges (ranges rs ∷ items) = ok (rs, items)
read_ranges (file_types ts ∷ items) = panic
read_ranges (dentries ds ∷ items) = panic
read_ranges (name_bytes bs ∷ items) = panic
read_ranges [] = panic

abbrev count_of : FileType × List Item → Outcome (ℕ × List Item)
count_of (directory child_count, rest) = ok (child_count, rest)
count_of (regular_file, rest) = panic

unfoldable pub read_root_child_count : List Item → Outcome (ℕ × List Item)
unfolding read_file_type
read_root_child_count items = read_file_type items >>= count_of

module _ {S D : Type 0} (internals : Internals S D) (text : Text) where
  -- The first three values of a file.
  unfoldable pub read_file :
      List Item → Outcome (FileType × DentryRepresentation × List ℕ × List Item)
  unfolding read_file_type read_dentry read_name
  read_file items = read_file_type items >>= λ (file_type, items₁).
      read_dentry items₁ >>= λ (dentry, items₂). read_name items₂ >>= λ (bytes, items₃).
      unwrap (text.from_utf8 bytes) >>= λ name. ok (file_type, dentry, name, items₃)

  -- The `match` of `deserialize_file`; `files` is the loop over the files of a new directory.
  unfoldable pub deserialize_content :
      (ℕ → D → List Item → S → Outcome (D × List Item × S))
      → FileType
      → DentryRepresentation
      → List ℕ
      → D
      → List Item
      → S
      → Outcome (D × List Item × S)
  unfolding read_ranges
  deserialize_content files (directory child_count) dentry name parent items s =
      internals.deserialize_directory dentry name parent s >>= λ (directory_writer, parent₁, s₁).
      files child_count directory_writer items s₁ >>= λ (directory_writer₁, items₁, s₂).
      internals.drop directory_writer₁ s₂ >>= λ s₃. ok (parent₁, items₁, s₃)
  deserialize_content files regular_file dentry name parent items s =
      read_ranges items >>= λ (data_ranges, items₁).
      internals.deserialize_regular_file dentry name data_ranges parent s >>= λ (parent₁, s₁).
      ok (parent₁, items₁, s₁)

  -- `deserialize_file`, called `n` times. Each file, in whatever directory, takes fuel.
  unfoldable pub deserialize_files : ℕ → ℕ → D → List Item → S → Outcome (D × List Item × S)
  unfolding read_file deserialize_content
  deserialize_files fuel zero parent items s = ok (parent, items, s)
  deserialize_files zero (suc n) parent items s = stuck
  deserialize_files (suc fuel) (suc n) parent items s =
      read_file items >>= λ (file_type, dentry, name, items₁).
      deserialize_content (deserialize_files fuel) file_type dentry name parent items₁ s
      >>= λ (parent₁, items₂, s₁). deserialize_files fuel n parent₁ items₂ s₁

  unfoldable pub deserialize_directory_tree : ℕ → List Item → S → Outcome S
  unfolding read_root_child_count deserialize_files
  deserialize_directory_tree fuel items s = internals.build_root s >>= λ (root, s₁).
      read_root_child_count items >>= λ (count, items₁).
      deserialize_files fuel count root items₁ s₁ >>= λ (root₁, _, s₂). internals.drop root₁ s₂
