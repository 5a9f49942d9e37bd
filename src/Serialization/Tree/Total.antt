-- ===== src/Serialization/Tree/Total.antt =====
-- The results of the walk of `FatTreeSerializer` (src/serialization/fat_serializer.rs) over an archiver.
use ofs_convert_rs.Common.{
  ℕ, ◌≡◌, sym, subst, ◌∙◌, true, List, [], ◌∷◌, ok, ◌>>=◌, inl, inr, ltb, lt→ltb, u32_size, ◌<◌,
  Outcome, ◌>>◌, assert, false, refl, if◌then◌else◌, Bool,
}
use ofs_convert_rs.Ranges.{Range, Ranges}
use ofs_convert_rs.Ranges.Cover.{covers, IsNormal}
use ofs_convert_rs.Fat.Table.{FatFs}
use ofs_convert_rs.Fat.Dentry.{Text, is_dir, representation}
use ofs_convert_rs.Fat.FileIter.{FatFile}
use ofs_convert_rs.Serialization.FatSerializer.DataRanges.{
  IsUsed, make_file_non_overlapping-MovesAll,
}
use ofs_convert_rs.Serialization.StreamArchiver.{Compiler, StreamArchiver}
use ofs_convert_rs.Serialization.StreamArchiver.Linking.{IsLayout, IsReady}
use ofs_convert_rs.Serialization.StreamArchiver.Elsewhere.{Elsewhere-IsReady, share}
use ofs_convert_rs.Serialization.StreamArchiver.Runs.{Batch}
use ofs_convert_rs.Serialization.StreamArchiver.Reading.{IsBatch}
use ofs_convert_rs.Serialization.StreamArchiver.Progress.{
  Kept, archive-Continues, Continues, Continues->>=, Continues-Kept,
}
use ofs_convert_rs.Serialization.Tree.{
  Item, file_types, directory, Nodes, Storage, serialize_directory_tree, regular_file, dentries,
  name_bytes, ranges, node, none_left, next_node, child_count, archive_directory,
  archive_regular_file, serialize_directory_content, archive_root_child_count,
}
use ofs_convert_rs.Serialization.Tree.Walking.{AllFiles}
use ofs_convert_rs.Ext4.Inode.{DentryRepresentation}
use ofs_convert_rs.Serialization.Tree.Archiving.{
  archiver_storage, Suits, IsReady-Serves, MovesAll-Elsewhere,
}

-- The times of each file can be represented, and the number of files in each directory fits `u32`.
abbrev pub AreRepresentable : Text → Nodes → Type 0
AreRepresentable text none_left = Unit {0}
AreRepresentable text (next_node (node f children) nodes) =
    ((d : DentryRepresentation) × (representation text f.dentry ≡ ok d))
    × (child_count children < u32_size)
    × AreRepresentable text children
    × AreRepresentable text nodes

module _ (c : Compiler) (batch_of : Item → Batch) (fs : FatFs) (forbidden : Ranges) (text : Text)
    (size : ℕ) (used : Ranges) (l : IsLayout c)
    (fit : (item : Item) → IsBatch c size (batch_of item)) (suits : Suits fs size) where
  abbrev Goes : Outcome StreamArchiver → Type 0
  Goes = Continues c size used

  abbrev storage : Storage StreamArchiver
  storage = archiver_storage c batch_of fs forbidden

  item-Goes :
      (item : Item) (a : StreamArchiver)
      → IsReady c a
      → Kept size used a
      → Goes (storage.archive item a)
  unfolding archiver_storage
  item-Goes item a r k = Continues-Kept c size used a _ k (
      archive-Continues c a (batch_of item) l r
        (subst (λ x. IsBatch c x (batch_of item)) (sym k.0) (fit item)))

  archive_directory-Goes :
      (f : FatFile) (n : ℕ) (d : DentryRepresentation) (a : StreamArchiver)
      → representation text f.dentry ≡ ok d
      → IsReady c a
      → Kept size used a
      → Goes (archive_directory storage text f n a)
  unfolding archive_directory
  archive_directory-Goes f n d a e r k =
      Continues->>= c size used (storage.archive (file_types (directory n ∷ [])) a) _
        (item-Goes (file_types (directory n ∷ [])) a r k)
        (λ a₁ r₁ k₁.
          subst
            (λ m. Goes (
              m >>= λ x.
              storage.archive (dentries (x ∷ [])) a₁ >>= storage.archive (name_bytes f.name)))
            (sym e)
            (Continues->>= c size used (storage.archive (dentries (d ∷ [])) a₁)
              (storage.archive (name_bytes f.name)) (item-Goes (dentries (d ∷ [])) a₁ r₁ k₁)
              (item-Goes (name_bytes f.name))))

  archive_regular_file-Goes :
      (f : FatFile) (rs : List Range) (d : DentryRepresentation) (a : StreamArchiver)
      → representation text f.dentry ≡ ok d
      → IsReady c a
      → Kept size used a
      → Goes (archive_regular_file storage text f rs a)
  unfolding archive_regular_file
  archive_regular_file-Goes f rs d a e r k =
      Continues->>= c size used (storage.archive (file_types (regular_file ∷ [])) a) _
        (item-Goes (file_types (regular_file ∷ [])) a r k)
        (λ a₁ r₁ k₁.
          subst
            (λ m. Goes (
              m >>= λ x.
              storage.archive (dentries (x ∷ [])) a₁
              >>= storage.archive (name_bytes f.name)
              >>= storage.archive (ranges rs)))
            (sym e)
            (Continues->>= c size used
              (storage.archive (dentries (d ∷ [])) a₁ >>= storage.archive (name_bytes f.name))
              (storage.archive (ranges rs))
              (Continues->>= c size used (storage.archive (dentries (d ∷ [])) a₁)
                (storage.archive (name_bytes f.name)) (item-Goes (dentries (d ∷ [])) a₁ r₁ k₁)
                (item-Goes (name_bytes f.name)))
              (item-Goes (ranges rs))))

  file-Goes :
      (f : FatFile) (d : DentryRepresentation) (a : StreamArchiver)
      → IsNormal forbidden
      → ((x : ℕ) → covers forbidden x ≡ true → covers used x ≡ true)
      → IsUsed fs used f.data_ranges
      → representation text f.dentry ≡ ok d
      → IsReady c a
      → Kept size used a
      → Goes (
          storage.make_file_non_overlapping f a >>= λ (rs, a₁).
          archive_regular_file storage text f rs a₁)
  unfolding archiver_storage
  file-Goes f d a normal inside u e r k =
      elim (make_file_non_overlapping-MovesAll fs forbidden f.data_ranges a.shared normal r.valid
        (IsReady-Serves c batch_of fs forbidden size a suits k.0 r)
        (subst (λ x. IsUsed fs x f.data_ranges) (sym k.1) u) (λ x h. rw k.1 (inside x h))) [
          | inr g ↦ inr (rw g refl)
          | inl (xs, s, g, m) ↦
              subst
                (λ y. Goes (
                  (y >>= λ (rs, s'). ok (rs, share a s')) >>= λ (rs, a₁).
                  archive_regular_file storage text f rs a₁))
                (sym g)
                (archive_regular_file-Goes f xs d (share a s) e
                  (Elsewhere-IsReady c a s r (MovesAll-Elsewhere forbidden a.shared s _ xs m))
                  (k.0, m.same_used ∙ k.1))
        ]

  -- A test that decides between two such calls.
  if-Goes :
      (t : Bool) (m n : Outcome StreamArchiver)
      → (t ≡ true → Goes m)
      → (t ≡ false → Goes n)
      → Goes (if t then m else n)
  if-Goes true m n h k = h refl
  if-Goes false m n h k = k refl

  counted-Goes :
      (n : ℕ) (m : Outcome StreamArchiver)
      → n < u32_size
      → Goes m
      → Goes (assert (ltb n u32_size) >> m)
  counted-Goes n m h g = rw (lt→ltb n u32_size h) g

  content-Goes :
      (nodes : Nodes) (a : StreamArchiver)
      → IsNormal forbidden
      → ((x : ℕ) → covers forbidden x ≡ true → covers used x ≡ true)
      → AllFiles (λ f. IsUsed fs used f.data_ranges) nodes
      → AreRepresentable text nodes
      → IsReady c a
      → Kept size used a
      → Goes (serialize_directory_content storage text nodes a)
  unfolding serialize_directory_content
  content-Goes none_left a normal inside every fine r k = inl (a, refl, r, k)
  content-Goes (next_node (node f children) nodes) a normal inside (u, us, vs)
        ((d, e), counted, xs, ys) r k =
      Continues->>= c size used _ (serialize_directory_content storage text nodes)
        (if-Goes (is_dir f.dentry) _ _
          (λ t.
            Continues->>= c size used _ (serialize_directory_content storage text children)
              (counted-Goes (child_count children) _ counted
                (archive_directory-Goes f (child_count children) d a e r k))
              (λ a₁ r₁ k₁. content-Goes children a₁ normal inside us xs r₁ k₁))
          (λ t. file-Goes f d a normal inside (u t) e r k))
        (λ a₁ r₁ k₁. content-Goes nodes a₁ normal inside vs ys r₁ k₁)

  -- The FAT file system's clusters have sectors and the size of a page. On a ready archiver of this page size
  -- and the given used clusters, walking a directory tree runs out of clusters or returns such an archiver, and
  -- does not panic or fail otherwise, if the files' clusters are used, in use in the FAT and inside the data
  -- section, the forbidden clusters are used, each item fits a page, the times of all files can be represented,
  -- and no directory has 2^32 files.
  pub serialize_directory_tree-Continues :
      (root : Nodes) (a : StreamArchiver)
      → IsNormal forbidden
      → ((x : ℕ) → covers forbidden x ≡ true → covers used x ≡ true)
      → AllFiles (λ f. IsUsed fs used f.data_ranges) root
      → AreRepresentable text root
      → child_count root < u32_size
      → IsReady c a
      → Kept size used a
      → Continues c size used
          (serialize_directory_tree (archiver_storage c batch_of fs forbidden) text root a)
  unfolding serialize_directory_tree archive_root_child_count
  serialize_directory_tree-Continues root a normal inside every fine counted r k =
      Continues->>= c size used _ (serialize_directory_content storage text root)
        (counted-Goes (child_count root) _ counted
          (item-Goes (file_types (directory (child_count root) ∷ [])) a r k))
        (λ a₁ r₁ k₁. content-Goes root a₁ normal inside every fine r₁ k₁)
