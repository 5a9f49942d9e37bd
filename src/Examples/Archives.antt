-- ===== src/Examples/Archives.antt =====
-- A tree with a file in the way of the metadata is archived and read back.
use ofs_convert_rs.Common.{
  ℕ, ◌+◌, ◌≤◌, ◌≡◌, refl, Bool, true, false, if◌then◌else◌, none, List, [], ◌∷◌, length, map,
  replicate, arith, ok, err, ◌⊎◌, no_free_clusters, sym, ◌∙◌, subst, ok_injective,
}
use ofs_convert_rs.Ranges.{Range, split_overlapping, next_not_covered}
use ofs_convert_rs.Allocator.{allocate, allocate_one, cluster_start_byte}
use ofs_convert_rs.Ranges.Cover.{covers}
use ofs_convert_rs.Allocator.Valid.{IsValid}
use ofs_convert_rs.Fat.BootSector.{first_data_cluster, first_cluster, cluster_size}
use ofs_convert_rs.Fat.Table.{IsReadable, data_cluster, is_free}
use ofs_convert_rs.Ext4.Inode.{DentryRepresentation}
use ofs_convert_rs.Fat.Dentry.{is_dir, representation}
use ofs_convert_rs.Serialization.FatSerializer.{Copying, make_file_non_overlapping}
use ofs_convert_rs.Serialization.StreamArchiver
use ofs_convert_rs.Serialization.StreamArchiver.{StreamArchiver, archive}
use ofs_convert_rs.Serialization.StreamArchiver.Reader.{Reader, into_reader}
use ofs_convert_rs.Serialization.StreamArchiver.Runs.{Batch}
use ofs_convert_rs.Serialization.StreamArchiver.Reading.{AllSize, IsBatch}
use ofs_convert_rs.Serialization.StreamArchiver.RoundTrip.{ReadsBack}
use ofs_convert_rs.Serialization.Tree.{
  FileType, directory, regular_file, Item, file_types, dentries, name_bytes, ranges, Nodes, node,
  none_left, next_node, serialize_directory_tree,
}
use ofs_convert_rs.Serialization.Tree.Reading.{Tree, top_count, items_of}
use ofs_convert_rs.Serialization.Tree.Moving.{AllHold}
use ofs_convert_rs.Serialization.Tree.Walking.{moves_of, Matches}
use ofs_convert_rs.Serialization.Tree.Archiving.{
  Suits, archiver_storage, serialize_directory_tree-ReadsBack,
}
use ofs_convert_rs.Serialization.StreamArchiver.Linking.{IsReady}
use ofs_convert_rs.Serialization.StreamArchiver.Progress.{Continues, new-IsReady}
use ofs_convert_rs.Serialization.Tree.Total.{AreRepresentable, serialize_directory_tree-Continues}
use ofs_convert_rs.Examples.Serializer.{
  tiny, tiny_fs, file-IsReadable, shared, forbidden, compiler, shared-IsValid, forbidden-used,
  file-used, compiler-IsLayout,
}
use ofs_convert_rs.Examples.Trees.{text, entry}

abbrev flag : Bool → ℕ
flag b = if b then 1 else 0

abbrev type_bytes : FileType → List ℕ
type_bytes (directory n) = 0 ∷ n ∷ []
type_bytes regular_file = 1 ∷ 0 ∷ []

abbrev dentry_bytes : DentryRepresentation → List ℕ
dentry_bytes d =
    d.access_time
    ∷ d.create_time
    ∷ d.mod_time
    ∷ d.file_size
    ∷ flag d.is_dir
    ∷ flag d.is_read_only
    ∷ []

abbrev range_bytes : Range → List ℕ
range_bytes r = r.start ∷ r.end ∷ []

abbrev batch_of : Item → Batch
batch_of (file_types ts) = record {
  type = record { type_id = 1; size = 2 };
  objects = map type_bytes ts;
}
batch_of (dentries ds) = record {
  type = record { type_id = 2; size = 6 };
  objects = map dentry_bytes ds;
}
batch_of (name_bytes bs) = record {
  type = record { type_id = 3; size = 1 };
  objects = map (λ b. b ∷ []) bs;
}
batch_of (ranges rs) = record {
  type = record { type_id = 4; size = 2 };
  objects = map range_bytes rs;
}

AllSize-map :
    {A : Type 0} (size : ℕ) (f : A → List ℕ) (xs : List A)
    → ((x : A) → length (f x) ≡ size)
    → AllSize size (map f xs)
AllSize-map size f [] h = tt
AllSize-map size f (x ∷ xs) h = (h x, AllSize-map size f xs h)

type_bytes-length : (t : FileType) → length (type_bytes t) ≡ 2
type_bytes-length (directory n) = refl
type_bytes-length regular_file = refl

batch_of-IsBatch : (item : Item) → IsBatch compiler 8 (batch_of item)
batch_of-IsBatch (file_types ts) = (omega arith, AllSize-map 2 type_bytes ts type_bytes-length)
batch_of-IsBatch (dentries ds) = (omega arith, AllSize-map 6 dentry_bytes ds (λ d. refl))
batch_of-IsBatch (name_bytes bs) = (omega arith, AllSize-map 1 (λ b. b ∷ []) bs (λ b. refl))
batch_of-IsBatch (ranges rs) = (omega arith, AllSize-map 2 range_bytes rs (λ r. refl))

-- One file of three clusters, the second of which is forbidden.
abbrev root : Nodes
root =
    next_node
      (node
        (record {
          name = 0x61 ∷ [];
          dentry = entry 0x20;
          data_ranges = record { first = 1; last = 3 } ∷ [];
        })
        none_left)
      none_left

abbrev archiver : StreamArchiver
archiver = record {
  head = none;
  previous_page_idx = none;
  current_page = replicate 8 0;
  page_size = 8;
  position_in_current_page = 2;
  shared = record shared {
    allocator = record shared.allocator { valid_cluster_indices = record { start = 0; end = 12 } };
  };
}

archiver-new : StreamArchiver.new compiler shared 8 ≡ ok archiver
unfolding StreamArchiver.new
archiver-new = refl

tiny_fs-Suits : Suits tiny_fs 8
unfolding cluster_size
tiny_fs-Suits = (omega arith, refl)

run :
    (last : StreamArchiver) × (serialize_directory_tree
        (archiver_storage compiler batch_of tiny_fs forbidden)
        text
        root
        archiver
      ≡ ok last)
unfolding serialize_directory_tree archiver_storage archive is_dir representation
    make_file_non_overlapping split_overlapping first_cluster cluster_size data_cluster is_free
    first_data_cluster allocate allocate_one next_not_covered cluster_start_byte
run = (_, refl)

used-file :
    (is_dir (entry 0x20) ≡ false
      → (1 ≤ 3)
        × ((i : ℕ)
            → 1 ≤ i
            → i ≤ 3
            → covers shared.allocator.used_ranges (first_cluster tiny + i) ≡ true)
        × ((i : ℕ) → 1 ≤ i → i ≤ 3 → IsReadable tiny_fs i)
        × Unit {0})
    × Unit {0}
    × Unit {0}
used-file = (λ h. (omega arith, file-used, file-IsReadable, tt), tt, tt)

serialize_directory_tree-ReadsBack_example :
    (t : Tree) × Matches text root t
    × (((r : Reader) × (s' : Copying) × (into_reader compiler run.0 ≡ ok (r, s'))
          × IsValid s'.allocator
          × ReadsBack compiler
              (map batch_of (file_types (directory (top_count t) ∷ []) ∷ items_of t))
              r
              s'
          × AllHold tiny_fs shared.memory s'.memory (moves_of root t))
        ⊎ (into_reader compiler run.0 ≡ err no_free_clusters))
serialize_directory_tree-ReadsBack_example =
    serialize_directory_tree-ReadsBack compiler batch_of tiny_fs forbidden text root shared 8
      archiver run.0 compiler-IsLayout shared-IsValid refl (omega arith) (omega arith)
      batch_of-IsBatch tiny_fs-Suits (omega arith, tt) forbidden-used used-file archiver-new run.1

archiver-IsReady : IsReady compiler archiver
archiver-IsReady =
    let (a, e, r, _, _, _, _) =
      new-IsReady compiler shared 8 shared-IsValid refl (omega arith) (omega arith) in
    subst (IsReady compiler) (ok_injective (sym e ∙ archiver-new)) r

root-AreRepresentable : AreRepresentable text root
unfolding representation is_dir
root-AreRepresentable = ((_, refl), omega arith, tt, tt)

serialize_directory_tree-Continues_example : Continues compiler 8 shared.allocator.used_ranges (
    serialize_directory_tree
      (archiver_storage compiler batch_of tiny_fs forbidden)
      text
      root
      archiver)
serialize_directory_tree-Continues_example =
    serialize_directory_tree-Continues compiler batch_of tiny_fs forbidden text 8
      shared.allocator.used_ranges compiler-IsLayout batch_of-IsBatch tiny_fs-Suits root archiver
      (omega arith, tt) forbidden-used used-file root-AreRepresentable (omega arith)
      archiver-IsReady (refl, refl)
