-- ===== src/Examples/Trees.antt =====
-- A directory with a file in it is archived and read back.
use ofs_convert_rs.Common.{
  ℕ, suc, ◌≡◌, refl, Bool, true, false, some, List, [], ◌∷◌, ◌++◌, arith, ok,
}
use ofs_convert_rs.Ext4.Inode.{DentryRepresentation}
use ofs_convert_rs.Fat.Dentry.{FatDentry, Text, is_dir, representation}
use ofs_convert_rs.Fat.FileIter.{FatFile}
use ofs_convert_rs.Serialization.Tree.{
  Item, file_types, directory, Nodes, node, none_left, next_node, Storage, Internals,
  serialize_directory_tree, deserialize_directory_tree,
}
use ofs_convert_rs.Serialization.Tree.Reading.{
  Tree, leaf, file, folder, top_count, items_of, visit, visit_root,
  deserialize_directory_tree-visit_root,
}
use ofs_convert_rs.Serialization.Tree.Walking.{moves_of, Run, Matches, serialize_directory_tree-Run}

abbrev pub text : Text
text = record {
  from_utf8 = λ bytes. some bytes;
  decode_utf16 = λ units. some units;
  timestamp = λ year month day hour minute second. some 0;
}

abbrev pub entry : ℕ → FatDentry
entry attrs = record {
  short_name = 0x41 ∷ [];
  short_extension = [];
  attrs = attrs;
  short_name_case = 0;
  create_time = 0;
  create_date = 0;
  access_date = 0;
  first_fat_index_hi = 0;
  mod_time = 0;
  mod_date = 0;
  first_fat_index_lo = 0;
  file_size = 0;
}

abbrev pub file_at : List ℕ → ℕ → FatFile
file_at name attrs = record { name = name; dentry = entry attrs; data_ranges = [] }

-- A directory `d` that holds the file `a`.
abbrev root : Nodes
root =
    next_node
      (node (file_at (0x64 ∷ []) 0x10)
        (next_node (node (file_at (0x61 ∷ []) 0x20) none_left) none_left))
      none_left

-- An archive that is the list of its items; a file's data is moved to one cluster.
abbrev log : Storage (List Item)
log = record {
  archive = λ item items. ok (items ++ item ∷ []);
  make_file_non_overlapping = λ f items. ok (record { start = 7; end = 8 } ∷ [], items);
}

abbrev attributes : Bool → DentryRepresentation
attributes flag = record {
  access_time = 0;
  create_time = 0;
  mod_time = 0;
  file_size = 0;
  is_dir = flag;
  is_read_only = false;
}

abbrev tree : Tree
tree =
    folder (attributes true) (0x64 ∷ [])
      (file (attributes false) (0x61 ∷ []) (record { start = 7; end = 8 } ∷ []) leaf) leaf

abbrev archive : List Item
archive = file_types (directory (top_count tree) ∷ []) ∷ items_of tree

archive-root : serialize_directory_tree log text root [] ≡ ok archive
unfolding serialize_directory_tree is_dir representation
archive-root = refl

serialize_directory_tree-Run_example :
    (t : Tree) × Matches text root t
    × Run
        (λ f. Unit)
        log
        archive
        []
        (file_types (directory (top_count t) ∷ []) ∷ items_of t)
        (moves_of root t)
serialize_directory_tree-Run_example =
    serialize_directory_tree-Run (λ f. Unit) log text root [] archive
      (λ x. tt, (λ x. tt, tt, tt), tt) archive-root

-- A deserializer that counts files and directories, and directories that are finished.
abbrev counting : Internals (ℕ × ℕ) ℕ
counting = record {
  build_root = λ s. ok (0, s);
  deserialize_directory = λ d n parent s. ok (0, suc parent, s);
  drop = λ writer s. ok (s.0, suc s.1);
  deserialize_regular_file = λ d n rs parent s. ok (suc parent, (suc s.0, s.1));
}

deserialize_directory_tree-visit_root_example :
    deserialize_directory_tree counting text 2 archive (0, 0) ≡ visit_root counting tree (0, 0)
deserialize_directory_tree-visit_root_example =
    deserialize_directory_tree-visit_root counting text 2 tree (0, 0) (omega arith)
      (refl, (refl, tt), tt)

visited : visit_root counting tree (0, 0) ≡ ok (1, 2)
unfolding visit_root visit
visited = refl
