-- ===== src/Examples/Entries.antt =====
-- A directory of two clusters, its files and their names.
use ofs_convert_rs.Common.{
  ℕ, zero, suc, ◌<◌, ◌≡◌, refl, ap, true, some, List, [], ◌∷◌, ◌++◌, length, replicate, arith, ok,
  ◌>>=◌,
}
use ofs_convert_rs.Fat.BootSector.{BootSector, dentries_per_cluster, fs_type_fat32, cluster_size}
use ofs_convert_rs.Fat.Table.Chain.{Chain, stop, link}
use ofs_convert_rs.Fat.Dentry.{
  FatPseudoDentry, Text, is_dentry, dentry, should_be_ignored, is_dir_table_end, is_long_file_name,
  long_file_name, to_utf8_string, sequence_no, read_short_file_name, has_file_extension,
  has_lowercase_name, has_lowercase_extension,
}
use ofs_convert_rs.Fat.Dentry.Names.{cased, read_short_file_name-padded}
use mathlib.Core.List.{reverse, flatten}
use ofs_convert_rs.Fat.Table.{IsReadable, is_free}
use ofs_convert_rs.Fat.FileIter.{FatData, new, count}
use ofs_convert_rs.Fat.FileIter.Entries.{entries, all_entries, valid_entries}
use ofs_convert_rs.Fat.FileIter.Walk.{all_entries-valid_entries}
use ofs_convert_rs.Fat.FileIter.Files.{Lists, empty, short, long, all_named, all_named-Lists}
use ofs_convert_rs.Fat.FileIter.Counts.{length-all_named}

-- Clusters of 64 bytes, which hold two entries.
abbrev small : BootSector
small = record {
  bytes_per_sector = 64;
  sectors_per_cluster = 1;
  sectors_before_fat = 1;
  fat_count = 1;
  sector_count_1 = 0;
  sector_count_2 = 10;
  sectors_per_fat = 1;
  root_cluster_no = 2;
  ext_boot_signature = 0x29;
  volume_label = [];
  fs_type = fs_type_fat32;
}

-- The short entry of `MAIN.C`, one that was removed, one for the directory itself, and a mark of the end.
abbrev main_c : FatPseudoDentry
main_c =
    0x4D
    ∷ 0x41
    ∷ 0x49
    ∷ 0x4E
    ∷ 0x20
    ∷ 0x20
    ∷ 0x20
    ∷ 0x20
    ∷ 0x43
    ∷ 0x20
    ∷ 0x20
    ∷ 0x20
    ∷ replicate 20 0

abbrev removed : FatPseudoDentry
removed = 0xE5 ∷ replicate 31 0

abbrev dot : FatPseudoDentry
dot = 0x2E ∷ replicate 10 0x20 ++ 0x10 ∷ replicate 20 0

abbrev end_mark : FatPseudoDentry
end_mark = replicate 32 0

-- The entry of a long name of one part, `a`.
abbrev long_a : FatPseudoDentry
long_a = 0x41 ∷ 0x61 ∷ replicate 9 0 ++ 0x0F ∷ replicate 20 0

abbrev cluster_at : ℕ → List FatPseudoDentry
cluster_at zero = dot ∷ removed ∷ []
cluster_at (suc n) = main_c ∷ end_mark ∷ []

abbrev fs : FatData
fs = record {
  fat_fs = record { boot_sector = small; fat_table = 0 ∷ 0 ∷ 3 ∷ 0x0FFFFFFF ∷ []; data_len = 4096 };
  dentries_in = cluster_at;
}

fs-chain : Chain fs.fat_fs.fat_table 2 (2 ∷ 3 ∷ [])
fs-chain =
    link (omega arith, omega arith) refl (link (omega arith, omega arith) refl (stop (omega arith)))

fs-per_cluster : dentries_per_cluster small ≡ 2
unfolding dentries_per_cluster
fs-per_cluster = refl

fs-entries : length (entries fs (2 ∷ 3 ∷ [])) < 5
unfolding entries
fs-entries = omega arith

fs-IsReadable : (i : ℕ) → i < 2 → IsReadable fs.fat_fs i
unfolding is_free cluster_size
fs-IsReadable zero h = record {
  small = omega arith;
  cell = (3, refl, refl);
  inside = omega arith;
  addressed = omega arith;
}
fs-IsReadable (suc zero) h = record {
  small = omega arith;
  cell = (0x0FFFFFFF, refl, refl);
  inside = omega arith;
  addressed = omega arith;
}
fs-IsReadable (suc (suc i)) h = absurd (omega arith)

all_entries-valid_entries_example :
    (new fs 2 >>= all_entries fs 5 5) ≡ ok (valid_entries (entries fs (2 ∷ 3 ∷ [])))
all_entries-valid_entries_example =
    all_entries-valid_entries fs 5 2 (2 ∷ 3 ∷ []) (omega (arith, fs-per_cluster)) fs-chain
      (
        (fs-IsReadable 0 (omega arith), omega (arith, fs-per_cluster)),
        ((fs-IsReadable 1 (omega arith), omega (arith, fs-per_cluster)), tt),
      )
      fs-entries

valid : valid_entries (entries fs (2 ∷ 3 ∷ [])) ≡ main_c ∷ []
unfolding valid_entries entries should_be_ignored is_dentry dentry is_dir_table_end
valid = refl

-- Names of ASCII characters, and a calendar that knows one day.
abbrev text : Text
text = record {
  from_utf8 = λ bytes. some bytes;
  decode_utf16 = λ units. some units;
  timestamp = λ year month day hour minute second. some 0;
}

main_c-flags :
    (is_dentry main_c ≡ true)
    × (has_file_extension (dentry main_c) ≡ true)
    × ((dentry main_c).short_name ≡ (0x4D ∷ 0x41 ∷ 0x49 ∷ []) ++ 0x4E ∷ replicate 4 0x20)
    × ((dentry main_c).short_extension ≡ 0x43 ∷ 0x20 ∷ 0x20 ∷ [])
unfolding is_dentry has_file_extension dentry
main_c-flags = (refl, refl, refl, refl)

read_short_file_name-padded_example :
    read_short_file_name text (dentry main_c)
    ≡ ok (
        cased (has_lowercase_name (dentry main_c)) ((0x4D ∷ 0x41 ∷ 0x49 ∷ []) ++ 0x4E ∷ [])
        ++ 0x2E ∷ cased (has_lowercase_extension (dentry main_c)) (0x43 ∷ 0x20 ∷ 0x20 ∷ []))
read_short_file_name-padded_example =
    read_short_file_name-padded text (dentry main_c) (0x4D ∷ 0x41 ∷ 0x49 ∷ [])
      (0x43 ∷ 0x20 ∷ 0x20 ∷ []) 0x4E 4 refl (ap some main_c-flags.2) (ap some main_c-flags.3)
      main_c-flags.1

abbrev main_name : List ℕ
main_name = 0x4D ∷ 0x41 ∷ 0x49 ∷ 0x4E ∷ 0x2E ∷ 0x43 ∷ 0x20 ∷ 0x20 ∷ []

main_c-name : read_short_file_name text (dentry main_c) ≡ ok main_name
unfolding read_short_file_name dentry
main_c-name = refl

long_a-part :
    (is_long_file_name long_a ≡ true)
    × (to_utf8_string text (long_file_name long_a) ≡ ok (0x61 ∷ []))
    × (sequence_no (long_file_name long_a) ≡ 1)
unfolding is_long_file_name to_utf8_string sequence_no
long_a-part = (refl, refl, refl)

-- A file under its short name, then one under a long name.
two_files :
    Lists text
      (main_c ∷ long_a ∷ main_c ∷ [])
      ((main_name, dentry main_c) ∷ (flatten (reverse ((0x61 ∷ []) ∷ [])), dentry main_c) ∷ [])
two_files = short main_c main_name main_c-flags.0 main_c-name (
    long long_a [] (0x61 ∷ []) [] main_c (long_a-part.0, long_a-part.1, tt) long_a-part.2
      main_c-flags.0 empty)

all_named-Lists_example :
    all_named text 3 (main_c ∷ long_a ∷ main_c ∷ [])
    ≡ ok ((main_name, dentry main_c) ∷ (flatten (reverse ((0x61 ∷ []) ∷ [])), dentry main_c) ∷ [])
all_named-Lists_example = all_named-Lists text 3 (omega arith) two_files

length-all_named_example : 2 ≡ count (main_c ∷ long_a ∷ main_c ∷ [])
length-all_named_example =
    length-all_named text 3 (main_c ∷ long_a ∷ main_c ∷ [])
      ((main_name, dentry main_c) ∷ (flatten (reverse ((0x61 ∷ []) ∷ [])), dentry main_c) ∷ [])
      (all_named-Lists text 3 (omega arith) two_files)
