-- ===== src/Examples/Serializer.antt =====
-- A file moved out of a forbidden cluster, and an archive over several pages read back.
use ofs_convert_rs.Common.{
  inl, inr, subst, sym, replicate, ℕ, zero, suc, ◌+◌, ◌≤◌, ◌<◌, ◌≡◌, ◌≢◌, refl, true, Option, none,
  some, List, [], ◌∷◌, length, arith, ok, err, ◌⊎◌, no_free_clusters,
}
use ofs_convert_rs.Ranges.{Range, Ranges, next_not_covered}
use ofs_convert_rs.Ranges.Cover.{covers}
use ofs_convert_rs.Allocator.{allocate_one, cluster_start_byte}
use ofs_convert_rs.Allocator.Valid.{IsValid}
use ofs_convert_rs.Fat.BootSector.{BootSector, first_cluster, cluster_size, fs_type_fat32}
use ofs_convert_rs.Fat.Table.{RangeInclusive, FatFs, IsReadable, is_free}
use ofs_convert_rs.Memory.{update, update_ne}
use ofs_convert_rs.Serialization.FatSerializer.{Copying, make_file_non_overlapping}
use ofs_convert_rs.Serialization.FatSerializer.Moves.{MovesAll, Serves, is_settled}
use ofs_convert_rs.Serialization.FatSerializer.DataRanges.{
  clusters_of, make_file_non_overlapping-MovesAll,
}
use ofs_convert_rs.Serialization.StreamArchiver.{Header, Compiler, StreamArchiver, new, archive}
use ofs_convert_rs.Serialization.StreamArchiver.Reader.{Reader, into_reader}
use ofs_convert_rs.Serialization.StreamArchiver.Linking.{IsLayout}
use ofs_convert_rs.Serialization.StreamArchiver.Elsewhere.{Elsewhere, share}
use ofs_convert_rs.Serialization.StreamArchiver.Runs.{Batch, finished, archived, meanwhile}
use ofs_convert_rs.Serialization.StreamArchiver.RoundTrip.{ReadsBack, into_reader-ReadsBack}

abbrev pub tiny : BootSector
tiny = record {
  bytes_per_sector = 8;
  sectors_per_cluster = 1;
  sectors_before_fat = 1;
  fat_count = 1;
  sector_count_1 = 0;
  sector_count_2 = 10;
  sectors_per_fat = 1;
  root_cluster_no = 2;
  ext_boot_signature = 0x29;
  volume_label = [];
  fs_type = fs_type_fat32;
}

abbrev pub tiny_fs : FatFs
tiny_fs = record {
  boot_sector = tiny;
  fat_table = 0 ∷ 0 ∷ 0x0FFFFFFF ∷ 4 ∷ 5 ∷ 0x0FFFFFFF ∷ [];
  data_len = 64;
}

abbrev pub shared : Copying
shared = record {
  allocator = record {
    valid_cluster_indices = record { start = 0; end = 12 };
    cursor = 0;
    used_ranges = record { start = 0; end = 6 } ∷ [];
    cluster_size = 8;
  };
  memory = λ i. replicate 8 i;
}

shared-inside : (x : ℕ) → covers shared.allocator.used_ranges x ≡ true → x < 12
shared-inside x h = ground arith

pub shared-IsValid : IsValid shared.allocator
shared-IsValid = record {
  normal = (omega arith, tt);
  inside = shared-inside;
  started = omega arith;
  not_past = omega arith;
  fits = omega arith;
}

abbrev file : List RangeInclusive
file = record { first = 1; last = 3 } ∷ []

abbrev pub forbidden : Ranges
forbidden = record { start = 4; end = 5 } ∷ []

pub file-used :
    (i : ℕ) → 1 ≤ i → i ≤ 3 → covers shared.allocator.used_ranges (first_cluster tiny + i) ≡ true
unfolding first_cluster
file-used i h k = ground arith

cell_of : (i : ℕ) → 1 ≤ i → i ≤ 3 → (i ≡ 1) ⊎ ((i ≡ 2) ⊎ (i ≡ 3))
cell_of i h k = ground arith

one-IsReadable : IsReadable tiny_fs 1
unfolding is_free cluster_size
one-IsReadable = record {
  small = omega arith;
  cell = (4, refl, refl);
  inside = omega arith;
  addressed = omega arith;
}

two-IsReadable : IsReadable tiny_fs 2
unfolding is_free cluster_size
two-IsReadable = record {
  small = omega arith;
  cell = (5, refl, refl);
  inside = omega arith;
  addressed = omega arith;
}

three-IsReadable : IsReadable tiny_fs 3
unfolding is_free cluster_size
three-IsReadable = record {
  small = omega arith;
  cell = (0x0FFFFFFF, refl, refl);
  inside = omega arith;
  addressed = omega arith;
}

pub file-IsReadable : (i : ℕ) → 1 ≤ i → i ≤ 3 → IsReadable tiny_fs i
file-IsReadable i h k = elim (cell_of i h k) [
  | inl e ↦ subst (IsReadable tiny_fs) (sym e) one-IsReadable
  | inr (inl e) ↦ subst (IsReadable tiny_fs) (sym e) two-IsReadable
  | inr (inr e) ↦ subst (IsReadable tiny_fs) (sym e) three-IsReadable
]

tiny_fs-Serves : Serves tiny_fs shared.allocator
unfolding cluster_size
tiny_fs-Serves = record { sectors = omega arith; same_size = refl; addressed = omega arith }

pub forbidden-used :
    (x : ℕ) → covers forbidden x ≡ true → covers shared.allocator.used_ranges x ≡ true
forbidden-used x h = ground arith

make_file_non_overlapping-MovesAll_example :
    ((xs : List Range) × (s' : Copying) × (make_file_non_overlapping tiny_fs forbidden file shared
        ≡ ok (xs, s'))
      × MovesAll forbidden shared s' (clusters_of tiny_fs file) xs)
    ⊎ (make_file_non_overlapping tiny_fs forbidden file shared ≡ err no_free_clusters)
make_file_non_overlapping-MovesAll_example =
    make_file_non_overlapping-MovesAll tiny_fs forbidden file shared (omega arith, tt)
      shared-IsValid tiny_fs-Serves (omega arith, file-used, file-IsReadable, tt) forbidden-used

abbrev pub option_bytes : Option ℕ → List ℕ
option_bytes none = 0 ∷ 0 ∷ []
option_bytes (some i) = 1 ∷ i ∷ []

abbrev pub option_of : List ℕ → Option ℕ
option_of (suc tag ∷ i ∷ rest) = some i
option_of (suc tag ∷ []) = none
option_of (zero ∷ rest) = none
option_of [] = none

abbrev pub header_of : List ℕ → Header
header_of (len ∷ type_id ∷ rest) = record { len = len; type_id = type_id }
header_of (len ∷ []) = record { len = 0; type_id = 0 }
header_of [] = record { len = 0; type_id = 0 }

abbrev pub compiler : Compiler
compiler = record {
  option_size = 2;
  option_bytes = option_bytes;
  option_of = option_of;
  header_size = 2;
  header_bytes = λ h. h.len ∷ h.type_id ∷ [];
  header_of = header_of;
  end_type = 7;
  unit_type = 8;
}

option_length : (o : Option ℕ) → length (option_bytes o) ≡ 2
option_length none = refl
option_length (some i) = refl

option_inverse : (o : Option ℕ) → option_of (option_bytes o) ≡ o
option_inverse none = refl
option_inverse (some i) = refl

pub compiler-IsLayout : IsLayout compiler
compiler-IsLayout = record {
  option_length = option_length;
  option_inverse = option_inverse;
  header_length = λ h. refl;
  header_inverse = λ h. refl;
}

abbrev triples : Batch
triples = record {
  type = record { type_id = 3; size = 3 };
  objects = (1 ∷ 2 ∷ 3 ∷ []) ∷ (4 ∷ 5 ∷ 6 ∷ []) ∷ [];
}

abbrev bytes : Batch
bytes = record { type = record { type_id = 1; size = 1 }; objects = (9 ∷ []) ∷ [] }

abbrev archiver : StreamArchiver
archiver = record {
  head = none;
  previous_page_idx = none;
  current_page = 0 ∷ 0 ∷ 0 ∷ 0 ∷ 0 ∷ 0 ∷ 0 ∷ 0 ∷ [];
  page_size = 8;
  position_in_current_page = 2;
  shared = shared;
}

archiver-new : new compiler shared 8 ≡ ok archiver
unfolding new
archiver-new = refl

-- After the first batch: the first page is in the cluster 6, the second triple in the page after it.
abbrev archiver_1 : StreamArchiver
archiver_1 = record {
  head = some 6;
  previous_page_idx = some 6;
  current_page = 0 ∷ 0 ∷ 4 ∷ 5 ∷ 6 ∷ 0 ∷ 0 ∷ 0 ∷ [];
  page_size = 8;
  position_in_current_page = 5;
  shared = record {
    allocator = record shared.allocator { cursor = 7 };
    memory = update shared.memory 6 (0 ∷ 0 ∷ 2 ∷ 3 ∷ 1 ∷ 2 ∷ 3 ∷ 0 ∷ []);
  };
}

archive-triples : archive compiler triples.type triples.objects archiver ≡ ok archiver_1
unfolding archive allocate_one next_not_covered cluster_start_byte
archive-triples = refl

-- Somebody else takes the cluster 7.
abbrev shared_2 : Copying
shared_2 = record {
  allocator = record shared.allocator { cursor = 8 };
  memory = update archiver_1.shared.memory 7 (5 ∷ []);
}

shared_2-kept : (x : ℕ) → is_settled archiver_1.shared.allocator x ≡ true → 7 ≢ x
shared_2-kept x h = ground arith

shared_2-Elsewhere : Elsewhere archiver_1.shared shared_2
shared_2-Elsewhere = record {
  valid = record {
    normal = (omega arith, tt);
    inside = shared-inside;
    started = omega arith;
    not_past = omega arith;
    fits = omega arith;
  };
  moved = refl;
  risen = omega arith;
  frame = λ x h. update_ne archiver_1.shared.memory 7 x (5 ∷ []) (shared_2-kept x h);
}

abbrev archiver_2 : StreamArchiver
archiver_2 = record (share archiver_1 shared_2) {
  current_page = 0 ∷ 0 ∷ 4 ∷ 5 ∷ 6 ∷ 1 ∷ 1 ∷ 9 ∷ [];
  position_in_current_page = 8;
}

archive-bytes :
    archive compiler bytes.type bytes.objects (share archiver_1 shared_2) ≡ ok archiver_2
unfolding archive
archive-bytes = refl

into_reader-ReadsBack_example :
    ((r : Reader) × (s' : Copying) × (into_reader compiler archiver_2 ≡ ok (r, s'))
      × IsValid s'.allocator
      × ReadsBack compiler (triples ∷ bytes ∷ []) r s')
    ⊎ (into_reader compiler archiver_2 ≡ err no_free_clusters)
into_reader-ReadsBack_example =
    into_reader-ReadsBack compiler shared 8 (triples ∷ bytes ∷ []) archiver archiver_2
      compiler-IsLayout shared-IsValid refl (omega arith) (omega arith)
      ((omega arith, (refl, (refl, tt))), ((omega arith, (refl, tt)), tt)) archiver-new
      (archived triples archive-triples
        (meanwhile shared_2 shared_2-Elsewhere (archived bytes archive-bytes finished)))
