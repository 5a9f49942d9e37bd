-- ===== src/Fat/BootSector.antt =====
-- src/fat/boot_sector.rs. Of the fields of `BootSector` those are kept that the program reads.
pub mod Label
use ofs_convert_rs.Common.{
  ℕ, zero, suc, ◌+◌, ◌*◌, ◌/◌, ◌<◌, Bool, true, false, not, List, [], ◌∷◌, ◌==◌, leb, if◌then◌else◌,
  length, take, Outcome, ok, err, ensure, ◌>>◌, bad_boot_signature, bad_fs_type, add32, mul32,
  add64, mul64, divide, divide-lem, ◌≡◌, arith,
}
use ofs_convert_rs.Ranges.{Range}

pub record BootSector : Type 0 where
  pub bytes_per_sector : ℕ
  pub sectors_per_cluster : ℕ
  pub sectors_before_fat : ℕ
  pub fat_count : ℕ
  pub sector_count_1 : ℕ
  pub sector_count_2 : ℕ
  pub sectors_per_fat : ℕ
  pub root_cluster_no : ℕ
  pub ext_boot_signature : ℕ
  pub volume_label : List ℕ
  pub fs_type : List ℕ

abbrev pub bytes_equal : List ℕ → List ℕ → Bool
bytes_equal [] [] = true
bytes_equal (x ∷ xs) (y ∷ ys) = if x == y then bytes_equal xs ys else false
bytes_equal _ _ = false

-- "FAT32   "
abbrev pub fs_type_fat32 : List ℕ
fs_type_fat32 = 0x46 ∷ 0x41 ∷ 0x54 ∷ 0x33 ∷ 0x32 ∷ 0x20 ∷ 0x20 ∷ 0x20 ∷ []

abbrev pub ext_boot_signature_fat32 : ℕ
ext_boot_signature_fat32 = 0x29

pub validate : BootSector → Outcome BootSector
validate b =
    ensure (b.ext_boot_signature == ext_boot_signature_fat32) bad_boot_signature
    >> (ensure (bytes_equal b.fs_type fs_type_fat32) bad_fs_type >> ok b)

unfoldable pub first_data_sector : BootSector → ℕ
first_data_sector b = add32 b.sectors_before_fat (mul32 b.sectors_per_fat b.fat_count)

unfoldable pub sector_count : BootSector → ℕ
sector_count b = if b.sector_count_1 == 0 then b.sector_count_2 else b.sector_count_1

unfoldable pub cluster_size : BootSector → ℕ
cluster_size b = mul32 b.sectors_per_cluster b.bytes_per_sector

unfoldable pub fs_size : BootSector → ℕ
unfolding sector_count
fs_size b = mul64 b.bytes_per_sector (sector_count b)

sectors-of : (m n : ℕ) → 0 < mul32 m n → 0 < m
sectors-of zero n h = absurd (omega arith)
sectors-of (suc m) n h = omega arith

-- Half-open ranges of bytes, relative to the start of the file system.
unfoldable pub get_fat_table_range : BootSector → Range
get_fat_table_range b =
    let start = mul64 b.sectors_before_fat b.bytes_per_sector in
    record { start = start; end = add64 start (mul64 b.sectors_per_fat b.bytes_per_sector) }

unfoldable pub get_data_range : BootSector → Range
unfolding first_data_sector fs_size
get_data_range b = record {
  start = mul64 (first_data_sector b) b.bytes_per_sector;
  end = fs_size b;
}

unfoldable pub first_data_cluster : BootSector → Outcome ℕ
unfolding first_data_sector
first_data_cluster b = divide (first_data_sector b) b.sectors_per_cluster

unfoldable pub cluster_count : BootSector → Outcome ℕ
unfolding sector_count
cluster_count b = divide (sector_count b) b.sectors_per_cluster

-- The first data cluster of a file system whose clusters have sectors.
unfoldable pub first_cluster : BootSector → ℕ
unfolding first_data_sector
first_cluster b = first_data_sector b / b.sectors_per_cluster

pub first_data_cluster-lem :
    (b : BootSector) → 0 < b.sectors_per_cluster → first_data_cluster b ≡ ok (first_cluster b)
unfolding first_data_cluster first_cluster
first_data_cluster-lem b h = divide-lem (first_data_sector b) b.sectors_per_cluster h

-- Clusters that are not empty have sectors.
pub sectors-positive : (b : BootSector) → 0 < cluster_size b → 0 < b.sectors_per_cluster
unfolding cluster_size
sectors-positive b h = sectors-of b.sectors_per_cluster b.bytes_per_sector h

-- A directory entry has 32 bytes.
unfoldable pub dentries_per_cluster : BootSector → ℕ
unfolding cluster_size
dentries_per_cluster b = cluster_size b / 32

-- The greatest index of a character that is not a blank, from `idx` on; `last` if there is none.
pub last_character_idx : ℕ → ℕ → List ℕ → ℕ
last_character_idx last idx [] = last
last_character_idx last idx (c ∷ cs) =
    last_character_idx (if c == 0x20 then last else idx) (suc idx) cs

unfoldable pub volume_label : BootSector → List ℕ
unfolding last_character_idx
volume_label b =
    if b.ext_boot_signature == 0x28
    then []
    else take (last_character_idx 0 0 b.volume_label) b.volume_label
