-- ===== src/Fat/Table.antt =====
-- src/fat/table_index.rs, and of src/fat/fs.rs and src/fat/fs_iter.rs what walks the FAT: the table is
-- the list of its cells.
pub mod Chain
pub mod Used
use ofs_convert_rs.Common.{
  ℕ, zero, suc, ◌+◌, ◌-◌, ◌*◌, ◌/◌, ◌%◌, ◌^◌, ◌<◌, Bool, true, false, not, ◌&&◌, ◌||◌, List, [],
  ◌∷◌, Option, none, some, ltb, leb, ◌==◌, if◌then◌else◌, get_elem?, drop, Outcome, ok, panic,
  stuck, ◌>>=◌, ◌>>◌, assert, unwrap, u32_size, add32, divide, add64, mul64, u64_size, le→leb, ◌≡◌,
  ◌≤◌, refl, arith,
}
use ofs_convert_rs.Ranges.{Range, Ranges, insert}
use ofs_convert_rs.Fat.BootSector.{BootSector, get_data_range, cluster_size, first_data_cluster}

abbrev pub root_fat_idx : ℕ
root_fat_idx = 2

unfoldable pub is_chain_end : ℕ → Bool
is_chain_end idx = leb 0x0FFFFFF8 idx

unfoldable pub is_zero_length_file : ℕ → Bool
is_zero_length_file idx = idx == 0

-- `& CLUSTER_ENTRY_MASK` keeps the low 28 bits.
unfoldable pub is_free : ℕ → Bool
is_free idx = idx % 2 ^ 28 == 0

unfoldable pub to_data_cluster_idx : ℕ → Outcome ℕ
unfolding is_chain_end is_zero_length_file is_free
to_data_cluster_idx idx =
    assert (not (is_chain_end idx) && (not (is_zero_length_file idx) && not (is_free idx)))
    >> (if leb root_fat_idx idx then ok (idx - root_fat_idx) else panic)

-- `expect` panics where the start does not fit `u32`.
unfoldable pub to_cluster_idx : BootSector → ℕ → Outcome ℕ
unfolding to_data_cluster_idx
to_cluster_idx b idx = divide (get_data_range b).start (cluster_size b) >>= λ data_start.
    assert (ltb data_start u32_size) >> (to_data_cluster_idx idx >>= λ n. ok (add32 data_start n))

unfoldable pub to_fat_index : ℕ → ℕ
to_fat_index data_cluster_idx = add32 data_cluster_idx root_fat_idx

-- `FatFs::is_used`; an index behind the table panics.
unfoldable pub is_used : List ℕ → ℕ → Outcome Bool
unfolding to_fat_index is_free
is_used table data_cluster_idx =
    unwrap (get_elem? table (to_fat_index data_cluster_idx)) >>= λ cell. ok (not (is_free cell))

-- `FatFs::cluster_from_data_cluster`
unfoldable pub cluster_from_data_cluster : BootSector → ℕ → Outcome ℕ
cluster_from_data_cluster b data_cluster_idx =
    first_data_cluster b >>= λ first. ok (add32 data_cluster_idx first)

-- `FatFs`, less the pointer to the data: the clusters are in the partition's memory.
pub record FatFs : Type 0 where
  pub boot_sector : BootSector
  pub fat_table : List ℕ
  pub data_len : ℕ

-- `FatFs::data_cluster`, less what it returns.
unfoldable pub data_cluster : FatFs → ℕ → Outcome (Unit {0})
unfolding is_used
data_cluster fs data_cluster_idx = is_used fs.fat_table data_cluster_idx >>= λ used.
    assert used
    >> assert (
        leb
          (add64 (mul64 data_cluster_idx (cluster_size fs.boot_sector))
            (cluster_size fs.boot_sector))
          fs.data_len)

-- A data cluster that is in use and lies in the data section.
pub record IsReadable (fs : FatFs) (i : ℕ) : Type 0 where
  pub small : i + 2 < u32_size
  pub cell : (cell : ℕ) × (get_elem? fs.fat_table (i + 2) ≡ some cell) × (is_free cell ≡ false)
  pub inside : i * cluster_size fs.boot_sector + cluster_size fs.boot_sector ≤ fs.data_len
  pub addressed : fs.data_len < u64_size

pub data_cluster-lem : (fs : FatFs) (i : ℕ) → IsReadable fs i → data_cluster fs i ≡ ok tt
unfolding data_cluster to_fat_index
data_cluster-lem fs i r =
    let (cell, e, f) = r.cell in
    let at : add32 i 2 ≡ i + 2 = omega (arith, r.small) in
    let size : ℕ = cluster_size fs.boot_sector in
    let fits : add64 (mul64 i size) size ≤ fs.data_len = omega (arith, r.inside, r.addressed) in
    rw (at, e, f, le→leb (add64 (mul64 i size) size) fs.data_len fits) refl

-- `RangeInclusive<DataClusterIdx>`
pub record RangeInclusive : Type 0 where
  pub first : ℕ
  pub last : ℕ

-- `FatIdxIter::next`: `none` at the end of the chain, else the current index and the one that its cell
-- holds.
unfoldable pub next_fat_idx : List ℕ → ℕ → Outcome (Option (ℕ × ℕ))
unfolding is_chain_end is_zero_length_file
next_fat_idx table current =
    if is_chain_end current || is_zero_length_file current
    then ok none
    else unwrap (get_elem? table current) >>= λ cell. ok (some (current, cell))

-- `DataClusterIdx::steps_between`, tested for `Some(1)`
abbrev pub is_next : ℕ → ℕ → Bool
is_next a b = leb a b && b - a == 1

-- The `for` loop of `data_ranges`: the iterator stands at `current`, and `first`, `last` are the
-- current range. A chain that runs in a circle uses up the fuel.
unfoldable pub data_ranges_loop : ℕ → List ℕ → ℕ → ℕ → ℕ → Outcome (List RangeInclusive)
unfolding next_fat_idx to_data_cluster_idx
data_ranges_loop zero table first last current = stuck
data_ranges_loop (suc fuel) table first last current = next_fat_idx table current >>= elim [
  | none ↦ ok (record { first = first; last = last } ∷ [])
  | some (fat_idx, current') ↦ to_data_cluster_idx fat_idx >>= λ n. elim (is_next last n) [
    | true ↦ data_ranges_loop fuel table first n current'
    | false ↦ data_ranges_loop fuel table n n current' >>= λ rest.
        ok (record { first = first; last = last } ∷ rest)
  ]
]

-- `FatFs::data_ranges`. `skip(1)` takes the first index off the iterator.
unfoldable pub data_ranges : ℕ → List ℕ → ℕ → Outcome (List RangeInclusive)
data_ranges fuel table first_fat_idx =
    if is_zero_length_file first_fat_idx
    then ok []
    else to_data_cluster_idx first_fat_idx >>= λ n. next_fat_idx table first_fat_idx >>= elim [
      | none ↦ ok (record { first = n; last = n } ∷ [])
      | some (_, current) ↦ data_ranges_loop fuel table n n current
    ]

-- The `for` loop of `used_ranges` over the cells from the index `fat_idx` on.
unfoldable pub used_loop : BootSector → List ℕ → ℕ → Ranges → Outcome Ranges
unfolding is_free to_cluster_idx
used_loop b [] fat_idx ranges = ok ranges
used_loop b (cell ∷ cells) fat_idx ranges = elim (is_free cell) [
  | true ↦ used_loop b cells (suc fat_idx) ranges
  | false ↦ to_cluster_idx b fat_idx >>= λ start.
      insert ranges (record { start = start; end = add32 start 1 }) >>= λ ranges'.
      used_loop b cells (suc fat_idx) ranges'
]

-- `FatFs::used_ranges`
unfoldable pub used_ranges : BootSector → List ℕ → Outcome Ranges
unfolding used_loop
used_ranges b table = first_data_cluster b >>= λ first.
    insert [] (record { start = 0; end = first }) >>= λ ranges.
    used_loop b (drop root_fat_idx table) root_fat_idx ranges
