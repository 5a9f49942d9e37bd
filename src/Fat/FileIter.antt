-- ===== src/Fat/FileIter.antt =====
-- src/fat/fs_iter.rs: the iterators over the entries and the files of a directory. What the pointers of
-- `FatFs` lead to is the table and, for each data cluster, its list of pseudo-dentries.
pub mod Entries
pub mod Walk
pub mod Files
pub mod Counts
use ofs_convert_rs.Common.{
  ℕ, zero, suc, ◌+◌, ◌-◌, Bool, true, false, not, Option, none, some, List, [], ◌∷◌, ◌++◌, ltb, leb,
  ◌==◌, if◌then◌else◌, length, get_elem?, Outcome, ok, panic, stuck, ◌>>=◌, ◌>>◌, assert, unwrap,
}
use ofs_convert_rs.Fat.BootSector.{BootSector, dentries_per_cluster}
use ofs_convert_rs.Fat.Table.{
  FatFs, data_cluster, RangeInclusive, next_fat_idx, to_data_cluster_idx, data_ranges,
}
use ofs_convert_rs.Fat.Dentry.{
  FatDentry, FatPseudoDentry, LongFileName, Text, is_dentry, as_dentry, as_long_file_name,
  is_dir_table_end, should_be_ignored, first_fat_index, read_short_file_name, to_utf8_string,
  sequence_no,
}

-- `FatFs` with the pseudo-dentries that each of its data clusters holds.
pub record FatData : Type 0 where
  pub fat_fs : FatFs
  pub dentries_in : ℕ → List FatPseudoDentry

-- `fat_idx` is what `FatIdxIter` keeps.
pub record FatPseudoDentryIter : Type 0 where
  pub fat_idx : ℕ
  pub current_cluster : Option (List FatPseudoDentry)
  pub current_dentry_idx : ℕ

pub record FatFile : Type 0 where
  pub name : List ℕ
  pub dentry : FatDentry
  pub data_ranges : List RangeInclusive

-- What `next` makes of an entry; `rest` is the next round of its loop.
abbrev pub next_round :
    Option FatPseudoDentry
    → FatPseudoDentryIter
    → Outcome (Option FatPseudoDentry × FatPseudoDentryIter)
    → Outcome (Option FatPseudoDentry × FatPseudoDentryIter)
next_round none it rest = ok (none, it)
next_round (some d) it rest =
    if should_be_ignored d then rest else ok (if is_dir_table_end d then none else some d, it)

module _ (fs : FatData) where
  -- The closure of `get_next_cluster`.
  unfoldable pub cluster_of : FatPseudoDentryIter → Option (ℕ × ℕ) → Outcome FatPseudoDentryIter
  unfolding to_data_cluster_idx data_cluster
  cluster_of it none = ok (record it { current_cluster = none })
  cluster_of it (some (fat_idx, next)) = to_data_cluster_idx fat_idx >>= λ data_cluster_idx.
      let dentries = fs.dentries_in data_cluster_idx in
      data_cluster fs.fat_fs data_cluster_idx
      >> (assert (length dentries == dentries_per_cluster fs.fat_fs.boot_sector)
          >> ok (record it { fat_idx = next; current_cluster = some dentries }))

  unfoldable pub get_next_cluster : FatPseudoDentryIter → Outcome FatPseudoDentryIter
  unfolding next_fat_idx cluster_of
  get_next_cluster it = next_fat_idx fs.fat_fs.fat_table it.fat_idx >>= cluster_of it

  -- `FatPseudoDentryIter::new`, with `from_cluster_iter`
  unfoldable pub new : ℕ → Outcome FatPseudoDentryIter
  unfolding get_next_cluster
  new start_fat_idx =
      get_next_cluster
        (record { fat_idx = start_fat_idx; current_cluster = none; current_dentry_idx = 0 })

  -- The end of `try_next`, at the cluster that is then the current one.
  unfoldable pub index :
      FatPseudoDentryIter
      → Option (List FatPseudoDentry)
      → Outcome (Option FatPseudoDentry × FatPseudoDentryIter)
  index it none = ok (none, it)
  index it (some cluster) = unwrap (get_elem? cluster it.current_dentry_idx) >>= λ dentry.
      ok (some dentry, record it { current_dentry_idx = suc it.current_dentry_idx })

  -- What `try_next` does behind its first `?`.
  unfoldable pub try_next_in :
      FatPseudoDentryIter
      → Option (List FatPseudoDentry)
      → Outcome (Option FatPseudoDentry × FatPseudoDentryIter)
  unfolding index get_next_cluster
  try_next_in it none = ok (none, it)
  try_next_in it (some cluster) =
      if leb (dentries_per_cluster fs.fat_fs.boot_sector) it.current_dentry_idx
      then (get_next_cluster it >>= λ it'.
          index (record it' { current_dentry_idx = 0 }) it'.current_cluster)
      else index it (some cluster)

  unfoldable pub try_next :
      FatPseudoDentryIter → Outcome (Option FatPseudoDentry × FatPseudoDentryIter)
  unfolding try_next_in
  try_next it = try_next_in it it.current_cluster

  -- The `while` loop of `next` with the call before it, then the `filter`.
  unfoldable pub next_loop :
      ℕ → FatPseudoDentryIter → Outcome (Option FatPseudoDentry × FatPseudoDentryIter)
  unfolding try_next
  next_loop zero it = stuck
  next_loop (suc fuel) it =
      try_next it >>= λ (dentry, it'). next_round dentry it' (next_loop fuel it')

-- From here on, an iterator over pseudo-dentries is the list of those that it still yields. First the
-- loop of `read_long_file_name`.
unfoldable pub read_components :
    Text → ℕ → List FatPseudoDentry → Outcome (List (List ℕ) × List FatPseudoDentry)
unfolding to_utf8_string as_long_file_name
read_components text zero ps = ok ([], ps)
read_components text (suc n) [] = panic
read_components text (suc n) (p ∷ ps) = unwrap (as_long_file_name p) >>= λ long_file_name.
    to_utf8_string text long_file_name >>= λ component.
    read_components text n ps >>= λ (components, rest). ok (component ∷ components, rest)

-- `join` of the components in reverse order.
abbrev pub join_reversed : List (List ℕ) → List ℕ
join_reversed [] = []
join_reversed (component ∷ components) = join_reversed components ++ component

-- A `u8` minus one, which wraps.
abbrev pub pred8 : ℕ → ℕ
pred8 zero = 255
pred8 (suc n) = n

-- The name and the entry of the next file, and what is left of the iterator.
abbrev pub Named : Type 0
Named = Option (List ℕ × FatDentry) × List FatPseudoDentry

module _ (text : Text) where
  unfoldable pub read_long_file_name :
      List FatPseudoDentry → Outcome (List ℕ × List FatPseudoDentry)
  unfolding read_components
  read_long_file_name [] = panic
  read_long_file_name (p ∷ ps) = unwrap (as_long_file_name p) >>= λ first_entry.
      to_utf8_string text first_entry >>= λ component.
      read_components text (pred8 (sequence_no first_entry)) ps >>= λ (components, rest).
      ok (join_reversed (component ∷ components), rest)

  -- The dentry behind a long name.
  unfoldable pub dentry_behind : List ℕ × List FatPseudoDentry → Outcome Named
  dentry_behind (name, []) = ok (none, [])
  dentry_behind (name, p ∷ ps) = unwrap (as_dentry p) >>= λ dentry. ok (some (name, dentry), ps)

  -- The first part of `FatFileIter::next`, at the peeked entry as a dentry, if it is one.
  unfoldable pub named_at :
      FatPseudoDentry → List FatPseudoDentry → Option FatDentry → Outcome Named
  unfolding read_long_file_name dentry_behind read_short_file_name
  named_at p ps (some dentry) =
      read_short_file_name text dentry >>= λ name. ok (some (name, dentry), ps)
  named_at p ps none = read_long_file_name (p ∷ ps) >>= dentry_behind

  unfoldable pub next_named : List FatPseudoDentry → Outcome Named
  unfolding named_at
  next_named [] = ok (none, [])
  next_named (p ∷ ps) = named_at p ps (as_dentry p)

  -- `FatFileIter::next`; the chain of a file has at most as many links as the fuel.
  unfoldable pub next_file :
      FatData → ℕ → List FatPseudoDentry → Outcome (Option FatFile × List FatPseudoDentry)
  unfolding next_named
  next_file fs fuel ps = next_named ps >>= λ (named, rest). elim named [
    | none ↦ ok (none, rest)
    | some (name, dentry) ↦
        data_ranges fuel fs.fat_fs.fat_table (first_fat_index dentry) >>= λ ranges.
        ok (some (record { name = name; dentry = dentry; data_ranges = ranges }), rest)
  ]

-- `FatFileIter::count`
unfoldable pub count : List FatPseudoDentry → ℕ
count [] = 0
count (p ∷ ps) = if is_dentry p then suc (count ps) else count ps
