-- ===== src/Serialization/FatSerializer.antt =====
-- src/serialization/fat_serializer.rs: moving a file's data out of the clusters that the ext4 metadata
-- will take. `data_clusters` is the iterator over the rest of a range of data clusters, `start..end`.
pub mod Moves
pub mod Copies
pub mod NonOverlapping
pub mod DataRanges
use ofs_convert_rs.Common.{
  ℕ, zero, suc, ◌+◌, ◌-◌, Bool, true, false, List, [], ◌∷◌, ◌++◌, ltb, leb, if◌then◌else◌, Outcome,
  ok, stuck, unwrap, ◌==◌, ◌>>=◌, ◌>>◌, assert, add32,
}
use ofs_convert_rs.Ranges.{Range, Ranges, len, split_overlapping}
use ofs_convert_rs.Allocator.{Allocator, allocate, cluster_start_byte}
use ofs_convert_rs.Fat.BootSector.{first_cluster, cluster_size}
use ofs_convert_rs.Fat.Table.{FatFs, data_cluster, RangeInclusive, cluster_from_data_cluster}
use ofs_convert_rs.Memory.{Memory, update}

-- What the serializer changes: the shared allocator and the clusters.
pub record Copying : Type 0 where
  pub allocator : Allocator
  pub memory : Memory

abbrev pub push_front :
    Range → List Range × Range × Copying → Outcome (List Range × Range × Copying)
push_front r (rs, d, s) = ok (r ∷ rs, d, s)

-- `advance_by` and its `expect`.
abbrev pub advance_by : Range → ℕ → Outcome Range
advance_by d n = assert (leb n (len d)) >> ok (record d { start = d.start + n })

module _ (fs : FatFs) where
  -- The `for` loop over `allocated.iter_mut().zip(iter)`, with `n` new clusters left from `new` on.
  -- `cluster_mut` panics at a cluster that the allocator has no address for, `copy_from_slice` where the
  -- lengths differ. A data cluster is the cluster at the same distance from the first data cluster.
  unfoldable pub zip_copy : Allocator → ℕ → ℕ → Range → Memory → Outcome (Range × Memory)
  unfolding data_cluster cluster_start_byte
  zip_copy a zero new data_clusters m = ok (data_clusters, m)
  zip_copy a (suc n) new data_clusters m =
      let rest =
        zip_copy a n (suc new) (record data_clusters { start = suc data_clusters.start })
          (update m new (m (first_cluster fs.boot_sector + data_clusters.start))) in
      if ltb data_clusters.start data_clusters.end
      then data_cluster fs data_clusters.start
        >> (unwrap (cluster_start_byte a new) >>= λ _.
            assert (a.cluster_size == cluster_size fs.boot_sector) >> rest)
      else ok (data_clusters, m)

  -- The `while` loop. Each round allocates a cluster at least.
  unfoldable pub copy_loop : ℕ → Range → ℕ → Copying → Outcome (List Range × Range × Copying)
  unfolding zip_copy
  copy_loop fuel data_clusters zero s = ok ([], data_clusters, s)
  copy_loop zero data_clusters (suc n) s = stuck
  copy_loop (suc fuel) data_clusters (suc n) s = allocate s.allocator (suc n) >>= λ (allocated, a).
      zip_copy a (len allocated) allocated.start data_clusters s.memory >>= λ (rest, m).
      copy_loop fuel rest (suc n - len allocated) (record { allocator = a; memory = m })
      >>= push_front allocated

  unfoldable pub copy_data_to_new_clusters :
      Range → ℕ → Copying → Outcome (List Range × Range × Copying)
  unfolding copy_loop
  copy_data_to_new_clusters data_clusters n s = copy_loop n data_clusters n s

  -- What one fragment of a range becomes.
  unfoldable pub place_fragment :
      Range → Range × Bool → Copying → Outcome (List Range × Range × Copying)
  unfolding copy_data_to_new_clusters
  place_fragment d (fragment, true) s =
      copy_data_to_new_clusters d (fragment.end - fragment.start) s
  place_fragment d (fragment, false) s =
      advance_by d (len fragment) >>= λ d'. ok (fragment ∷ [], d', s)

  unfoldable pub place_fragments :
      Range → List (Range × Bool) → Copying → Outcome (List Range × Copying)
  unfolding place_fragment
  place_fragments d [] s = ok ([], s)
  place_fragments d (f ∷ fs) s = place_fragment d f s >>= λ (rs, d', s').
      place_fragments d' fs s' >>= λ (rs', s''). ok (rs ++ rs', s'')

  -- One round of the loop over the file's ranges.
  unfoldable pub place_range : Ranges → RangeInclusive → Copying → Outcome (List Range × Copying)
  unfolding place_fragments cluster_from_data_cluster
  place_range forbidden r s = cluster_from_data_cluster fs.boot_sector r.first >>= λ start.
      cluster_from_data_cluster fs.boot_sector r.last >>= λ last.
      split_overlapping forbidden (record { start = start; end = add32 last 1 }) >>= λ fragments.
      place_fragments (record { start = r.first; end = suc r.last }) fragments s

  -- The data ranges of the file that `make_file_non_overlapping` returns.
  unfoldable pub make_file_non_overlapping :
      Ranges → List RangeInclusive → Copying → Outcome (List Range × Copying)
  unfolding place_range
  make_file_non_overlapping forbidden [] s = ok ([], s)
  make_file_non_overlapping forbidden (r ∷ rs) s = place_range forbidden r s >>= λ (ranges, s').
      make_file_non_overlapping forbidden rs s' >>= λ (more, s''). ok (ranges ++ more, s'')
