-- ===== src/Allocator/Split.antt =====
-- `split_into_reader` parts the clusters at the cursor.
use ofs_convert_rs.Common.{ℕ, ◌*◌, ◌≤◌, ◌<◌, ◌≡◌, none, some, arith, ltb, if◌then◌else◌}
use ofs_convert_rs.Ranges.{usize_max}
use ofs_convert_rs.Allocator.{Allocator, cluster_start_byte, reader_start_byte, split_into_reader}
use ofs_convert_rs.Allocator.Valid.{IsValid}

-- After the split of a valid allocator whose clusters lie in the address space, each index that was
-- valid before is accessible through exactly one of the two, at the byte offset that it had before:
-- through the reader if it is before the cursor, else through the new allocator.
pub split_into_reader-parts :
    (a : Allocator) (i : ℕ)
    → IsValid a
    → a.valid_cluster_indices.start ≤ i
    → i < a.valid_cluster_indices.end
    → a.cluster_size * a.valid_cluster_indices.end ≤ usize_max
    → (cluster_start_byte a i ≡ some (a.cluster_size * i))
      × (reader_start_byte (split_into_reader a).0 i
          ≡ (if ltb i a.cursor then some (a.cluster_size * i) else none))
      × (cluster_start_byte (split_into_reader a).1 i
          ≡ (if ltb i a.cursor then none else some (a.cluster_size * i)))
unfolding split_into_reader cluster_start_byte reader_start_byte
split_into_reader-parts a i v h k fits =
    let small : a.cluster_size * i ≤ usize_max = grind arith in
    (ground arith, ground arith, ground arith)

-- The new allocator is valid, so that it never hands out a cluster that the old one did.
pub split_into_reader-IsValid : (a : Allocator) → IsValid a → IsValid (split_into_reader a).1
unfolding split_into_reader
split_into_reader-IsValid a v = record {
  normal = v.normal;
  inside = v.inside;
  started = omega arith;
  not_past = v.not_past;
  fits = v.fits;
}
